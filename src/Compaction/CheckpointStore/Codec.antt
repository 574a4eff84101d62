-- ===== src/Compaction/CheckpointStore/Codec.antt =====
-- A codec of ledgers, for the tests.
use phenix_ai.Prelude.{
  ℕ, zero, suc, ◌≡◌, refl, sym, ap, ◌∙◌, Option, none, some, List, [], ◌∷◌, length,
}
use phenix_ai.Prelude.Order.{Text}
use phenix_ai.Contract.Failure.{Failure, Result, ok, ok_injective}
use phenix_ai.Basic.Storage.{RoundTrips}
use phenix_ai.Basic.Examples.Codec.{put, got, take-append, drop-append}
use phenix_ai.Basic.Examples.Snapshots.{put_all, got_all, got_all-put_all}
use phenix_ai.Compaction.Checkpoint.{
  EvidenceScopeKind, session, project, user, shared, SourceRef, JournalSpan, CompactionCheckpoint,
}

abbrev pub kind_number : EvidenceScopeKind → ℕ
kind_number session = 0
kind_number project = 1
kind_number user = 2
kind_number shared = 3

abbrev pub kind_of : ℕ → EvidenceScopeKind
kind_of zero = session
kind_of (suc zero) = project
kind_of (suc (suc zero)) = user
kind_of (suc (suc (suc n))) = shared

kind_of-kind_number : (k : EvidenceScopeKind) → kind_of (kind_number k) ≡ k
kind_of-kind_number session = refl
kind_of-kind_number project = refl
kind_of-kind_number user = refl
kind_of-kind_number shared = refl

unfoldable pub put_source : SourceRef → Text → Text
unfolding put
put_source r rest =
    r.range_start
    ∷ r.range_end
    ∷ kind_number r.scope.kind
    ∷ put r.owner (put r.resource (put r.revision (put r.digest_sha256 (put r.scope.id rest))))

abbrev pub source_from : ℕ → ℕ → ℕ → Text → SourceRef × Text
source_from a b k xs =
    let (owner, xs1) = got xs in
    let (resource, xs2) = got xs1 in
    let (revision, xs3) = got xs2 in
    let (digest, xs4) = got xs3 in
    let (id, rest) = got xs4 in
    (
      record {
        owner = owner;
        resource = resource;
        revision = revision;
        digest_sha256 = digest;
        range_start = a;
        range_end = b;
        scope = record { kind = kind_of k; id = id };
      },
      rest,
    )

abbrev pub got_source : Text → SourceRef × Text
got_source (a ∷ b ∷ k ∷ xs) = source_from a b k xs
got_source _ = source_from 0 0 0 []

got_source-put_source : (r : SourceRef) (rest : Text) → got_source (put_source r rest) ≡ (r, rest)
unfolding put_source
got_source-put_source r rest =
    rw
      (
        take-append r.owner,
        drop-append r.owner,
        take-append r.resource,
        drop-append r.resource,
        take-append r.revision,
        drop-append r.revision,
        take-append r.digest_sha256,
        drop-append r.digest_sha256,
        take-append r.scope.id,
        drop-append r.scope.id,
        kind_of-kind_number r.scope.kind,
      )
      refl

unfoldable pub put_span : JournalSpan → Text → Text
unfolding put
put_span p rest = p.first_sequence ∷ p.last_sequence ∷ put p.digest_sha256 rest

abbrev pub span_from : ℕ → ℕ → Text → JournalSpan × Text
span_from a b xs =
    let (digest, rest) = got xs in
    (record { first_sequence = a; last_sequence = b; digest_sha256 = digest }, rest)

abbrev pub got_span : Text → JournalSpan × Text
got_span (a ∷ b ∷ xs) = span_from a b xs
got_span _ = span_from 0 0 []

got_span-put_span : (p : JournalSpan) (rest : Text) → got_span (put_span p rest) ≡ (p, rest)
unfolding put_span
got_span-put_span p rest = rw (take-append p.digest_sha256, drop-append p.digest_sha256) refl

unfoldable pub put_option : Option Text → Text → Text
unfolding put
put_option none rest = 0 ∷ rest
put_option (some t) rest = 1 ∷ put t rest

abbrev pub option_from : ℕ → Text → Option Text × Text
option_from zero xs = (none, xs)
option_from (suc n) xs = let (t, rest) = got xs in (some t, rest)

abbrev pub got_option : Text → Option Text × Text
got_option [] = (none, [])
got_option (n ∷ xs) = option_from n xs

got_option-put_option : (o : Option Text) (rest : Text) → got_option (put_option o rest) ≡ (o, rest)
unfolding put_option put
got_option-put_option none rest = refl
got_option-put_option (some t) rest = rw (take-append t, drop-append t) refl

-- A list behind its length.
abbrev pub put_list : {A : Type 0} → (A → Text → Text) → List A → Text → Text
put_list put_one items rest = length items ∷ put_all put_one items rest

abbrev pub got_list : {A : Type 0} → (Text → A × Text) → Text → List A × Text
got_list got_one [] = ([], [])
got_list got_one (n ∷ xs) = got_all got_one n xs

got_list-put_list :
    {A : Type 0} (put_one : A → Text → Text) (got_one : Text → A × Text)
    → ((a : A) (rest : Text) → got_one (put_one a rest) ≡ (a, rest))
    → (items : List A) (rest : Text)
    → got_list got_one (put_list put_one items rest) ≡ (items, rest)
got_list-put_list put_one got_one back items rest = got_all-put_all put_one got_one back items rest

unfoldable pub put_spans : List JournalSpan → Text → Text
put_spans = put_list put_span

abbrev pub got_spans : Text → List JournalSpan × Text
got_spans = got_list got_span

got_spans-put_spans :
    (ps : List JournalSpan) (rest : Text) → got_spans (put_spans ps rest) ≡ (ps, rest)
unfolding put_spans
got_spans-put_spans ps rest = got_list-put_list put_span got_span got_span-put_span ps rest

unfoldable pub put_sources : List SourceRef → Text → Text
put_sources = put_list put_source

abbrev pub got_sources : Text → List SourceRef × Text
got_sources = got_list got_source

got_sources-put_sources :
    (rs : List SourceRef) (rest : Text) → got_sources (put_sources rs rest) ≡ (rs, rest)
unfolding put_sources
got_sources-put_sources rs rest =
    got_list-put_list put_source got_source got_source-put_source rs rest

unfoldable pub write_checkpoint : CompactionCheckpoint → Text → Text
unfolding put
write_checkpoint c rest =
    c.revision
    ∷ c.policy_version
    ∷ put c.id (
        put c.session (
          put c.summary (
            put c.policy (
              put_option c.parent_checkpoint (
                put_option c.model (
                  put_span c.input (
                    put_spans c.summarized (
                      put_spans c.retained
                        (put_spans c.excluded (put_sources c.hydration_sources rest))))))))))

abbrev pub checkpoint_from : ℕ → ℕ → Text → CompactionCheckpoint × Text
checkpoint_from n m xs =
    let (id, xs1) = got xs in
    let (owner, xs2) = got xs1 in
    let (summary, xs3) = got xs2 in
    let (policy, xs4) = got xs3 in
    let (parent, xs5) = got_option xs4 in
    let (model, xs6) = got_option xs5 in
    let (input, xs7) = got_span xs6 in
    let (summarized, xs8) = got_spans xs7 in
    let (retained, xs9) = got_spans xs8 in
    let (excluded, xs10) = got_spans xs9 in
    let (sources, rest) = got_sources xs10 in
    (
      record {
        id = id;
        session = owner;
        revision = n;
        parent_checkpoint = parent;
        input = input;
        summarized = summarized;
        retained = retained;
        excluded = excluded;
        summary = summary;
        policy = policy;
        policy_version = m;
        model = model;
        hydration_sources = sources;
      },
      rest,
    )

abbrev pub got_checkpoint : Text → CompactionCheckpoint × Text
got_checkpoint (n ∷ m ∷ xs) = checkpoint_from n m xs
got_checkpoint _ = checkpoint_from 0 0 []

got_checkpoint-write_checkpoint :
    (c : CompactionCheckpoint) (rest : Text) → got_checkpoint (write_checkpoint c rest) ≡ (c, rest)
unfolding write_checkpoint
got_checkpoint-write_checkpoint c rest =
    rw
      (
        take-append c.id,
        drop-append c.id,
        take-append c.session,
        drop-append c.session,
        take-append c.summary,
        drop-append c.summary,
        take-append c.policy,
        drop-append c.policy,
        got_option-put_option c.parent_checkpoint,
        got_option-put_option c.model,
        got_span-put_span c.input,
        got_spans-put_spans c.summarized,
        got_spans-put_spans c.retained,
        got_spans-put_spans c.excluded,
        got_sources-put_sources c.hydration_sources,
      )
      refl

abbrev pub got_ledger : Text → List CompactionCheckpoint × Text
got_ledger = got_list got_checkpoint

unfoldable pub put_ledger : List CompactionCheckpoint → Text
put_ledger history = put_list write_checkpoint history []

unfoldable pub encode : List CompactionCheckpoint → Result Failure Text
unfolding put_ledger
encode history = ok (put_ledger history)

unfoldable pub decode : Text → Result Failure (List CompactionCheckpoint)
decode xs = ok (got_ledger xs).0

pub ledger_codec-RoundTrips : RoundTrips encode decode
unfolding encode decode put_ledger
ledger_codec-RoundTrips history content h =
    ap decode (sym (ok_injective h))
    ∙ ap (λ p. ok p.0)
        (got_list-put_list write_checkpoint got_checkpoint got_checkpoint-write_checkpoint history
          [])
