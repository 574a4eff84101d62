-- ===== src/Basic/Examples/Snapshots.antt =====
-- A codec of session snapshots, for the tests.
use phenix_ai.Prelude.{ℕ, zero, suc, ◌≡◌, refl, sym, ap, ◌∙◌, List, [], ◌∷◌, length}
use phenix_ai.Prelude.Order.{Text}
use phenix_ai.Contract.Failure.{Failure, Result, ok, ok_injective}
use phenix_ai.Basic.Storage.{RoundTrips}
use phenix_ai.Basic.Session.{
  ToolCall, ToolOutcome, Message, user, assistant, tool_result, RunStatus, idle, running, completed,
  run_failed, run_cancelled, run_indeterminate, SessionSnapshot,
}
use phenix_ai.Basic.Examples.Codec.{put, got, take-append, drop-append}

unfoldable pub put_call : ToolCall → Text → Text
unfolding put
put_call c rest = put c.id (put c.tool (put c.arguments rest))

abbrev pub got_call : Text → ToolCall × Text
got_call xs =
    let (id, xs1) = got xs in
    let (tool, xs2) = got xs1 in
    let (arguments, rest) = got xs2 in
    (record { id = id; tool = tool; arguments = arguments }, rest)

got_call-put_call : (c : ToolCall) (rest : Text) → got_call (put_call c rest) ≡ (c, rest)
unfolding put_call
got_call-put_call c rest =
    rw
      (
        take-append c.id,
        drop-append c.id,
        take-append c.tool,
        drop-append c.tool,
        take-append c.arguments,
        drop-append c.arguments,
      )
      refl

abbrev pub put_all : {A : Type 0} → (A → Text → Text) → List A → Text → Text
put_all put_one [] rest = rest
put_all put_one (a ∷ items) rest = put_one a (put_all put_one items rest)

abbrev pub got_all : {A : Type 0} → (Text → A × Text) → ℕ → Text → List A × Text
got_all got_one zero xs = ([], xs)
got_all got_one (suc n) xs =
    let (a, xs1) = got_one xs in let (items, rest) = got_all got_one n xs1 in (a ∷ items, rest)

module _ {A : Type 0} (put_one : A → Text → Text) (got_one : Text → A × Text)
    (back : (a : A) (rest : Text) → got_one (put_one a rest) ≡ (a, rest)) where
  pub got_all-put_all :
      (items : List A) (rest : Text)
      → got_all got_one (length items) (put_all put_one items rest) ≡ (items, rest)
  got_all-put_all [] rest = refl
  got_all-put_all (a ∷ items) rest =
      rw (back a (put_all put_one items rest), got_all-put_all items rest) refl

unfoldable pub put_calls : List ToolCall → Text → Text
unfolding put_call
put_calls calls rest = length calls ∷ put_all put_call calls rest

abbrev pub got_calls : Text → List ToolCall × Text
got_calls [] = ([], [])
got_calls (n ∷ xs) = got_all got_call n xs

got_calls-put_calls :
    (calls : List ToolCall) (rest : Text) → got_calls (put_calls calls rest) ≡ (calls, rest)
unfolding put_calls
got_calls-put_calls calls rest = got_all-put_all put_call got_call got_call-put_call calls rest

unfoldable pub put_message : Message → Text → Text
unfolding put put_calls
put_message (user t) rest = 0 ∷ put t rest
put_message (assistant t calls) rest = 1 ∷ put t (put_calls calls rest)
put_message (tool_result id (ToolOutcome.succeeded t)) rest = 2 ∷ put id (put t rest)
put_message (tool_result id (ToolOutcome.failed t r)) rest = 3 ∷ put id (put t (put r rest))

abbrev pub message_from : ℕ → Text → Message × Text
message_from zero xs = let (t, rest) = got xs in (user t, rest)
message_from (suc zero) xs =
    let (t, xs1) = got xs in let (calls, rest) = got_calls xs1 in (assistant t calls, rest)
message_from (suc (suc zero)) xs =
    let (id, xs1) = got xs in
    let (t, rest) = got xs1 in (tool_result id (ToolOutcome.succeeded t), rest)
message_from (suc (suc (suc n))) xs =
    let (id, xs1) = got xs in
    let (t, xs2) = got xs1 in
    let (r, rest) = got xs2 in (tool_result id (ToolOutcome.failed t r), rest)

abbrev pub got_message : Text → Message × Text
got_message [] = (user [], [])
got_message (n ∷ xs) = message_from n xs

got_message-put_message : (m : Message) (rest : Text) → got_message (put_message m rest) ≡ (m, rest)
unfolding put_message put
got_message-put_message (user t) rest = rw (take-append t, drop-append t) refl
got_message-put_message (assistant t calls) rest =
    rw (take-append t, drop-append t, got_calls-put_calls calls rest) refl
got_message-put_message (tool_result id (ToolOutcome.succeeded t)) rest =
    rw (take-append id, drop-append id, take-append t, drop-append t) refl
got_message-put_message (tool_result id (ToolOutcome.failed t r)) rest =
    rw (take-append id, drop-append id, take-append t, drop-append t, take-append r, drop-append r)
      refl

abbrev pub status_number : RunStatus → ℕ
status_number idle = 0
status_number running = 1
status_number completed = 2
status_number run_failed = 3
status_number run_cancelled = 4
status_number run_indeterminate = 5

abbrev pub status_of : ℕ → RunStatus
status_of zero = idle
status_of (suc zero) = running
status_of (suc (suc zero)) = completed
status_of (suc (suc (suc zero))) = run_failed
status_of (suc (suc (suc (suc zero)))) = run_cancelled
status_of (suc (suc (suc (suc (suc n))))) = run_indeterminate

status_of-status_number : (s : RunStatus) → status_of (status_number s) ≡ s
status_of-status_number idle = refl
status_of-status_number running = refl
status_of-status_number completed = refl
status_of-status_number run_failed = refl
status_of-status_number run_cancelled = refl
status_of-status_number run_indeterminate = refl

unfoldable pub put_snapshot : SessionSnapshot → Text
unfolding put put_calls put_message
put_snapshot x =
    status_number x.status
    ∷ x.checkpoint
    ∷ x.revision
    ∷ x.usage.input_tokens
    ∷ x.usage.output_tokens
    ∷ length x.history
    ∷ put x.session (put x.run (put_calls x.pending (put_all put_message x.history [])))

abbrev pub snapshot_from : ℕ → ℕ → ℕ → ℕ → ℕ → ℕ → Text → SessionSnapshot
snapshot_from status checkpoint revision inputs outputs n xs =
    let (session, xs1) = got xs in
    let (run, xs2) = got xs1 in
    let (pending, xs3) = got_calls xs2 in
    let (history, rest) = got_all got_message n xs3 in
    record {
      session = session;
      history = history;
      status = status_of status;
      run = run;
      checkpoint = checkpoint;
      revision = revision;
      pending = pending;
      usage = record { input_tokens = inputs; output_tokens = outputs };
    }

abbrev pub got_snapshot : Text → SessionSnapshot
got_snapshot (a ∷ b ∷ c ∷ d ∷ e ∷ n ∷ xs) = snapshot_from a b c d e n xs
got_snapshot _ = snapshot_from 0 0 0 0 0 0 []

unfoldable pub encode : SessionSnapshot → Result Failure Text
encode x = ok (put_snapshot x)

unfoldable pub decode : Text → Result Failure SessionSnapshot
decode xs = ok (got_snapshot xs)

got_snapshot-put_snapshot : (x : SessionSnapshot) → got_snapshot (put_snapshot x) ≡ x
unfolding put_snapshot
got_snapshot-put_snapshot x =
    rw
      (
        take-append x.session,
        drop-append x.session,
        take-append x.run,
        drop-append x.run,
        got_calls-put_calls x.pending,
        got_all-put_all put_message got_message got_message-put_message x.history [],
        status_of-status_number x.status,
      )
      refl

pub snapshot_codec-RoundTrips : RoundTrips encode decode
unfolding encode decode
snapshot_codec-RoundTrips x content h =
    ap decode (sym (ok_injective h)) ∙ ap (λ y. ok y) (got_snapshot-put_snapshot x)
