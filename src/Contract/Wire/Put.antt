-- ===== src/Contract/Wire/Put.antt =====
-- The encoder writes the wire form of every value within the limits.
pub mod Inverse
use mathlib.Core.List.{append_assoc, append-nil}
use phenix_ai.Prelude.{
  ℕ, ◌+◌, ◌^◌, ◌≤◌, ◌<◌, ◌≡◌, ap, ◌∙◌, true, false, List, [], ◌∷◌, ◌++◌, length, leb, arith,
  length-append,
}
use phenix_ai.Contract.Failure.{Failure, Result, ok, ◌>>=◌, guard, invalid, >>=-eq-ok}
use phenix_ai.Contract.Value.{
  Value, Values, Entries, null, ref, bool, i64, u64, string, bytes, list, map, nil, cons, end,
  entry, max_bytes, max_depth, max_count, length_values, length_entries,
}
use phenix_ai.Contract.Wire.{put, put_values, put_entries, put_length, bounded, enter}
use phenix_ai.Contract.Wire.Bytes.{to_be_bytes}
use phenix_ai.Contract.Wire.Spec.{wire, wire_values, wire_entries, Fits, FitsValues, FitsEntries}

guard-le : (n m : ℕ) (e : Failure) → n ≤ m → guard (leb n m) e ≡ ok tt
guard-le n m e h = ground arith

pub frame : (out b x : List ℕ) (t : ℕ) → ((out ++ t ∷ []) ++ b) ++ x ≡ out ++ t ∷ (b ++ x)
frame out b x t = simp append_assoc

bounded-ok : (out : List ℕ) → length out ≤ max_bytes → bounded out ≡ ok out
unfolding bounded
bounded-ok out h = ground arith

enter-ok : (depth : ℕ) → depth ≤ max_depth → enter depth ≡ ok tt
unfolding enter
enter-ok depth h = ground arith

put_length-ok : (out : List ℕ) (n : ℕ) → n < 2 ^ 32 → put_length out n ≡ ok (out ++ to_be_bytes 4 n)
unfolding put_length
put_length-ok out n h = ground arith

-- A prefix of what fits, fits.
fits_prefix :
    (out a b : List ℕ) → length (out ++ (a ++ b)) ≤ max_bytes → length (out ++ a) ≤ max_bytes
fits_prefix out a b h =
    omega (arith, length-append out (a ++ b), length-append a b, length-append out a)

mutual
  unfolding put wire Fits

  pub put-eq-wire :
      (v : Value) (out : List ℕ) (depth : ℕ)
      → Fits v depth
      → length (out ++ wire v) ≤ max_bytes
      → put v out depth ≡ ok (out ++ wire v)
  put-eq-wire null out depth f h = rw (enter-ok depth f, bounded-ok _ h)
  put-eq-wire (ref r) out depth f h = rw (enter-ok depth f, bounded-ok _ h)
  put-eq-wire (bool false) out depth f h = rw (enter-ok depth f, bounded-ok _ h)
  put-eq-wire (bool true) out depth f h = rw (enter-ok depth f, bounded-ok _ h)
  put-eq-wire (i64 x) out depth f h = rw (enter-ok depth f, bounded-ok _ h)
  put-eq-wire (u64 x) out depth f h = rw (enter-ok depth f, bounded-ok _ h)
  put-eq-wire (string x) out depth f h = rw (
    enter-ok depth f.0,
    put_length-ok (out ++ 5 ∷ []) _ f.1,
    frame out (to_be_bytes 4 (length x)) x 5,
    bounded-ok _ h,
  )
  put-eq-wire (bytes x) out depth f h = rw (
    enter-ok depth f.0,
    put_length-ok (out ++ 6 ∷ []) _ f.1,
    frame out (to_be_bytes 4 (length x)) x 6,
    bounded-ok _ h,
  )
  put-eq-wire (list vs) out depth f h =
      let e = frame out (to_be_bytes 4 (length_values vs)) (wire_values vs) 7 in
      rw (
        enter-ok depth f.0,
        guard-le _ _ _ f.1,
        put_length-ok (out ++ 7 ∷ []) (length_values vs) (omega arith),
        put_values-eq-wire vs ((out ++ 7 ∷ []) ++ to_be_bytes 4 (length_values vs)) (depth + 1) f.2
            (rw e h),
        e,
        bounded-ok _ h,
      )
  put-eq-wire (map es) out depth f h =
      let e = frame out (to_be_bytes 4 (length_entries es)) (wire_entries es) 8 in
      rw (
        enter-ok depth f.0,
        guard-le _ _ _ f.1,
        put_length-ok (out ++ 8 ∷ []) (length_entries es) (omega arith),
        put_entries-eq-wire es ((out ++ 8 ∷ []) ++ to_be_bytes 4 (length_entries es)) (depth + 1)
            f.2 (rw e h),
        e,
        bounded-ok _ h,
      )

  put_values-eq-wire :
      (vs : Values) (out : List ℕ) (depth : ℕ)
      → FitsValues vs depth
      → length (out ++ wire_values vs) ≤ max_bytes
      → put_values vs out depth ≡ ok (out ++ wire_values vs)
  put_values-eq-wire nil out depth f h = rw append-nil
  put_values-eq-wire (cons v vs) out depth f h =
      let e = append_assoc out (wire v) (wire_values vs) in
      rw (
        put-eq-wire v out depth f.0 (fits_prefix out (wire v) (wire_values vs) h),
        put_values-eq-wire vs (out ++ wire v) depth f.1 (rw e h),
        e,
      )

  put_entries-eq-wire :
      (es : Entries) (out : List ℕ) (depth : ℕ)
      → FitsEntries es depth
      → length (out ++ wire_entries es) ≤ max_bytes
      → put_entries es out depth ≡ ok (out ++ wire_entries es)
  put_entries-eq-wire end out depth f h = rw append-nil
  put_entries-eq-wire (entry k v es) out depth f h =
      let n = to_be_bytes 4 (length k) in
      let whole : List ℕ = (out ++ n) ++ k in
      let e : whole ++ (wire v ++ wire_entries es)
          ≡ out ++ (n ++ (k ++ (wire v ++ wire_entries es))) =
        simp append_assoc in
      rw (
        put_length-ok out _ f.0,
        put-eq-wire v whole depth f.1 (fits_prefix whole (wire v) (wire_entries es) (rw e h)),
        put_entries-eq-wire es (whole ++ wire v) depth f.2
            (rw (append_assoc whole (wire v) (wire_entries es), e) h),
        append_assoc whole (wire v) (wire_entries es),
        e,
      )
