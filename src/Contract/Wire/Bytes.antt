-- ===== src/Contract/Wire/Bytes.antt =====
-- Big-endian words, as `to_be_bytes` and `from_be_bytes` read and write them.
use native.Mathlib.Nat.{pow-suc}
use phenix_ai.Prelude.{
  ℕ, zero, suc, ◌+◌, ◌*◌, ◌/◌, ◌%◌, ◌^◌, ◌<◌, ◌≡◌, refl, ◌∙◌, List, [], ◌∷◌, ◌++◌, arith, length,
  All, length-append,
}

unfoldable pub to_be_bytes : ℕ → ℕ → List ℕ
to_be_bytes zero n = []
to_be_bytes (suc k) n = to_be_bytes k (n / 256) ++ (n % 256) ∷ []

-- The word so far, and the bytes that follow.
unfoldable pub from_be_acc : ℕ → List ℕ → ℕ
from_be_acc acc [] = acc
from_be_acc acc (b ∷ bs) = from_be_acc (acc * 256 + b) bs

unfoldable pub from_be_bytes : List ℕ → ℕ
unfolding from_be_acc
from_be_bytes = from_be_acc 0

pub length-to_be_bytes : (k n : ℕ) → length (to_be_bytes k n) ≡ k
unfolding to_be_bytes
length-to_be_bytes zero n = refl
length-to_be_bytes (suc k) n = omega (
  arith,
  length-append (to_be_bytes k (n / 256)) ((n % 256) ∷ []),
  length-to_be_bytes k (n / 256),
)

from_be_acc-snoc :
    (acc b : ℕ) (bs : List ℕ) → from_be_acc acc (bs ++ b ∷ []) ≡ from_be_acc acc bs * 256 + b
unfolding from_be_acc
from_be_acc-snoc acc b [] = refl
from_be_acc-snoc acc b (x ∷ bs) = from_be_acc-snoc (acc * 256 + x) b bs

pub from_be_bytes-to_be_bytes : (k n : ℕ) → n < 256 ^ k → from_be_bytes (to_be_bytes k n) ≡ n
unfolding from_be_bytes to_be_bytes
from_be_bytes-to_be_bytes zero n h = omega arith
from_be_bytes-to_be_bytes (suc k) n h =
    let q : n / 256 < 256 ^ k = omega (arith, pow-suc 256 k) in
    from_be_acc-snoc 0 (n % 256) (to_be_bytes k (n / 256))
    ∙ omega (arith, from_be_bytes-to_be_bytes k (n / 256) q)

from_be_bytes-snoc :
    (b : ℕ) (bs : List ℕ) → from_be_bytes (bs ++ b ∷ []) ≡ from_be_bytes bs * 256 + b
unfolding from_be_bytes
from_be_bytes-snoc = from_be_acc-snoc 0

pub to_be_bytes-IsBytes : (k n : ℕ) → All (λ b. b < 256) (to_be_bytes k n)
unfolding to_be_bytes
to_be_bytes-IsBytes zero n = tt
to_be_bytes-IsBytes (suc k) n = snoc (to_be_bytes k (n / 256)) (to_be_bytes-IsBytes k (n / 256))
  where
    snoc : (bs : List ℕ) → All (λ b. b < 256) bs → All (λ b. b < 256) (bs ++ (n % 256) ∷ [])
    snoc [] a = (omega arith, tt)
    snoc (b ∷ bs) a = (a.0, snoc bs a.1)

-- The last byte of a list that is not empty.
data Snoc : List ℕ → Type 0 where
  snoc_view : (bs : List ℕ) (b : ℕ) → Snoc (bs ++ b ∷ [])

to_Snoc : (x : ℕ) (xs : List ℕ) → Snoc (x ∷ xs)
to_Snoc x [] = snoc_view [] x
to_Snoc x (y ∷ ys) = elim (to_Snoc y ys) as (λ l _. Snoc (x ∷ l)) [
  | snoc_view bs b ↦ snoc_view (x ∷ bs) b
]

All-snoc :
    (bs : List ℕ) (b : ℕ) → All (λ b. b < 256) (bs ++ b ∷ []) → All (λ b. b < 256) bs × (b < 256)
All-snoc [] b a = (tt, a.0)
All-snoc (x ∷ bs) b a = let (r, l) = All-snoc bs b a.1 in ((a.0, r), l)

Word : ℕ → List ℕ → Type 0
Word k bs = (to_be_bytes k (from_be_bytes bs) ≡ bs) × (from_be_bytes bs < 256 ^ k)

Snoc-Word :
    (k : ℕ) (l : List ℕ)
    → Snoc l
    → length l ≡ suc k
    → All (λ b. b < 256) l
    → ((bs : List ℕ) → length bs ≡ k → All (λ b. b < 256) bs → Word k bs)
    → Word (suc k) l
unfolding Word to_be_bytes
Snoc-Word k l (snoc_view bs b) e a ih =
    let (small, last) = All-snoc bs b a in
    let (same, bound) = ih bs (omega (arith, length-append bs (b ∷ []))) small in
    let v = from_be_bytes-snoc b bs in
    let q : from_be_bytes (bs ++ b ∷ []) / 256 ≡ from_be_bytes bs = omega (arith, v) in
    let m : from_be_bytes (bs ++ b ∷ []) % 256 ≡ b = omega (arith, v) in
    (rw (q, m, same), omega (arith, v, pow-suc 256 k))

bytes-Word : (k : ℕ) (bs : List ℕ) → length bs ≡ k → All (λ b. b < 256) bs → Word k bs
unfolding Word to_be_bytes from_be_bytes
bytes-Word zero [] e a = (refl, omega arith)
bytes-Word zero (x ∷ bs) e a = absurd (omega arith)
bytes-Word (suc k) [] e a = absurd (omega arith)
bytes-Word (suc k) (x ∷ bs) e a = Snoc-Word k (x ∷ bs) (to_Snoc x bs) e a (bytes-Word k)

pub to_be_bytes-from_be_bytes :
    (k : ℕ) (bs : List ℕ)
    → length bs ≡ k
    → All (λ b. b < 256) bs
    → to_be_bytes k (from_be_bytes bs) ≡ bs
unfolding Word
to_be_bytes-from_be_bytes k bs e a = (bytes-Word k bs e a).0

pub from_be_bytes-lt :
    (k : ℕ) (bs : List ℕ) → length bs ≡ k → All (λ b. b < 256) bs → from_be_bytes bs < 256 ^ k
unfolding Word
from_be_bytes-lt k bs e a = (bytes-Word k bs e a).1
