-- ===== src/Compaction/Checkpoint/Sorting.antt =====
-- Sorting the ranges does not change how many of them hold a sequence number.
use phenix_ai.Prelude.{
  ℕ, ◌≤◌, ◌≡◌, refl, Bool, ◌&&◌, List, [], ◌∷◌, leb, arith, length, retain, All,
}
use phenix_ai.Compaction.Checkpoint.{insert_range, sort_ranges}

-- How many of the ranges hold the sequence number.
abbrev pub holds : ℕ → ℕ × ℕ → Bool
holds n p = leb p.0 n && leb n p.1

abbrev pub count : ℕ → List (ℕ × ℕ) → ℕ
count n ps = length (retain (holds n) ps)

insert_range-count :
    (n : ℕ) (p : ℕ × ℕ) (ps : List (ℕ × ℕ)) → count n (insert_range p ps) ≡ count n (p ∷ ps)
unfolding insert_range
insert_range-count n p [] = refl
insert_range-count n p (q ∷ qs) = ground (arith, insert_range-count n p qs)

pub sort_ranges-count : (n : ℕ) (ps : List (ℕ × ℕ)) → count n (sort_ranges ps) ≡ count n ps
unfolding sort_ranges
sort_ranges-count n [] = refl
sort_ranges-count n (p ∷ ps) =
    ground (arith, insert_range-count n p (sort_ranges ps), sort_ranges-count n ps)

abbrev pub IsRange : ℕ × ℕ → Type 0
IsRange p = p.0 ≤ p.1

insert_range-All :
    (p : ℕ × ℕ) (ps : List (ℕ × ℕ)) → IsRange p → All IsRange ps → All IsRange (insert_range p ps)
unfolding insert_range
insert_range-All p [] h a = (h, tt)
insert_range-All p (q ∷ qs) h a = ground (arith, insert_range-All p qs h a.1)

pub sort_ranges-All : (ps : List (ℕ × ℕ)) → All IsRange ps → All IsRange (sort_ranges ps)
unfolding sort_ranges
sort_ranges-All [] a = tt
sort_ranges-All (p ∷ ps) a = insert_range-All p (sort_ranges ps) a.0 (sort_ranges-All ps a.1)
