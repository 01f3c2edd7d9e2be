-- ===== src/Ranges/Generate.antt =====
-- p_generateRange: the ranges hold exactly the given numbers, in normal form.
use roc_im_sdk.Prelude.{
  ◌≡◌, ◌⊎◌, List, [], ◌∷◌, ℤ, pos, ◌+ℤ◌, ◌≤ℤ◌, ◌<ℤ◌, ◌↔◌, In, arith, +ℤ_parts, eq_of_parts,
}
use roc_im_sdk.Ranges.{insert_seq, sort_seqs, generate_loop, generate_sorted, generate_range}
use roc_im_sdk.Ranges.Cover.{Within, Covers, IsNormal, IsNormalAfter}

abbrev IsSortedFrom : ℤ → List ℤ → Type 0
IsSortedFrom b [] = Unit {0}
IsSortedFrom b (x ∷ xs) = (b ≤ℤ x) × IsSortedFrom x xs

abbrev IsSorted : List ℤ → Type 0
IsSorted [] = Unit {0}
IsSorted (x ∷ xs) = IsSortedFrom x xs

insert_seq-IsSortedFrom :
    (b x : ℤ) (xs : List ℤ) → b ≤ℤ x → IsSortedFrom b xs → IsSortedFrom b (insert_seq x xs)
unfolding insert_seq
insert_seq-IsSortedFrom b x [] h s = (h, tt)
insert_seq-IsSortedFrom b x (y ∷ ys) h s = ground (arith, insert_seq-IsSortedFrom y x ys)

insert_seq-IsSorted : (x : ℤ) (xs : List ℤ) → IsSorted xs → IsSorted (insert_seq x xs)
unfolding insert_seq
insert_seq-IsSorted x [] s = tt
insert_seq-IsSorted x (y ∷ ys) s = ground (arith, insert_seq-IsSortedFrom y x ys)

sort_seqs-IsSorted : (xs : List ℤ) → IsSorted (sort_seqs xs)
unfolding sort_seqs
sort_seqs-IsSorted [] = tt
sort_seqs-IsSorted (x ∷ xs) = insert_seq-IsSorted x (sort_seqs xs) (sort_seqs-IsSorted xs)

In-insert_seq : (a x : ℤ) (xs : List ℤ) → In a (insert_seq x xs) ↔ ((a ≡ x) ⊎ In a xs)
unfolding insert_seq
In-insert_seq a x [] = (λ h. h, λ h. h)
In-insert_seq a x (y ∷ ys) = ground (arith, In-insert_seq a x ys)

In-sort_seqs : (a : ℤ) (xs : List ℤ) → In a (sort_seqs xs) ↔ In a xs
unfolding sort_seqs
In-sort_seqs a [] = (λ h. h, λ h. h)
In-sort_seqs a (x ∷ xs) = ground (arith, In-insert_seq a x (sort_seqs xs), In-sort_seqs a xs)

Covers-generate_loop :
    (a start end : ℤ) (xs : List ℤ)
    → start ≤ℤ end
    → IsSortedFrom end xs
    → Covers a (generate_loop start end xs) ↔ (Within a (start, end) ⊎ In a xs)
unfolding generate_loop
Covers-generate_loop a start end [] h s = ground arith
Covers-generate_loop a start end (x ∷ xs) h s = ground (
  arith,
  +ℤ_parts end (pos 1),
  eq_of_parts a x,
  eq_of_parts x end,
  Covers-generate_loop a start x xs,
  Covers-generate_loop a x x xs,
  Covers-generate_loop a start end xs,
)

generate_loop-IsNormalAfter :
    (b start end : ℤ) (xs : List ℤ)
    → b +ℤ pos 1 <ℤ start
    → start ≤ℤ end
    → IsSortedFrom end xs
    → IsNormalAfter b (generate_loop start end xs)
unfolding generate_loop
generate_loop-IsNormalAfter b start end [] h k s = (h, k, tt)
generate_loop-IsNormalAfter b start end (x ∷ xs) h k s = ground (
  arith,
  +ℤ_parts end (pos 1),
  generate_loop-IsNormalAfter b start x xs,
  generate_loop-IsNormalAfter end x x xs,
  generate_loop-IsNormalAfter b start end xs,
)

generate_loop-IsNormal :
    (start end : ℤ) (xs : List ℤ)
    → start ≤ℤ end
    → IsSortedFrom end xs
    → IsNormal (generate_loop start end xs)
unfolding generate_loop
generate_loop-IsNormal start end [] k s = (k, tt)
generate_loop-IsNormal start end (x ∷ xs) k s = ground (
  arith,
  +ℤ_parts end (pos 1),
  generate_loop-IsNormal start x xs,
  generate_loop-IsNormalAfter end x x xs,
  generate_loop-IsNormal start end xs,
)

Covers-generate_sorted :
    (a : ℤ) (xs : List ℤ) → IsSorted xs → Covers a (generate_sorted xs) ↔ In a xs
unfolding generate_sorted
Covers-generate_sorted a [] s = (λ h. h, λ h. h)
Covers-generate_sorted a (x ∷ xs) s =
    ground (arith, Covers-generate_loop a x x (x ∷ xs), eq_of_parts a x)

generate_sorted-IsNormal : (xs : List ℤ) → IsSorted xs → IsNormal (generate_sorted xs)
unfolding generate_sorted
generate_sorted-IsNormal [] s = tt
generate_sorted-IsNormal (x ∷ xs) s =
    generate_loop-IsNormal x x (x ∷ xs) (omega arith) (omega arith, s)

-- The ranges that p_generateRange makes of a sequence of numbers cover exactly those numbers,
-- whatever the order and however often each stands there, and are in normal form: ascending, none
-- empty, and at least one missing number between two of them.
pub generate_range_exact :
    (seqs : List ℤ)
    → ((a : ℤ) → Covers a (generate_range seqs) ↔ In a seqs) × IsNormal (generate_range seqs)
unfolding generate_range
generate_range_exact seqs = (
  λ a.
      let s = sort_seqs-IsSorted seqs in
      ground (arith, Covers-generate_sorted a (sort_seqs seqs), In-sort_seqs a seqs),
  generate_sorted-IsNormal (sort_seqs seqs) (sort_seqs-IsSorted seqs),
)
