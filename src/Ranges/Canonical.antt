-- ===== src/Ranges/Canonical.antt =====
-- A list of ranges in normal form is determined by the set that it covers, so that merging does not
-- depend on the order in which messages arrive.
use roc_im_sdk.Prelude.{
  ◌≡◌, ◌⊎◌, inl, inr, List, [], ◌∷◌, ℤ, pos, ◌+ℤ◌, ◌-ℤ◌, -ℤ_parts, ◌≤ℤ◌, ◌<ℤ◌, ◌↔◌, arith, +ℤ_parts,
  eq_of_parts, refl,
}
use roc_im_sdk.Ranges.{Range, merge_ranges}
use roc_im_sdk.Ranges.Cover.{Covers, IsNormal, IsNormalAfter}
use roc_im_sdk.Ranges.Merge.{Covers-merge_ranges, merge_ranges-IsNormal}

above_end : (a b : ℤ) (rs : List Range) → IsNormalAfter b rs → Covers a rs → b +ℤ pos 1 <ℤ a
above_end a b [] n c = absurd c
above_end a b ((l, h) ∷ rs) n (inl w) = omega arith
above_end a b ((l, h) ∷ rs) n (inr c) =
    omega (arith, +ℤ_parts b (pos 1), +ℤ_parts h (pos 1), above_end a h rs n.2 c)

-- Every number that the list on the left covers is covered by the list on the right.
abbrev Sub : List Range → List Range → Type 0
Sub rs qs = (a : ℤ) → Covers a rs → Covers a qs

le_or_lt : (a b : ℤ) → (a ≤ℤ b) ⊎ (b <ℤ a)
le_or_lt a b = omega arith

start_le :
    (a l h : ℤ) (rs : List Range) → l ≤ℤ h → IsNormalAfter h rs → Covers a ((l, h) ∷ rs) → l ≤ℤ a
start_le a l h rs p n (inl w) = w.0
start_le a l h rs p n (inr c) = omega (arith, +ℤ_parts h (pos 1), above_end a h rs n c)

-- The number after the first range is not covered.
first_missing :
    (l h : ℤ) (rs : List Range) → IsNormalAfter h rs → Covers (h +ℤ pos 1) ((l, h) ∷ rs) → ⊥
first_missing l h rs n (inl w) = omega (arith, +ℤ_parts h (pos 1))
first_missing l h rs n (inr c) = omega (arith, above_end (h +ℤ pos 1) h rs n c)

module _ (l h : ℤ) (rs : List Range) (l' h' : ℤ) (qs : List Range) (n' : IsNormalAfter h' qs)
    (sub : Sub ((l, h) ∷ rs) ((l', h') ∷ qs)) where
  first_start : l ≤ℤ h → l' ≤ℤ h' → l' ≤ℤ l
  first_start p p' = start_le l l' h' qs p' n' (sub l (inl (omega arith, p)))

  first_end : l ≤ℤ l' → l' ≤ℤ h' → h ≤ℤ h'
  first_end s p' = elim (le_or_lt h h') [
    | inl k ↦ k
    | inr k ↦ absurd (
        first_missing l' h' qs n' (
          sub (h' +ℤ pos 1)
            (inl (omega (arith, +ℤ_parts h' (pos 1)), omega (arith, +ℤ_parts h' (pos 1))))))
  ]

  rest_Sub : IsNormalAfter h rs → h' ≤ℤ h → Sub rs qs
  rest_Sub n k a c = elim (sub a (inr c)) [
    | inl w ↦ absurd (omega (arith, +ℤ_parts h (pos 1), above_end a h rs n c))
    | inr c' ↦ c'
  ]

eq_of_Sub_after :
    (b c : ℤ) (rs qs : List Range)
    → IsNormalAfter b rs
    → IsNormalAfter c qs
    → Sub rs qs
    → Sub qs rs
    → rs ≡ qs
eq_of_Sub_after b c [] [] n m f g = refl
eq_of_Sub_after b c [] ((l', h') ∷ qs) n m f g = absurd (g l' (inl (omega arith, m.1)))
eq_of_Sub_after b c ((l, h) ∷ rs) [] n m f g = absurd (f l (inl (omega arith, n.1)))
eq_of_Sub_after b c ((l, h) ∷ rs) ((l', h') ∷ qs) n m f g =
    let s = first_start l h rs l' h' qs m.2 f n.1 m.1 in
    let s' = first_start l' h' qs l h rs n.2 g m.1 n.1 in
    let e = first_end l h rs l' h' qs m.2 f s' m.1 in
    let e' = first_end l' h' qs l h rs n.2 g s n.1 in
    let tail =
      eq_of_Sub_after h h' rs qs n.2 m.2 (rest_Sub l h rs l' h' qs m.2 f n.2 e')
        (rest_Sub l' h' qs l h rs n.2 g m.2 e) in
    let starts : l ≡ l' = eq_of_parts l l' (omega arith) in
    let ends : h ≡ h' = eq_of_parts h h' (omega arith) in rw (starts, ends, tail)

⊎_comm : {M N A B : Type 0} → M ↔ (A ⊎ B) → N ↔ (B ⊎ A) → M ↔ N
⊎_comm f g = (
  λ m. g.1 (elim (f.0 m) [ inl a ↦ inr a | inr b ↦ inl b ]),
  λ n. f.1 (elim (g.0 n) [ inl b ↦ inr b | inr a ↦ inl a ]),
)

⊎_idem : {M A : Type 0} → M ↔ (A ⊎ A) → M ↔ A
⊎_idem f = (λ m. elim (f.0 m) [ inl a ↦ a | inr a ↦ a ], λ a. f.1 (inl a))

⊎_assoc : {A B C M N P Q : Type 0} → M ↔ (A ⊎ B) → N ↔ (M ⊎ C) → P ↔ (B ⊎ C) → Q ↔ (A ⊎ P) → N ↔ Q
⊎_assoc f g h k = (
  λ n. k.1 (elim (g.0 n) [
    | inl m ↦ elim (f.0 m) [ inl a ↦ inl a | inr b ↦ inr (h.1 (inl b)) ]
    | inr c ↦ inr (h.1 (inr c))
  ]),
  λ q. g.1 (elim (k.0 q) [
    | inl a ↦ inl (f.1 (inl a))
    | inr p ↦ elim (h.0 p) [ inl b ↦ inl (f.1 (inr b)) | inr c ↦ inr c ]
  ]),
)

-- Two lists in normal form that cover the same numbers are the same list.
pub eq_of_Covers :
    (rs qs : List Range)
    → IsNormal rs
    → IsNormal qs
    → ((a : ℤ) → Covers a rs ↔ Covers a qs)
    → rs ≡ qs
eq_of_Covers [] [] n m f = refl
eq_of_Covers [] ((l', h') ∷ qs) n m f = absurd ((f l').1 (inl (omega arith, m.0)))
eq_of_Covers ((l, h) ∷ rs) [] n m f = absurd ((f l).0 (inl (omega arith, n.0)))
eq_of_Covers ((l, h) ∷ rs) ((l', h') ∷ qs) n m f =
    let b = l -ℤ pos 2 in
    let c = l' -ℤ pos 2 in
    eq_of_Sub_after b c ((l, h) ∷ rs) ((l', h') ∷ qs)
      (omega (arith, -ℤ_parts l (pos 2), +ℤ_parts (l -ℤ pos 2) (pos 1)), n.0, n.1)
      (omega (arith, -ℤ_parts l' (pos 2), +ℤ_parts (l' -ℤ pos 2) (pos 1)), m.0, m.1) (λ a. (f a).0)
      (λ a. (f a).1)

-- On lists in normal form p_mergeRanges is commutative, associative and idempotent: the stored
-- ranges do not depend on the order in which batches of messages are saved, nor on repetitions.
pub merge_ranges_semilattice :
    (rs qs ts : List Range)
    → IsNormal rs
    → IsNormal qs
    → IsNormal ts
    → (merge_ranges rs qs ≡ merge_ranges qs rs)
      × (merge_ranges (merge_ranges rs qs) ts ≡ merge_ranges rs (merge_ranges qs ts))
      × (merge_ranges rs rs ≡ rs)
merge_ranges_semilattice rs qs ts n m k =
    let rq = merge_ranges-IsNormal rs qs n m in
    let qt = merge_ranges-IsNormal qs ts m k in
    (
      eq_of_Covers _ _ rq (merge_ranges-IsNormal qs rs m n)
          (λ a. ⊎_comm (Covers-merge_ranges a rs qs) (Covers-merge_ranges a qs rs)),
      eq_of_Covers _ _ (merge_ranges-IsNormal (merge_ranges rs qs) ts rq k)
          (merge_ranges-IsNormal rs (merge_ranges qs ts) n qt)
          (λ a.
            ⊎_assoc (Covers-merge_ranges a rs qs) (Covers-merge_ranges a (merge_ranges rs qs) ts)
              (Covers-merge_ranges a qs ts) (Covers-merge_ranges a rs (merge_ranges qs ts))),
      eq_of_Covers _ _ (merge_ranges-IsNormal rs rs n n) n
          (λ a. ⊎_idem (Covers-merge_ranges a rs rs)),
    )
