-- ===== src/Ranges/Merge.antt =====
-- p_mergeRanges: the merged ranges cover the union, in normal form.
use roc_im_sdk.Prelude.{
  ◌⊎◌, inl, inr, List, [], ◌∷◌, ◌++◌, ℤ, pos, ◌+ℤ◌, ◌≤ℤ◌, ◌<ℤ◌, ◌↔◌, arith, +ℤ_parts, max_ℤ, leb_ℤ,
  Bool-cases,
}
use roc_im_sdk.Ranges.{
  Range, range_leb, insert_range, sort_ranges, merge_loop, merge_sorted, merge_ranges,
}
use roc_im_sdk.Ranges.Cover.{Within, Covers, IsNormal, IsNormalAfter}

-- In the order of their first numbers.
abbrev IsSortedFrom : ℤ → List Range → Type 0
IsSortedFrom b [] = Unit {0}
IsSortedFrom b ((l, h) ∷ rs) = (b ≤ℤ l) × IsSortedFrom l rs

abbrev IsSorted : List Range → Type 0
IsSorted [] = Unit {0}
IsSorted ((l, h) ∷ rs) = IsSortedFrom l rs

-- No range is empty.
abbrev pub IsValid : List Range → Type 0
IsValid [] = Unit {0}
IsValid ((l, h) ∷ rs) = (l ≤ℤ h) × IsValid rs

IsNormalAfter-IsValid : (b : ℤ) (rs : List Range) → IsNormalAfter b rs → IsValid rs
IsNormalAfter-IsValid b [] n = tt
IsNormalAfter-IsValid b ((l, h) ∷ rs) n = (n.1, IsNormalAfter-IsValid h rs n.2)

IsNormal-IsValid : (rs : List Range) → IsNormal rs → IsValid rs
IsNormal-IsValid [] n = tt
IsNormal-IsValid ((l, h) ∷ rs) n = (n.0, IsNormalAfter-IsValid h rs n.1)

insert_range-IsSortedFrom :
    (b : ℤ) (r : Range) (rs : List Range)
    → b ≤ℤ r.0
    → IsSortedFrom b rs
    → IsSortedFrom b (insert_range r rs)
unfolding insert_range range_leb
insert_range-IsSortedFrom b (l, h) [] k s = (k, tt)
insert_range-IsSortedFrom b (l, h) ((l', h') ∷ rs) k s =
    ground (arith, insert_range-IsSortedFrom l' (l, h) rs)

insert_range-IsSorted : (r : Range) (rs : List Range) → IsSorted rs → IsSorted (insert_range r rs)
unfolding insert_range range_leb
insert_range-IsSorted (l, h) [] s = tt
insert_range-IsSorted (l, h) ((l', h') ∷ rs) s =
    ground (arith, insert_range-IsSortedFrom l' (l, h) rs)

sort_ranges-IsSorted : (rs : List Range) → IsSorted (sort_ranges rs)
unfolding sort_ranges
sort_ranges-IsSorted [] = tt
sort_ranges-IsSorted (r ∷ rs) = insert_range-IsSorted r (sort_ranges rs) (sort_ranges-IsSorted rs)

insert_range-IsValid :
    (r : Range) (rs : List Range) → r.0 ≤ℤ r.1 → IsValid rs → IsValid (insert_range r rs)
unfolding insert_range
insert_range-IsValid r [] k v = (k, tt)
insert_range-IsValid r (q ∷ rs) k v = ground (arith, insert_range-IsValid r rs)

sort_ranges-IsValid : (rs : List Range) → IsValid rs → IsValid (sort_ranges rs)
unfolding sort_ranges
sort_ranges-IsValid [] v = tt
sort_ranges-IsValid (r ∷ rs) v =
    insert_range-IsValid r (sort_ranges rs) v.0 (sort_ranges-IsValid rs v.1)

append-IsValid : (rs qs : List Range) → IsValid rs → IsValid qs → IsValid (rs ++ qs)
append-IsValid [] qs v w = w
append-IsValid (r ∷ rs) qs v w = (v.0, append-IsValid rs qs v.1 w)

Covers-insert_range :
    (a : ℤ) (r : Range) (rs : List Range)
    → Covers a (insert_range r rs) ↔ (Within a r ⊎ Covers a rs)
unfolding insert_range
Covers-insert_range a r [] = (λ h. h, λ h. h)
Covers-insert_range a r (q ∷ rs) = ground (arith, Covers-insert_range a r rs)

Covers-sort_ranges : (a : ℤ) (rs : List Range) → Covers a (sort_ranges rs) ↔ Covers a rs
unfolding sort_ranges
Covers-sort_ranges a [] = (λ h. h, λ h. h)
Covers-sort_ranges a (r ∷ rs) =
    ground (arith, Covers-insert_range a r (sort_ranges rs), Covers-sort_ranges a rs)

Covers-append : (a : ℤ) (rs qs : List Range) → Covers a (rs ++ qs) ↔ (Covers a rs ⊎ Covers a qs)
Covers-append a [] qs = ground arith
Covers-append a (r ∷ rs) qs = ground (arith, Covers-append a rs qs)

IsSortedFrom-mono : (b c : ℤ) (rs : List Range) → b ≤ℤ c → IsSortedFrom c rs → IsSortedFrom b rs
IsSortedFrom-mono b c [] k s = tt
IsSortedFrom-mono b c (r ∷ rs) k s = (omega arith, s.1)

-- Two ranges that overlap or touch cover what the joined range covers.
Within-max :
    (a l h l' h' : ℤ)
    → l ≤ℤ l'
    → l' ≤ℤ h +ℤ pos 1
    → Within a (l, max_ℤ h h') ↔ (Within a (l, h) ⊎ Within a (l', h'))
Within-max a l h l' h' s t = ground (arith, +ℤ_parts h (pos 1))

⊎_regroup : {M W W' W'' C : Type 0} → M ↔ (W ⊎ C) → W ↔ (W' ⊎ W'') → M ↔ (W' ⊎ (W'' ⊎ C))
⊎_regroup f g = (
  λ m. elim (f.0 m) [
    | inl w ↦ elim (g.0 w) [ inl w' ↦ inl w' | inr w'' ↦ inr (inl w'') ]
    | inr c ↦ inr (inr c)
  ],
  λ s. f.1 (elim s [
    | inl w' ↦ inl (g.1 (inl w'))
    | inr t ↦ elim t [ inl w'' ↦ inl (g.1 (inr w'')) | inr c ↦ inr c ]
  ]),
)

⊎_map_right : {M C D : Type 0} → M ↔ C → (D ⊎ M) ↔ (D ⊎ C)
⊎_map_right f = (
  λ s. elim s [ inl d ↦ inl d | inr m ↦ inr (f.0 m) ],
  λ s. elim s [ inl d ↦ inl d | inr c ↦ inr (f.1 c) ],
)

Covers-merge_loop :
    (a l h : ℤ) (rs : List Range)
    → IsSortedFrom l rs
    → Covers a (merge_loop (l, h) rs) ↔ (Within a (l, h) ⊎ Covers a rs)
unfolding merge_loop
Covers-merge_loop a l h [] s = (λ c. c, λ c. c)
Covers-merge_loop a l h ((l', h') ∷ rs) s = elim (Bool-cases (leb_ℤ l' (h +ℤ pos 1))) [
  | inl near ↦ rw near (
      ⊎_regroup (Covers-merge_loop a l (max_ℤ h h') rs (IsSortedFrom-mono l l' rs s.0 s.1))
        (Within-max a l h l' h' s.0 (ground arith)))
  | inr far ↦ rw far (⊎_map_right (Covers-merge_loop a l' h' rs s.1))
]

merge_loop-IsNormalAfter :
    (b l h : ℤ) (rs : List Range)
    → b +ℤ pos 1 <ℤ l
    → l ≤ℤ h
    → IsSortedFrom l rs
    → IsValid rs
    → IsNormalAfter b (merge_loop (l, h) rs)
unfolding merge_loop
merge_loop-IsNormalAfter b l h [] k n s v = (k, n, tt)
merge_loop-IsNormalAfter b l h ((l', h') ∷ rs) k n s v = elim (Bool-cases (leb_ℤ l' (h +ℤ pos 1))) [
  | inl near ↦ rw near (
      merge_loop-IsNormalAfter b l (max_ℤ h h') rs k (ground arith)
        (IsSortedFrom-mono l l' rs s.0 s.1) v.1)
  | inr far ↦ rw far (k, n, merge_loop-IsNormalAfter h l' h' rs (ground arith) v.0 s.1 v.1)
]

merge_loop-IsNormal :
    (l h : ℤ) (rs : List Range)
    → l ≤ℤ h
    → IsSortedFrom l rs
    → IsValid rs
    → IsNormal (merge_loop (l, h) rs)
unfolding merge_loop
merge_loop-IsNormal l h [] n s v = (n, tt)
merge_loop-IsNormal l h ((l', h') ∷ rs) n s v = elim (Bool-cases (leb_ℤ l' (h +ℤ pos 1))) [
  | inl near ↦
      rw near (
        merge_loop-IsNormal l (max_ℤ h h') rs (ground arith) (IsSortedFrom-mono l l' rs s.0 s.1)
          v.1)
  | inr far ↦ rw far (n, merge_loop-IsNormalAfter h l' h' rs (ground arith) v.0 s.1 v.1)
]

Covers-merge_sorted :
    (a : ℤ) (rs : List Range) → IsSorted rs → Covers a (merge_sorted rs) ↔ Covers a rs
unfolding merge_sorted
Covers-merge_sorted a [] s = (λ c. c, λ c. c)
Covers-merge_sorted a ((l, h) ∷ rs) s = Covers-merge_loop a l h rs s

merge_sorted-IsNormal : (rs : List Range) → IsSorted rs → IsValid rs → IsNormal (merge_sorted rs)
unfolding merge_sorted
merge_sorted-IsNormal [] s v = tt
merge_sorted-IsNormal ((l, h) ∷ rs) s v = merge_loop-IsNormal l h rs v.0 s v.1

merge_all : List Range → List Range
merge_all rs = merge_sorted (sort_ranges rs)

Covers-merge_all : (a : ℤ) (rs : List Range) → Covers a (merge_all rs) ↔ Covers a rs
unfolding merge_all
Covers-merge_all a rs =
    let s = sort_ranges-IsSorted rs in
    ground (arith, Covers-merge_sorted a (sort_ranges rs), Covers-sort_ranges a rs)

-- p_mergeRanges covers exactly the numbers that one of its two arguments covers; it asks nothing
-- of their order, and they may overlap or hold empty ranges.
pub Covers-merge_ranges :
    (a : ℤ) (first second : List Range)
    → Covers a (merge_ranges first second) ↔ (Covers a first ⊎ Covers a second)
unfolding merge_ranges merge_all
Covers-merge_ranges a [] second = ground arith
Covers-merge_ranges a (r ∷ rs) [] = ground arith
Covers-merge_ranges a (r ∷ rs) (q ∷ qs) =
    let m = Covers-merge_all a ((r ∷ rs) ++ (q ∷ qs)) in
    let e = Covers-append a (r ∷ rs) (q ∷ qs) in (λ c. e.0 (m.0 c), λ c. m.1 (e.1 c))

-- Of two lists in normal form, p_mergeRanges makes a list in normal form.
pub merge_ranges-IsNormal :
    (first second : List Range)
    → IsNormal first
    → IsNormal second
    → IsNormal (merge_ranges first second)
unfolding merge_ranges
merge_ranges-IsNormal [] second n m = m
merge_ranges-IsNormal (r ∷ rs) [] n m = n
merge_ranges-IsNormal (r ∷ rs) (q ∷ qs) n m =
    let all = (r ∷ rs) ++ (q ∷ qs) in
    merge_sorted-IsNormal (sort_ranges all) (sort_ranges-IsSorted all) (
      sort_ranges-IsValid all (
        append-IsValid (r ∷ rs) (q ∷ qs) (IsNormal-IsValid (r ∷ rs) n)
          (IsNormal-IsValid (q ∷ qs) m)))
