-- ===== src/ThreadSafeMap/Equality.antt =====
-- operator== compares the sizes and looks every entry of one map up in the other.
use roc_im_sdk.Prelude.{
  ◌≡◌, refl, ◌∙◌, sym, ap, suc, true, List, [], ◌∷◌, none, some, Key, ◌==◌, arith, Bool-cases,
  Option-cases, inl, inr, subst, length, eqb_iff, ◌↔◌,
}
use roc_im_sdk.UnorderedMap.{find, erase, IsDistinct}
use roc_im_sdk.UnorderedMap.Laws.{find-erase, erase-IsDistinct}
use roc_im_sdk.ThreadSafeMap.{all_in, equal}

module _ {K V : Type 0} ⦃key : Key K⦄ where
  erase-absent : (k : K) (n : List (K × V)) → find k n ≡ none → erase k n ≡ n
  unfolding erase find
  erase-absent k [] h = refl
  erase-absent k ((j, w) ∷ n) h = ground (arith, key.equal_iff j k, erase-absent k n)

  length-erase :
      (k : K) (v : V) (n : List (K × V))
      → IsDistinct n
      → find k n ≡ some v
      → suc (length (erase k n)) ≡ length n
  unfolding erase find
  length-erase k v [] d h = cc h
  length-erase k v ((j, w) ∷ n) d h = elim (Bool-cases (j == k)) [
    | inl same ↦
        let gone : find k n ≡ none =
          subst (λ i. find i n ≡ none) ((key.equal_iff j k).0 same) d.0 in
        rw same (ap (λ (l : List (K × V)). suc (length l)) (erase-absent k n gone))
    | inr differ ↦ rw differ (ap suc (length-erase k v n d.1 (ground arith)))
  ]

  module _ ⦃val : Key V⦄ where
    -- The loop succeeds exactly if every entry of the one map is in the other.
    all_in-erase :
        (k : K) (m n : List (K × V)) → find k m ≡ none → all_in m (erase k n) ≡ all_in m n
    unfolding all_in find
    all_in-erase k [] n h = refl
    all_in-erase k ((j, w) ∷ m) n h =
        ground (arith, key.equal_iff k j, key.equal_iff j k, find-erase k j n, all_in-erase k m n)

    head_found :
        (k : K) (v : V) (m n : List (K × V)) → all_in ((k, v) ∷ m) n ≡ true → find k n ≡ some v
    unfolding all_in
    head_found k v m n h = elim (Option-cases (find k n)) [
      | inl miss ↦ ground arith
      | inr (w, hit) ↦ ground (arith, val.equal_iff w v, hit)
    ]

    equal_sound :
        (m n : List (K × V)) (j : K)
        → IsDistinct m
        → IsDistinct n
        → length m ≡ length n
        → all_in m n ≡ true
        → find j m ≡ find j n
    unfolding find all_in
    equal_sound [] [] j d u sizes h = refl
    equal_sound [] (y ∷ n) j d u sizes h = absurd (omega arith)
    equal_sound ((k, v) ∷ m) n j d u sizes h =
        let there = head_found k v m n h in
        let rest : all_in m n ≡ true = ground arith in
        let ih =
          equal_sound m (erase k n) j d.1 (erase-IsDistinct k n u)
            (omega (arith, length-erase k v n u there)) (all_in-erase k m n d.0 ∙ rest) in
        elim (Bool-cases (k == j)) [
          | inl same ↦
              rw same (sym (subst (λ i. find i n ≡ some v) ((key.equal_iff k j).0 same) there))
          | inr differ ↦ rw differ (ih ∙ find-erase k j n ∙ rw differ)
        ]

    absent_eq :
        (k j : K) (v : V) (m n : List (K × V))
        → find k m ≡ none
        → find j ((k, v) ∷ m) ≡ find j n
        → find j m ≡ find j (erase k n)
    unfolding find
    absent_eq k j v m n gone e = elim (Bool-cases (k == j)) [
      | inl same ↦
          let none_j : find j m ≡ none =
            subst (λ i. find i m ≡ none) ((key.equal_iff k j).0 same) gone in
          none_j ∙ sym (find-erase k j n ∙ rw same)
      | inr differ ↦ ground (arith, find-erase k j n)
    ]

    equal_complete :
        (m n : List (K × V))
        → IsDistinct m
        → IsDistinct n
        → ((j : K) → find j m ≡ find j n)
        → (length m ≡ length n) × (all_in m n ≡ true)
    unfolding find all_in
    equal_complete [] [] d u same = (refl, refl)
    equal_complete [] ((k, v) ∷ n) d u same =
        let e = same k in absurd (ground (arith, e, key.equal_iff k k))
    equal_complete ((k, v) ∷ m) n d u same =
        let there : find k n ≡ some v = ground (arith, same k, key.equal_iff k k) in
        let (sizes, rest) =
          equal_complete m (erase k n) d.1 (erase-IsDistinct k n u)
            (λ j. absent_eq k j v m n d.0 (same j)) in
        (
          omega (arith, length-erase k v n u there),
          ground (arith, all_in-erase k m n d.0, val.equal_iff v v),
        )

    -- Two maps compare as equal exactly if every lookup finds the same in both.
    pub equal_iff :
        (m n : List (K × V))
        → IsDistinct m
        → IsDistinct n
        → (equal m n ≡ true) ↔ ((j : K) → find j m ≡ find j n)
    unfolding equal
    equal_iff m n d u = (
      λ h j. equal_sound m n j d u (ground (arith, eqb_iff (length m) (length n))) (ground arith),
      λ same.
          let (sizes, inside) = equal_complete m n d u same in
          ground (arith, eqb_iff (length m) (length n)),
    )
