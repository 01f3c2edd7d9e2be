-- ===== src/UnorderedMap/Laws.antt =====
-- What a lookup finds after each write, the size, and the distinct keys.
use roc_im_sdk.Prelude.{
  ◌≡◌, refl, inl, inr, false, List, [], ◌∷◌, none, some, if◌then◌else◌, Key, ◌==◌, arith,
  Bool-cases, Option-cases, subst, All, some, true,
}
use roc_im_sdk.UnorderedMap.{find, erase, replace, assign, emplace, IsDistinct}

module _ {K V : Type 0} ⦃e : Key K⦄ where
  pub find-erase :
      (k j : K) (m : List (K × V)) → find j (erase k m) ≡ (if k == j then none else find j m)
  unfolding find erase
  find-erase k j [] = ground arith
  find-erase k j ((i, w) ∷ m) =
      ground (arith, e.equal_iff k j, e.equal_iff i k, e.equal_iff i j, find-erase k j m)

  find-replace_self :
      (k : K) (v w : V) (m : List (K × V)) → find k m ≡ some w → find k (replace k v m) ≡ some v
  unfolding find replace
  find-replace_self k v w [] h = ground arith
  find-replace_self k v w ((i, u) ∷ m) h = ground (arith, find-replace_self k v w m)

  find-replace_ne :
      (k j : K) (v : V) (m : List (K × V)) → (k == j) ≡ false → find j (replace k v m) ≡ find j m
  unfolding find replace
  find-replace_ne k j v [] h = refl
  find-replace_ne k j v ((i, u) ∷ m) h =
      ground (arith, e.equal_iff k j, e.equal_iff i k, e.equal_iff i j, find-replace_ne k j v m)

  replace_lem :
      (k j : K) (v w : V) (m : List (K × V))
      → find k m ≡ some w
      → find j (replace k v m) ≡ (if k == j then some v else find j m)
  replace_lem k j v w m h = elim (Bool-cases (k == j)) [
    | inl same ↦ rw same (
        subst (λ i. find i (replace k v m) ≡ some v) ((e.equal_iff k j).0 same)
          (find-replace_self k v w m h))
    | inr other ↦ rw other (find-replace_ne k j v m other)
  ]

  pub find-assign :
      (k j : K) (v : V) (m : List (K × V))
      → find j (assign k v m) ≡ (if k == j then some v else find j m)
  unfolding assign find
  find-assign k j v m = elim (Option-cases (find k m)) [
    | inl h ↦ rw (h, assign)
    | inr (w, h) ↦ rw (h, assign) (replace_lem k j v w m h)
  ]

  pub find-emplace :
      (k j : K) (v : V) (m : List (K × V))
      → find j (emplace k v m)
        ≡ elim (find k m) [ none ↦ (if k == j then some v else find j m) | some _ ↦ find j m ]
  unfolding emplace find
  find-emplace k j v m = ground arith

  find-replace-none :
      (k j : K) (v : V) (m : List (K × V)) → find j m ≡ none → find j (replace k v m) ≡ none
  unfolding find replace
  find-replace-none k j v [] h = refl
  find-replace-none k j v ((i, w) ∷ m) h = ground (arith, find-replace-none k j v m)

  pub erase-IsDistinct : (k : K) (m : List (K × V)) → IsDistinct m → IsDistinct (erase k m)
  unfolding erase
  erase-IsDistinct k [] d = tt
  erase-IsDistinct k ((j, v) ∷ m) d = ground (arith, find-erase k j m, erase-IsDistinct k m)

  replace-IsDistinct :
      (k : K) (v : V) (m : List (K × V)) → IsDistinct m → IsDistinct (replace k v m)
  unfolding replace
  replace-IsDistinct k v [] d = tt
  replace-IsDistinct k v ((j, w) ∷ m) d =
      ground (
        arith,
        e.equal_iff k j,
        e.equal_iff j k,
        find-replace-none k j v m,
        replace-IsDistinct k v m,
      )

  pub assign-IsDistinct :
      (k : K) (v : V) (m : List (K × V)) → IsDistinct m → IsDistinct (assign k v m)
  unfolding assign
  assign-IsDistinct k v m d = ground (arith, replace-IsDistinct k v m)

  pub emplace-IsDistinct :
      (k : K) (v : V) (m : List (K × V)) → IsDistinct m → IsDistinct (emplace k v m)
  unfolding emplace
  emplace-IsDistinct k v m d = ground arith

  -- A predicate on the entries, across the operations.
  pub All-find :
      (P : K × V → Type 0) (k : K) (v : V) (m : List (K × V))
      → All P m
      → find k m ≡ some v
      → P (k, v)
  unfolding find
  All-find P k v [] a h = cc
  All-find P k v ((j, w) ∷ m) a h = elim (Bool-cases (j == k)) [
    | inl same ↦
        let keys : j ≡ k = (e.equal_iff j k).0 same in
        let vals : w ≡ v = ground arith in
        subst (λ u. P (k, u)) vals (subst (λ i. P (i, w)) keys a.0)
    | inr other ↦ All-find P k v m a.1 (ground arith)
  ]

  pub All-erase :
      (P Q : K × V → Type 0) (k : K) (m : List (K × V))
      → ((j : K) (v : V) → (k == j) ≡ false → P (j, v) → Q (j, v))
      → All P m
      → All Q (erase k m)
  unfolding erase
  All-erase P Q k [] f a = tt
  All-erase P Q k ((j, v) ∷ m) f a = elim (Bool-cases (k == j)) [
    | inl same ↦
        let sym_test : (j == k) ≡ true = ground (arith, e.equal_iff k j, e.equal_iff j k) in
        rw sym_test (All-erase P Q k m f a.1)
    | inr other ↦
        let sym_test : (j == k) ≡ false = ground (arith, e.equal_iff k j, e.equal_iff j k) in
        rw sym_test (f j v other a.0, All-erase P Q k m f a.1)
  ]

  pub All-none :
      (P : K × V → Type 0) (k : K) (v : V) (m : List (K × V))
      → find k m ≡ none
      → P (k, v)
      → All P m
      → All P (assign k v m)
  unfolding assign
  All-none P k v m h p a = rw (h, assign) (p, a)

  -- The entries of a map without the key `k` have other keys.
  pub All-absent :
      (P Q : K × V → Type 0) (k : K) (m : List (K × V))
      → find k m ≡ none
      → ((j : K) (v : V) → (k == j) ≡ false → P (j, v) → Q (j, v))
      → All P m
      → All Q m
  unfolding find
  All-absent P Q k [] h f a = tt
  All-absent P Q k ((j, v) ∷ m) h f a =
      let other : (k == j) ≡ false = ground (arith, e.equal_iff k j, e.equal_iff j k) in
      (f j v other a.0, All-absent P Q k m (ground arith) f a.1)
