-- ===== src/ThreadSafeMap/Finds.antt =====
-- What a key finds after the operations on ranges and by tests, that keys stay distinct, and what the
-- operations by tests and on ranges count and return.
use roc_im_sdk.Prelude.{
  ◌≡◌, refl, ◌∙◌, sym, ap, ◌+◌, Bool, false, List, [], ◌∷◌, Option, none, some, Key, ◌==◌, arith,
  Bool-cases, Option-cases, inl, inr, subst, length, map,
}
use roc_im_sdk.UnorderedMap.{find, erase, emplace, IsDistinct}
use roc_im_sdk.UnorderedMap.Laws.{find-erase, find-emplace, erase-IsDistinct, emplace-IsDistinct}
use roc_im_sdk.ThreadSafeMap.{
  insert_all, erase_key, erase_range, remove_if, update_if, find_if, filter, find_multiple,
  transform, keys,
}
use roc_im_sdk.ThreadSafeMap.Spec.{
  View, or_else, unless, kept, updated, view, with, without, added, found, Finds, Lists,
}

module _ {K V : Type 0} ⦃key : Key K⦄ where
  pub find-insert_all :
      (entries m : List (K × V)) (j : K)
      → find j (insert_all entries m) ≡ or_else (find j m) (find j entries)
  unfolding insert_all find
  find-insert_all [] m j = ground arith
  find-insert_all ((k, v) ∷ entries) m j =
      ground
        (arith, find-insert_all entries (emplace k v m) j, find-emplace k j v m, key.equal_iff k j)

  pub find-remove_if :
      (p : K × V → Bool) (m : List (K × V)) (j : K)
      → IsDistinct m
      → find j (remove_if p m) ≡ unless p j (find j m)
  unfolding remove_if find
  find-remove_if p [] j d = refl
  find-remove_if p ((k, v) ∷ m) j d =
      let ih = λ (i : K). find-remove_if p m i d.1 in
      elim (Bool-cases (k == j)) [
        | inl same ↦
            subst (λ i. find i (remove_if p ((k, v) ∷ m)) ≡ unless p i (find i ((k, v) ∷ m)))
              ((key.equal_iff k j).0 same) (ground (arith, ih k, key.equal_iff k k))
        | inr differ ↦ ground (arith, ih j)
      ]

  pub find-update_if :
      (p : K × V → Bool) (g : V → V) (m : List (K × V)) (j : K)
      → find j (update_if p g m).1 ≡ updated p g j (find j m)
  unfolding update_if find
  find-update_if p g [] j = refl
  find-update_if p g ((k, v) ∷ m) j =
      let ih = find-update_if p g m j in
      elim (Bool-cases (k == j)) [
        | inl same ↦
            subst (λ i. find i (update_if p g ((k, v) ∷ m)).1 ≡ updated p g i (find i ((k, v) ∷ m)))
              ((key.equal_iff k j).0 same) (ground (arith, key.equal_iff k k))
        | inr differ ↦ ground (arith, ih)
      ]

  pub find-erase_range :
      (ks : List K) (m : List (K × V)) (f : View K V)
      → ((j : K) → find j m ≡ f j)
      → ((erase_range ks m).0 ≡ (without ks f).0)
        × ((j : K) → find j (erase_range ks m).1 ≡ (without ks f).1 j)
  unfolding erase_range erase_key without
  find-erase_range [] m f same = (refl, same)
  find-erase_range (k ∷ ks) m f same =
      let (n, rest) =
        find-erase_range ks (erase k m) (with k none f)
          (λ j. find-erase k j m ∙ ground (arith, same j)) in
      (ground (arith, n, same k), rest)

  pub insert_all-IsDistinct :
      (entries m : List (K × V)) → IsDistinct m → IsDistinct (insert_all entries m)
  unfolding insert_all
  insert_all-IsDistinct [] m d = d
  insert_all-IsDistinct ((k, v) ∷ entries) m d =
      insert_all-IsDistinct entries (emplace k v m) (emplace-IsDistinct k v m d)

  pub remove_if-IsDistinct :
      (p : K × V → Bool) (m : List (K × V)) → IsDistinct m → IsDistinct (remove_if p m)
  unfolding remove_if
  remove_if-IsDistinct p [] d = tt
  remove_if-IsDistinct p ((k, v) ∷ m) d =
      ground (arith, find-remove_if p m k d.1, remove_if-IsDistinct p m d.1)

  pub update_if-IsDistinct :
      (p : K × V → Bool) (g : V → V) (m : List (K × V))
      → IsDistinct m
      → IsDistinct (update_if p g m).1
  unfolding update_if
  update_if-IsDistinct p g [] d = tt
  update_if-IsDistinct p g ((k, v) ∷ m) d =
      ground (arith, find-update_if p g m k, update_if-IsDistinct p g m d.1)

  pub erase_range-IsDistinct :
      (ks : List K) (m : List (K × V)) → IsDistinct m → IsDistinct (erase_range ks m).1
  unfolding erase_range erase_key
  erase_range-IsDistinct [] m d = d
  erase_range-IsDistinct (k ∷ ks) m d =
      erase_range-IsDistinct ks (erase k m) (erase-IsDistinct k m d)

  pub find-filter :
      (p : K × V → Bool) (m : List (K × V)) (j : K)
      → IsDistinct m
      → find j (filter p m) ≡ kept p j (find j m)
  unfolding filter find
  find-filter p [] j d = refl
  find-filter p ((k, v) ∷ m) j d =
      let ih = λ (i : K). find-filter p m i d.1 in
      elim (Bool-cases (k == j)) [
        | inl same ↦
            subst (λ i. find i (filter p ((k, v) ∷ m)) ≡ kept p i (find i ((k, v) ∷ m)))
              ((key.equal_iff k j).0 same) (ground (arith, ih k, key.equal_iff k k))
        | inr differ ↦ ground (arith, ih j)
      ]

  filter-IsDistinct : (p : K × V → Bool) (m : List (K × V)) → IsDistinct m → IsDistinct (filter p m)
  unfolding filter
  filter-IsDistinct p [] d = tt
  filter-IsDistinct p ((k, v) ∷ m) d =
      ground (arith, find-filter p m k d.1, filter-IsDistinct p m d.1)

  pub filter-Lists :
      (p : K × V → Bool) (m : List (K × V))
      → IsDistinct m
      → Lists (λ j. kept p j (find j m)) (filter p m)
  filter-Lists p m d = (filter-IsDistinct p m d, λ j. find-filter p m j d)

  pub update_if-count :
      (p : K × V → Bool) (g : V → V) (m : List (K × V)) → (update_if p g m).0 ≡ length (filter p m)
  unfolding update_if filter
  update_if-count p g [] = refl
  update_if-count p g ((k, v) ∷ m) = ground (arith, update_if-count p g m)

  pub insert_all-count :
      (es m : List (K × V)) (f : View K V)
      → ((j : K) → find j m ≡ f j)
      → length (insert_all es m) ≡ length m + added es f
  unfolding insert_all added emplace
  insert_all-count [] m f same = omega arith
  insert_all-count ((k, v) ∷ es) m f same = elim (Option-cases (find k m)) [
    | inl miss ↦
        let now : (j : K) → find j (emplace k v m) ≡ with k (some v) f j =
          λ j. ground (arith, find-emplace k j v m, miss, same j) in
        let ih = insert_all-count es (emplace k v m) (with k (some v) f) now in
        ground (arith, ih, miss, same k)
    | inr (w, hit) ↦ ground (arith, insert_all-count es m f same, hit, same k)
  ]

  Finds-next :
      (p : K × V → Bool) (k : K) (v : V) (m : List (K × V))
      → p (k, v) ≡ false
      → find k m ≡ none
      → (o : Option (K × V)) → Finds p (view m) o
      → Finds p (view ((k, v) ∷ m)) o
  unfolding find
  Finds-next p k v m misses new none h = λ j. elim (Bool-cases (k == j)) [
    | inl same ↦
        subst (λ i. kept p i (find i ((k, v) ∷ m)) ≡ none) ((key.equal_iff k j).0 same)
          (ground (arith, misses, key.equal_iff k k))
    | inr differ ↦ ground (arith, h j)
  ]
  Finds-next p k v m misses new (some (i, w)) h = elim (Bool-cases (k == i)) [
    | inl same ↦
        let gone : find i m ≡ none = ap (λ j. find j m) (sym ((key.equal_iff k i).0 same)) ∙ new in
        absurd (ground (arith, gone, h))
    | inr differ ↦ ground (arith, h)
  ]

  pub find_if-Finds :
      (p : K × V → Bool) (m : List (K × V)) → IsDistinct m → Finds p (view m) (find_if p m)
  unfolding find_if find
  find_if-Finds p [] d = λ k. refl
  find_if-Finds p ((k, v) ∷ m) d = elim (Bool-cases (p (k, v))) [
    | inl hits ↦ rw hits (ground (arith, hits, key.equal_iff k k))
    | inr misses ↦ rw misses (Finds-next p k v m misses d.0 (find_if p m) (find_if-Finds p m d.1))
  ]

  pub transform_lem : (g : K × V → V) (m : List (K × V)) → transform g m ≡ map g m
  unfolding transform
  transform_lem g [] = refl
  transform_lem g (e ∷ m) = ap (λ t. g e ∷ t) (transform_lem g m)

  pub keys_lem : (m : List (K × V)) → keys m ≡ map (λ e. e.0) m
  unfolding keys
  keys_lem [] = refl
  keys_lem (e ∷ m) = ap (λ t. e.0 ∷ t) (keys_lem m)

  pub find_multiple_lem : (ks : List K) (m : List (K × V)) → find_multiple ks m ≡ found ks (view m)
  unfolding find_multiple found
  find_multiple_lem [] m = refl
  find_multiple_lem (k ∷ ks) m = ground (arith, find_multiple_lem ks m)
