-- ===== src/ThreadSafeMap/Refine.antt =====
-- Every operation keeps what is promised of the map as a partial function.
use roc_im_sdk.Prelude.{
  ◌≡◌, refl, ◌∙◌, ap, ◌-◌, List, [], ◌∷◌, Key, arith, Option-cases, inl, inr, subst, length,
}
use roc_im_sdk.UnorderedMap.{find, emplace, IsDistinct}
use mathlib.Core.Path.{fun_ext}
use roc_im_sdk.UnorderedMap.Laws.{
  find-erase, find-assign, find-emplace, erase-IsDistinct, assign-IsDistinct, emplace-IsDistinct,
}
use roc_im_sdk.ThreadSafeMap.{
  insert_all, insert_range, filter, find_if, step, run, Op, gets, gets_or_inserts, accesses,
  modifies, modifies_or_creates, clears, inserts, inserts_or_assigns, inserts_range, assigns,
  erases, takes, erases_range, tests, counts, removes_if, updates_if, finds_if, filters,
  finds_multiple, transforms, lists_keys, copies, measures, number, sizes, entries, values, keyed,
}
use roc_im_sdk.ThreadSafeMap.Spec.{view, effect, Promise, effects, Promises, added}
use roc_im_sdk.ThreadSafeMap.Finds.{
  find-insert_all, find-remove_if, find-update_if, find-erase_range, insert_all-IsDistinct,
  remove_if-IsDistinct, update_if-IsDistinct, erase_range-IsDistinct, filter-Lists, update_if-count,
  insert_all-count, find_if-Finds, transform_lem, keys_lem, find_multiple_lem,
}

module _ {K V : Type 0} ⦃key : Key K⦄ where
  step-effect :
      (op : Op K V) (m : List (K × V))
      → IsDistinct m
      → (j : K) → find j (step op m).1 ≡ effect op (view m) j
  unfolding step effect
  step-effect (gets k) m d j = refl
  step-effect (gets_or_inserts k v) m d j = ground (arith, find-emplace k j v m)
  step-effect (accesses k g) m d j = elim (Option-cases (find k m)) [
    | inl miss ↦ ground arith
    | inr (v, hit) ↦ ground (arith, find-assign k j (g v).1 m)
  ]
  step-effect (modifies k g) m d j = elim (Option-cases (find k m)) [
    | inl miss ↦ ground arith
    | inr (v, hit) ↦ ground (arith, find-assign k j (g v) m)
  ]
  step-effect (modifies_or_creates k g e) m d j = elim (Option-cases (find k m)) [
    | inl miss ↦ ground (arith, find-assign k j (g e) (emplace k e m), find-emplace k j e m)
    | inr (v, hit) ↦ ground (arith, find-assign k j (g v) m)
  ]
  step-effect clears m d j = unfold find in refl
  step-effect (inserts k v) m d j = ground (arith, find-emplace k j v m)
  step-effect (inserts_or_assigns k v) m d j = ground (arith, find-assign k j v m)
  step-effect (inserts_range es) m d j = unfold insert_range in find-insert_all es m j
  step-effect (assigns es) m d j = find-insert_all es [] j ∙ unfold find in refl
  step-effect (erases k) m d j = find-erase k j m
  step-effect (takes k) m d j = ground (arith, find-erase k j m, key.equal_iff k j)
  step-effect (erases_range ks) m d j = (find-erase_range ks m (view m) (λ j. refl)).1 j
  step-effect (tests k) m d j = refl
  step-effect (counts k) m d j = refl
  step-effect (removes_if p) m d j = find-remove_if p m j d
  step-effect (updates_if p g) m d j = find-update_if p g m j
  step-effect (finds_if p) m d j = refl
  step-effect (filters p) m d j = refl
  step-effect (finds_multiple ks) m d j = refl
  step-effect (transforms g) m d j = refl
  step-effect lists_keys m d j = refl
  step-effect copies m d j = refl
  step-effect measures m d j = refl

  added_count : (es m : List (K × V)) → length (insert_all es m) - length m ≡ added es (view m)
  added_count es m = let n = insert_all-count es m (view m) (λ j. refl) in omega (arith, n)

  step-Promise : (op : Op K V) (m : List (K × V)) → IsDistinct m → Promise op (view m) (step op m).0
  unfolding step
  step-Promise (gets k) m d = refl
  step-Promise (gets_or_inserts k v) m d = ground arith
  step-Promise (accesses k g) m d = ground arith
  step-Promise (modifies k g) m d = ground arith
  step-Promise (modifies_or_creates k g e) m d = ground arith
  step-Promise clears m d = refl
  step-Promise (inserts k v) m d = ground arith
  step-Promise (inserts_or_assigns k v) m d = ground arith
  step-Promise (inserts_range es) m d =
      (m, (d, λ k. refl), unfold insert_range in ap (sizes (length m)) (added_count es m))
  step-Promise (assigns es) m d = refl
  step-Promise (erases k) m d = ground arith
  step-Promise (takes k) m d = ground arith
  step-Promise (erases_range ks) m d = ap number (find-erase_range ks m (view m) (λ j. refl)).0
  step-Promise (tests k) m d = ground arith
  step-Promise (counts k) m d = ground arith
  step-Promise (removes_if p) m d = refl
  step-Promise (updates_if p g) m d =
      (filter p m, filter-Lists p m d, ap number (update_if-count p g m))
  step-Promise (finds_if p) m d = (find_if p m, find_if-Finds p m d, refl)
  step-Promise (filters p) m d = (filter p m, filter-Lists p m d, refl)
  step-Promise (finds_multiple ks) m d = ap entries (find_multiple_lem ks m)
  step-Promise (transforms g) m d = (m, (d, λ k. refl), ap values (transform_lem g m))
  step-Promise lists_keys m d = (m, (d, λ k. refl), ap keyed (keys_lem m))
  step-Promise copies m d = (m, (d, λ k. refl), refl)
  step-Promise measures m d = (m, (d, λ k. refl), refl)

  step-IsDistinct : (op : Op K V) (m : List (K × V)) → IsDistinct m → IsDistinct (step op m).1
  unfolding step
  step-IsDistinct (gets k) m d = d
  step-IsDistinct (gets_or_inserts k v) m d = ground (arith, emplace-IsDistinct k v m d)
  step-IsDistinct (accesses k g) m d = elim (Option-cases (find k m)) [
    | inl miss ↦ ground arith
    | inr (v, hit) ↦ ground (arith, assign-IsDistinct k (g v).1 m d)
  ]
  step-IsDistinct (modifies k g) m d = elim (Option-cases (find k m)) [
    | inl miss ↦ ground arith
    | inr (v, hit) ↦ ground (arith, assign-IsDistinct k (g v) m d)
  ]
  step-IsDistinct (modifies_or_creates k g e) m d = elim (Option-cases (find k m)) [
    | inl miss ↦
        ground (arith, assign-IsDistinct k (g e) (emplace k e m) (emplace-IsDistinct k e m d))
    | inr (v, hit) ↦ ground (arith, assign-IsDistinct k (g v) m d)
  ]
  step-IsDistinct clears m d = tt
  step-IsDistinct (inserts k v) m d = ground (arith, emplace-IsDistinct k v m d)
  step-IsDistinct (inserts_or_assigns k v) m d = ground (arith, assign-IsDistinct k v m d)
  step-IsDistinct (inserts_range es) m d = insert_all-IsDistinct es m d
  step-IsDistinct (assigns es) m d = insert_all-IsDistinct es [] tt
  step-IsDistinct (erases k) m d = erase-IsDistinct k m d
  step-IsDistinct (takes k) m d = ground (arith, erase-IsDistinct k m d)
  step-IsDistinct (erases_range ks) m d = erase_range-IsDistinct ks m d
  step-IsDistinct (tests k) m d = d
  step-IsDistinct (removes_if p) m d = remove_if-IsDistinct p m d
  step-IsDistinct (updates_if p g) m d = update_if-IsDistinct p g m d
  step-IsDistinct (counts k) m d = d
  step-IsDistinct (finds_if p) m d = d
  step-IsDistinct (filters p) m d = d
  step-IsDistinct (finds_multiple ks) m d = d
  step-IsDistinct (transforms g) m d = d
  step-IsDistinct lists_keys m d = d
  step-IsDistinct copies m d = d
  step-IsDistinct measures m d = d

  -- From a map with distinct keys, after any sequence of the 24 operations of `Op`: the map is the
  -- partial function that the sequence makes of the one it was, its keys are distinct, and every
  -- reply is what is promised of the function at that time. The promise fixes the replies about keys
  -- and the numbers of entries before, added, erased, updated and in all; of filter, transform, keys
  -- and to_map it says that they return what stands in some list of the entries, each once; of
  -- find_if, that it returns an entry that the test takes where there is one.
  pub run_refines :
      (ops : List (Op K V)) (m : List (K × V))
      → IsDistinct m
      → Promises ops (view m) (run ops m).0
        × ((j : K) → find j (run ops m).1 ≡ effects ops (view m) j)
        × IsDistinct (run ops m).1
  unfolding run effects
  run_refines [] m d = (refl, λ j. refl, d)
  run_refines (op ∷ ops) m d =
      let m' = (step op m).1 in
      let (replies, rest, e) = run_refines ops m' (step-IsDistinct op m d) in
      let views : view m' ≡ effect op (view m) = fun_ext (step-effect op m d) in
      (
        (
          (step op m).0,
          (run ops m').0,
          refl,
          step-Promise op m d,
          subst (λ f. Promises ops f (run ops m').0) views replies,
        ),
        λ j. rest j ∙ ap (λ f. effects ops f j) views,
        e,
      )
