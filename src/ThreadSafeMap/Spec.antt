-- ===== src/ThreadSafeMap/Spec.antt =====
-- What the operations of the map promise, of the partial function that it stands for: the function
-- afterwards, and the reply. Where a reply shows the order of iteration or counts entries, it is that
-- of some list of the entries.
use roc_im_sdk.Prelude.{
  ◌≡◌, ℕ, suc, Bool, true, false, List, [], ◌∷◌, Option, none, some, Key, ◌==◌, if◌then◌else◌,
  length, map,
}
use roc_im_sdk.UnorderedMap.{find, IsDistinct}
use roc_im_sdk.ThreadSafeMap.{
  Op, gets, gets_or_inserts, accesses, modifies, modifies_or_creates, clears, inserts,
  inserts_or_assigns, inserts_range, assigns, erases, takes, erases_range, tests, counts,
  removes_if, updates_if, finds_if, filters, finds_multiple, transforms, lists_keys, copies,
  measures, Reply, silent, maybe, told, flag, one, number, sizes, entry, entries, values, keyed,
}

-- The map as a function.
abbrev pub View : Type 0 → Type 0 → Type 0
View K V = K → Option V

abbrev pub or_else : {V : Type 0} → Option V → Option V → Option V
or_else none d = d
or_else (some v) d = some v

module _ {K V : Type 0} where
  abbrev pub unless : (K × V → Bool) → K → Option V → Option V
  unless p k none = none
  unless p k (some v) = if p (k, v) then none else some v

  abbrev pub kept : (K × V → Bool) → K → Option V → Option V
  kept p k none = none
  kept p k (some v) = if p (k, v) then some v else none

  abbrev pub updated : (K × V → Bool) → (V → V) → K → Option V → Option V
  updated p g k none = none
  updated p g k (some v) = if p (k, v) then some (g v) else some v

module _ {K V : Type 0} ⦃key : Key K⦄ where
  abbrev pub view : List (K × V) → View K V
  view m k = find k m

  abbrev pub with : K → Option V → View K V → View K V
  with k v f j = if k == j then v else f j

  -- The entries of the function, each once.
  abbrev pub Lists : View K V → List (K × V) → Type 0
  Lists f es = IsDistinct es × ((k : K) → find k es ≡ f k)

  -- How many keys a list of entries adds.
  unfoldable pub added : List (K × V) → View K V → ℕ
  added [] f = 0
  added ((k, v) ∷ es) f = elim (f k) [
    | none ↦ suc (added es (with k (some v) f))
    | some _ ↦ added es f
  ]

  -- How many entries go with these keys, and what is left.
  unfoldable pub without : List K → View K V → ℕ × View K V
  without [] f = (0, f)
  without (k ∷ ks) f =
      let rest = without ks (with k none f) in
      (elim (f k) [ none ↦ rest.0 | some _ ↦ suc rest.0 ], rest.1)

  unfoldable pub found : List K → View K V → List (K × V)
  found [] f = []
  found (k ∷ ks) f = let rest = found ks f in elim (f k) [ none ↦ rest | some v ↦ (k, v) ∷ rest ]

  -- The function after an operation.
  unfoldable pub effect : Op K V → View K V → View K V
  unfolding without
  effect (gets k) f = f
  effect (gets_or_inserts k v) f = elim (f k) [ none ↦ with k (some v) f | some w ↦ f ]
  effect (accesses k g) f = elim (f k) [ none ↦ f | some w ↦ with k (some (g w).1) f ]
  effect (modifies k g) f = elim (f k) [ none ↦ f | some w ↦ with k (some (g w)) f ]
  effect (modifies_or_creates k g d) f = elim (f k) [
    | none ↦ with k (some (g d)) f
    | some w ↦ with k (some (g w)) f
  ]
  effect clears f = λ j. none
  effect (inserts k v) f = elim (f k) [ none ↦ with k (some v) f | some w ↦ f ]
  effect (inserts_or_assigns k v) f = with k (some v) f
  effect (inserts_range es) f = λ j. or_else (f j) (find j es)
  effect (assigns es) f = view es
  effect (erases k) f = with k none f
  effect (takes k) f = with k none f
  effect (erases_range ks) f = (without ks f).1
  effect (tests k) f = f
  effect (counts k) f = f
  effect (removes_if p) f = λ j. unless p j (f j)
  effect (updates_if p g) f = λ j. updated p g j (f j)
  effect (finds_if p) f = f
  effect (filters p) f = f
  effect (finds_multiple ks) f = f
  effect (transforms g) f = f
  effect lists_keys f = f
  effect copies f = f
  effect measures f = f

  -- What a search by a test may return: no entry where the test takes none, or one that it takes.
  abbrev pub Finds : (K × V → Bool) → View K V → Option (K × V) → Type 0
  Finds p f none = (k : K) → kept p k (f k) ≡ none
  Finds p f (some (k, v)) = kept p k (f k) ≡ some v

  -- The reply of an operation.
  abbrev pub Promise : Op K V → View K V → Reply K V → Type 0
  Promise (gets k) f r = r ≡ maybe (f k)
  Promise (gets_or_inserts k v) f r = r ≡ elim (f k) [ none ↦ told false v | some w ↦ told true w ]
  Promise (accesses k g) f r = r ≡ elim (f k) [ none ↦ maybe none | some w ↦ maybe (some (g w).0) ]
  Promise (modifies k g) f r = r ≡ elim (f k) [ none ↦ flag false | some w ↦ flag true ]
  Promise (modifies_or_creates k g d) f r = r ≡ elim (f k) [ none ↦ one (g d) | some w ↦ one (g w) ]
  Promise clears f r = r ≡ silent
  Promise (inserts k v) f r = r ≡ elim (f k) [ none ↦ told true v | some w ↦ told false w ]
  Promise (inserts_or_assigns k v) f r =
      r ≡ elim (f k) [ none ↦ told true v | some _ ↦ told false v ]
  Promise (inserts_range es) f r =
      (all : List (K × V)) × Lists f all × (r ≡ sizes (length all) (added es f))
  Promise (assigns es) f r = r ≡ flag true
  Promise (erases k) f r = r ≡ elim (f k) [ none ↦ number 0 | some _ ↦ number 1 ]
  Promise (takes k) f r = r ≡ maybe (f k)
  Promise (erases_range ks) f r = r ≡ number (without ks f).0
  Promise (tests k) f r = r ≡ elim (f k) [ none ↦ flag false | some _ ↦ flag true ]
  Promise (counts k) f r = r ≡ elim (f k) [ none ↦ number 0 | some _ ↦ number 1 ]
  Promise (removes_if p) f r = r ≡ silent
  Promise (updates_if p g) f r =
      (es : List (K × V)) × Lists (λ j. kept p j (f j)) es × (r ≡ number (length es))
  Promise (finds_if p) f r = (o : Option (K × V)) × Finds p f o × (r ≡ entry o)
  Promise (filters p) f r = (es : List (K × V)) × Lists (λ j. kept p j (f j)) es × (r ≡ entries es)
  Promise (finds_multiple ks) f r = r ≡ entries (found ks f)
  Promise (transforms g) f r = (es : List (K × V)) × Lists f es × (r ≡ values (map g es))
  Promise lists_keys f r = (es : List (K × V)) × Lists f es × (r ≡ keyed (map (λ e. e.0) es))
  Promise copies f r = (es : List (K × V)) × Lists f es × (r ≡ entries es)
  Promise measures f r = (es : List (K × V)) × Lists f es × (r ≡ number (length es))

  -- The function after a sequence of operations, and their replies.
  unfoldable pub effects : List (Op K V) → View K V → View K V
  unfolding effect
  effects [] f = f
  effects (op ∷ ops) f = effects ops (effect op f)

  abbrev pub Promises : List (Op K V) → View K V → List (Reply K V) → Type 0
  Promises [] f replies = replies ≡ []
  Promises (op ∷ ops) f replies =
      (r : Reply K V) × (rest : List (Reply K V)) × (replies ≡ r ∷ rest)
      × Promise op f r
      × Promises ops (effect op f) rest
