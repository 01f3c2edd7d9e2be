-- ===== src/UnorderedMap.antt =====
-- std::unordered_map as the sources use it: an association list with distinct keys, in the order of
-- iteration, which the standard leaves open (a new entry stands first here, and the theorems do
-- not depend on that). Reads and writes go through `find`, and the laws below are all that the
-- clients use.
pub mod Laws
use roc_im_sdk.Prelude.{
  ℕ, ◌≡◌, ◌⊎◌, Bool, true, false, List, [], ◌∷◌, Option, none, some, if◌then◌else◌, Key, ◌==◌,
  length, map,
}

module _ {K V : Type 0} where
  -- keys, in the order of iteration
  abbrev pub keys : List (K × V) → List K
  keys = map (λ e. e.0)

  abbrev pub values : List (K × V) → List V
  values = map (λ e. e.1)

module _ {K V : Type 0} ⦃e : Key K⦄ where
  unfoldable pub find : K → List (K × V) → Option V
  find k [] = none
  find k ((j, v) ∷ m) = if j == k then some v else find k m

  -- `m.erase(k)`.
  unfoldable pub erase : K → List (K × V) → List (K × V)
  erase k [] = []
  erase k ((j, v) ∷ m) = let rest = erase k m in if j == k then rest else (j, v) ∷ rest

  -- The write of the entry that is there.
  unfoldable pub replace : K → V → List (K × V) → List (K × V)
  replace k v [] = []
  replace k v ((j, w) ∷ m) =
      let rest = replace k v m in if j == k then (j, v) ∷ rest else (j, w) ∷ rest

  -- `m[k] = v`.
  unfoldable pub assign : K → V → List (K × V) → List (K × V)
  unfolding find replace
  assign k v m = elim (find k m) [ none ↦ (k, v) ∷ m | some _ ↦ replace k v m ]

  -- `m.emplace(k, v)`: it changes nothing where the key is there.
  unfoldable pub emplace : K → V → List (K × V) → List (K × V)
  unfolding find
  emplace k v m = elim (find k m) [ none ↦ (k, v) ∷ m | some _ ↦ m ]

  -- A key stands in one entry at most.
  abbrev pub IsDistinct : List (K × V) → Type 0
  IsDistinct [] = Unit {0}
  IsDistinct ((k, v) ∷ m) = (find k m ≡ none) × IsDistinct m
