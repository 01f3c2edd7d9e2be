-- ===== src/ThreadSafeMap.antt =====
-- ThreadSafeUnorderedMap (imsdk/base/include/containers/ThreadSafeUnorderedMap.h). Each operation
-- runs under the lock of the map from its first to its last step, so threads make a sequence of
-- operations. The state is the std::unordered_map inside; buckets, hashes, allocators and the
-- failure of allocations are left out.
pub mod Spec
pub mod Finds
pub mod Refine
pub mod Equality
mod Tests
use roc_im_sdk.Prelude.{
  ℕ, suc, ◌+◌, ◌-◌, Bool, true, false, ◌&&◌, List, [], ◌∷◌, ◌++◌, Option, none, some, length, Key,
  ◌==◌, eqb, if◌then◌else◌,
}
use roc_im_sdk.UnorderedMap
use roc_im_sdk.UnorderedMap.{erase, emplace}

module _ {K V : Type 0} ⦃key : Key K⦄ where
  -- at and find of one argument.
  unfoldable pub at : K → List (K × V) → Option V
  at k m = UnorderedMap.find k m

  -- at with a default, which is moved into the map where the key is missing.
  unfoldable pub at_or_insert : K → V → List (K × V) → (Bool × V) × List (K × V)
  at_or_insert k default m = elim (UnorderedMap.find k m) [
    | none ↦ ((false, default), emplace k default m)
    | some v ↦ ((true, v), m)
  ]

  -- access: `none` is the exception out_of_range. The callback may write the value.
  unfoldable pub access : {R : Type 0} → K → (V → R × V) → List (K × V) → Option R × List (K × V)
  access k func m = elim (UnorderedMap.find k m) [
    | none ↦ (none, m)
    | some v ↦ (some (func v).0, UnorderedMap.assign k (func v).1 m)
  ]

  unfoldable pub modify : K → (V → V) → List (K × V) → Bool × List (K × V)
  modify k func m = elim (UnorderedMap.find k m) [
    | none ↦ (false, m)
    | some v ↦ (true, UnorderedMap.assign k (func v) m)
  ]

  unfoldable pub modify_or_create : K → (V → V) → V → List (K × V) → V × List (K × V)
  modify_or_create k func default m = elim (UnorderedMap.find k m) [
    | none ↦ (func default, UnorderedMap.assign k (func default) (emplace k default m))
    | some v ↦ (func v, UnorderedMap.assign k (func v) m)
  ]

  unfoldable pub clear : List (K × V) → List (K × V)
  clear m = []

  -- insert, and try_emplace: whether the key was new, and the value that is there now.
  unfoldable pub insert : K → V → List (K × V) → (Bool × V) × List (K × V)
  insert k v m = elim (UnorderedMap.find k m) [
    | none ↦ ((true, v), emplace k v m)
    | some old ↦ ((false, old), m)
  ]

  unfoldable pub insert_or_assign : K → V → List (K × V) → (Bool × V) × List (K × V)
  insert_or_assign k v m = elim (UnorderedMap.find k m) [
    | none ↦ ((true, v), UnorderedMap.assign k v m)
    | some old ↦ ((false, v), UnorderedMap.assign k v m)
  ]

  unfoldable pub insert_all : List (K × V) → List (K × V) → List (K × V)
  insert_all [] m = m
  insert_all ((k, v) ∷ entries) m = insert_all entries (emplace k v m)

  -- insert_range: the size before, and the number of entries that were added.
  unfoldable pub insert_range : List (K × V) → List (K × V) → (ℕ × ℕ) × List (K × V)
  unfolding insert_all
  insert_range entries m = let m' = insert_all entries m in ((length m, length m' - length m), m')

  -- assign: a new map of the entries is swapped in.
  unfoldable pub assign : List (K × V) → List (K × V) → List (K × V)
  unfolding insert_all
  assign entries m = insert_all entries []

  -- erase of a key, which returns the number of entries removed.
  unfoldable pub erase_key : K → List (K × V) → ℕ × List (K × V)
  erase_key k m = (elim (UnorderedMap.find k m) [ none ↦ 0 | some _ ↦ 1 ], erase k m)

  -- erase with an output argument for the value removed.
  unfoldable pub take : K → List (K × V) → Option V × List (K × V)
  take k m = elim (UnorderedMap.find k m) [ none ↦ (none, m) | some v ↦ (some v, erase k m) ]

  unfoldable pub erase_range : List K → List (K × V) → ℕ × List (K × V)
  unfolding erase_key
  erase_range [] m = (0, m)
  erase_range (k ∷ ks) m =
      let (n, m') = erase_key k m in let (rest, m'') = erase_range ks m' in (n + rest, m'')

  unfoldable pub contains : K → List (K × V) → Bool
  contains k m = elim (UnorderedMap.find k m) [ none ↦ false | some _ ↦ true ]

  unfoldable pub count : K → List (K × V) → ℕ
  count k m = elim (UnorderedMap.find k m) [ none ↦ 0 | some _ ↦ 1 ]

  unfoldable pub remove_if : (K × V → Bool) → List (K × V) → List (K × V)
  remove_if pred [] = []
  remove_if pred ((k, v) ∷ m) =
      let rest = remove_if pred m in if pred (k, v) then rest else (k, v) ∷ rest

  unfoldable pub filter : (K × V → Bool) → List (K × V) → List (K × V)
  filter pred [] = []
  filter pred ((k, v) ∷ m) = let rest = filter pred m in if pred (k, v) then (k, v) ∷ rest else rest

  -- The first entry in the order of iteration that the test takes.
  unfoldable pub find_if : (K × V → Bool) → List (K × V) → Option (K × V)
  find_if pred [] = none
  find_if pred ((k, v) ∷ m) = let rest = find_if pred m in if pred (k, v) then some (k, v) else rest

  -- transform, and values with the second component.
  unfoldable pub transform : {R : Type 0} → (K × V → R) → List (K × V) → List R
  transform func [] = []
  transform func ((k, v) ∷ m) = func (k, v) ∷ transform func m

  unfoldable pub keys : List (K × V) → List K
  keys [] = []
  keys ((k, v) ∷ m) = k ∷ keys m

  -- to_map and snapshot.
  unfoldable pub to_map : List (K × V) → List (K × V)
  to_map m = m

  unfoldable pub size : List (K × V) → ℕ
  size m = length m

  -- find_multiple.
  unfoldable pub find_multiple : List K → List (K × V) → List (K × V)
  find_multiple [] m = []
  find_multiple (k ∷ ks) m =
      let rest = find_multiple ks m in
      elim (UnorderedMap.find k m) [ none ↦ rest | some v ↦ (k, v) ∷ rest ]

  unfoldable pub update_if : (K × V → Bool) → (V → V) → List (K × V) → ℕ × List (K × V)
  update_if pred func [] = (0, [])
  update_if pred func ((k, v) ∷ m) =
      let (n, rest) = update_if pred func m in
      if pred (k, v) then (suc n, (k, func v) ∷ rest) else (n, (k, v) ∷ rest)

  -- The loop of operator==.
  unfoldable pub all_in : ⦃val : Key V⦄ → List (K × V) → List (K × V) → Bool
  all_in [] n = true
  all_in ((k, v) ∷ m) n =
      let rest = all_in m n in
      elim (UnorderedMap.find k n) [ none ↦ false | some w ↦ if w == v then rest else false ]

  -- operator==.
  unfoldable pub equal : ⦃val : Key V⦄ → List (K × V) → List (K × V) → Bool
  unfolding all_in
  equal m n = if eqb (length m) (length n) then all_in m n else false

-- The operations on one map. `accesses` is the write of a callback, which returns a value too.
pub data Op (K V : Type 0) : Type 0 where
  gets : K → Op K V
  gets_or_inserts : K → V → Op K V
  accesses : K → (V → V × V) → Op K V
  modifies : K → (V → V) → Op K V
  modifies_or_creates : K → (V → V) → V → Op K V
  clears : Op K V
  inserts : K → V → Op K V
  inserts_or_assigns : K → V → Op K V
  inserts_range : List (K × V) → Op K V
  assigns : List (K × V) → Op K V
  erases : K → Op K V
  takes : K → Op K V
  erases_range : List K → Op K V
  tests : K → Op K V
  counts : K → Op K V
  removes_if : (K × V → Bool) → Op K V
  updates_if : (K × V → Bool) → (V → V) → Op K V
  finds_if : (K × V → Bool) → Op K V
  filters : (K × V → Bool) → Op K V
  finds_multiple : List K → Op K V
  transforms : (K × V → V) → Op K V
  lists_keys : Op K V
  copies : Op K V
  measures : Op K V

-- What an operation returns; `silent` where it is nothing.
pub data Reply (K V : Type 0) : Type 0 where
  silent : Reply K V
  maybe : Option V → Reply K V
  told : Bool → V → Reply K V
  flag : Bool → Reply K V
  one : V → Reply K V
  number : ℕ → Reply K V
  sizes : ℕ → ℕ → Reply K V
  entry : Option (K × V) → Reply K V
  entries : List (K × V) → Reply K V
  values : List V → Reply K V
  keyed : List K → Reply K V

module _ {K V : Type 0} ⦃key : Key K⦄ where
  unfoldable pub told_of : (Bool × V) × List (K × V) → Reply K V × List (K × V)
  told_of ((b, v), m) = (told b v, m)

  unfoldable pub step : Op K V → List (K × V) → Reply K V × List (K × V)
  unfolding at at_or_insert access modify modify_or_create clear insert insert_or_assign
      insert_range assign erase_key take erase_range contains count remove_if update_if find_if
      filter find_multiple transform keys to_map size told_of
  step (gets k) m = (maybe (at k m), m)
  step (gets_or_inserts k v) m = told_of (at_or_insert k v m)
  step (accesses k f) m = (maybe (access k f m).0, (access k f m).1)
  step (modifies k f) m = (flag (modify k f m).0, (modify k f m).1)
  step (modifies_or_creates k f d) m =
      (one (modify_or_create k f d m).0, (modify_or_create k f d m).1)
  step clears m = (silent, clear m)
  step (inserts k v) m = told_of (insert k v m)
  step (inserts_or_assigns k v) m = told_of (insert_or_assign k v m)
  step (inserts_range es) m =
      let ((before, added), m') = insert_range es m in (sizes before added, m')
  step (assigns es) m = (flag true, assign es m)
  step (erases k) m = (number (erase_key k m).0, (erase_key k m).1)
  step (takes k) m = (maybe (take k m).0, (take k m).1)
  step (erases_range ks) m = (number (erase_range ks m).0, (erase_range ks m).1)
  step (tests k) m = (flag (contains k m), m)
  step (counts k) m = (number (count k m), m)
  step (removes_if p) m = (silent, remove_if p m)
  step (updates_if p f) m = (number (update_if p f m).0, (update_if p f m).1)
  step (finds_if p) m = (entry (find_if p m), m)
  step (filters p) m = (entries (filter p m), m)
  step (finds_multiple ks) m = (entries (find_multiple ks m), m)
  step (transforms f) m = (values (transform f m), m)
  step lists_keys m = (keyed (keys m), m)
  step copies m = (entries (to_map m), m)
  step measures m = (number (size m), m)

  -- The operations of all threads, in the order in which they get the lock.
  unfoldable pub run : List (Op K V) → List (K × V) → List (Reply K V) × List (K × V)
  unfolding step
  run [] m = ([], m)
  run (op ∷ ops) m =
      let (reply, m') = step op m in let (replies, m'') = run ops m' in (reply ∷ replies, m'')
