-- ===== src/ThreadSafeVector.antt =====
-- ThreadSafeVector (imsdk/base/include/containers/ThreadSafeVector.h). Each operation runs under the
-- mutex of its vector, so it is a function on the list of the elements. An exception is the result
-- none. Memory does not run out.
pub mod RoundTrip
pub mod Locks
mod Tests
use roc_im_sdk.Prelude.{
  ℕ, zero, suc, ◌+◌, ◌-◌, Bool, true, false, not, ◌&&◌, ◌||◌, List, [], ◌∷◌, ◌++◌, map, Option,
  none, some, ltb, leb, eqb, if◌then◌else◌, length,
}

module _ {A : Type 0} where
  -- data_.at(pos): none is std::out_of_range.
  unfoldable pub get_copy : ℕ → List A → Option A
  get_copy pos [] = none
  get_copy zero (x ∷ v) = some x
  get_copy (suc pos) (x ∷ v) = get_copy pos v

  unfoldable pub front : List A → Option A
  front [] = none
  front (x ∷ _) = some x

  unfoldable pub back : List A → Option A
  back [] = none
  back (x ∷ []) = some x
  back (x ∷ y ∷ v) = back (y ∷ v)

  unfoldable pub set_at : ℕ → (A → A) → List A → List A
  set_at pos f [] = []
  set_at zero f (x ∷ v) = f x ∷ v
  set_at (suc pos) f (x ∷ v) = x ∷ set_at pos f v

  unfoldable pub modify : ℕ → (A → A) → List A → Option (List A)
  unfolding set_at
  modify pos f v = if leb (length v) pos then none else some (set_at pos f v)

  -- `data_.insert(data_.begin() + pos, first, last)`, and the first of the two calls of erase.
  unfoldable pub insert_at : ℕ → List A → List A → List A
  insert_at zero xs v = xs ++ v
  insert_at (suc pos) xs [] = xs
  insert_at (suc pos) xs (x ∷ v) = x ∷ insert_at pos xs v

  unfoldable pub insert_range : ℕ → List A → List A → Bool × List A
  unfolding insert_at
  insert_range pos xs v = if ltb (length v) pos then (false, v) else (true, insert_at pos xs v)

  -- insert of one element, and emplace.
  unfoldable pub insert : ℕ → A → List A → Bool × List A
  unfolding insert_at
  insert pos x v = if ltb (length v) pos then (false, v) else (true, insert_at pos (x ∷ []) v)

  unfoldable pub repeat : ℕ → A → List A
  repeat zero x = []
  repeat (suc n) x = x ∷ repeat n x

  unfoldable pub insert_count : ℕ → ℕ → A → List A → Bool × List A
  unfolding insert_at repeat
  insert_count pos count x v =
      if ltb (length v) pos then (false, v) else (true, insert_at pos (repeat count x) v)

  unfoldable pub drop : ℕ → List A → List A
  drop zero v = v
  drop (suc n) [] = []
  drop (suc n) (x ∷ v) = drop n v

  unfoldable pub cut : ℕ → ℕ → List A → List A
  unfolding drop
  cut zero count v = drop count v
  cut (suc pos) count [] = []
  cut (suc pos) count (x ∷ v) = x ∷ cut pos count v

  unfoldable pub erase : ℕ → List A → Bool × List A
  unfolding cut
  erase pos v = if leb (length v) pos then (false, v) else (true, cut pos 1 v)

  unfoldable pub erase_range : ℕ → ℕ → List A → Bool × List A
  unfolding cut
  erase_range first last v =
      if leb (length v) first || (ltb (length v) last || leb last first)
      then (false, v)
      else (true, cut first (last - first) v)

  unfoldable pub push_back : A → List A → List A
  push_back x v = v ++ x ∷ []

  unfoldable pub push_back_range : List A → List A → List A
  push_back_range xs v = v ++ xs

  unfoldable pub take : ℕ → List A → List A
  take zero v = []
  take (suc n) [] = []
  take (suc n) (x ∷ v) = x ∷ take n v

  unfoldable pub pop_back_range : ℕ → List A → List A
  unfolding take
  pop_back_range count v = if leb (length v) count then [] else take (length v - count) v

  unfoldable pub pop_back : List A → Option A × List A
  unfolding back take
  pop_back v = (back v, take (length v - 1) v)

  unfoldable pub move_vector : List A → List A × List A
  move_vector v = (v, [])

  -- The new elements are copies of the value, or default ones.
  unfoldable pub resize : ℕ → A → List A → List A
  resize zero x v = []
  resize (suc count) x [] = x ∷ resize count x []
  resize (suc count) x (y ∷ v) = y ∷ resize count x v

  unfoldable pub remove_if : (A → Bool) → List A → List A
  remove_if p [] = []
  remove_if p (x ∷ v) = let rest = remove_if p v in if p x then rest else x ∷ rest

  unfoldable pub find_if : (A → Bool) → List A → Option A
  find_if p [] = none
  find_if p (x ∷ v) = let rest = find_if p v in if p x then some x else rest

  unfoldable pub filter : (A → Bool) → List A → List A
  filter p [] = []
  filter p (x ∷ v) = let rest = filter p v in if p x then x ∷ rest else rest

  -- `locked` tells whether std::try_to_lock got the mutex.
  unfoldable pub try_push_back : Bool → A → List A → Bool × List A
  unfolding push_back
  try_push_back locked x v = if locked then (true, push_back x v) else (false, v)

  unfoldable pub try_pop_back : Bool → List A → Option A × List A
  unfolding pop_back
  try_pop_back locked v = if locked then pop_back v else (none, v)

  -- equals of two vectors that are different objects.
  unfoldable pub equal_loop : (A → A → Bool) → List A → List A → Bool
  equal_loop comp [] w = true
  equal_loop comp (x ∷ v) [] = true
  equal_loop comp (x ∷ v) (y ∷ w) =
      let rest = equal_loop comp v w in if comp x y then rest else false

  unfoldable pub equals : (A → A → Bool) → List A → List A → Bool
  unfolding equal_loop
  equals comp v w = if eqb (length v) (length w) then equal_loop comp v w else false

  -- operator<.
  unfoldable pub less : (A → A → Bool) → List A → List A → Bool
  less lt v [] = false
  less lt [] (y ∷ w) = true
  less lt (x ∷ v) (y ∷ w) =
      let rest = less lt v w in if lt x y then true else if lt y x then false else rest
