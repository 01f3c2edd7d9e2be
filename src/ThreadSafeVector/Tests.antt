-- ===== src/ThreadSafeVector/Tests.antt =====
-- Runs of the vector, and its theorems at small vectors.
use roc_im_sdk.Prelude.{ℕ, ◌≡◌, refl, true, List, [], ◌∷◌, arith, ltb, some}
use roc_im_sdk.ThreadSafeVector.{insert_range, erase_range, pop_back, less}
use roc_im_sdk.ThreadSafeVector.RoundTrip.{erase_range-insert_range}
use roc_im_sdk.ThreadSafeVector.Locks.{
  on_left, on_right, swaps, moves, run, initial, stuck, run-stuck,
}

abbrev numbers : List ℕ
numbers = 1 ∷ 2 ∷ 3 ∷ []

pop_test : pop_back numbers ≡ (some 3, 1 ∷ 2 ∷ [])
unfolding pop_back
pop_test = refl

less_test : less (λ x y. ltb x y) (1 ∷ 2 ∷ []) numbers ≡ true
unfolding less
less_test = refl

-- One call after the other ends.
swap_test :
    (run swaps swaps (on_left ∷ on_left ∷ on_left ∷ []) (initial numbers [])).right ≡ numbers
unfolding run
swap_test = refl

erase_range-insert_range_example :
    (insert_range 1 (7 ∷ 8 ∷ []) numbers).0 ≡ true
    × (erase_range 1 3 (insert_range 1 (7 ∷ 8 ∷ []) numbers).1 ≡ (true, numbers))
erase_range-insert_range_example =
    erase_range-insert_range 1 (7 ∷ 8 ∷ []) numbers (omega arith) (omega arith)

run-stuck_example :
    run swaps moves (on_left ∷ on_right ∷ on_right ∷ on_left ∷ []) (initial numbers [])
    ≡ stuck numbers []
run-stuck_example = run-stuck swaps moves (on_right ∷ on_left ∷ []) numbers []
