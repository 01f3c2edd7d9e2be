-- ===== src/ThreadSafeMap/Tests.antt =====
-- Runs and instances of the map, from byte strings to numbers.
use roc_im_sdk.Prelude.{
  ℕ, ◌+◌, ◌≡◌, refl, true, false, List, [], ◌∷◌, some, Str, codes, str_eq, nat_eq, str_beq, ltb,
}
use roc_im_sdk.UnorderedMap.{find, erase, emplace, IsDistinct}
use roc_im_sdk.UnorderedMap
use roc_im_sdk.ThreadSafeMap.{
  equal, Op, gets, inserts, inserts_or_assigns, modifies, erases_range, removes_if, inserts_range,
  updates_if, finds_if, sizes, entry, run, silent, maybe, told, flag, number,
}
use roc_im_sdk.ThreadSafeMap.Spec.{view, effects, Promises}
use roc_im_sdk.ThreadSafeMap.Refine.{run_refines}

abbrev a : Str
a = codes "a"

abbrev b : Str
b = codes "b"

abbrev calls : List (Op Str ℕ)
calls =
    inserts a 1
    ∷ inserts a 2
    ∷ modifies a (λ n. n + 10)
    ∷ inserts_or_assigns b 5
    ∷ removes_if (λ e. ltb e.1 6)
    ∷ gets a
    ∷ inserts_range ((b, 3) ∷ (a, 4) ∷ [])
    ∷ updates_if (λ e. ltb e.1 6) (λ n. n + 1)
    ∷ finds_if (λ e. ltb e.1 6)
    ∷ erases_range (a ∷ b ∷ a ∷ [])
    ∷ []

calls_replies :
    (run calls []).0
    ≡ told true 1
      ∷ told false 1
      ∷ flag true
      ∷ told true 5
      ∷ silent
      ∷ maybe (some 11)
      ∷ sizes 1 1
      ∷ number 1
      ∷ entry (some (b, 4))
      ∷ number 2
      ∷ []
unfolding run find erase emplace UnorderedMap.assign UnorderedMap.replace str_beq
calls_replies = refl

run_refines_example :
    Promises calls (view []) (run calls []).0
    × ((j : Str) → find j (run calls []).1 ≡ effects calls (view []) j)
    × IsDistinct (run calls []).1
run_refines_example = run_refines calls [] tt

abbrev ab : List (Str × ℕ)
ab = (a, 1) ∷ (b, 2) ∷ []

abbrev ba : List (Str × ℕ)
ba = (b, 2) ∷ (a, 1) ∷ []

ab_equal_ba : equal ab ba ≡ true
unfolding equal find str_beq
ab_equal_ba = refl
