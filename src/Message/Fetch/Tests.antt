-- ===== src/Message/Fetch/Tests.antt =====
-- A run of the fetch of a gap.
use roc_im_sdk.Prelude.{ℕ, ◌≡◌, refl, true, [], ◌∷◌, Option, some, codes, pos, length}
use roc_im_sdk.Message.Fetch.{Answer, fetch_ranges}
use roc_im_sdk.Message.Fetch.Gaps.{new_fetch}

-- A server that has more, always.
abbrev endless : ℕ → Option Answer
endless n = some (record { has_more = true; messages = [] })

endless_test :
    length
      (fetch_ranges
        (codes "u")
        (codes "v")
        endless
        ((pos 3, pos 4) ∷ (pos 6, pos 6) ∷ [])
        new_fetch).sent
    ≡ 22
unfolding fetch_ranges
endless_test = refl
