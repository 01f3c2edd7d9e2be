-- ===== src/Ranges/Cover.antt =====
-- What a list of ranges means: the set of numbers that it covers; and the shape of the lists that
-- MessageDataSource stores.
use roc_im_sdk.Prelude.{◌⊎◌, List, [], ◌∷◌, ℤ, pos, ◌+ℤ◌, ◌≤ℤ◌, ◌<ℤ◌}
use roc_im_sdk.Ranges.{Range}

abbrev pub Within : ℤ → Range → Type 0
Within x (l, h) = (l ≤ℤ x) × (x ≤ℤ h)

abbrev pub Covers : ℤ → List Range → Type 0
Covers x [] = ⊥
Covers x (r ∷ rs) = Within x r ⊎ Covers x rs

-- Every further range is not empty, and starts at least two above the end of the one before it.
abbrev pub IsNormalAfter : ℤ → List Range → Type 0
IsNormalAfter end [] = Unit {0}
IsNormalAfter end ((l, h) ∷ rs) = (end +ℤ pos 1 <ℤ l) × (l ≤ℤ h) × IsNormalAfter h rs

-- Ascending, not empty, neither overlapping nor adjacent.
abbrev pub IsNormal : List Range → Type 0
IsNormal [] = Unit {0}
IsNormal ((l, h) ∷ rs) = (l ≤ℤ h) × IsNormalAfter h rs
