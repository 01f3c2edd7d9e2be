-- ===== src/Ranges/Gaps.antt =====
-- EmptyMessageRangeForConvId: the gaps are what is missing below the last stored number.
use roc_im_sdk.Prelude.{inl, inr, List, [], ◌∷◌, ℤ, pos, ◌≤ℤ◌, ◌<ℤ◌, ◌↔◌, arith, +ℤ_parts, -ℤ_parts}
use roc_im_sdk.Ranges.{Range, gap_loop, empty_ranges}
use roc_im_sdk.Ranges.Cover.{Covers, IsNormal, IsNormalAfter}

-- Ascending and not empty; a range may begin with the last number of the one before it.
abbrev IsAscendingFrom : ℤ → List Range → Type 0
IsAscendingFrom b [] = Unit {0}
IsAscendingFrom b ((l, h) ∷ rs) = (b ≤ℤ l) × (l ≤ℤ h) × IsAscendingFrom h rs

-- The last number that a list of ranges covers, or `b` if it is empty.
abbrev pub last_end : ℤ → List Range → ℤ
last_end b [] = b
last_end b ((l, h) ∷ rs) = last_end h rs

IsNormalAfter-IsAscendingFrom :
    (b : ℤ) (rs : List Range) → IsNormalAfter b rs → IsAscendingFrom b rs
IsNormalAfter-IsAscendingFrom b [] n = tt
IsNormalAfter-IsAscendingFrom b ((l, h) ∷ rs) n =
    (omega (arith, +ℤ_parts b (pos 1)), n.1, IsNormalAfter-IsAscendingFrom h rs n.2)

le-last_end : (b : ℤ) (rs : List Range) → IsAscendingFrom b rs → b ≤ℤ last_end b rs
le-last_end b [] s = omega arith
le-last_end b ((l, h) ∷ rs) s = omega (arith, le-last_end h rs s.2)

Covers-ge : (a b : ℤ) (rs : List Range) → IsAscendingFrom b rs → Covers a rs → b ≤ℤ a
Covers-ge a b [] s c = absurd c
Covers-ge a b ((l, h) ∷ rs) s (inl w) = omega arith
Covers-ge a b ((l, h) ∷ rs) s (inr c) = omega (arith, Covers-ge a h rs s.2 c)

Covers-gap_loop :
    (a b : ℤ) (rs : List Range)
    → IsAscendingFrom b rs
    → Covers a (gap_loop b rs) ↔ ((b <ℤ a) × (a ≤ℤ last_end b rs) × (¬ Covers a rs))
unfolding gap_loop
Covers-gap_loop a b [] s = ground arith
Covers-gap_loop a b ((l, h) ∷ rs) s = ground (
  arith,
  +ℤ_parts b (pos 1),
  -ℤ_parts l (pos 1),
  le-last_end h rs,
  Covers-ge a h rs,
  Covers-gap_loop a h rs,
)

-- The ranges begin at 0 or above, as sequence numbers do.
abbrev pub IsNonnegative : List Range → Type 0
IsNonnegative [] = Unit {0}
IsNonnegative ((l, h) ∷ rs) = pos 0 ≤ℤ l

IsNormal-IsAscendingFrom :
    (rs : List Range) → IsNormal rs → IsNonnegative rs → IsAscendingFrom (pos 0) rs
IsNormal-IsAscendingFrom [] n p = tt
IsNormal-IsAscendingFrom ((l, h) ∷ rs) n p = (p, n.0, IsNormalAfter-IsAscendingFrom h rs n.1)

-- For ranges in normal form that begin at 0 or above, EmptyMessageRangeForConvId reports exactly
-- the numbers from 1 up to the last stored one that no stored range covers.
pub Covers-empty_ranges :
    (a : ℤ) (rs : List Range)
    → IsNormal rs
    → IsNonnegative rs
    → Covers a (empty_ranges rs) ↔ ((pos 0 <ℤ a) × (a ≤ℤ last_end (pos 0) rs) × (¬ Covers a rs))
unfolding empty_ranges
Covers-empty_ranges a rs n p = Covers-gap_loop a (pos 0) rs (IsNormal-IsAscendingFrom rs n p)
