-- ===== src/ThreadSafeVector/RoundTrip.antt =====
-- What goes in comes out.
use roc_im_sdk.Prelude.{
  ℕ, zero, suc, ◌+◌, ◌-◌, ◌≤◌, ◌<◌, ◌≡◌, refl, ap, true, false, List, [], ◌∷◌, ◌++◌, ltb, leb,
  length, length-append, arith,
}
use roc_im_sdk.ThreadSafeVector.{insert_at, insert_range, drop, cut, erase_range}

module _ {A : Type 0} where
  length-insert_at :
      (pos : ℕ) (xs v : List A)
      → pos ≤ length v
      → length (insert_at pos xs v) ≡ length xs + length v
  unfolding insert_at
  length-insert_at zero xs v h = length-append xs v
  length-insert_at (suc pos) xs [] h = omega (arith, h)
  length-insert_at (suc pos) xs (x ∷ v) h =
      omega (arith, length-insert_at pos xs v (omega (arith, h)))

  drop-append : (xs v : List A) → drop (length xs) (xs ++ v) ≡ v
  unfolding drop
  drop-append [] v = refl
  drop-append (x ∷ xs) v = drop-append xs v

  cut-insert_at :
      (pos : ℕ) (xs v : List A) → pos ≤ length v → cut pos (length xs) (insert_at pos xs v) ≡ v
  unfolding cut insert_at
  cut-insert_at zero xs v h = drop-append xs v
  cut-insert_at (suc pos) xs [] h = absurd (omega (arith, h))
  cut-insert_at (suc pos) xs (x ∷ v) h = ap (λ w. x ∷ w) (cut-insert_at pos xs v (omega (arith, h)))

  -- The insertion of a range of elements, not empty, at a position of the vector or at its end
  -- succeeds, and so does the erasure of these positions afterwards, which brings back the vector.
  pub erase_range-insert_range :
      (pos : ℕ) (xs v : List A)
      → pos ≤ length v
      → 0 < length xs
      → (insert_range pos xs v).0 ≡ true
        × (erase_range pos (pos + length xs) (insert_range pos xs v).1 ≡ (true, v))
  unfolding insert_range erase_range
  erase_range-insert_range pos xs v h ne =
      let n = length-insert_at pos xs v h in
      let c = cut-insert_at pos xs v h in
      let inside : ltb (length v) pos ≡ false = ground (arith, h) in
      let ends : pos + length xs - pos ≡ length xs = omega arith in
      let first : leb (length (insert_at pos xs v)) pos ≡ false = ground (arith, n, h, ne) in
      let last : ltb (length (insert_at pos xs v)) (pos + length xs) ≡ false =
        ground (arith, n, h, ne) in
      let some_there : leb (pos + length xs) pos ≡ false = ground (arith, ne) in
      rw inside (refl, rw (first, last, some_there, ends) (ap (λ w. (true, w)) c))
