-- ===== src/Ranges/Tests.antt =====
-- Runs and instances of the range functions.
use roc_im_sdk.Prelude.{◌≡◌, refl, List, [], ◌∷◌, pos, negsuc, ◌+ℤ◌, ◌-ℤ◌, arith}
use roc_im_sdk.Ranges.{
  Range, insert_seq, sort_seqs, generate_loop, generate_sorted, generate_range, range_leb,
  insert_range, sort_ranges, merge_loop, merge_sorted, merge_ranges, gap_loop, empty_ranges,
}
use roc_im_sdk.Ranges.Cover.{IsNormal}
use roc_im_sdk.Ranges.Merge.{merge_ranges-IsNormal}
use roc_im_sdk.Ranges.Canonical.{merge_ranges_semilattice}

program : Unit {0}
unfolding insert_seq sort_seqs generate_loop generate_sorted generate_range range_leb insert_range
    sort_ranges merge_loop merge_sorted merge_ranges gap_loop empty_ranges ◌+ℤ◌ ◌-ℤ◌
program = tt

abbrev stored : List Range
stored = (pos 0, pos 3) ∷ (pos 7, pos 9) ∷ []

abbrev fetched : List Range
fetched = (pos 4, pos 5) ∷ []

generate_run :
    generate_range (pos 9 ∷ pos 2 ∷ pos 3 ∷ pos 2 ∷ negsuc 0 ∷ [])
    ≡ (negsuc 0, negsuc 0) ∷ (pos 2, pos 3) ∷ (pos 9, pos 9) ∷ []
unfolding program
generate_run = refl

merge_run : merge_ranges stored fetched ≡ (pos 0, pos 5) ∷ (pos 7, pos 9) ∷ []
unfolding program
merge_run = refl

gap_run : empty_ranges stored ≡ (pos 4, pos 6) ∷ []
unfolding program
gap_run = refl

merge_ranges-IsNormal_example : IsNormal (merge_ranges stored fetched)
unfolding ◌+ℤ◌
merge_ranges-IsNormal_example =
    merge_ranges-IsNormal stored fetched (omega arith, (omega arith, omega arith, tt))
      (omega arith, tt)

merge_ranges_semilattice_example :
    (merge_ranges stored fetched ≡ merge_ranges fetched stored)
    × (merge_ranges (merge_ranges stored fetched) fetched
        ≡ merge_ranges stored (merge_ranges fetched fetched))
    × (merge_ranges stored stored ≡ stored)
unfolding ◌+ℤ◌
merge_ranges_semilattice_example =
    merge_ranges_semilattice stored fetched fetched (omega arith, (omega arith, omega arith, tt))
      (omega arith, tt) (omega arith, tt)
