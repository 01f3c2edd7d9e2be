-- ===== src/Ranges.antt =====
-- The message ranges of MessageDataSource (imsdk/src/core/message/private/data_source):
-- p_generateRange, p_mergeRanges and the scan of EmptyMessageRangeForConvId. A range is a pair of
-- int64_t sequence numbers, both ends included; the sums with 1 are those of ℤ.
pub mod Cover
pub mod Generate
pub mod Merge
pub mod Gaps
pub mod Canonical
mod Tests
use roc_im_sdk.Prelude.{
  Bool, ◌&&◌, ◌||◌, List, [], ◌∷◌, ◌++◌, if◌then◌else◌, ℤ, pos, ◌+ℤ◌, ◌-ℤ◌, ltb_ℤ, leb_ℤ, eqb_ℤ,
  max_ℤ,
}

abbrev pub Range : Type 0
Range = ℤ × ℤ

-- std::sort of int64_t.
unfoldable pub insert_seq : ℤ → List ℤ → List ℤ
insert_seq x [] = x ∷ []
insert_seq x (y ∷ ys) = if leb_ℤ x y then x ∷ y ∷ ys else y ∷ insert_seq x ys

unfoldable pub sort_seqs : List ℤ → List ℤ
sort_seqs [] = []
sort_seqs (x ∷ xs) = insert_seq x (sort_seqs xs)

-- The loop over the sorted numbers, with the variables `start` and `end`.
unfoldable pub generate_loop : ℤ → ℤ → List ℤ → List Range
generate_loop start end [] = (start, end) ∷ []
generate_loop start end (seq ∷ rest) =
    let extended = generate_loop start seq rest in
    let opened = (start, end) ∷ generate_loop seq seq rest in
    let kept = generate_loop start end rest in
    if eqb_ℤ seq (end +ℤ pos 1) then extended else if ltb_ℤ (end +ℤ pos 1) seq then opened else kept

unfoldable pub generate_sorted : List ℤ → List Range
generate_sorted [] = []
generate_sorted (first ∷ rest) = generate_loop first first (first ∷ rest)

unfoldable pub generate_range : List ℤ → List Range
unfolding generate_sorted
generate_range seqs = generate_sorted (sort_seqs seqs)

-- operator< of std::pair, the order of std::sort on ranges.
unfoldable pub range_leb : Range → Range → Bool
range_leb (l, h) (l', h') = ltb_ℤ l l' || (leb_ℤ l l' && leb_ℤ h h')

unfoldable pub insert_range : Range → List Range → List Range
insert_range r [] = r ∷ []
insert_range r (q ∷ rs) = if range_leb r q then r ∷ q ∷ rs else q ∷ insert_range r rs

unfoldable pub sort_ranges : List Range → List Range
sort_ranges [] = []
sort_ranges (r ∷ rs) = insert_range r (sort_ranges rs)

-- The loop of p_mergeRanges: `last` is the back of the result.
unfoldable pub merge_loop : Range → List Range → List Range
merge_loop last [] = last ∷ []
merge_loop (l, h) ((l', h') ∷ rest) =
    let joined = merge_loop (l, max_ℤ h h') rest in
    let apart = (l, h) ∷ merge_loop (l', h') rest in if leb_ℤ l' (h +ℤ pos 1) then joined else apart

unfoldable pub merge_sorted : List Range → List Range
merge_sorted [] = []
merge_sorted (r ∷ rs) = merge_loop r rs

unfoldable pub merge_ranges : List Range → List Range → List Range
merge_ranges [] second = second
merge_ranges (r ∷ rs) [] = r ∷ rs
merge_ranges (r ∷ rs) (q ∷ qs) = merge_sorted (sort_ranges ((r ∷ rs) ++ (q ∷ qs)))

-- The loop of EmptyMessageRangeForConvId, with the end of `last_range`.
unfoldable pub gap_loop : ℤ → List Range → List Range
gap_loop last [] = []
gap_loop last ((l, h) ∷ rest) =
    let rest_gaps = gap_loop h rest in
    if leb_ℤ (last +ℤ pos 1) (l -ℤ pos 1)
    then (last +ℤ pos 1, l -ℤ pos 1) ∷ rest_gaps
    else rest_gaps

unfoldable pub empty_ranges : List Range → List Range
empty_ranges rs = gap_loop (pos 0) rs
