-- ===== src/Message/RangeStore/Gaps.antt =====
-- What EmptyMessageRangeForConvId returns, from the cache or from the store.
use roc_im_sdk.Prelude.{
  ◌≡◌, refl, ◌∙◌, sym, ap, true, List, Option, some, Str, str_eq, ◌==◌, str_beq_iff, arith, ℤ, pos,
  ◌<ℤ◌, ◌≤ℤ◌, Bool-cases, Option-cases, inl, inr, ◌↔◌, subst,
}
use roc_im_sdk.UnorderedMap.{find, assign}
use roc_im_sdk.UnorderedMap.Laws.{find-assign}
use roc_im_sdk.Storage.{Mmkv, Laws}
use roc_im_sdk.Ranges.{Range, empty_ranges}
use roc_im_sdk.Ranges.Cover.{Covers}
use roc_im_sdk.Ranges.Gaps.{IsNonnegative, last_end, Covers-empty_ranges}
use roc_im_sdk.Message.RangeStore.{
  Json, array, Items, ranges_json, Ranges, message_range, message_range_for_conv_id,
  empty_message_range_for_conv_id,
}
use roc_im_sdk.Message.RangeStore.Update.{or_nothing, IsCoherent, Holds}

module _ (kv : Mmkv) (laws : Laws kv) (parse : Str → Option Json) (serialize : Items → Str)
    (read_back : (rs : List Range)
      → parse (serialize (ranges_json rs)) ≡ some (array (ranges_json rs)))
    (user_id : Str) where
  abbrev State : Type 0
  State = Ranges kv parse serialize user_id

  abbrev IsGood : State → Type 0
  IsGood s = IsCoherent kv laws parse serialize read_back user_id s

  abbrev saved : Str → State → Option (List Range)
  saved d s = message_range kv parse serialize user_id d s.store

  fill-IsCoherent :
      (d : Str) (r : List Range) (s : State)
      → saved d s ≡ some r
      → IsGood s
      → IsGood (record s { cache = assign d r s.cache })
  fill-IsCoherent d r s read v = record {
    readable = v.readable;
    cached = λ e q h. elim (Bool-cases (d == e)) [
      | inl same ↦
          let hit : some q ≡ some r = ground (arith, find-assign d e r s.cache, same) in
          subst (λ i. saved i s ≡ some r) ((str_beq_iff d e).0 same) read ∙ sym hit
      | inr differ ↦ v.cached e q (ground (arith, find-assign d e r s.cache))
    ];
  }

  -- p_messageRangeForConvId returns what the store holds, and at most fills the cache.
  lookup_lem :
      (d : Str) (r : List Range) (s : State)
      → saved d s ≡ some r
      → IsGood s
      → (s' : State) × (message_range_for_conv_id kv parse serialize user_id d s ≡ some (r, s'))
        × IsGood s'
        × (s'.store ≡ s.store)
  unfolding message_range_for_conv_id
  lookup_lem d r s read v = elim (Option-cases (find d s.cache)) [
    | inl miss ↦ (
      record s { cache = assign d r s.cache },
      rw (miss, message_range_for_conv_id) (rw (read, message_range_for_conv_id)),
      fill-IsCoherent d r s read v,
      refl,
    )
    | inr (q, hit) ↦
        let e : q ≡ r = ground (arith, v.cached d q hit, read) in
        (s, rw (hit, message_range_for_conv_id) (ap (λ t. some (t, s)) e), v, refl)
  ]

  -- While SDKRoot is there, and the stored ranges of the conversation begin at 0 or above:
  -- EmptyMessageRangeForConvId returns ranges that cover exactly the numbers from 1 up to the last
  -- stored one that the conversation does not hold. The call leaves the store alone, and the
  -- cache in agreement with it.
  pub empty_message_range_exact :
      (d : Str) (s : State)
      → IsGood s
      → IsNonnegative (or_nothing (saved d s))
      → (gaps : List Range) × (s' : State) × (empty_message_range_for_conv_id kv parse serialize
            user_id true d s
          ≡ some (gaps, s'))
        × IsGood s'
        × (s'.store ≡ s.store)
        × ((x : ℤ)
            → Covers x gaps ↔ (
                (pos 0 <ℤ x)
                × (x ≤ℤ last_end (pos 0) (or_nothing (saved d s)))
                × (¬ Holds kv laws parse serialize read_back user_id d x s)))
  unfolding empty_message_range_for_conv_id
  empty_message_range_exact d s v nonnegative =
      let (r, read, n) = v.readable d in
      let (s', e, w, kept) = lookup_lem d r s read v in
      let below : IsNonnegative r = subst (λ o. IsNonnegative (or_nothing o)) read nonnegative in
      (
        empty_ranges r,
        s',
        rw (e, empty_message_range_for_conv_id),
        w,
        kept,
        rw read (λ x. Covers-empty_ranges x r n below),
      )
