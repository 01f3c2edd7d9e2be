-- ===== src/Message/RangeStore/Update.antt =====
-- What an update makes of the ranges: the numbers of the messages are added, to the cache and to
-- the store alike.
use roc_im_sdk.Prelude.{
  ◌≡◌, refl, ◌∙◌, sym, true, List, [], ◌∷◌, Option, none, some, Str, str_eq, ◌==◌, str_beq_iff, ap,
  arith, ℤ, Bool-cases, inl, inr, ◌⊎◌, ◌↔◌, In, if◌then◌else◌, subst,
}
use roc_im_sdk.UnorderedMap.{find}
use roc_im_sdk.UnorderedMap.Laws.{find-assign}
use roc_im_sdk.Storage.{Mmkv, Laws}
use roc_im_sdk.Ranges.{Range, generate_range, merge_ranges}
use roc_im_sdk.Ranges.Cover.{Covers, IsNormal}
use roc_im_sdk.Ranges.Generate.{generate_range_exact}
use roc_im_sdk.Ranges.Merge.{Covers-merge_ranges, merge_ranges-IsNormal}
use roc_im_sdk.Message.RangeStore.{
  Json, array, Items, read_text, ranges_json, message_range_key, new_ranges, Ranges,
  save_message_range, message_range, put_ranges, finish_update, update_conv, update_groups,
  update_message_range, group_loop,
}
use roc_im_sdk.Message.RangeStore.Groups.{InGroups, InGroups_lem}
use roc_im_sdk.Message.RangeStore.Codec.{read_ranges-ranges_json, message_range_key_eq}

-- The new ranges cover what the store covers and the numbers.
new_ranges_lem :
    (seqs : List ℤ) (cached : Option (List Range)) (old : List Range)
    → ((r : List Range) → cached ≡ some r → r ≡ old)
    → IsNormal old
    → (new : List Range) × (new_ranges seqs cached (some old) ≡ some new)
      × IsNormal new
      × ((x : ℤ) → Covers x new ↔ (Covers x old ⊎ In x seqs))
unfolding new_ranges
new_ranges_lem seqs none old same n =
    let (exact, normal) = generate_range_exact seqs in
    let first = merge_ranges (generate_range seqs) old in
    (
      merge_ranges first [],
      refl,
      merge_ranges-IsNormal first [] (merge_ranges-IsNormal _ old normal n) tt,
      λ x. ground (
        arith,
        exact x,
        Covers-merge_ranges x first [],
        Covers-merge_ranges x (generate_range seqs) old,
      ),
    )
new_ranges_lem seqs (some r) old same n =
    let (exact, normal) = generate_range_exact seqs in
    let e = same r refl in
    (
      merge_ranges (generate_range seqs) r,
      refl,
      merge_ranges-IsNormal _ r normal (subst IsNormal (sym e) n),
      rw e (λ x. ground (arith, exact x, Covers-merge_ranges x (generate_range seqs) old)),
    )

some_inj : {A : Type 0} {x y : A} → some x ≡ some y → x ≡ y
some_inj e = cc e

abbrev pub or_nothing : Option (List Range) → List Range
or_nothing none = []
or_nothing (some r) = r

module _ (kv : Mmkv) (laws : Laws kv) (parse : Str → Option Json) (serialize : Items → Str)
    (read_back : (rs : List Range)
      → parse (serialize (ranges_json rs)) ≡ some (array (ranges_json rs)))
    (user_id : Str) where
  open kv use {Store, set_string, get_string}

  abbrev State : Type 0
  State = Ranges kv parse serialize user_id

  abbrev saved : Str → Store → Option (List Range)
  saved d s = message_range kv parse serialize user_id d s

  -- The store of every conversation can be read and is in normal form, and the cache agrees with it.
  pub record IsCoherent (s : State) : Type 0 where
    pub readable : (d : Str) → (r : List Range) × (saved d s.store ≡ some r) × IsNormal r
    pub cached : (d : Str) (r : List Range) → find d s.cache ≡ some r → saved d s.store ≡ some r

  saved-save :
      (c d : Str) (rs : List Range) (s : Store)
      → (set_string (message_range_key user_id c) (serialize (ranges_json rs)) s).0 ≡ true
      → saved d (save_message_range kv parse serialize user_id c rs s).1
        ≡ (if c == d then some rs else saved d s)
  unfolding message_range save_message_range
  saved-save c d rs s written =
      let text = serialize (ranges_json rs) in
      let law =
        laws.get_set_string (message_range_key user_id c) (message_range_key user_id d) text s in
      ap (read_text kv parse serialize user_id) law
      ∙ rw (message_range_key_eq user_id c d) (elim (Bool-cases (c == d)) [
        | inl same ↦
            rw (same, written)
              (unfold read_text in (rw (read_back rs) (ap some (read_ranges-ranges_json rs))))
        | inr differ ↦ rw differ
      ])

  -- The numbers that the store holds of a conversation.
  abbrev pub Holds : Str → ℤ → State → Type 0
  Holds d x s = Covers x (or_nothing (saved d s.store))

  saved-put :
      (c d : Str) (new : List Range) (s : State)
      → ((k t : Str) (u : Store) → (set_string k t u).0 ≡ true)
      → saved d (put_ranges kv parse serialize user_id c new s).store
        ≡ (if c == d then some new else saved d s.store)
  unfolding put_ranges
  saved-put c d new s writes = saved-save c d new s.store (writes _ _ _)

  put-IsCoherent :
      (c : Str) (new : List Range) (s : State)
      → ((k t : Str) (u : Store) → (set_string k t u).0 ≡ true)
      → IsNormal new
      → IsCoherent s
      → IsCoherent (put_ranges kv parse serialize user_id c new s)
  put-IsCoherent c new s writes normal v = record {
    readable = λ d. elim (Bool-cases (c == d)) [
      | inl same ↦ (new, saved-put c d new s writes ∙ rw same, normal)
      | inr differ ↦
          let (r, e, m) = v.readable d in (r, saved-put c d new s writes ∙ rw differ e, m)
    ];
    cached = λ d r e.
        unfold put_ranges in
        ground (arith, saved-put c d new s writes, find-assign c d new s.cache, v.cached d r);
  }

  Holds-put :
      (c d : Str) (x : ℤ) (old new : List Range) (seqs : List ℤ) (s : State)
      → ((k t : Str) (u : Store) → (set_string k t u).0 ≡ true)
      → saved c s.store ≡ some old
      → Covers x new ↔ (Covers x old ⊎ In x seqs)
      → Holds d x (put_ranges kv parse serialize user_id c new s)
        ↔ (Holds d x s ⊎ (((c == d) ≡ true) × In x seqs))
  Holds-put c d x old new seqs s writes read covers = elim (Bool-cases (c == d)) [
    | inl same ↦
        let e : saved d s.store ≡ some old =
          subst (λ i. saved i s.store ≡ some old) ((str_beq_iff c d).0 same) read in
        rw (saved-put c d new s writes) (rw (same, e) (ground (arith, covers)))
    | inr differ ↦ rw (saved-put c d new s writes) (rw differ (ground arith))
  ]

  update_conv_lem :
      (c : Str) (seqs : List ℤ) (s : State)
      → ((k t : Str) (u : Store) → (set_string k t u).0 ≡ true)
      → IsCoherent s
      → (s' : State) × (update_conv kv parse serialize user_id c seqs s ≡ some s')
        × IsCoherent s'
        × ((d : Str) (x : ℤ) → Holds d x s' ↔ (Holds d x s ⊎ (((c == d) ≡ true) × In x seqs)))
  unfolding update_conv
  update_conv_lem c seqs s writes v =
      let (old, read, n) = v.readable c in
      let agree : (r : List Range) → find c s.cache ≡ some r → r ≡ old =
        λ r e. some_inj (sym (v.cached c r e) ∙ read) in
      let (new, made, normal, covers) = new_ranges_lem seqs (find c s.cache) old agree n in
      let finish = finish_update kv parse serialize user_id c s in
      (
        put_ranges kv parse serialize user_id c new s,
        ap finish (ap (new_ranges seqs (find c s.cache)) read ∙ made),
        put-IsCoherent c new s writes normal v,
        λ d x. Holds-put c d x old new seqs s writes read (covers x),
      )

  update_groups_lem :
      (groups : List (Str × List ℤ)) (s : State)
      → ((k t : Str) (u : Store) → (set_string k t u).0 ≡ true)
      → IsCoherent s
      → (s' : State) × (update_groups kv parse serialize user_id groups s ≡ some s')
        × IsCoherent s'
        × ((d : Str) (x : ℤ) → Holds d x s' ↔ (Holds d x s ⊎ InGroups d x groups))
  unfolding update_groups
  update_groups_lem [] s writes v = (s, refl, v, λ d x. ground arith)
  update_groups_lem ((c, []) ∷ groups) s writes v =
      let (s', e, w, holds) = update_groups_lem groups s writes v in
      (s', e, w, λ d x. ground (arith, holds d x))
  update_groups_lem ((c, n ∷ ns) ∷ groups) s writes v =
      let (t, e, w, first) = update_conv_lem c (n ∷ ns) s writes v in
      let (s', e', w', rest) = update_groups_lem groups t writes w in
      (s', rw (e, update_groups) e', w', λ d x. ground (arith, first d x, rest d x))

  -- While SDKRoot is there and the writes succeed: p_updateMessageRangeForMessage adds to the ranges
  -- of each conversation the numbers of its messages in the batch, and nothing else; conversations
  -- without messages keep their ranges. Afterwards the ranges are again in normal form, and the
  -- cache agrees with what the store would give after a restart.
  pub update_message_range_exact :
      (msgs : List (Option (Str × ℤ))) (s : State)
      → ((k t : Str) (u : Store) → (set_string k t u).0 ≡ true)
      → IsCoherent s
      → (s' : State) × (update_message_range kv parse serialize user_id true msgs s ≡ some s')
        × IsCoherent s'
        × ((d : Str) (x : ℤ) → Holds d x s' ↔ (Holds d x s ⊎ In (some (d, x)) msgs))
  unfolding update_message_range
  update_message_range_exact [] s writes v = (s, refl, v, λ d x. ground arith)
  update_message_range_exact (m ∷ msgs) s writes v =
      let (s', e, w, holds) = update_groups_lem (group_loop (m ∷ msgs) []) s writes v in
      (s', e, w, λ d x. ground (arith, holds d x, InGroups_lem d x (m ∷ msgs)))
