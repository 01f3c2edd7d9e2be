-- ===== src/Message/Store/Lookup.antt =====
-- What SdkMsgForId gives.
use roc_im_sdk.Prelude.{
  ℕ, ◌≡◌, refl, ◌∙◌, sym, ap, ◌≢◌, ◌⊎◌, inl, inr, true, Option-cases, List, [], ◌∷◌, map, Option,
  none, some, Str, str_eq, arith, eqb_iff, subst,
}
use roc_im_sdk.UnorderedMap.{find}
use roc_im_sdk.Message.JsonText.{JsonValue}
use roc_im_sdk.Message.Cache.{Model, update_msg_cache, set_object}
use roc_im_sdk.Message.Table.{Database, DatabaseLaws, message_for_id}
use roc_im_sdk.Message.Status.{Messages}
use roc_im_sdk.Message.Status.Coherence.{read, read_id}
use roc_im_sdk.Message.Store.{
  front, make_copies, cache_models, cache_copies, cache_found, sdk_msg_at_once, sdk_msg_on_strand,
  sdk_msg_for_id,
}
use roc_im_sdk.Message.Store.Same.{Same, IsGood}
use roc_im_sdk.Message.Store.Copies.{copies_of, copied, copied-table}
use roc_im_sdk.Message.Store.Saves.{overlay}
use roc_im_sdk.Message.Store.Reads.{found-IsGood}

front_lem :
    (ps : List ℕ) (q : Option ℕ)
    → map some ps ≡ q ∷ []
    → (p : ℕ) × (front ps ≡ some p) × (q ≡ some p)
unfolding front
front_lem [] q h = absurd (cc h)
front_lem (p ∷ []) q h = (p, refl, cc h)
front_lem (p ∷ p' ∷ ps) q h = absurd (cc h)

module _ (parse : Str → Str ⊎ JsonValue) (serialize : JsonValue → Str) (db : Database)
    (laws : DatabaseLaws db) where
  abbrev look : Str → Messages db → Option ℕ × Messages db
  look = sdk_msg_for_id parse serialize db true

  -- The instance of a message that comes from the table is the one that the cache has then.
  found_front :
      (m : Model) (d : Messages db)
      → IsGood parse serialize db laws d
      → let r = cache_found parse serialize db true (some m) d in
        (q : ℕ) × (r.0 ≡ some q)
        × (find m.client_msg_id r.1.heap.cache ≡ some q)
        × (r.1.table ≡ d.table)
  unfolding cache_found cache_models cache_copies make_copies set_object
  found_front m d good =
      let returned = (overlay parse serialize db laws (m ∷ []) d good).3 in
      let here : (copied (m ∷ []) d).heap.objects d.next ≡ m =
        ground (arith, eqb_iff d.next d.next) in
      let (q, first, found) =
        front_lem (update_msg_cache true (copies_of (m ∷ []) d) (copied (m ∷ []) d).heap).0
          (find m.client_msg_id
            (update_msg_cache true (copies_of (m ∷ []) d) (copied (m ∷ []) d).heap).1.cache)
          (returned
            ∙ ap
                (λ x.
                  find x.client_msg_id
                    (update_msg_cache true (copies_of (m ∷ []) d) (copied (m ∷ []) d).heap).1.cache
                  ∷ [])
                here) in
      (q, first, found, copied-table (m ∷ []) d)

  -- What a lookup comes to.
  abbrev pub IsFound : Str → Messages db → Option ℕ × Messages db → Type 0
  IsFound id d r =
      (r.1.table ≡ d.table)
      × (read parse serialize db laws id d.table ≡ none → r.0 ≡ none)
      × ((m : Model)
          → read parse serialize db laws id d.table ≡ some m
          → (q : ℕ) × (r.0 ≡ some q)
            × (find id r.1.heap.cache ≡ some q)
            × Same m (r.1.heap.objects q))

  stored_content :
      (id : Str) (d d' : Messages db) (m : Model) (q : ℕ)
      → IsGood parse serialize db laws d'
      → d'.table ≡ d.table
      → read parse serialize db laws id d.table ≡ some m
      → find id d'.heap.cache ≡ some q
      → Same m (d'.heap.objects q)
  stored_content id d d' m q good same e hit =
      let (m', e', s) = good.synced id q hit in
      let one : m' ≡ m = cc (sym e' ∙ ap (read parse serialize db laws id) same ∙ e) in
      subst (λ x. Same x (d'.heap.objects q)) one s

  from_table :
      (id : Str) (d : Messages db) (r : Option Model)
      → read parse serialize db laws id d.table ≡ r
      → IsGood parse serialize db laws d
      → IsGood parse serialize db laws (cache_found parse serialize db true r d).1
      → IsFound id d (cache_found parse serialize db true r d)
  unfolding cache_found
  from_table id d none e good good' = (refl, λ h. refl, λ m h. absurd (cc (sym e ∙ h)))
  from_table id d (some m) e good good' =
      let (q, first, found, same) = found_front m d good in
      let name = read_id parse serialize db laws id d.table m e in
      let d' = (cache_found parse serialize db true (some m) d).1 in
      let hit = ap (λ k. find k d'.heap.cache) (sym name) ∙ found in
      (
        same,
        λ h. absurd (cc (sym e ∙ h)),
        λ m' h. (q, first, hit, stored_content id d d' m' q good' same h hit),
      )

  lookup_miss :
      (c : ℕ) (cs : Str) (d : Messages db)
      → find (c ∷ cs) d.heap.cache ≡ none
      → sdk_msg_for_id parse serialize db true (c ∷ cs) d
        ≡ cache_found parse serialize db true (message_for_id parse serialize db (c ∷ cs) d.table) d
  unfolding sdk_msg_for_id sdk_msg_at_once sdk_msg_on_strand
  lookup_miss c cs d miss = ground (arith, miss)

  lookup_hit :
      (c : ℕ) (cs : Str) (d : Messages db) (q : ℕ)
      → find (c ∷ cs) d.heap.cache ≡ some q
      → sdk_msg_for_id parse serialize db true (c ∷ cs) d ≡ (some q, d)
  unfolding sdk_msg_for_id sdk_msg_at_once sdk_msg_on_strand
  lookup_hit c cs d q hit = ground (arith, hit)

  -- While SDKRoot is there, the id is not empty, and every instance in the cache is what the table
  -- has: SdkMsgForId gives no message if the table has none with this id, and otherwise the
  -- instance that the cache has for the id from then on, with the content that the table has; the
  -- table is not changed.
  pub sdk_msg_for_id_lem :
      (id : Str) (d : Messages db)
      → id ≢ []
      → IsGood parse serialize db laws d
      → IsFound id d (sdk_msg_for_id parse serialize db true id d)
  sdk_msg_for_id_lem [] d ne good = absurd (ne refl)
  sdk_msg_for_id_lem (c ∷ cs) d ne good = elim (Option-cases (find (c ∷ cs) d.heap.cache)) [
    | inl miss ↦ subst (IsFound (c ∷ cs) d) (sym (lookup_miss c cs d miss)) (
        from_table (c ∷ cs) d (message_for_id parse serialize db (c ∷ cs) d.table) refl good (
          found-IsGood parse serialize db laws (c ∷ cs) d
            (message_for_id parse serialize db (c ∷ cs) d.table) good refl))
    | inr (q, hit) ↦
        let (m, e, s) = good.synced (c ∷ cs) q hit in
        subst (IsFound (c ∷ cs) d) (sym (lookup_hit c cs d q hit)) (
          refl,
          λ h. absurd (cc (sym h ∙ e)),
          λ m' h. (q, refl, hit, stored_content (c ∷ cs) d d m' q good refl h hit),
        )
  ]
