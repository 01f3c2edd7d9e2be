-- ===== src/Message/Store/Reads.antt =====
-- The reads keep a good state: the message that is looked up, and a page of a conversation.
use roc_im_sdk.Prelude.{
  ℕ, ◌≡◌, refl, ◌∙◌, sym, ap, subst, ◌⊎◌, inl, inr, Bool, true, false, Option-cases, List, [], ◌∷◌,
  map, Option, none, some, Str, ℤ, str_eq, str_beq_iff, arith, All,
}
use roc_im_sdk.UnorderedMap.{find}
use roc_im_sdk.Message.JsonText.{JsonValue}
use roc_im_sdk.Message.Cache.{Model}
use roc_im_sdk.Message.Send.{MessageOrm}
use roc_im_sdk.Message.Table.{
  Database, DatabaseLaws, convert_db_msg, first_message, message_for_id, is_in_page, convert_rows,
  query_messages,
}
use roc_im_sdk.Message.Status.{Messages}
use roc_im_sdk.Message.Status.Coherence.{read, read_id}
use roc_im_sdk.Message.Store.{
  cache_copies, cache_models, cache_found, sdk_msg_at_once, sdk_msg_on_strand, sdk_msg_for_id,
  load_message_from_db,
}
use roc_im_sdk.Message.Store.Same.{Same, Same-refl, Stored, IsGood}
use roc_im_sdk.Message.Store.Saves.{copies-IsGood, copies_keep}
use roc_im_sdk.Message.Store.Copies.{last_model, copies_of, copied, copied-table}

module _ (parse : Str → Str ⊎ JsonValue) (serialize : JsonValue → Str) (db : Database)
    (laws : DatabaseLaws db) where
  abbrev Good : Messages db → Type 0
  Good = IsGood parse serialize db laws

  abbrev Has : Str → db.Table → Model → Type 0
  Has = Stored parse serialize db laws

  abbrev convert : MessageOrm → Model
  convert = convert_db_msg parse serialize

  -- Copies of what the table has.
  module _ (ms : List Model) (d : Messages db) (good : Good d)
      (stored : (k : Str) (m : Model) → last_model k ms ≡ some m → Has k d.table m) where
    pub models-IsGood : Good (cache_models true ms d).1
    unfolding cache_models cache_copies
    models-IsGood =
        subst
          (λ t. Good (cache_copies true (copies_of ms d) (record (copied ms d) { table = t })).1)
          (sym (copied-table ms d))
          (copies-IsGood parse serialize db laws ms d good d.table stored (λ k v h s. s))

  models_keep :
      (ms : List Model) (d : Messages db)
      → Good d
      → (k : Str) (q : ℕ) → find k d.heap.cache ≡ some q
      → find k (cache_models true ms d).1.heap.cache ≡ some q
  unfolding cache_models cache_copies
  models_keep ms d good k q hit = copies_keep parse serialize db laws ms d good k q hit

  pub found-IsGood :
      (id : Str) (d : Messages db) (r : Option Model)
      → Good d
      → read parse serialize db laws id d.table ≡ r
      → Good (cache_found parse serialize db true r d).1
  unfolding cache_found
  found-IsGood id d none good e = good
  found-IsGood id d (some m) good e = models-IsGood (m ∷ []) d good λ k v last.
      let name : id ≡ k =
        sym (read_id parse serialize db laws id d.table m e)
        ∙ ground (arith, str_beq_iff m.client_msg_id k, last) in
      let same : m ≡ v = ground (arith, str_beq_iff m.client_msg_id k, last) in
      subst (λ j. Has j d.table v) name (m, e, subst (Same m) same (Same-refl m))

  pub strand-IsGood :
      (alive : Bool) (id : Str) (d : Messages db)
      → Good d
      → Good (sdk_msg_on_strand parse serialize db alive id d).1
  unfolding sdk_msg_on_strand
  strand-IsGood false id d good = good
  strand-IsGood true id d good = elim (Option-cases (find id d.heap.cache)) [
    | inl miss ↦
        rw (miss, sdk_msg_on_strand)
          (found-IsGood id d (message_for_id parse serialize db id d.table) good refl)
    | inr (q, hit) ↦ rw (hit, sdk_msg_on_strand) good
  ]

  pub sdk_msg-IsGood :
      (alive : Bool) (id : Str) (d : Messages db)
      → Good d
      → Good (sdk_msg_for_id parse serialize db alive id d).1
  unfolding sdk_msg_for_id
  sdk_msg-IsGood alive id d good = elim (Option-cases (sdk_msg_at_once alive id d.heap)) [
    | inl later ↦ rw (later, sdk_msg_for_id) (strand-IsGood alive id d good)
    | inr (r, at_once) ↦ rw (at_once, sdk_msg_for_id) good
  ]

  last_model-rows :
      (k : Str) (m : Model) (condition : MessageOrm → Bool) (t : db.Table) (rows : List MessageOrm)
      → All
          (λ r. (condition r ≡ true) × (db.get_all_objects r.client_msg_id t ≡ some (r ∷ [])))
          rows
      → last_model k (map convert rows) ≡ some m
      → read parse serialize db laws k t ≡ some m
  unfolding message_for_id first_message convert_db_msg
  last_model-rows k m condition t [] a h = absurd (cc h)
  last_model-rows k m condition t (r ∷ rows) a h =
      elim (Option-cases (last_model k (map convert rows))) [
        | inl last ↦
            let name : r.client_msg_id ≡ k =
              ground (arith, h, last, str_beq_iff r.client_msg_id k) in
            let same : convert r ≡ m = ground (arith, h, last, str_beq_iff r.client_msg_id k) in
            let here : db.get_all_objects k t ≡ some (r ∷ []) =
              ap (λ j. db.get_all_objects j t) (sym name) ∙ a.0.1 in
            ap (first_message parse serialize) here ∙ ap some same
        | inr (v, later) ↦
            last_model-rows k m condition t rows a.1 (later ∙ ground (arith, h, later))
      ]

  page_stored :
      (d : Messages db) (conv_id : Str) (cursor limit : ℤ) (forward : Bool) (k : Str) (m : Model)
      → last_model k (query_messages parse serialize db true conv_id cursor limit forward d.table)
        ≡ some m
      → Has k d.table m
  unfolding query_messages convert_rows
  page_stored d conv_id cursor limit forward k m h =
      let condition = is_in_page conv_id cursor forward in
      elim (Option-cases (db.get_ordered condition limit d.table)) [
        | inl failed ↦ absurd (ground (arith, failed))
        | inr (rows, got) ↦ (
          m,
          last_model-rows k m condition d.table rows
              (laws.ordered_rows condition limit d.table rows got) (ground (arith, h, got)),
          Same-refl m,
        )
      ]

  pub load-IsGood :
      (alive : Bool) (conv_id : Str) (cursor limit : ℤ) (forward : Bool) (d : Messages db)
      → Good d
      → Good (load_message_from_db parse serialize db alive conv_id cursor limit forward d).1
  unfolding load_message_from_db
  load-IsGood false conv_id cursor limit forward d good = good
  load-IsGood true conv_id cursor limit forward d good =
      models-IsGood (query_messages parse serialize db true conv_id cursor limit forward d.table) d
        good (page_stored d conv_id cursor limit forward)

  found_keeps :
      (d : Messages db) (r : Option Model)
      → Good d
      → (k : Str) (q : ℕ) → find k d.heap.cache ≡ some q
      → find k (cache_found parse serialize db true r d).1.heap.cache ≡ some q
  unfolding cache_found
  found_keeps d none good k q hit = hit
  found_keeps d (some m) good k q hit = models_keep (m ∷ []) d good k q hit

  pub strand_keeps :
      (alive : Bool) (id : Str) (d : Messages db)
      → Good d
      → (k : Str) (q : ℕ) → find k d.heap.cache ≡ some q
      → find k (sdk_msg_on_strand parse serialize db alive id d).1.heap.cache ≡ some q
  unfolding sdk_msg_on_strand
  strand_keeps false id d good k q hit = hit
  strand_keeps true id d good k q hit = elim (Option-cases (find id d.heap.cache)) [
    | inl miss ↦
        rw (miss, sdk_msg_on_strand)
          (found_keeps d (message_for_id parse serialize db id d.table) good k q hit)
    | inr (p, there) ↦ rw (there, sdk_msg_on_strand) hit
  ]

  pub sdk_msg_keeps :
      (alive : Bool) (id : Str) (d : Messages db)
      → Good d
      → (k : Str) (q : ℕ) → find k d.heap.cache ≡ some q
      → find k (sdk_msg_for_id parse serialize db alive id d).1.heap.cache ≡ some q
  unfolding sdk_msg_for_id
  sdk_msg_keeps alive id d good k q hit = elim (Option-cases (sdk_msg_at_once alive id d.heap)) [
    | inl later ↦ rw (later, sdk_msg_for_id) (strand_keeps alive id d good k q hit)
    | inr (r, at_once) ↦ rw (at_once, sdk_msg_for_id) hit
  ]

  pub load_keeps :
      (alive : Bool) (conv_id : Str) (cursor limit : ℤ) (forward : Bool) (d : Messages db)
      → Good d
      → (k : Str) (q : ℕ) → find k d.heap.cache ≡ some q
      → find k
          (load_message_from_db parse serialize db alive conv_id cursor limit forward
            d).1.heap.cache
        ≡ some q
  unfolding load_message_from_db
  load_keeps false conv_id cursor limit forward d good k q hit = hit
  load_keeps true conv_id cursor limit forward d good k q hit =
      models_keep (query_messages parse serialize db true conv_id cursor limit forward d.table) d
        good k q hit
