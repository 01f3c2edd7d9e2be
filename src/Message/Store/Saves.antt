-- ===== src/Message/Store/Saves.antt =====
-- New copies that the table has are taken into the cache, and the state stays good: for a save, for a
-- single message that is looked up, and for a page of a conversation.
use roc_im_sdk.Prelude.{
  ℕ, ◌<◌, ◌≡◌, refl, ◌∙◌, sym, ap, subst, ◌⊎◌, inl, inr, Bool, true, false, Option-cases, List, [],
  ◌∷◌, map, none, some, Str, str_eq, arith,
}
use roc_im_sdk.UnorderedMap.{find}
use roc_im_sdk.Message.JsonText.{JsonValue}
use roc_im_sdk.Message.Cache.{Model, Heap, update_msg_cache}
use roc_im_sdk.Message.Cache.Overlay.{known}
use roc_im_sdk.Message.Cache.Batch.{or_else, IsOverlay, update_msg_cache_overlays}
use roc_im_sdk.Message.Send.{MessageOrm}
use roc_im_sdk.Message.Table.{
  Database, DatabaseLaws, convert_db_msg, first_message, message_for_id, insert_all,
  insert_or_replace_message,
}
use roc_im_sdk.Message.Status.{Messages}
use roc_im_sdk.Message.Status.Coherence.{read}
use roc_im_sdk.Message.Store.{cache_copies, after_insert, save_to_db}
use roc_im_sdk.Message.Store.Same.{Same, Same-refl, Stored, IsGood, IsGood-IsKeyed}
use roc_im_sdk.Message.Store.Copies.{
  last_model, copies_of, copied, copied-cache, copied-table, copied-next, copied-objects,
  copies_of-Within, copies_of-AreFresh, last_copy-copies_of, update_msg_cache-Below,
}

module _ (parse : Str → Str ⊎ JsonValue) (serialize : JsonValue → Str) (db : Database)
    (laws : DatabaseLaws db) where
  abbrev Good : Messages db → Type 0
  Good = IsGood parse serialize db laws

  abbrev Has : Str → db.Table → Model → Type 0
  Has = Stored parse serialize db laws

  abbrev convert : MessageOrm → Model
  convert = convert_db_msg parse serialize

  -- New copies, taken into the cache.
  module _ (ms : List Model) (d : Messages db) (good : Good d) where
    abbrev start : Messages db
    start = copied ms d

    abbrev heap : Heap
    heap = (update_msg_cache true (copies_of ms d) start.heap).1

    start_below : (k : Str) (q : ℕ) → find k start.heap.cache ≡ some q → q < d.next
    start_below k q hit = good.below k q (ap (find k) (sym (copied-cache ms d)) ∙ hit)

    start-IsKeyed :
        (k : Str) (q : ℕ)
        → find k start.heap.cache ≡ some q
        → (start.heap.objects q).client_msg_id ≡ k
    start-IsKeyed k q hit =
        let there = ap (find k) (sym (copied-cache ms d)) ∙ hit in
        ap (λ m. m.client_msg_id) (copied-objects ms d q (good.below k q there))
        ∙ IsGood-IsKeyed parse serialize db laws d good k q there

    pub overlay :
        IsOverlay
          (copies_of ms d)
          start.heap
          (update_msg_cache true (copies_of ms d) start.heap).0
          heap
    overlay =
        update_msg_cache_overlays (copies_of ms d) start.heap start-IsKeyed
          (copies_of-AreFresh ms d start.heap start_below)

    -- What the cache knows of a message afterwards, in terms of the state before.
    known_after :
        (k : Str) (q : ℕ)
        → find k heap.cache ≡ some q
        → some (heap.objects q) ≡ or_else (last_model k ms) (known k start.heap)
    known_after k q hit = ground (arith, overlay.1 k, last_copy-copies_of k ms d, hit)

    known_before : (k : Str) (v : Model) → known k start.heap ≡ some v → Has k d.table v
    known_before k v h = elim (Option-cases (find k start.heap.cache)) [
      | inl miss ↦ absurd (ground (arith, miss))
      | inr (q, hit) ↦
          let there = ap (find k) (sym (copied-cache ms d)) ∙ hit in
          let same : d.heap.objects q ≡ v =
            sym (copied-objects ms d q (good.below k q there)) ∙ ground (arith, hit) in
          subst (Has k d.table) same (good.synced k q there)
    ]

    -- An instance that is in the cache stays.
    pub copies_keep : (k : Str) (q : ℕ) → find k d.heap.cache ≡ some q → find k heap.cache ≡ some q
    copies_keep k q hit = overlay.2 k q (ap (find k) (copied-cache ms d) ∙ hit)

    -- Over a table that has what they say.
    module _ (t : db.Table) (new : (k : Str) (m : Model) → last_model k ms ≡ some m → Has k t m)
        (old : (k : Str) (v : Model) → last_model k ms ≡ none → Has k d.table v → Has k t v) where
      cached_stored : (k : Str) (q : ℕ) → find k heap.cache ≡ some q → Has k t (heap.objects q)
      cached_stored k q hit = elim (Option-cases (last_model k ms)) [
        | inl none_new ↦
            old k (heap.objects q) none_new
              (known_before k (heap.objects q) (ground (arith, known_after k q hit, none_new)))
        | inr (m, last) ↦
            let same : m ≡ heap.objects q = ground (arith, known_after k q hit, last) in
            subst (Has k t) same (new k m last)
      ]

      pub copies-IsGood : Good (cache_copies true (copies_of ms d) (record start { table = t })).1
      unfolding cache_copies
      copies-IsGood = record {
        synced = cached_stored;
        below =
            update_msg_cache-Below d.next start.next (copies_of ms d) start.heap
              (copies_of-Within ms d)
              (λ k q hit. omega (arith, start_below k q hit, copied-next ms d));
      }

  -- The rows of a save, after the save.
  read-insert_all :
      (k : Str) (rows : List MessageOrm) (t : db.Table)
      → (insert_all db true rows t).0 ≡ true
      → first_message parse serialize (db.get_all_objects k (insert_all db true rows t).1)
        ≡ or_else
            (last_model k (map convert rows))
            (first_message parse serialize (db.get_all_objects k t))
  unfolding insert_all convert_db_msg first_message
  read-insert_all k [] t h = refl
  read-insert_all k (r ∷ rows) t h =
      let first = db.insert_or_replace_object r t in
      let ih = read-insert_all k rows first.1 (ground arith) in
      ground (arith, ih, laws.get_insert r k t)

  read-insert :
      (k : Str) (rows : List MessageOrm) (t : db.Table)
      → (insert_or_replace_message db true rows t).0 ≡ true
      → read parse serialize db laws k (insert_or_replace_message db true rows t).1
        ≡ or_else (last_model k (map convert rows)) (read parse serialize db laws k t)
  unfolding insert_or_replace_message message_for_id
  read-insert k rows t h =
      let (ok, same) = laws.get_commit (insert_all db true rows) k t h in
      ap (first_message parse serialize) same ∙ read-insert_all k rows t ok

  read-insert_failed :
      (k : Str) (rows : List MessageOrm) (t : db.Table)
      → (insert_or_replace_message db true rows t).0 ≡ false
      → read parse serialize db laws k (insert_or_replace_message db true rows t).1
        ≡ read parse serialize db laws k t
  unfolding insert_or_replace_message message_for_id
  read-insert_failed k rows t h =
      ap (first_message parse serialize) (laws.get_rollback (insert_all db true rows) k t h)

  abbrev inserted : List MessageOrm → Messages db → Bool × db.Table
  inserted rows d = insert_or_replace_message db true rows (copied (map convert rows) d).table

  after_insert-IsGood :
      (rows : List MessageOrm) (d : Messages db) (ret : Bool)
      → Good d
      → (inserted rows d).0 ≡ ret
      → Good
          (after_insert parse serialize db true
            (ret, (inserted rows d).1)
            (copies_of (map convert rows) d)
            (copied (map convert rows) d)).1
  unfolding after_insert
  after_insert-IsGood rows d true good h =
      let ms = map convert rows in
      let t = (copied ms d).table in
      copies-IsGood ms d good (inserted rows d).1
        (λ k m last. (m, read-insert k rows t h ∙ rw last refl, Same-refl m))
        λ k v none_new (m, e, s). (
          m,
          read-insert k rows t h
              ∙ rw none_new (ap (read parse serialize db laws k) (copied-table ms d) ∙ e),
          s,
        )
  after_insert-IsGood rows d false good h =
      let ms = map convert rows in
      record {
        synced = λ k q hit.
            let there = ap (find k) (sym (copied-cache ms d)) ∙ hit in
            let (m, e, s) = good.synced k q there in
            let same = sym (copied-objects ms d q (good.below k q there)) in
            (
              m,
              read-insert_failed k rows (copied ms d).table h
                  ∙ ap (read parse serialize db laws k) (copied-table ms d)
                  ∙ e,
              subst (Same m) same s,
            );
        below = λ k q hit.
            omega (
              arith,
              good.below k q (ap (find k) (sym (copied-cache ms d)) ∙ hit),
              copied-next ms d,
            );
      }

  pub save-IsGood :
      (alive : Bool) (rows : List MessageOrm) (d : Messages db)
      → Good d
      → Good (save_to_db parse serialize db alive rows d).1
  unfolding save_to_db
  save-IsGood false rows d good = good
  save-IsGood true rows d good = after_insert-IsGood rows d (inserted rows d).0 good refl

  after_insert_keeps :
      (rows : List MessageOrm) (d : Messages db) (ret : Bool)
      → Good d
      → (k : Str) (q : ℕ) → find k d.heap.cache ≡ some q
      → find k
          (after_insert parse serialize db true
            (ret, (inserted rows d).1)
            (copies_of (map convert rows) d)
            (copied (map convert rows) d)).1.heap.cache
        ≡ some q
  unfolding after_insert cache_copies
  after_insert_keeps rows d true good k q hit = copies_keep (map convert rows) d good k q hit
  after_insert_keeps rows d false good k q hit =
      ap (find k) (copied-cache (map convert rows) d) ∙ hit

  pub save_keeps :
      (alive : Bool) (rows : List MessageOrm) (d : Messages db)
      → Good d
      → (k : Str) (q : ℕ) → find k d.heap.cache ≡ some q
      → find k (save_to_db parse serialize db alive rows d).1.heap.cache ≡ some q
  unfolding save_to_db
  save_keeps false rows d good k q hit = hit
  save_keeps true rows d good k q hit = after_insert_keeps rows d (inserted rows d).0 good k q hit
