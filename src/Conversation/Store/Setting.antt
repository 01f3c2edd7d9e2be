-- ===== src/Conversation/Store/Setting.antt =====
-- A write of a setting of a conversation, in its row and in its instance: the two stay in agreement.
use roc_im_sdk.Conversation.Model.{ConvModel}
use roc_im_sdk.Message.Table.Extensions.{merge_ext}
use roc_im_sdk.Prelude.{
  ℕ, ◌≡◌, refl, ◌∙◌, ap, sym, subst, Bool, true, false, ◌&&◌, List, ◌∷◌, Option, none, some, Str,
  ◌==◌, str_eq, str_beq_iff, eqb, eqb_iff, Bool-cases, Option-cases, inl, inr, map,
}
use roc_im_sdk.UnorderedMap.{find}
use roc_im_sdk.Message.Table.{Database}
use roc_im_sdk.Conversation.Table.{ConversationOrm, ConvDatabase, ConvLaws, map_rows}
use roc_im_sdk.Conversation.Store.{Conversations, set_object, set_cached, after_db}

abbrev pub SameFlags : ConversationOrm → ConvModel → Type 0
SameFlags r m =
    (r.is_top ≡ m.is_top)
    × (r.is_muted ≡ m.is_muted)
    × (r.is_blocked ≡ m.is_blocked)
    × (r.is_deleted ≡ m.is_deleted)

module _ (db : ConvDatabase) (mdb : Database) where
  abbrev State : Type 0
  State = Conversations db mdb

  -- The row of a conversation has the settings of an instance.
  abbrev pub Agrees : Str → db.Table → ConvModel → Type 0
  Agrees k t m =
      (r : ConversationOrm) × (rows : List ConversationOrm) × (db.get_all_objects k t
        ≡ some (r ∷ rows))
      × SameFlags r m

  -- Each instance in the cache stands under its id and has the settings of the row.
  abbrev pub IsSynced : State → Type 0
  IsSynced d =
      (k : Str) (q : ℕ)
      → find k d.cache ≡ some q
      → ((d.objects q).conversation_id ≡ k) × Agrees k d.table (d.objects q)

-- A write of a setting, in a row and in an instance.
pub record Setting : Type 0 where
  pub row : ConversationOrm → ConversationOrm
  pub model : ConvModel → ConvModel
  pub row_id : (r : ConversationOrm) → (row r).conversation_id ≡ r.conversation_id
  pub model_id : (m : ConvModel) → (model m).conversation_id ≡ m.conversation_id
  pub keeps : (r : ConversationOrm) (m : ConvModel) → SameFlags r m → SameFlags (row r) (model m)

module _ (db : ConvDatabase) (laws : ConvLaws db) (mdb : Database) (s : Setting) (id : Str)
    (d : Conversations db mdb) (synced : IsSynced db mdb d) where
  abbrev pub written : Bool × db.Table
  written = db.update_object s.row id d.table

  abbrev pub reads : Str → Option (List ConversationOrm)
  reads k = db.get_all_objects k written.1

  reads_other : (k : Str) → (written.0 && id == k) ≡ false → reads k ≡ db.get_all_objects k d.table
  reads_other k e = laws.get_update s.row id k d.table s.row_id ∙ rw e refl

  pub reads_same :
      (k : Str)
      → (written.0 && id == k) ≡ true
      → reads k ≡ map_rows s.row (db.get_all_objects k d.table)
  reads_same k e = laws.get_update s.row id k d.table s.row_id ∙ rw e refl

  -- A conversation that the write is not about.
  other_Agrees :
      (k : Str) (m : ConvModel)
      → (written.0 && id == k) ≡ false
      → Agrees db mdb k d.table m
      → Agrees db mdb k written.1 m
  other_Agrees k m e (r, rows, read, same) = (r, rows, reads_other k e ∙ read, same)

  same_Agrees :
      (k : Str) (m : ConvModel)
      → (written.0 && id == k) ≡ true
      → Agrees db mdb k d.table m
      → Agrees db mdb k written.1 (s.model m)
  same_Agrees k m e (r, rows, read, same) =
      (s.row r, map s.row rows, reads_same k e ∙ ap (map_rows s.row) read, s.keeps r m same)

  failed-IsSynced : written.0 ≡ false → IsSynced db mdb (record d { table = written.1 })
  failed-IsSynced e k q hit =
      let (named, agrees) = synced k q hit in
      (named, other_Agrees k (d.objects q) (rw e refl) agrees)

  abbrev d' : Conversations db mdb
  d' = record d { table = written.1 }

  -- Nothing is cached for the conversation.
  uncached-IsSynced : written.0 ≡ true → find id d.cache ≡ none → IsSynced db mdb d'
  uncached-IsSynced e miss k q hit =
      let (named, agrees) = synced k q hit in
      elim (Bool-cases (id == k)) [
        | inl same ↦
            absurd (cc (sym miss ∙ ap (λ j. find j d.cache) ((str_beq_iff id k).0 same) ∙ hit))
        | inr differ ↦ (named, other_Agrees k (d.objects q) (rw (e, differ) refl) agrees)
      ]

  module _ (q' : ℕ) (here : find id d.cache ≡ some q') where
    abbrev changed : Conversations db mdb
    changed = set_object q' (s.model (d.objects q')) d'

    same_object : (k : Str) (q : ℕ) → find k d.cache ≡ some q → (id == k) ≡ true → q' ≡ q
    same_object k q hit e =
        let there : some q' ≡ some q =
          sym here ∙ ap (λ j. find j d.cache) ((str_beq_iff id k).0 e) ∙ hit in
        cc there

    other_object :
        (k : Str) (q : ℕ) → find k d.cache ≡ some q → (id == k) ≡ false → eqb q' q ≡ false
    other_object k q hit e = elim (Bool-cases (eqb q' q)) [
      | inl same ↦
          let there : id ≡ k =
            sym (synced id q' here).0
            ∙ ap (λ j. (d.objects j).conversation_id) ((eqb_iff q' q).0 same)
            ∙ (synced k q hit).0 in
          absurd (cc (sym e ∙ (str_beq_iff id k).1 there))
      | inr differ ↦ differ
    ]

    changed-IsSynced : written.0 ≡ true → IsSynced db mdb changed
    unfolding set_object
    changed-IsSynced e k q hit =
        let (named, agrees) = synced k q hit in
        elim (Bool-cases (id == k)) [
          | inl same ↦
              let self = (eqb_iff q' q).1 (same_object k q hit same) in
              let content = ap (λ j. s.model (d.objects j)) (same_object k q hit same) in
              rw (self, content)
                (
                  s.model_id (d.objects q) ∙ named,
                  same_Agrees k (d.objects q) (rw (e, same) refl) agrees,
                )
          | inr differ ↦
              rw (other_object k q hit differ)
                (named, other_Agrees k (d.objects q) (rw (e, differ) refl) agrees)
        ]

    set_cached_hit : set_cached id s.model d' ≡ changed
    unfolding set_cached
    set_cached_hit = rw (here, set_cached) refl

  set_cached_miss : find id d.cache ≡ none → set_cached id s.model d' ≡ d'
  unfolding set_cached
  set_cached_miss miss = rw (miss, set_cached) refl

  written-IsSynced : written.0 ≡ true → IsSynced db mdb (set_cached id s.model d')
  written-IsSynced e = elim (Option-cases (find id d.cache)) [
    | inl miss ↦ subst (IsSynced db mdb) (sym (set_cached_miss miss)) (uncached-IsSynced e miss)
    | inr (q', here) ↦
        subst (IsSynced db mdb) (sym (set_cached_hit q' here)) (changed-IsSynced q' here e)
  ]

  pub after_db-IsSynced :
      (ok : Bool) → written.0 ≡ ok → IsSynced db mdb (after_db id s.model (ok, written.1) d).1
  unfolding after_db
  after_db-IsSynced true e = written-IsSynced e
  after_db-IsSynced false e = failed-IsSynced e

abbrev pub set_top : Bool → Setting
set_top b = record {
  row = λ r. record r { is_top = b };
  model = λ m. record m { is_top = b };
  row_id = λ r. refl;
  model_id = λ m. refl;
  keeps = λ r m (t, u, l, e). (refl, u, l, e);
}

abbrev pub set_mute : Bool → Setting
set_mute b = record {
  row = λ r. record r { is_muted = b };
  model = λ m. record m { is_muted = b };
  row_id = λ r. refl;
  model_id = λ m. refl;
  keeps = λ r m (t, u, l, e). (t, refl, l, e);
}

abbrev pub set_block : Bool → Setting
set_block b = record {
  row = λ r. record r { is_blocked = b };
  model = λ m. record m { is_blocked = b };
  row_id = λ r. refl;
  model_id = λ m. refl;
  keeps = λ r m (t, u, l, e). (t, u, refl, e);
}

abbrev pub set_deleted : Setting
set_deleted = record {
  row = λ r. record r { is_deleted = true };
  model = λ m. record m { is_deleted = true };
  row_id = λ r. refl;
  model_id = λ m. refl;
  keeps = λ r m (t, u, l, e). (t, u, l, refl);
}

abbrev pub set_sync_ext : Str → List (Str × Str) → Setting
set_sync_ext text ext = record {
  row = λ r. record r { sync_ext = text };
  model = λ m. record m { sync_ext = merge_ext ext m.sync_ext };
  row_id = λ r. refl;
  model_id = λ m. refl;
  keeps = λ r m same. same;
}

abbrev pub set_local_ext : Str → List (Str × Str) → Setting
set_local_ext text ext = record {
  row = λ r. record r { local_ext = text };
  model = λ m. record m { local_ext = merge_ext ext m.local_ext };
  row_id = λ r. refl;
  model_id = λ m. refl;
  keeps = λ r m same. same;
}
