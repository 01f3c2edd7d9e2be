-- ===== src/Message/Store/Coherence.antt =====
-- Whatever calls are made, the cache agrees with the table, and a message keeps its instance.
use roc_im_sdk.Prelude.{
  ℕ, ◌≡◌, refl, ◌∙◌, ◌≢◌, ◌⊎◌, inr, Bool, true, false, List, [], ◌∷◌, some, Str, ℤ, str_eq, All,
}
use roc_im_sdk.UnorderedMap.{find, IsDistinct}
use roc_im_sdk.Message.JsonText.{JsonValue, JsonObject, array, object, int_items}
use roc_im_sdk.Message.JsonText.Maps.{IsPrintable, texts_object}
use roc_im_sdk.Message.JsonText.Vectors.{IsInt32}
use roc_im_sdk.Message.Table.Merge.{IsUtf8Object}
use roc_im_sdk.Message.Cache.{Model}
use roc_im_sdk.Message.Table.{
  Database, DatabaseLaws, set_message_pin, set_message_deleted, set_message_recalled,
}
use roc_im_sdk.Message.Table.Extensions.{
  set_message_sync_ext, set_message_local_ext, set_message_propertys, merge_ext,
}
use roc_im_sdk.Message.Status.{Messages, Flag, pinned, deleted, recalled, after_db, update_status}
use roc_im_sdk.Message.Status.SetCached.{set_cached-find}
use roc_im_sdk.Message.Status.Coherence.{with_flag}
use roc_im_sdk.Message.Status.Extensions.{
  update_message_sync_ext_status, update_message_local_ext_status, update_message_propertys_status,
}
use roc_im_sdk.Message.Store.{
  Call, saves, finds, loads, flags, sets_sync_ext, sets_local_ext, sets_propertys, step, run,
}
use roc_im_sdk.Message.Store.Same.{IsGood}
use roc_im_sdk.Message.Store.Updates.{
  flag-IsGood, sync_ext-IsGood, local_ext-IsGood, propertys-IsGood,
}
use roc_im_sdk.Message.Store.Saves.{save-IsGood, save_keeps}
use roc_im_sdk.Message.Store.Reads.{sdk_msg-IsGood, load-IsGood, sdk_msg_keeps, load_keeps}

-- What the values of a call meet: the texts of an extension are UTF-8 and its keys have no NUL, and
-- the properties are int32_t.
abbrev pub IsValidCall : Call → Type 0
IsValidCall (saves _) = Unit {0}
IsValidCall (finds _) = Unit {0}
IsValidCall (loads _ _ _ _) = Unit {0}
IsValidCall (flags _ _ _) = Unit {0}
IsValidCall (sets_sync_ext _ ext) = IsPrintable ext
IsValidCall (sets_local_ext _ ext) = IsPrintable ext
IsValidCall (sets_propertys _ propertys) = All IsInt32 propertys

module _ (parse : Str → Str ⊎ JsonValue) (serialize : JsonValue → Str) (db : Database)
    (laws : DatabaseLaws db)
    (map_back : (m : List (Str × Str))
      → IsDistinct m
      → IsPrintable m
      → parse (serialize (object (texts_object m))) ≡ inr (object (texts_object m)))
    (vector_back : (v : List ℤ)
      → All IsInt32 v
      → parse (serialize (array (int_items v))) ≡ inr (array (int_items v)))
    (reads_utf8 : (t : Str) (o : JsonObject)
      → parse t ≡ inr (object o)
      → IsUtf8Object parse serialize o)
    (inhabited : (v : JsonValue) → serialize v ≢ []) (alive : Bool) where
  abbrev Good : Messages db → Type 0
  Good = IsGood parse serialize db laws

  abbrev do_step : Call → Messages db → Messages db
  do_step = step parse serialize db alive

  step-IsGood : (c : Call) (d : Messages db) → IsValidCall c → Good d → Good (do_step c d)
  unfolding step
  step-IsGood (saves rows) d h good = save-IsGood parse serialize db laws alive rows d good
  step-IsGood (finds id) d h good = sdk_msg-IsGood parse serialize db laws alive id d good
  step-IsGood (loads conv cursor limit forward) d h good =
      load-IsGood parse serialize db laws alive conv cursor limit forward d good
  step-IsGood (flags flag id b) d h good =
      flag-IsGood parse serialize db laws alive flag id b d good
  step-IsGood (sets_sync_ext id ext) d h good =
      sync_ext-IsGood parse serialize db laws map_back vector_back reads_utf8 inhabited alive id ext
        d h good
  step-IsGood (sets_local_ext id ext) d h good =
      local_ext-IsGood parse serialize db laws map_back vector_back reads_utf8 inhabited alive id
        ext d h good
  step-IsGood (sets_propertys id vec) d h good =
      propertys-IsGood parse serialize db laws map_back vector_back reads_utf8 inhabited alive id
        vec d h good

  after_db-find :
      (id : Str) (g : Model → Model) (r : Bool × db.Table) (d : Messages db) (k : Str)
      → find k (after_db db alive id g r d).1.heap.cache ≡ find k d.heap.cache
  unfolding after_db
  after_db-find id g (true, t) d k = set_cached-find id g d.heap k
  after_db-find id g (false, t) d k = refl

  update_status-find :
      (flag : Flag) (id : Str) (b : Bool) (d : Messages db) (k : Str)
      → find k (update_status db alive flag id b d).1.heap.cache ≡ find k d.heap.cache
  unfolding update_status
  update_status-find pinned id b d k =
      after_db-find id (with_flag pinned b) (set_message_pin db alive id b d.table) d k
  update_status-find deleted id b d k =
      after_db-find id (with_flag deleted b) (set_message_deleted db alive id b d.table) d k
  update_status-find recalled id b d k =
      after_db-find id (with_flag recalled b) (set_message_recalled db alive id b d.table) d k

  step_keeps :
      (c : Call) (d : Messages db)
      → Good d
      → (k : Str) (q : ℕ) → find k d.heap.cache ≡ some q
      → find k (do_step c d).heap.cache ≡ some q
  unfolding step update_message_sync_ext_status update_message_local_ext_status
      update_message_propertys_status
  step_keeps (saves rows) d good k q hit =
      save_keeps parse serialize db laws alive rows d good k q hit
  step_keeps (finds id) d good k q hit =
      sdk_msg_keeps parse serialize db laws alive id d good k q hit
  step_keeps (loads conv cursor limit forward) d good k q hit =
      load_keeps parse serialize db laws alive conv cursor limit forward d good k q hit
  step_keeps (flags flag id b) d good k q hit = update_status-find flag id b d k ∙ hit
  step_keeps (sets_sync_ext id ext) d good k q hit =
      after_db-find id (λ m. record m { sync_ext = merge_ext ext m.sync_ext })
        (set_message_sync_ext parse serialize db alive id ext d.table) d k
      ∙ hit
  step_keeps (sets_local_ext id ext) d good k q hit =
      after_db-find id (λ m. record m { local_ext = merge_ext ext m.local_ext })
        (set_message_local_ext parse serialize db alive id ext d.table) d k
      ∙ hit
  step_keeps (sets_propertys id vec) d good k q hit =
      after_db-find id (λ m. record m { propertys = vec })
        (set_message_propertys parse serialize db alive id vec d.table) d k
      ∙ hit

  -- Where boost::json gives back the objects of UTF-8 texts, with no NUL in their keys, and the arrays
  -- of int32_t values that it prints, reads UTF-8 only, and prints no empty text: whatever saves,
  -- lookups, loads and updates are made, with extensions of such texts and with int32_t properties,
  -- and whether SDKRoot is there or not and the table takes the writes or
  -- not: if every instance in the cache was what the table has for its message, up to the order of
  -- the entries of its extensions, this holds again afterwards.
  pub run-IsGood :
      (cs : List Call) (d : Messages db)
      → All IsValidCall cs
      → Good d
      → Good (run parse serialize db alive cs d)
  unfolding run
  run-IsGood [] d h good = good
  run-IsGood (c ∷ cs) d h good = run-IsGood cs (do_step c d) h.1 (step-IsGood c d h.0 good)

  -- Over the same calls, a message that has an instance keeps this instance: the pointer that was
  -- handed out for it is the one that is handed out later.
  run_keeps :
      (cs : List Call) (d : Messages db) (k : Str) (q : ℕ)
      → All IsValidCall cs
      → Good d
      → find k d.heap.cache ≡ some q
      → find k (run parse serialize db alive cs d).heap.cache ≡ some q
  unfolding run
  run_keeps [] d k q h good hit = hit
  run_keeps (c ∷ cs) d k q h good hit =
      run_keeps cs (do_step c d) k q h.1 (step-IsGood c d h.0 good) (step_keeps c d good k q hit)
