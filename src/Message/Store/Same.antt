-- ===== src/Message/Store/Same.antt =====
-- When two messages are the same: equal, but for the order in which the extensions hold their
-- entries. And what a good state is: the cache agrees with the table.
use roc_im_sdk.Prelude.{ℕ, ◌≡◌, refl, ◌∙◌, sym, ap, ◌⊎◌, ◌<◌, some, Str, str_eq, []}
use roc_im_sdk.UnorderedMap.{find}
use roc_im_sdk.Message.JsonText.{JsonValue}
use roc_im_sdk.Message.Cache.{Model}
use roc_im_sdk.Message.Cache.Overlay.{IsKeyed}
use roc_im_sdk.Message.Table.{Database, DatabaseLaws}
use roc_im_sdk.Message.Status.{Messages}
use roc_im_sdk.Message.Status.Coherence.{read, read_id}

abbrev plain : Model → Model
plain m = record m { sync_ext = []; local_ext = [] }

abbrev pub Same : Model → Model → Type 0
Same a b =
    (plain a ≡ plain b)
    × ((k : Str) → find k a.sync_ext ≡ find k b.sync_ext)
    × ((k : Str) → find k a.local_ext ≡ find k b.local_ext)

pub Same-refl : (m : Model) → Same m m
Same-refl m = (refl, λ k. refl, λ k. refl)

pub Same-id : (a b : Model) → Same a b → a.client_msg_id ≡ b.client_msg_id
Same-id a b s = ap (λ m. m.client_msg_id) s.0

module _ (parse : Str → Str ⊎ JsonValue) (serialize : JsonValue → Str) (db : Database)
    (laws : DatabaseLaws db) where
  -- The table has this message.
  abbrev pub Stored : Str → db.Table → Model → Type 0
  Stored k t v = (m : Model) × (read parse serialize db laws k t ≡ some m) × Same m v

  pub record IsGood (d : Messages db) : Type 0 where
    pub synced :
        (k : Str) (q : ℕ) → find k d.heap.cache ≡ some q → Stored k d.table (d.heap.objects q)
    pub below : (k : Str) (q : ℕ) → find k d.heap.cache ≡ some q → q < d.next

  pub IsGood-IsKeyed : (d : Messages db) → IsGood d → IsKeyed d.heap
  IsGood-IsKeyed d v k q hit =
      let (m, e, s) = v.synced k q hit in
      sym (Same-id m (d.heap.objects q) s) ∙ read_id parse serialize db laws k d.table m e
