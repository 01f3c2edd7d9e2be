-- ===== src/Storage.antt =====
-- MMKV, the key-value store that the SDK keeps its ranges, orders and cursors in. It is a library:
-- its operations are parameters, and `Laws` is what its documentation promises of them.
pub mod Instance
use roc_im_sdk.Prelude.{◌≡◌, Bool, true, false, Option, some, Str, ℤ, if◌then◌else◌, ◌==◌, str_eq}

-- `set` returns whether the write succeeded; `getInt64` takes a default, and `getString` fails on a
-- key that is not there.
pub record Mmkv : Type 1 where
  pub Store : Type 0
  pub set_int64 : Str → ℤ → Store → Bool × Store
  pub get_int64 : Str → ℤ → Store → ℤ
  pub set_string : Str → Str → Store → Bool × Store
  pub get_string : Str → Store → Option Str

-- A write that succeeds is read back under its key and leaves the other keys alone; one that fails
-- changes nothing that can be read.
pub record Laws (kv : Mmkv) : Type 0 where
  pub get_set_int64 :
      (k j : Str) (v d : ℤ) (s : kv.Store)
      → kv.get_int64 j d (kv.set_int64 k v s).1 ≡ (
          if k == j
          then (if (kv.set_int64 k v s).0 then v else kv.get_int64 j d s)
          else kv.get_int64 j d s)
  pub get_set_string :
      (k j v : Str) (s : kv.Store)
      → kv.get_string j (kv.set_string k v s).1 ≡ (
          if k == j
          then (if (kv.set_string k v s).0 then some v else kv.get_string j s)
          else kv.get_string j s)
  pub int64_string :
      (k j : Str) (v : ℤ) (s : kv.Store)
      → (k == j) ≡ false
      → kv.get_string j (kv.set_int64 k v s).1 ≡ kv.get_string j s
  pub string_int64 :
      (k j v : Str) (d : ℤ) (s : kv.Store)
      → (k == j) ≡ false
      → kv.get_int64 j d (kv.set_string k v s).1 ≡ kv.get_int64 j d s
