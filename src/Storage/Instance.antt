-- ===== src/Storage/Instance.antt =====
-- A store that meets the laws: two association lists. It serves the instances of theorems.
use roc_im_sdk.Prelude.{refl, true, Option, some, none, Str, ℤ, List, [], str_eq, arith}
use roc_im_sdk.UnorderedMap.{find, assign}
use roc_im_sdk.UnorderedMap.Laws.{find-assign}
use roc_im_sdk.Storage.{Mmkv, Laws}

pub record Lists : Type 0 where
  pub ints : List (Str × ℤ)
  pub strings : List (Str × Str)

abbrev pub get_or : ℤ → Option ℤ → ℤ
get_or d none = d
get_or d (some v) = v

abbrev pub lists : Mmkv
lists = record {
  Store = Lists;
  set_int64 = λ k v s. (true, record s { ints = assign k v s.ints });
  get_int64 = λ k d s. get_or d (find k s.ints);
  set_string = λ k v s. (true, record s { strings = assign k v s.strings });
  get_string = λ k s. find k s.strings;
}

pub lists-Laws : Laws lists
lists-Laws = record {
  get_set_int64 = λ k j v d s. ground (arith, find-assign k j v s.ints);
  get_set_string = λ k j v s. find-assign k j v s.strings;
  int64_string = λ k j v s h. refl;
  string_int64 = λ k j v d s h. refl;
}

abbrev pub nothing : Lists
nothing = record { ints = []; strings = [] }
