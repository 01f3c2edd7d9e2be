-- ===== src/Message/RangeStore.antt =====
-- The ranges of the conversations, in the cache of MessageDataSource
-- (imsdk/src/core/message/private/data_source) and in the store, as JSON texts that DBOpt
-- (imsdk/src/core/message/private/db_opt) writes and reads. boost::json is a library: a JSON value
-- is what the code reads of one, and parsing and printing are parameters. `none` is an exception,
-- which a text that is no JSON array makes.
pub mod Codec
pub mod Groups
pub mod Update
pub mod Gaps
mod Tests
use roc_im_sdk.Prelude.{
  Bool, List, [], ◌∷◌, ◌++◌, Option, none, some, Str, codes, ℤ, pos, if◌then◌else◌, str_eq,
}
use roc_im_sdk.UnorderedMap.{find, assign}
use roc_im_sdk.Storage.{Mmkv}
use roc_im_sdk.Ranges.{Range, generate_range, merge_ranges, empty_ranges}
use roc_im_sdk.Message.Order.{key_for_user}

-- `other` is a value of a kind that the code does not ask for.
mutual
  pub data Json : Type 0 where
    int64 : ℤ → Json
    array : Items → Json
    other : Json

  pub data Items : Type 0 where
    nil : Items
    cons : Json → Items → Items

-- The array that SaveMessageRange builds.
pub range_json : Range → Json
range_json (first, second) = array (cons (int64 first) (cons (int64 second) nil))

pub ranges_json : List Range → Items
unfolding range_json
ranges_json [] = nil
ranges_json (r ∷ rs) = cons (range_json r) (ranges_json rs)

-- `arr[0].is_int64() ? arr[0].as_int64() : 0`.
pub number_of : Json → ℤ
number_of (int64 n) = n
number_of (array _) = pos 0
number_of other = pos 0

-- One round of the loop of MessageRange: anything but an array of two is skipped.
pub pair_of : Items → List Range
unfolding number_of
pair_of nil = []
pair_of (cons a nil) = []
pair_of (cons a (cons b nil)) = (number_of a, number_of b) ∷ []
pair_of (cons a (cons b (cons c cs))) = []

pub read_range : Json → List Range
unfolding pair_of
read_range (array items) = pair_of items
read_range (int64 _) = []
read_range other = []

pub read_ranges : Items → List Range
unfolding read_range
read_ranges nil = []
read_ranges (cons j js) = read_range j ++ read_ranges js

-- `json_ranges.as_array()`, and the loop over it.
pub read_array : Option Json → Option (List Range)
unfolding read_ranges
read_array none = none
read_array (some (array items)) = some (read_ranges items)
read_array (some (int64 _)) = none
read_array (some other) = none

-- p_MessageRangeKey.
pub message_range_key : Str → Str → Str
unfolding key_for_user
message_range_key user_id conv_id =
    key_for_user user_id (codes "messageRange" ++ (codes "_" ++ conv_id))

-- Messages as conversation and server_order_index, grouped by conversation.
pub pushed : ℤ → Option (List ℤ) → List ℤ
pushed seq none = seq ∷ []
pushed seq (some seqs) = seqs ++ seq ∷ []

pub push_back : Str → ℤ → List (Str × List ℤ) → List (Str × List ℤ)
unfolding pushed
push_back conv_id seq groups = assign conv_id (pushed seq (find conv_id groups)) groups

pub group_loop : List (Option (Str × ℤ)) → List (Str × List ℤ) → List (Str × List ℤ)
unfolding push_back
group_loop [] groups = groups
group_loop (none ∷ msgs) groups = group_loop msgs groups
group_loop (some (conv_id, seq) ∷ msgs) groups = group_loop msgs (push_back conv_id seq groups)

-- The ranges that the cache gets: from the numbers, what it has, and what the store has.
pub new_ranges : List ℤ → Option (List Range) → Option (List Range) → Option (List Range)
new_ranges seqs (some current) stored = some (merge_ranges (generate_range seqs) current)
new_ranges seqs none (some old) = some (merge_ranges (merge_ranges (generate_range seqs) old) [])
new_ranges seqs none none = none

-- `alive` says that the weak pointer to SDKRoot can be locked.
module _ (kv : Mmkv) (parse : Str → Option Json) (serialize : Items → Str) (user_id : Str) where
  open kv use {Store, set_string, get_string}

  pub record Ranges : Type 0 where
    pub cache : List (Str × List Range)
    pub store : Store

  -- SaveMessageRange.
  pub save_message_range : Str → List Range → Store → Bool × Store
  unfolding ranges_json message_range_key
  save_message_range conv_id rs s =
      set_string (message_range_key user_id conv_id) (serialize (ranges_json rs)) s

  -- MessageRange, after getString.
  pub read_text : Option Str → Option (List Range)
  unfolding read_array
  read_text none = some []
  read_text (some text) = read_array (parse text)

  -- MessageRange.
  pub message_range : Str → Store → Option (List Range)
  unfolding read_text message_range_key
  message_range conv_id s = read_text (get_string (message_range_key user_id conv_id) s)

  -- The writes of one round of p_updateMessageRangeForMessage.
  pub put_ranges : Str → List Range → Ranges → Ranges
  unfolding save_message_range
  put_ranges conv_id new s = record {
    cache = assign conv_id new s.cache;
    store = (save_message_range conv_id new s.store).1;
  }

  pub finish_update : Str → Ranges → Option (List Range) → Option Ranges
  unfolding put_ranges
  finish_update conv_id s none = none
  finish_update conv_id s (some new) = some (put_ranges conv_id new s)

  -- The round.
  pub update_conv : Str → List ℤ → Ranges → Option Ranges
  unfolding new_ranges message_range finish_update
  update_conv conv_id seqs s =
      finish_update conv_id s
        (new_ranges seqs (find conv_id s.cache) (message_range conv_id s.store))

  pub update_groups : List (Str × List ℤ) → Ranges → Option Ranges
  unfolding update_conv
  update_groups [] s = some s
  update_groups ((conv_id, []) ∷ groups) s = update_groups groups s
  update_groups ((conv_id, seq ∷ seqs) ∷ groups) s = elim (update_conv conv_id (seq ∷ seqs) s) [
    | none ↦ none
    | some s' ↦ update_groups groups s'
  ]

  -- p_updateMessageRangeForMessage.
  pub update_message_range : Bool → List (Option (Str × ℤ)) → Ranges → Option Ranges
  unfolding update_groups group_loop
  update_message_range alive [] s = some s
  update_message_range alive (m ∷ msgs) s =
      if alive then update_groups (group_loop (m ∷ msgs) []) s else some s

  -- p_messageRangeForConvId.
  pub message_range_for_conv_id : Str → Ranges → Option (List Range × Ranges)
  unfolding message_range
  message_range_for_conv_id conv_id s = elim (find conv_id s.cache) [
    | some rs ↦ some (rs, s)
    | none ↦ elim (message_range conv_id s.store) [
      | none ↦ none
      | some rs ↦ some (rs, record s { cache = assign conv_id rs s.cache })
    ]
  ]

  -- EmptyMessageRangeForConvId.
  pub empty_message_range_for_conv_id : Bool → Str → Ranges → Option (List Range × Ranges)
  unfolding message_range_for_conv_id
  empty_message_range_for_conv_id alive conv_id s =
      if alive
      then elim (message_range_for_conv_id conv_id s) [
        | none ↦ none
        | some (rs, s') ↦ some (empty_ranges rs, s')
      ]
      else some ([], s)
