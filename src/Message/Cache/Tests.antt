-- ===== src/Message/Cache/Tests.antt =====
-- Runs and instances of the cache: one message is cached, and a batch brings two copies of it, a null
-- pointer and another message.
use roc_im_sdk.Prelude.{
  ◌==◌, str_beq_iff, Bool-cases, inl, inr, ℕ, ◌≡◌, refl, ◌≢◌, true, List, [], ◌∷◌, Option, none,
  some, Str, codes, str_eq, str_beq, eqb, if◌then◌else◌, arith,
}
use roc_im_sdk.UnorderedMap.{find, emplace}
use roc_im_sdk.Message.Cache.{Model, moved_out, Heap, update_msg_cache}
use roc_im_sdk.Message.Cache.Overlay.{IsFresh, IsKeyed, known}
use roc_im_sdk.Message.Cache.Batch.{AreFresh, IsOverlay, update_msg_cache_overlays}

abbrev a : Str
a = codes "a"

abbrev b : Str
b = codes "b"

abbrev message : Str → Str → Model
message id content = record moved_out { client_msg_id = id; content = content }

abbrev heap : Heap
heap = record {
  objects = λ n.
      if eqb n 0
      then message a (codes "old")
      else if eqb n 1
      then message a (codes "mid")
      else if eqb n 2
      then message b (codes "new")
      else message a (codes "last");
  cache = (a, 0) ∷ [];
}

abbrev batch : List (Option ℕ)
batch = some 1 ∷ none ∷ some 2 ∷ some 3 ∷ []

batch_returns : (update_msg_cache true batch heap).0 ≡ 0 ∷ 2 ∷ 0 ∷ []
unfolding update_msg_cache find str_beq emplace
batch_returns = refl

batch_content : known a (update_msg_cache true batch heap).1 ≡ some (message a (codes "last"))
unfolding update_msg_cache find str_beq emplace
batch_content = refl

heap-IsKeyed : IsKeyed heap
unfolding find
heap-IsKeyed k q hit = elim (Bool-cases (a == k)) [
  | inl same ↦ let first : q ≡ 0 = ground (arith, hit, same) in rw first ((str_beq_iff a k).0 same)
  | inr differ ↦ ground (arith, hit, differ)
]

fresh_lem : (p : ℕ) → 0 ≢ p → IsFresh p heap
unfolding find
fresh_lem p other k hit = ground (arith, hit, other)

batch-AreFresh : AreFresh batch heap
batch-AreFresh =
    let third : AreFresh (some 3 ∷ []) heap = (fresh_lem 3 (omega arith), tt, tt) in
    let second : AreFresh (some 2 ∷ some 3 ∷ []) heap =
      (fresh_lem 2 (omega arith), (omega arith, tt), third) in
    (fresh_lem 1 (omega arith), (omega arith, (omega arith, tt)), second)

update_msg_cache_overlays_example :
    IsOverlay batch heap (update_msg_cache true batch heap).0 (update_msg_cache true batch heap).1
update_msg_cache_overlays_example = update_msg_cache_overlays batch heap heap-IsKeyed batch-AreFresh
