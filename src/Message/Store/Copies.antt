-- ===== src/Message/Store/Copies.antt =====
-- New copies of messages: they are new objects, and what they hold; and what the cache makes of them.
use roc_im_sdk.Prelude.{
  ℕ, suc, ◌≤◌, ◌<◌, ◌≡◌, refl, ◌∙◌, true, List, [], ◌∷◌, Option, none, some, Str, str_eq, ◌==◌,
  eqb_iff, if◌then◌else◌, arith,
}
use roc_im_sdk.UnorderedMap.{find}
use roc_im_sdk.UnorderedMap.Laws.{find-emplace}
use roc_im_sdk.Message.Cache.{
  Model, Heap, set_object, move_from, cache_one, cache_loop, update_msg_cache,
}
use roc_im_sdk.Message.Cache.Batch.{Apart, AreFresh, or_else, last_copy}
use roc_im_sdk.Message.Table.{Database}
use roc_im_sdk.Message.Status.{Messages}
use roc_im_sdk.Message.Store.{make_copies}

-- The last of some messages with an id.
abbrev pub last_model : Str → List Model → Option Model
last_model k [] = none
last_model k (m ∷ ms) = or_else (last_model k ms) (if m.client_msg_id == k then some m else none)

abbrev pub Within : ℕ → ℕ → List (Option ℕ) → Type 0
Within lo hi [] = Unit {0}
Within lo hi (none ∷ copies) = Within lo hi copies
Within lo hi (some p ∷ copies) = (lo ≤ p) × (p < hi) × Within lo hi copies

Within-weaken :
    (lo lo' hi : ℕ) (copies : List (Option ℕ))
    → lo ≤ lo'
    → Within lo' hi copies
    → Within lo hi copies
Within-weaken lo lo' hi [] h w = tt
Within-weaken lo lo' hi (none ∷ copies) h w = Within-weaken lo lo' hi copies h w
Within-weaken lo lo' hi (some p ∷ copies) h w =
    (omega arith, w.1, Within-weaken lo lo' hi copies h w.2)

Within-Apart : (p hi : ℕ) (copies : List (Option ℕ)) → Within (suc p) hi copies → Apart p copies
Within-Apart p hi [] w = tt
Within-Apart p hi (none ∷ copies) w = Within-Apart p hi copies w
Within-Apart p hi (some j ∷ copies) w = (omega arith, Within-Apart p hi copies w.2)

module _ {db : Database} where
  abbrev pub copies_of : List Model → Messages db → List (Option ℕ)
  copies_of ms d = (make_copies ms d).0

  abbrev pub copied : List Model → Messages db → Messages db
  copied ms d = (make_copies ms d).1

  abbrev pub place : Model → Messages db → Messages db
  place m d = record d { heap = set_object d.next m d.heap; next = suc d.next }

  pub copied-cache : (ms : List Model) (d : Messages db) → (copied ms d).heap.cache ≡ d.heap.cache
  unfolding make_copies
  copied-cache [] d = refl
  copied-cache (m ∷ ms) d = copied-cache ms (place m d)

  pub copied-table : (ms : List Model) (d : Messages db) → (copied ms d).table ≡ d.table
  unfolding make_copies
  copied-table [] d = refl
  copied-table (m ∷ ms) d = copied-table ms (place m d)

  pub copied-next : (ms : List Model) (d : Messages db) → d.next ≤ (copied ms d).next
  unfolding make_copies
  copied-next [] d = omega arith
  copied-next (m ∷ ms) d = omega (arith, copied-next ms (place m d))

  pub copied-objects :
      (ms : List Model) (d : Messages db) (j : ℕ)
      → j < d.next
      → (copied ms d).heap.objects j ≡ d.heap.objects j
  unfolding make_copies set_object
  copied-objects [] d j h = refl
  copied-objects (m ∷ ms) d j h =
      copied-objects ms (place m d) j (omega arith) ∙ ground (arith, eqb_iff d.next j)

  pub copies_of-Within :
      (ms : List Model) (d : Messages db) → Within d.next (copied ms d).next (copies_of ms d)
  unfolding make_copies
  copies_of-Within [] d = tt
  copies_of-Within (m ∷ ms) d = (
    omega arith,
    omega (arith, copied-next ms (place m d)),
    Within-weaken d.next (suc d.next) (copied ms (place m d)).next (copies_of ms (place m d))
        (omega arith) (copies_of-Within ms (place m d)),
  )

  pub copies_of-AreFresh :
      (ms : List Model) (d : Messages db) (h : Heap)
      → ((k : Str) (q : ℕ) → find k h.cache ≡ some q → q < d.next)
      → AreFresh (copies_of ms d) h
  unfolding make_copies
  copies_of-AreFresh [] d h bound = tt
  copies_of-AreFresh (m ∷ ms) d h bound = (
    λ k hit. omega (arith, bound k d.next hit),
    Within-Apart d.next (copied ms (place m d)).next (copies_of ms (place m d))
        (copies_of-Within ms (place m d)),
    copies_of-AreFresh ms (place m d) h (λ k q hit. omega (arith, bound k q hit)),
  )

  pub last_copy-copies_of :
      (k : Str) (ms : List Model) (d : Messages db)
      → last_copy k (copies_of ms d) (copied ms d).heap ≡ last_model k ms
  unfolding make_copies set_object
  last_copy-copies_of k [] d = refl
  last_copy-copies_of k (m ∷ ms) d =
      let here : (copied ms (place m d)).heap.objects d.next ≡ m =
        copied-objects ms (place m d) d.next (omega arith)
        ∙ ground (arith, eqb_iff d.next d.next) in
      rw (last_copy-copies_of k ms (place m d), here)

-- The cache keeps to the objects that are there.
abbrev Below : ℕ → Heap → Type 0
Below n h = (k : Str) (q : ℕ) → find k h.cache ≡ some q → q < n

cache_one-Below : (n p : ℕ) (h : Heap) → p < n → Below n h → Below n (cache_one p h).1
unfolding cache_one move_from
cache_one-Below n p h lt b k q hit =
    let id = (h.objects p).client_msg_id in ground (arith, find-emplace id k p h.cache, b k q)

cache_loop-Below :
    (lo n : ℕ) (copies : List (Option ℕ)) (h : Heap)
    → Within lo n copies
    → Below n h
    → Below n (cache_loop copies h).1
unfolding cache_loop
cache_loop-Below lo n [] h w b = b
cache_loop-Below lo n (none ∷ copies) h w b = cache_loop-Below lo n copies h w b
cache_loop-Below lo n (some p ∷ copies) h w b =
    cache_loop-Below lo n copies (cache_one p h).1 w.2 (cache_one-Below n p h w.1 b)

pub update_msg_cache-Below :
    (lo n : ℕ) (copies : List (Option ℕ)) (h : Heap)
    → Within lo n copies
    → ((k : Str) (q : ℕ) → find k h.cache ≡ some q → q < n)
    → (k : Str) (q : ℕ) → find k (update_msg_cache true copies h).1.cache ≡ some q
    → q < n
unfolding update_msg_cache
update_msg_cache-Below lo n copies h w b = cache_loop-Below lo n copies h w b
