-- ===== src/Message/Cache/Batch.antt =====
-- UpdateMsgCache on a batch of copies.
use roc_im_sdk.Prelude.{
  ℕ, ◌≡◌, refl, ◌∙◌, sym, ◌≢◌, true, List, [], ◌∷◌, map, Option, none, some, Str, str_eq, ◌==◌,
  if◌then◌else◌, arith,
}
use roc_im_sdk.UnorderedMap.{find}
use roc_im_sdk.Message.Cache.{Model, Heap, cache_one, cache_loop, update_msg_cache}
use roc_im_sdk.Message.Cache.Overlay.{
  IsKeyed, IsFresh, known, one-object, one-known, one-IsKeyed, one-keeps, one-returns, one-IsFresh,
}

abbrev pub Apart : ℕ → List (Option ℕ) → Type 0
Apart p [] = Unit {0}
Apart p (none ∷ copies) = Apart p copies
Apart p (some j ∷ copies) = (p ≢ j) × Apart p copies

-- The copies are different objects, and none of them is in the cache.
abbrev pub AreFresh : List (Option ℕ) → Heap → Type 0
AreFresh [] h = Unit {0}
AreFresh (none ∷ copies) h = AreFresh copies h
AreFresh (some p ∷ copies) h = IsFresh p h × Apart p copies × AreFresh copies h

abbrev pub or_else : Option Model → Option Model → Option Model
or_else none d = d
or_else (some m) d = some m

-- The last copy of a message in the batch.
abbrev pub last_copy : Str → List (Option ℕ) → Heap → Option Model
last_copy k [] h = none
last_copy k (none ∷ copies) h = last_copy k copies h
last_copy k (some p ∷ copies) h =
    or_else (last_copy k copies h)
      (if (h.objects p).client_msg_id == k then some (h.objects p) else none)

-- The instances of the messages of the batch, in order.
abbrev pub instances : List (Option ℕ) → Heap → Heap → List (Option ℕ)
instances [] h h' = []
instances (none ∷ copies) h h' = instances copies h h'
instances (some p ∷ copies) h h' = find (h.objects p).client_msg_id h'.cache ∷ instances copies h h'

abbrev Same : List (Option ℕ) → Heap → Heap → Type 0
Same [] h t = Unit {0}
Same (none ∷ copies) h t = Same copies h t
Same (some p ∷ copies) h t = (t.objects p ≡ h.objects p) × Same copies h t

last_copy-Same :
    (k : Str) (copies : List (Option ℕ)) (h t : Heap)
    → Same copies h t
    → last_copy k copies t ≡ last_copy k copies h
last_copy-Same k [] h t s = refl
last_copy-Same k (none ∷ copies) h t s = last_copy-Same k copies h t s
last_copy-Same k (some p ∷ copies) h t s = let ih = last_copy-Same k copies h t s.1 in rw (ih, s.0)

instances-Same :
    (copies : List (Option ℕ)) (h t h' : Heap)
    → Same copies h t
    → instances copies t h' ≡ instances copies h h'
instances-Same [] h t h' s = refl
instances-Same (none ∷ copies) h t h' s = instances-Same copies h t h' s
instances-Same (some p ∷ copies) h t h' s =
    let ih = instances-Same copies h t h' s.1 in rw (ih, s.0)

module _ (p : ℕ) (h : Heap) (keyed : IsKeyed h) (fresh : IsFresh p h) where
  one-Same :
      (copies : List (Option ℕ))
      → Apart p copies
      → AreFresh copies h
      → Same copies h (cache_one p h).1
  one-Same [] a f = tt
  one-Same (none ∷ copies) a f = one-Same copies a f
  one-Same (some j ∷ copies) a f = (one-object p h keyed fresh j f.0 a.0, one-Same copies a.1 f.2)

  one-AreFresh :
      (copies : List (Option ℕ))
      → Apart p copies
      → AreFresh copies h
      → AreFresh copies (cache_one p h).1
  one-AreFresh [] a f = tt
  one-AreFresh (none ∷ copies) a f = one-AreFresh copies a f
  one-AreFresh (some j ∷ copies) a f =
      (one-IsFresh p h keyed fresh j f.0 a.0, f.1, one-AreFresh copies a.1 f.2)

-- What a batch makes of the cache.
abbrev pub IsOverlay : List (Option ℕ) → Heap → List ℕ → Heap → Type 0
IsOverlay copies h returned h' =
    IsKeyed h'
    × ((k : Str) → known k h' ≡ or_else (last_copy k copies h) (known k h))
    × ((k : Str) (q : ℕ) → find k h.cache ≡ some q → find k h'.cache ≡ some q)
    × (map some returned ≡ instances copies h h')

IsOverlay-loop :
    (copies : List (Option ℕ)) (h : Heap)
    → IsKeyed h
    → AreFresh copies h
    → IsOverlay copies h (cache_loop copies h).0 (cache_loop copies h).1
unfolding cache_loop
IsOverlay-loop [] h v f = (v, λ k. refl, λ k q e. e, refl)
IsOverlay-loop (none ∷ copies) h v f = IsOverlay-loop copies h v f
IsOverlay-loop (some p ∷ copies) h v f =
    let t = (cache_one p h).1 in
    let (w, content, keeps, returned) =
      IsOverlay-loop copies t (one-IsKeyed p h v f.0) (one-AreFresh p h v f.0 copies f.1 f.2) in
    let same = one-Same p h v f.0 copies f.1 f.2 in
    let first = sym (keeps (h.objects p).client_msg_id _ (one-returns p h v f.0)) in
    let rest = returned ∙ instances-Same copies h t (cache_loop copies t).1 same in
    (
      w,
      λ k. ground (arith, content k, last_copy-Same k copies h t same, one-known p h v f.0 k),
      λ k q e. keeps k q (one-keeps p h v f.0 k q e),
      λ i. first i ∷ rest i,
    )

-- While SDKRoot is there, on a cache whose instances stand under their own ids, and for copies that
-- are different objects outside the cache: afterwards the cache knows of each message its last
-- copy in the batch, or what it knew before if the batch has none; a message that had an instance
-- still has that instance; and what is returned are the instances of the messages of the batch, in
-- order, one for each copy that is not null. The instances again stand under their own ids.
pub update_msg_cache_overlays :
    (copies : List (Option ℕ)) (h : Heap)
    → IsKeyed h
    → AreFresh copies h
    → IsOverlay copies h (update_msg_cache true copies h).0 (update_msg_cache true copies h).1
unfolding update_msg_cache
update_msg_cache_overlays copies h v f = IsOverlay-loop copies h v f
