-- ===== src/Message/Cache/Overlay.antt =====
-- An update of the cache: the contents are replaced, and the instances stay.
use roc_im_sdk.Prelude.{
  ℕ, ◌≡◌, ◌∙◌, sym, ap, subst, ◌≢◌, false, Option, none, some, Str, str_eq, str_beq_iff, ◌==◌,
  eqb_iff, if◌then◌else◌, arith, Bool-cases, Option-cases, inl, inr,
}
use roc_im_sdk.UnorderedMap.{find}
use roc_im_sdk.UnorderedMap.Laws.{find-emplace}
use roc_im_sdk.Message.Cache.{Model, Heap, move_from, cache_one}

-- Each instance in the cache stands under its own id.
abbrev pub IsKeyed : Heap → Type 0
IsKeyed h = (k : Str) (q : ℕ) → find k h.cache ≡ some q → (h.objects q).client_msg_id ≡ k

abbrev pub IsFresh : ℕ → Heap → Type 0
IsFresh p h = (k : Str) → find k h.cache ≢ some p

abbrev pub read : Heap → Option ℕ → Option Model
read h none = none
read h (some q) = some (h.objects q)

-- What the cache knows of a message.
abbrev pub known : Str → Heap → Option Model
known k h = read h (find k h.cache)

module _ (p : ℕ) (h : Heap) (keyed : IsKeyed h) (fresh : IsFresh p h) where
  abbrev pub id : Str
  id = (h.objects p).client_msg_id

  pub one-instance :
      (k : Str)
      → find k (cache_one p h).1.cache ≡ elim (find id h.cache) [
        | none ↦ (if id == k then some p else find k h.cache)
        | some q ↦ find k h.cache
      ]
  unfolding cache_one
  one-instance k = ground (arith, find-emplace id k p h.cache)

  -- The other objects that are not in the cache stay as they are.
  pub one-object : (j : ℕ) → IsFresh j h → p ≢ j → (cache_one p h).1.objects j ≡ h.objects j
  unfolding cache_one
  one-object j free ne = elim (Option-cases (find id h.cache)) [
    | inl miss ↦ rw (miss, cache_one)
    | inr (q, hit) ↦ ground (arith, free id, eqb_iff p j, eqb_iff q j, eqb_iff q p, hit)
  ]

  -- What stands in the objects after the move into a cached instance.
  move_from_self : (q : ℕ) → find id h.cache ≡ some q → (move_from q p h).objects q ≡ h.objects p
  unfolding move_from
  move_from_self q hit = ground (arith, fresh id, eqb_iff q p, eqb_iff p q, eqb_iff q q)

  move_from_other :
      (k : Str) (q r : ℕ)
      → find id h.cache ≡ some q
      → find k h.cache ≡ some r
      → (id == k) ≡ false
      → (move_from q p h).objects r ≡ h.objects r
  unfolding move_from
  move_from_other k q r hit found differ =
      let apart : q ≢ r = λ e.
        let same : id ≡ k =
          sym (keyed id q hit) ∙ ap (λ i. (h.objects i).client_msg_id) e ∙ keyed k r found in
        ground (arith, str_beq_iff id k) in
      ground (arith, fresh k, fresh id, eqb_iff q p, eqb_iff p r, eqb_iff q r)

  move_from_cache : (q : ℕ) → (move_from q p h).cache ≡ h.cache
  unfolding move_from
  move_from_cache q = ground arith

  pub one-known :
      (k : Str) → known k (cache_one p h).1 ≡ (if id == k then some (h.objects p) else known k h)
  unfolding cache_one
  one-known k = elim (Option-cases (find id h.cache)) [
    | inl miss ↦ rw (miss, cache_one) (rw (find-emplace id k p h.cache) (ground (arith, miss)))
    | inr (q, hit) ↦
        rw (hit, cache_one)
          (rw (move_from_cache q) (elim (Bool-cases (id == k)) [
            | inl same ↦
                let there : find k h.cache ≡ some q =
                  subst (λ i. find i h.cache ≡ some q) ((str_beq_iff id k).0 same) hit in
                rw (same, there) (ap some (move_from_self q hit))
            | inr differ ↦ rw differ (elim (Option-cases (find k h.cache)) [
              | inl gone ↦ rw gone
              | inr (r, found) ↦ rw found (ap some (move_from_other k q r hit found differ))
            ])
          ]))
  ]

  pub one-IsKeyed : IsKeyed (cache_one p h).1
  one-IsKeyed k q hit =
      let content : some ((cache_one p h).1.objects q)
          ≡ (if id == k then some (h.objects p) else known k h) =
        sym (ap (read (cache_one p h).1) hit) ∙ one-known k in
      elim (Bool-cases (id == k)) [
        | inl same ↦
            let e : (cache_one p h).1.objects q ≡ h.objects p = ground (arith, content, same) in
            ap (λ m. m.client_msg_id) e ∙ (str_beq_iff id k).0 same
        | inr differ ↦ elim (Option-cases (find k h.cache)) [
          | inl gone ↦ ground (arith, content, differ, gone)
          | inr (r, found) ↦
              let e : (cache_one p h).1.objects q ≡ h.objects r =
                ground (arith, content, differ, found) in
              ap (λ m. m.client_msg_id) e ∙ keyed k r found
        ]
      ]

  -- The instance of a message that is in the cache stays its instance.
  pub one-keeps :
      (k : Str) (q : ℕ) → find k h.cache ≡ some q → find k (cache_one p h).1.cache ≡ some q
  one-keeps k q found = one-instance k ∙ ground (arith, found, str_beq_iff id k)

  pub one-returns : find id (cache_one p h).1.cache ≡ some (cache_one p h).0
  unfolding cache_one
  one-returns = elim (Option-cases (find id h.cache)) [
    | inl miss ↦
        rw (miss, cache_one) (ground (arith, find-emplace id id p h.cache, miss, str_beq_iff id id))
    | inr (q, hit) ↦ rw (hit, cache_one) (rw (move_from_cache q) hit)
  ]

  pub one-IsFresh : (j : ℕ) → IsFresh j h → p ≢ j → IsFresh j (cache_one p h).1
  one-IsFresh j free ne k found = ground (arith, one-instance k, found, free k, ne)
