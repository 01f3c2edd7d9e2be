-- ===== src/Message/Status/SetCached.antt =====
-- A setter on the cached instance of a message changes that instance and no other one.
use roc_im_sdk.Prelude.{
  ℕ, ◌≡◌, refl, ◌∙◌, sym, ap, inl, inr, false, some, Str, ◌==◌, str_eq, str_beq_iff, if◌then◌else◌,
  arith, eqb, eqb_iff, Bool-cases, Option-cases,
}
use roc_im_sdk.UnorderedMap.{find}
use roc_im_sdk.Message.Cache.{Model, Heap}
use roc_im_sdk.Message.Cache.Overlay.{IsKeyed}
use roc_im_sdk.Message.Status.{set_cached}

module _ (id : Str) (g : Model → Model) (h : Heap) where
  pub set_cached-find : (k : Str) → find k (set_cached id g h).cache ≡ find k h.cache
  unfolding set_cached
  set_cached-find k = ground arith

  pub set_cached-objects :
      IsKeyed h
      → (k : Str) (q : ℕ) → find k h.cache ≡ some q
      → some ((set_cached id g h).objects q)
        ≡ (if id == k then some (g (h.objects q)) else some (h.objects q))
  unfolding set_cached
  set_cached-objects keyed k q hit = elim (Option-cases (find id h.cache)) [
    | inl miss ↦ rw (miss, set_cached) (ground (arith, str_beq_iff id k))
    | inr (p, found) ↦
        rw (found, set_cached)
          (elim (Bool-cases (id == k)) [
            | inl same ↦
                let one : p ≡ q = ground (arith, str_beq_iff id k) in
                ground (arith, one, eqb_iff p q, same)
            | inr differ ↦
                let apart : (eqb p q) ≡ false = elim (Bool-cases (eqb p q)) [
                  | inl e ↦
                      let one = (eqb_iff p q).0 e in
                      let name : id ≡ k =
                        sym (keyed id p found)
                        ∙ ap (λ i. (h.objects i).client_msg_id) one
                        ∙ keyed k q hit in
                      ground (arith, str_beq_iff id k)
                  | inr e ↦ e
                ] in
                rw (apart, differ) refl
          ])
  ]
