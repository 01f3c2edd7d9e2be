-- ===== src/Message/Order/Increase.antt =====
-- The orders that NextMsgOrderInConv hands out grow, and stay above every order that was saved.
use roc_im_sdk.Prelude.{
  ◌≡◌, refl, Bool, true, List, [], ◌∷◌, Str, ℤ, pos, ◌+ℤ◌, ◌≤ℤ◌, ◌<ℤ◌, ltb_ℤ, In, ◌==◌, str_eq,
  str_beq_iff, arith, +ℤ_parts, Bool-cases, inl, inr, subst, ap,
}
use roc_im_sdk.Storage.{Mmkv, Laws}
use roc_im_sdk.Message.Order.{
  Call, sets, nexts, order_index_key, max_order, set_msg_order_in_conv, next_msg_order_in_conv,
  update_msg_order_in_conv, step, run,
}

module _ (kv : Mmkv) (laws : Laws kv) (user_id : Str) (alive : Bool) where
  open kv use {Store, set_int64, get_int64}

  abbrev key : Str → Str
  key conv = order_index_key user_id conv

  abbrev top : Str → Store → ℤ
  top conv s = max_order kv user_id alive conv s

  -- A write of a larger order lowers no order.
  write_grows :
      (conv d : Str) (v : ℤ) (s : Store)
      → top conv s ≤ℤ v
      → top d s ≤ℤ top d (set_int64 (key conv) v s).1
  unfolding max_order
  write_grows conv d v s h =
      let law = laws.get_set_int64 (key conv) (key d) v (pos 0) s in
      let names = str_beq_iff (key conv) (key d) in
      elim (Bool-cases (key conv == key d)) [
        | inl same ↦
            let eq : top conv s ≡ top d s = ap (λ k. get_int64 k (pos 0) s) (names.0 same) in
            let hd : top d s ≤ℤ v = subst (λ x. x ≤ℤ v) eq h in
            elim (Bool-cases (set_int64 (key conv) v s).0) [
              | inl written ↦ rw law (rw same (rw written hd))
              | inr failed ↦ rw law (rw same (rw failed (omega arith)))
            ]
        | inr other ↦ rw law (rw other (omega arith))
      ]

  -- Every call leaves every order of the store where it is or raises it.
  step_grows : (c : Call) (d : Str) (s : Store) → top d s ≤ℤ top d (step kv user_id alive c s)
  unfolding step set_msg_order_in_conv next_msg_order_in_conv max_order
  step_grows (sets conv v) d s = ground (arith, write_grows conv d v s)
  step_grows (nexts conv) d s = elim (Bool-cases alive) [
    | inl locked ↦
        rw locked (
          write_grows conv d (top conv s +ℤ pos 1) s (omega (arith, +ℤ_parts (top conv s) (pos 1))))
    | inr gone ↦ rw gone (omega arith)
  ]

  run_grows : (cs : List Call) (d : Str) (s : Store) → top d s ≤ℤ top d (run kv user_id alive cs s)
  unfolding run
  run_grows [] d s = omega arith
  run_grows (c ∷ cs) d s =
      omega (arith, step_grows c d s, run_grows cs d (step kv user_id alive c s))

  -- A write that succeeds is read back.
  write_lem :
      (conv : Str) (v : ℤ) (s : Store)
      → (set_int64 (key conv) v s).0 ≡ true
      → top conv (set_int64 (key conv) v s).1 ≡ v
  unfolding max_order
  write_lem conv v s written =
      let law = laws.get_set_int64 (key conv) (key conv) v (pos 0) s in
      let same = (str_beq_iff (key conv) (key conv)).1 refl in rw law (rw (same, written))

  next_locked :
      (conv : Str) (s : Store)
      → alive ≡ true
      → next_msg_order_in_conv kv user_id alive conv s
        ≡ (top conv s +ℤ pos 1, (set_int64 (key conv) (top conv s +ℤ pos 1) s).1)
  unfolding next_msg_order_in_conv max_order
  next_locked conv s locked = rw locked

  -- As long as SDKRoot is there, and the write of the first order succeeds, a later order of the
  -- same conversation is larger, whatever orders of whatever conversations are set and handed out
  -- between the two, and whether or not those writes succeed.
  pub next_increases :
      (conv : Str) (cs : List Call) (s : Store)
      → alive ≡ true
      → (set_int64 (order_index_key user_id conv) (max_order kv user_id alive conv s +ℤ pos 1) s).0
        ≡ true
      → (next_msg_order_in_conv kv user_id alive conv s).0
        <ℤ (next_msg_order_in_conv kv user_id alive conv
            (run kv user_id alive cs (next_msg_order_in_conv kv user_id alive conv s).1)).0
  next_increases conv cs s locked written =
      let n = top conv s +ℤ pos 1 in
      let s' = (set_int64 (key conv) n s).1 in
      let t = run kv user_id alive cs s' in
      let back = write_lem conv n s written in
      let grows : n ≤ℤ top conv t = subst (λ x. x ≤ℤ top conv t) back (run_grows cs conv s') in
      rw (next_locked conv s locked)
        (rw (next_locked conv t locked) (omega (arith, +ℤ_parts (top conv t) (pos 1))))

  set_reaches :
      (conv : Str) (o : ℤ) (s : Store)
      → alive ≡ true
      → ((v : ℤ) (u : Store) → (set_int64 (key conv) v u).0 ≡ true)
      → o ≤ℤ top conv (set_msg_order_in_conv kv user_id alive conv o s)
  unfolding set_msg_order_in_conv
  set_reaches conv o s locked writes =
      let t = ltb_ℤ (top conv s) o in
      elim (Bool-cases t) [
        | inl larger ↦
            let back = write_lem conv o s (writes o s) in
            rw locked (rw larger (rw back (omega arith)))
        | inr reached ↦ rw locked (rw reached (ground arith))
      ]

  set_grows :
      (c d : Str) (o : ℤ) (s : Store)
      → top d s ≤ℤ top d (set_msg_order_in_conv kv user_id alive c o s)
  unfolding step
  set_grows c d o s = step_grows (sets c o) d s

  update_grows :
      (msgs : List (Str × ℤ)) (d : Str) (s : Store)
      → top d s ≤ℤ top d (update_msg_order_in_conv kv user_id alive msgs s)
  unfolding update_msg_order_in_conv
  update_grows [] d s = omega arith
  update_grows ((c, o) ∷ msgs) d s =
      omega (
        arith,
        set_grows c d o s,
        update_grows msgs d (set_msg_order_in_conv kv user_id alive c o s),
      )

  update_reaches :
      (conv : Str) (o : ℤ) (msgs : List (Str × ℤ)) (s : Store)
      → alive ≡ true
      → ((v : ℤ) (u : Store) → (set_int64 (key conv) v u).0 ≡ true)
      → In (conv, o) msgs
      → o ≤ℤ top conv (update_msg_order_in_conv kv user_id alive msgs s)
  unfolding update_msg_order_in_conv
  update_reaches conv o [] s locked writes h = absurd h
  update_reaches conv o ((c, p) ∷ msgs) s locked writes (inr h) =
      update_reaches conv o msgs (set_msg_order_in_conv kv user_id alive c p s) locked writes h
  update_reaches conv o ((c, p) ∷ msgs) s locked writes (inl h) =
      let s' = set_msg_order_in_conv kv user_id alive c p s in
      let conv_eq : conv ≡ c = ap (λ x. x.0) h in
      let order_eq : o ≡ p = ap (λ x. x.1) h in
      let reached : o ≤ℤ top conv s' =
        subst (λ k. o ≤ℤ top conv (set_msg_order_in_conv kv user_id alive k p s)) conv_eq
          (subst (λ q. o ≤ℤ top conv (set_msg_order_in_conv kv user_id alive conv q s)) order_eq
            (set_reaches conv o s locked writes)) in
      omega (arith, update_grows msgs conv s')

  -- As long as SDKRoot is there and the writes of a conversation's order succeed, the next order
  -- of the conversation is above that of every message of it in a batch given to
  -- UpdateMsgOrderInConv, whatever calls come between.
  pub next_above_saved :
      (conv : Str) (o : ℤ) (msgs : List (Str × ℤ)) (cs : List Call) (s : Store)
      → alive ≡ true
      → ((v : ℤ) (u : Store) → (set_int64 (order_index_key user_id conv) v u).0 ≡ true)
      → In (conv, o) msgs
      → o
        <ℤ (next_msg_order_in_conv kv user_id alive conv
            (run kv user_id alive cs (update_msg_order_in_conv kv user_id alive msgs s))).0
  next_above_saved conv o msgs cs s locked writes h =
      let s' = update_msg_order_in_conv kv user_id alive msgs s in
      let t = run kv user_id alive cs s' in
      rw (next_locked conv t locked) (
        omega (
          arith,
          update_reaches conv o msgs s locked writes h,
          run_grows cs conv s',
          +ℤ_parts (top conv t) (pos 1),
        ))
