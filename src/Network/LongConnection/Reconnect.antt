-- ===== src/Network/LongConnection/Reconnect.antt =====
-- The automatic reconnect.
use roc_im_sdk.Prelude.{
  ◌<◌, ◌≡◌, Bool, true, false, List, [], ◌∷◌, ◌++◌, Str, All, arith, suc, codes, ◌∙◌,
}
use roc_im_sdk.Network.LongConnection.{
  Client, Outcome, done, refused, thrown, connect_start, connect_finish, after_start,
  reconnect_test, reconnect_round, auto_reconnect_loop,
}

abbrev pub fails : Outcome → Bool
fails done = false
fails (refused _) = true
fails (thrown _) = true

-- The client that starts to reconnect: disconnected, with no attempt counted.
pub record IsReconnecting (c : Client) : Type 0 where
  pub down : c.connected ≡ false
  pub stopped : c.running ≡ false
  pub reconnecting : c.auto_reconnect_running ≡ true
  pub uncounted : c.reconnect_attempts ≡ 0

module _ {S : Type 0} (callback : Bool → Str → S → S) where
  failed_round :
      (o : Outcome) (c : Client) (s : S)
      → fails o ≡ true
      → IsReconnecting c
      → reconnect_round callback o (c, s) ≡ (false, (c, s))
  unfolding reconnect_round connect_start after_start connect_finish
  failed_round done c s f r = cc
  failed_round (refused e) c s f r = ground arith
  failed_round (thrown what) c s f r = ground arith

  failed_round_loop :
      (o : Outcome) (os : List Outcome) (c : Client) (s : S)
      → 0 < c.config.max_reconnect_attempts
      → fails o ≡ true
      → IsReconnecting c
      → auto_reconnect_loop callback (o ∷ os) (c, s) ≡ auto_reconnect_loop callback os (c, s)
  unfolding auto_reconnect_loop reconnect_test
  failed_round_loop o os c s m f r = ground (arith, failed_round o c s f r)

  -- Every attempt starts by setting the count of attempts back to zero (in connect), so the limit
  -- on the attempts is never reached and no attempt waits: after any number of failed attempts the
  -- client is in the very state in which it started, still reconnecting.
  pub reconnect_never_gives_up :
      (os : List Outcome) (c : Client) (s : S)
      → 0 < c.config.max_reconnect_attempts
      → IsReconnecting c
      → All (λ o. fails o ≡ true) os
      → auto_reconnect_loop callback os (c, s) ≡ (false, (c, s))
  unfolding auto_reconnect_loop reconnect_test
  reconnect_never_gives_up [] c s m r f = ground arith
  reconnect_never_gives_up (o ∷ os) c s m r f =
      failed_round_loop o os c s m f.0 r ∙ reconnect_never_gives_up os c s m r f.1

  -- The attempt that succeeds ends the loop: the client is connected, its loops are started, the
  -- listener is told once, and the reconnect is over.
  pub reconnect_succeeds :
      (os : List Outcome) (c : Client) (s : S)
      → 0 < c.config.max_reconnect_attempts
      → IsReconnecting c
      → All (λ o. fails o ≡ true) os
      → let r = auto_reconnect_loop callback (os ++ done ∷ []) (c, s) in
        (r.0 ≡ true)
        × (r.1.0.connected ≡ true)
        × (r.1.0.running ≡ true)
        × (r.1.0.heartbeat_running ≡ true)
        × (r.1.0.auto_reconnect_running ≡ false)
        × (r.1.0.receive_loops ≡ suc c.receive_loops)
        × (r.1.1 ≡ callback true (codes "Connected successfully") s)
  unfolding auto_reconnect_loop connect_start after_start connect_finish
  reconnect_succeeds [] c s m r f = ground arith
  reconnect_succeeds (o ∷ os) c s m r f =
      rw (failed_round_loop o (os ++ done ∷ []) c s m f.0 r) (reconnect_succeeds os c s m r f.1)
