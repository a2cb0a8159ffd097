-- ===== src/Websocket/Progress.antt =====
-- v1/server_websocket.go: that a request ends.
use wsgraphql.Prelude.{ℕ, ◌≡◌, refl, ◌∙◌, ap, Bool, true, some, [], ◌∷◌, length}
use wsgraphql.Context.{Contexts}
use wsgraphql.Apollows.{Protocol}
use wsgraphql.Websocket.State.{System, failing, exited}
use wsgraphql.Websocket.Operations.{Environment}
use wsgraphql.Websocket.System.{tear_down, close_outgoing, begin, step, reader_step, Reach}
use wsgraphql.Websocket.Invariant.{begin-Inv, Reach-Inv}
use wsgraphql.Websocket.Run.{steps}

module _ {F : Type 0} (env : Environment F) (c : Contexts) (ctx : ℕ) (p : Protocol)
    (timeout : Bool) where
  -- In every state that a request can come to, if the reader has failed and sent what it had to,
  -- and no operation is running, then its next two steps are possible, after which the outgoing
  -- channel is closed and the reader has ended.
  pub request_ends :
      (sys : System F)
      → Reach env (begin c ctx p timeout) sys
      → sys.reader ≡ failing
      → sys.reader_sends ≡ []
      → sys.tasks ≡ []
      → (t : System F) × (steps env (some sys) (tear_down ∷ close_outgoing ∷ []) ≡ some t)
        × (t.request.closed ≡ true)
        × (t.reader ≡ exited)
  unfolding steps step reader_step
  request_ends sys r at_r sent idle = rw (at_r, sent) (rw none_left (_, refl, refl, refl))
    where
      none_left : sys.request.wg ≡ 0
      none_left = (Reach-Inv env (begin-Inv env c ctx p timeout) r).core.counted ∙ ap length idle
