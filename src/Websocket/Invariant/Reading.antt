-- ===== src/Websocket/Invariant/Reading.antt =====
-- The reader keeps the invariant.
use wsgraphql.Prelude.{
  ℕ_discrete, ◌≡◌, refl, ◌∙◌, true, false, Option, none, some, List, [], arith, OnSome, inl, inr,
  if_both, ◌==◌,
}
use wsgraphql.Prelude.Dict
use wsgraphql.Apollows.{Operation, connection_init, Error, Message}
use wsgraphql.Websocket.State.{
  Send, Reader, reading, signalling, failing, waiting, Timer, unused, armed, ended, System,
}
use wsgraphql.Websocket.Keeps.{
  size-cancel, size-request_context_of, Keeps-contexts, handle_error-Keeps,
}
use wsgraphql.Websocket.Reader.{InitOutcome, Handled}
use wsgraphql.Websocket.Operations.{Environment}
use wsgraphql.Websocket.Handling.{Effect, dispatch-Effect, read_websocket_init-Keeps}
use wsgraphql.Websocket.System.{
  Event, receive, read_failed, hand_over, tear_down, close_outgoing, fail, spawned, settle,
  initialise, connect, read, reader_step,
}
use wsgraphql.Websocket.Invariant.Registry.{Core-init, Core-spawn}
use wsgraphql.Websocket.Invariant.Defs.{Inv, Inv-reader, is_open}

module _ {F : Type 0} (env : Environment F) where
  fail-Inv :
      (sys : System F) (err : Error F)
      → Inv sys
      → sys.request.closed ≡ false
      → Inv (fail env sys err)
  unfolding fail
  fail-Inv sys err inv o =
      Inv-reader inv _ failing _ o (handle_error-Keeps env.gql sys.request sys.request.ctx err)

  settle-Inv :
      (sys : System F) (msg : Message F) (h : Handled F) (err : Option (Error F))
      → Inv sys
      → sys.request.closed ≡ false
      → Effect sys.request msg h
      → err ≡ h.err
      → Inv (settle env sys h err)
  unfolding settle spawned
  settle-Inv sys msg h none inv o (inl (quiet, k)) same =
      rw quiet (Inv-reader inv h.request reading h.sends o k)
  settle-Inv sys msg h (some err) inv o (inl (quiet, k)) same =
      fail-Inv (record sys { request = h.request }) err
        (Inv-reader inv h.request sys.reader sys.reader_sends o k) (k.same_closed ∙ o)
  settle-Inv sys msg h none inv o (inr s) same = rw s.begun (record {
    core = Core-spawn inv.core msg h _ s refl;
    room = rw s.same_outgoing inv.room;
    shut = λ e. cc (s.same_closed);
    quiet = inv.quiet;
    panic = λ e. inv.panic (rw s.same_panicked at e);
  })
  settle-Inv sys msg h (some err) inv o (inr s) same = cc (s.no_error)

  initialise-Inv :
      (sys : System F) (msg : Message F) (outcome : InitOutcome F)
      → Inv sys
      → sys.request.closed ≡ false
      → Inv (initialise env sys msg outcome)
  unfolding initialise
  initialise-Inv sys msg outcome inv o =
      settle-Inv sys msg _ _ inv o
        (inl (read_websocket_init-Keeps env.unmarshal_init sys.request msg outcome)) refl

  connect-Inv :
      (sys : System F) (msg : Message F) (outcome : InitOutcome F) (tm : Timer)
      → Inv sys
      → sys.request.closed ≡ false
      → Inv (connect env sys msg outcome tm)
  unfolding connect
  connect-Inv sys msg outcome unused inv o = initialise-Inv sys msg outcome inv o
  connect-Inv sys msg outcome _ inv o = record {
    core = inv.core;
    room = inv.room;
    shut = λ e. cc;
    quiet = inv.quiet;
    panic = inv.panic;
  }

  initialised :
      {sys : System F}
      → Inv sys
      → sys.request.closed ≡ false
      → Inv (record sys { request = record sys.request { init = true } })
  initialised inv o = record {
    core = Core-init inv.core;
    room = inv.room;
    shut = λ e. cc;
    quiet = inv.quiet;
    panic = inv.panic;
  }

  read-Inv :
      (sys : System F) (msg : Message F) (outcome : InitOutcome F) (t : Operation)
      → Inv sys
      → sys.request.closed ≡ false
      → Inv (read env sys msg outcome t)
  unfolding read
  read-Inv sys msg outcome connection_init inv o =
      if_both Inv sys.request.init (λ _. fail-Inv sys _ inv o)
        (λ _. connect-Inv _ msg outcome sys.timer (initialised inv o) o)
  read-Inv sys msg outcome t inv o =
      settle-Inv sys msg _ _ inv o (dispatch-Effect _ sys.request msg) refl

  pub reader_step-Inv :
      (sys : System F) (r : Reader F) (sends : List (Send F)) (tm : Timer) (e : Event F)
      → Inv sys
      → sys.reader ≡ r
      → sys.reader_sends ≡ sends
      → sys.timer ≡ tm
      → OnSome Inv (reader_step env sys r sends tm e)
  unfolding reader_step
  reader_step-Inv sys reading [] tm (receive msg outcome) inv at_r empty at_tm =
      read-Inv sys msg outcome msg.type inv (is_open inv reading at_r (λ p. cc))
  reader_step-Inv sys reading [] tm (read_failed err) inv at_r empty at_tm =
      fail-Inv sys err inv (is_open inv reading at_r (λ p. cc))
  reader_step-Inv sys (signalling msg) [] armed (hand_over outcome) inv at_r empty at_tm =
      initialise-Inv (record sys { timer = ended }) msg outcome
        (record {
          core = inv.core;
          room = inv.room;
          shut = inv.shut;
          quiet = ground (arith, inv.quiet);
          panic = λ e. cc (inv.panic e);
        })
        (is_open inv (signalling msg) at_r (λ p. cc))
  reader_step-Inv sys failing [] tm tear_down inv at_r empty at_tm =
      Inv-reader inv _ waiting sys.reader_sends (is_open inv failing at_r (λ p. cc)) (
        Keeps-contexts sys.request _ (
          omega (arith, size-cancel, size-request_context_of sys.request.contexts sys.request.ctx)))
  reader_step-Inv sys waiting [] tm close_outgoing inv at_r empty at_tm =
      if_both (OnSome Inv) (sys.request.wg == 0)
        (λ none_left. record {
          core = record {
            counted = inv.core.counted;
            distinct = inv.core.distinct;
            below = inv.core.below;
            registered = inv.core.registered;
            running = inv.core.running;
            gated = inv.core.gated;
          };
          room = inv.room;
          shut = λ _. (
            refl,
            empty,
            Dict.length-eq-zero ℕ_discrete sys.tasks (ground (arith, inv.core.counted)),
          );
          quiet = inv.quiet;
          panic = inv.panic;
        })
        (λ _. tt)
  reader_step-Inv sys r sends tm e inv at_r empty at_tm = tt
