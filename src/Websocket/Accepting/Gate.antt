-- ===== src/Websocket/Accepting/Gate.antt =====
-- The reader behind the gate that `connection_init` opens.
use wsgraphql.Prelude.{
  ◌≡◌, ◌≢◌, refl, true, false, Option, none, some, List, [], arith, OnSome, inl, inr, if_both, ◌==◌,
}
use wsgraphql.Apollows.{Operation, connection_init, Error, Message}
use wsgraphql.Websocket.State.{
  Send, Request, Reader, reading, signalling, failing, waiting, Timer, unused, armed, ended, System,
}
use wsgraphql.Websocket.Keeps.{handle_error-Keeps}
use wsgraphql.Websocket.Reader.{
  InitOutcome, Handled, lacks_init, is_transport_ws, read_websocket_init, init_with, acknowledge,
}
use wsgraphql.Websocket.Operations.{Environment}
use wsgraphql.Websocket.Handling.{dispatch-Effect, read_websocket_init-Keeps}
use wsgraphql.Websocket.System.{
  Event, receive, read_failed, hand_over, tear_down, close_outgoing, fail, spawned, settle,
  initialise, connect, read, reader_step,
}
use wsgraphql.Websocket.Accepting.{Welcomes, Accepts, at_once, in_time}

-- The gate is open, `B`, wherever the reader could let an operation in or has let one in.
pub record Gate {F : Type 0} (B : Type 0) (sys : System F) : Type 0 where
  pub idle : sys.request.init ≡ true → sys.reader ≡ reading → B
  pub busy : is_transport_ws sys.request.protocol ≡ true → sys.tasks ≢ [] → B

module _ {F : Type 0} where
  pub Gate-map : {B C : Type 0} {sys : System F} → (B → C) → Gate B sys → Gate C sys
  Gate-map f g = record { idle = λ i r. f (g.idle i r); busy = λ p t. f (g.busy p t) }

  acknowledge-none :
      (req : Request F) (e : Option (Error F)) → (acknowledge req e).err ≡ none → e ≡ none
  unfolding acknowledge
  acknowledge-none req none h = refl
  acknowledge-none req (some err) h = h

  init_with-none :
      (req : Request F) (outcome : InitOutcome F) (refusal : Option (Error F))
      → (init_with req outcome refusal).err ≡ none
      → (refusal ≡ none) × (outcome.returned ≡ none)
  unfolding init_with
  init_with-none req outcome (some err) h = (h, cc)
  init_with-none req outcome none h = (refl, acknowledge-none _ outcome.returned h)

  -- The handler's error is nil only for a message that is welcome.
  read_websocket_init-Welcomes :
      (env : Environment F) (req : Request F) (msg : Message F) (outcome : InitOutcome F)
      → (read_websocket_init env.unmarshal_init req msg outcome).err ≡ none
      → Welcomes env msg outcome
  unfolding read_websocket_init
  read_websocket_init-Welcomes env req msg outcome h = init_with-none req outcome _ h

module _ {F : Type 0} (env : Environment F) (B : Type 0) where
  fail-Gate :
      (sys : System F) (err : Error F)
      → (is_transport_ws sys.request.protocol ≡ true → sys.tasks ≢ [] → B)
      → Gate B (fail env sys err)
  unfolding fail
  fail-Gate sys err busy = record {
    idle = λ i r. absurd (cc r);
    busy = rw (handle_error-Keeps env.gql sys.request sys.request.ctx err).same_protocol busy;
  }

  settle-Gate :
      (sys : System F) (h : Handled F) (err : Option (Error F))
      → (err ≡ none → h.request.init ≡ true → B)
      → (is_transport_ws h.request.protocol ≡ true → spawned env sys.tasks h.spawned ≢ [] → B)
      → (is_transport_ws h.request.protocol ≡ true → sys.tasks ≢ [] → B)
      → Gate B (settle env sys h err)
  unfolding settle
  settle-Gate sys h none idle begun busy = record { idle = λ i r. idle refl i; busy = begun }
  settle-Gate sys h (some err) idle begun busy =
      fail-Gate (record sys { request = h.request }) err busy

  initialise-Gate :
      (sys : System F) (msg : Message F) (outcome : InitOutcome F)
      → (is_transport_ws sys.request.protocol ≡ true → sys.tasks ≢ [] → B)
      → (Welcomes env msg outcome → B)
      → Gate B (initialise env sys msg outcome)
  unfolding initialise spawned
  initialise-Gate sys msg outcome busy welcome =
      let (none_begun, k) = read_websocket_init-Keeps env.unmarshal_init sys.request msg outcome in
      settle-Gate sys _ _
        (λ e i. welcome (read_websocket_init-Welcomes env sys.request msg outcome e))
        (rw (none_begun, k.same_protocol) busy) (rw k.same_protocol busy)

  connect-Gate :
      (sys : System F) (msg : Message F) (outcome : InitOutcome F) (tm : Timer)
      → (is_transport_ws sys.request.protocol ≡ true → sys.tasks ≢ [] → B)
      → (tm ≡ unused → Welcomes env msg outcome → B)
      → Gate B (connect env sys msg outcome tm)
  unfolding connect
  connect-Gate sys msg outcome unused busy welcome =
      initialise-Gate sys msg outcome busy (welcome refl)
  connect-Gate sys msg outcome _ busy welcome = record { idle = λ i r. absurd (cc r); busy = busy }

  opened :
      (req : Request F)
      → lacks_init req ≡ false
      → is_transport_ws req.protocol ≡ true
      → req.init ≡ true
  opened req allowed p = ground arith

  read-Gate :
      (sys : System F) (msg : Message F) (outcome : InitOutcome F) (t : Operation)
      → Gate B sys
      → sys.reader ≡ reading
      → msg.type ≡ t
      → (Accepts env sys (receive msg outcome) → B)
      → Gate B (read env sys msg outcome t)
  unfolding read spawned
  read-Gate sys msg outcome connection_init g at_r is_init accepts =
      if_both (Gate B) sys.request.init (λ _. fail-Gate sys _ g.busy)
        (λ first.
          connect-Gate (record sys { request = record sys.request { init = true } }) msg outcome
            sys.timer g.busy (λ tm welcome. accepts (at_once msg outcome is_init first tm welcome)))
  read-Gate sys msg outcome t g at_r e accepts = elim (dispatch-Effect t sys.request msg) [
    | inl (none_begun, k) ↦
        settle-Gate sys _ _ (λ _. rw k.same_init (λ i. g.idle i at_r))
          (rw (none_begun, k.same_protocol) g.busy) (rw k.same_protocol g.busy)
    | inr s ↦
        settle-Gate sys _ _ (λ _. rw s.same_init (λ i. g.idle i at_r))
          (rw s.same_protocol (λ p _. g.idle (opened sys.request s.allowed p) at_r))
          (rw s.same_protocol g.busy)
  ]

  pub reader_step-Gate :
      (sys : System F) (r : Reader F) (sends : List (Send F)) (tm : Timer) (e : Event F)
      → Gate B sys
      → sys.reader ≡ r
      → (Accepts env sys e → B)
      → OnSome (Gate B) (reader_step env sys r sends tm e)
  unfolding reader_step
  reader_step-Gate sys reading [] tm (receive msg outcome) g at_r accepts =
      read-Gate sys msg outcome msg.type g at_r refl accepts
  reader_step-Gate sys reading [] tm (read_failed err) g at_r accepts = fail-Gate sys err g.busy
  reader_step-Gate sys (signalling msg) [] armed (hand_over outcome) g at_r accepts =
      initialise-Gate (record sys { timer = ended }) msg outcome g.busy
        (λ welcome. accepts (in_time msg outcome at_r welcome))
  reader_step-Gate sys failing [] tm tear_down g at_r accepts = record {
    idle = λ i r. absurd (cc r);
    busy = g.busy;
  }
  reader_step-Gate sys waiting [] tm close_outgoing g at_r accepts =
      if_both (OnSome (Gate B)) (sys.request.wg == 0)
        (λ _. record { idle = λ i r. absurd (cc r); busy = g.busy }) (λ _. tt)
  reader_step-Gate sys r sends tm e g at_r accepts = tt
