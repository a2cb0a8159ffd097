-- ===== src/Websocket/Acks/Sources.antt =====
-- Which handlers send a `connection_ack`.
use wsgraphql.Prelude.{
  ℕ, ◌+◌, ◌≤◌, ◌≡◌, refl, ◌∙◌, String, String_discrete, Bool, true, false, Option, none, some, List,
  [], ◌∷◌, arith, OnSome, if_both, Option-cases, inl, inr, not, ◌||◌, ◌&&◌, ltb, length,
}
use wsgraphql.Prelude.Dict
use wsgraphql.Mutable.{is_done}
use wsgraphql.Context.{context_operation_executed, context_operation_stopped}
use wsgraphql.Apollows.{
  Protocol, graphql_ws, graphql_transport_ws, Operation, Error, apollows, result_error, Message,
  Body, Result, nil, connection_error, complete, pong,
}
use wsgraphql.Formatting.{Gqlerrors}
use wsgraphql.Results.{process_result, after_write}
use wsgraphql.Websocket.State.{
  Send, Request, Task, Phase, starting, running, streaming, served, finishing, completing,
}
use wsgraphql.Websocket.Outgoing.{
  write_websocket_message, write_websocket_data, handle_error, data_type, drops_stopped,
  is_graphql_ws, send_failure,
}
use wsgraphql.Websocket.Channel.{give_up_at, try_send, try_give_up, attempt, ticker_type}
use wsgraphql.Websocket.Reader.{
  InitOutcome, Handled, hand, acknowledge, init_with, read_websocket_init, spawn, unless_running,
  read_websocket_start, read_websocket_stop, read_websocket_terminate, read_websocket_ping,
  dispatch, lacks_init, is_transport_ws,
}
use wsgraphql.Websocket.Operations.{
  Environment, TaskEvent, unreadable, readable, results, received, closed, context_done, returned,
  check_error, check_complete, write_data, after_result, report, finish, phase_step, task_step,
}
use wsgraphql.Websocket.Acks.{total, total-append, is_ack, item_acks, send_acks}

pub ticker_type-acks : (p : Protocol) → is_ack (ticker_type p) ≡ 0
unfolding ticker_type
ticker_type-acks graphql_ws = refl
ticker_type-acks graphql_transport_ws = refl
ticker_type-acks (Protocol.unnamed s) = refl

data_type-acks : (p : Protocol) → is_ack (data_type p) ≡ 0
unfolding data_type
data_type-acks graphql_ws = refl
data_type-acks graphql_transport_ws = refl
data_type-acks (Protocol.unnamed s) = refl

module _ {F : Type 0} where
  -- Nothing sent is an acknowledgement.
  abbrev pub Silent : Request F × List (Send F) → Type 0
  Silent (req, sends) = send_acks sends ≡ 0

  write_websocket_message-acks :
      (req : Request F) (ctx : ℕ) (t : Operation) (b : Body F)
      → send_acks (write_websocket_message req ctx t b).1 ≡ is_ack t
  unfolding write_websocket_message
  write_websocket_message-acks req ctx t b = omega arith

  write_websocket_data-acks :
      (req : Request F) (ctx : ℕ) (res : Result F)
      → send_acks (write_websocket_data req ctx res).1 ≡ 0
  unfolding write_websocket_data
  write_websocket_data-acks req ctx res =
      if_both Silent (drops_stopped req.protocol && context_operation_stopped req.contexts ctx)
        (λ _. refl) (λ _. write_websocket_message-acks req ctx _ _ ∙ data_type-acks req.protocol)

  pub handle_error-acks :
      (gql : Gqlerrors F) (req : Request F) (ctx : ℕ) (err : Error F)
      → send_acks (handle_error gql req ctx err).1 ≡ 0
  unfolding handle_error send_failure
  handle_error-acks gql req ctx (apollows awerr) =
      if_both Silent (is_graphql_ws req.protocol)
        (λ _. omega (arith, total-append, write_websocket_message-acks req ctx connection_error))
        (λ _. refl)
  handle_error-acks gql req ctx (result_error c es) = write_websocket_message-acks req ctx _ _
  handle_error-acks gql req ctx err = write_websocket_message-acks req ctx _ _

  after_result-acks :
      (t : Task F) (r : (Request F × List (Send F)) × Option (Error F))
      → send_acks r.0.1 ≡ 0
      → send_acks (after_result t r).1.sends ≡ 0
  unfolding after_result
  after_result-acks t ((req, sends), none) h = h
  after_result-acks t ((req, sends), some err) h = h

  finish-acks : (req : Request F) (opctx : ℕ) → Silent (finish req opctx)
  unfolding finish
  finish-acks req opctx =
      if_both Silent
        (not (context_operation_stopped req.contexts opctx) || is_graphql_ws req.protocol)
        (λ _. write_websocket_message-acks req opctx complete nil) (λ _. refl)

  -- Neither what a handler sends nor what its task does.
  abbrev pub Mute : Handled F → Type 0
  Mute h = (send_acks h.sends ≡ 0) × OnSome (λ (p : ℕ × Task F). send_acks p.1.sends ≡ 0) h.spawned

  read_websocket_start-acks :
      (req : Request F) (msg : Message F) → Mute (read_websocket_start req msg)
  unfolding read_websocket_start
  read_websocket_start-acks req msg =
      if_both Mute (lacks_init req) (λ _. (refl, tt))
        (λ _. started (Dict.lookup String_discrete msg.id req.operations))
    where
      started : (o : Option ℕ) → Mute (unless_running req msg o)
      started none = unfold unless_running spawn in (refl, refl)
      started (some a) = unfold unless_running in (refl, tt)

  pub dispatch-acks :
      (t : Operation) (req : Request F) (msg : Message F) → Mute (dispatch t req msg)
  unfolding dispatch read_websocket_stop read_websocket_terminate read_websocket_ping send_failure
  dispatch-acks Operation.start req msg = read_websocket_start-acks req msg
  dispatch-acks Operation.subscribe req msg = read_websocket_start-acks req msg
  dispatch-acks Operation.stop req msg =
      if_both Mute (lacks_init req) (λ _. (refl, tt)) (λ _. (refl, tt))
  dispatch-acks Operation.complete req msg =
      if_both Mute (lacks_init req) (λ _. (refl, tt)) (λ _. (refl, tt))
  dispatch-acks Operation.connection_terminate req msg =
      if_both Mute (is_transport_ws req.protocol) (λ _. (refl, tt)) (λ _. (refl, tt))
  dispatch-acks Operation.ping req msg =
      (write_websocket_message-acks req req.ctx pong msg.payload.value, tt)
  dispatch-acks _ req msg = (refl, tt)

  init_with-acks :
      (req : Request F) (o : InitOutcome F) (err : Option (Error F))
      → send_acks (init_with req o err).sends ≤ 1
  unfolding init_with acknowledge
  init_with-acks req o (some e) = omega arith
  init_with-acks req o none = elim (Option-cases o.returned) [
    | inl e ↦ rw e (omega (arith, write_websocket_message-acks (hand o.handed req)))
    | inr (err, e) ↦ rw e (omega arith)
  ]

  pub read_websocket_init-acks :
      (unmarshal : String → Option (Error F)) (req : Request F) (msg : Message F)
      (o : InitOutcome F)
      → send_acks (read_websocket_init unmarshal req msg o).sends ≤ 1
  unfolding read_websocket_init
  read_websocket_init-acks unmarshal req msg o = init_with-acks req o _

module _ {F : Type 0} (env : Environment F) (req : Request F) (opctx : ℕ) (t : Task F)
    (quiet : send_acks t.sends ≡ 0) where
  report-acks : (operr : Option (Error F)) → Silent (report env req opctx operr)
  unfolding report
  report-acks none = refl
  report-acks (some err) =
      if_both Silent (context_operation_executed req.contexts opctx) (λ _. refl)
        (λ _. handle_error-acks env.gql req opctx err)

  abbrev pub StepMute : Request F × Task F → Type 0
  StepMute (req', t') = send_acks t'.sends ≡ 0

  phase_step-acks :
      (p : Phase F) (ev : TaskEvent F) → OnSome StepMute (phase_step env req opctx t p ev)
  unfolding phase_step process_result after_write write_data
  phase_step-acks (starting raw) (unreadable err text) = quiet
  phase_step-acks (starting raw) readable = quiet
  phase_step-acks running (returned operr) = quiet
  phase_step-acks running results = quiet
  phase_step-acks (served _) results = quiet
  phase_step-acks streaming (received res) =
      after_result-acks t _ (write_websocket_data-acks req opctx _)
  phase_step-acks streaming closed = quiet
  phase_step-acks streaming (context_done err) =
      if_both (OnSome StepMute) (is_done req.contexts opctx) (λ _. quiet) (λ _. tt)
  phase_step-acks (served _) (returned operr) = quiet
  phase_step-acks (finishing operr) check_error = report-acks operr
  phase_step-acks completing check_complete = finish-acks req opctx
  phase_step-acks _ _ = tt

  pub task_step-acks :
      (sends : List (Send F)) (ev : TaskEvent F)
      → OnSome StepMute (task_step env req opctx t sends ev)
  unfolding task_step
  task_step-acks [] ev = phase_step-acks t.phase ev
  task_step-acks (_ ∷ _) ev = tt

module _ {F : Type 0} where
  -- What a send moves into the channel, it takes from what was to be sent.
  pub record Moved (req : Request F) (sends : List (Send F)) (r : Request F × List (Send F))
      : Type 0 where
    pub conserved :
        total item_acks r.0.outgoing + send_acks r.1
        ≤ total item_acks req.outgoing + send_acks sends
    pub fewer : send_acks r.1 ≤ send_acks sends
    pub same_init : r.0.init ≡ req.init

  try_send-Moved :
      (req : Request F) (sends : List (Send F)) → OnSome (Moved req sends) (try_send req sends)
  unfolding try_send
  try_send-Moved req [] = tt
  try_send-Moved req (s ∷ rest) =
      if_both (OnSome (Moved req (s ∷ rest))) req.closed
        (λ _. record { conserved = omega arith; fewer = omega arith; same_init = refl })
        (λ _.
          if_both (OnSome (Moved req (s ∷ rest))) (ltb (length req.outgoing) 1)
            (λ _. record {
              conserved = omega (arith, total-append item_acks req.outgoing (s.item ∷ []));
              fewer = omega arith;
              same_init = refl;
            })
            (λ _. tt))

  try_give_up-Moved :
      (req : Request F) (sends : List (Send F)) → OnSome (Moved req sends) (try_give_up req sends)
  unfolding try_give_up
  try_give_up-Moved req [] = tt
  try_give_up-Moved req (s ∷ rest) =
      if_both (OnSome (Moved req (s ∷ rest))) (give_up_at req.contexts s.unless)
        (λ _. record { conserved = omega arith; fewer = omega arith; same_init = refl }) (λ _. tt)

  pub attempt-Moved :
      (way : Bool) (req : Request F) (sends : List (Send F))
      → OnSome (Moved req sends) (attempt way req sends)
  unfolding attempt
  attempt-Moved true req sends = try_send-Moved req sends
  attempt-Moved false req sends = try_give_up-Moved req sends
