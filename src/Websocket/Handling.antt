-- ===== src/Websocket/Handling.antt =====
-- What one message, or one step of an operation, changes in a request.
use wsgraphql.Prelude.{
  ℕ, suc, String, String_discrete, ◌≤◌, ◌≡◌, refl, false, Option, none, some, List, [], ◌∷◌, ◌⊎◌,
  inl, inr, arith, Bool-cases, Option-cases, OnSome, not, ◌||◌,
}
use wsgraphql.Prelude.Dict
use wsgraphql.Mutable
use wsgraphql.Mutable.{is_done}
use wsgraphql.Context.{Contexts, context_operation_executed, context_operation_stopped}
use wsgraphql.Apollows.{Operation, Error, Message, pong, nil, connection_ack, complete}
use wsgraphql.Results.{set_executed, process_result, after_write}
use wsgraphql.Websocket.State.{
  Send, Request, Task, Phase, starting, running, streaming, served, finishing, completing,
}
use wsgraphql.Websocket.Outgoing.{is_graphql_ws}
use wsgraphql.Websocket.Keeps.{
  size, size-put, size-cancel, size-request_context_of, size-operation_context_of, Keeps,
  Keeps-contexts, Keeps-refl, Keeps-trans, write_websocket_message-Keeps,
  write_websocket_data-Keeps, handle_error-Keeps,
}
use wsgraphql.Websocket.Reader.{
  Handed, not_called, called, called_derived, InitOutcome, Handled, hand, acknowledge, init_with,
  read_websocket_init, spawn, unless_running, read_websocket_start, stop_operation,
  read_websocket_stop, read_websocket_terminate, read_websocket_ping, dispatch, lacks_init,
  is_transport_ws,
}
use wsgraphql.Websocket.Operations.{
  Environment, TaskEvent, unreadable, readable, results, received, closed, context_done, returned,
  check_error, check_complete, write_data, after_result, report, finish, phase_step, task_step,
}

-- The task that a `start` or `subscribe` message begins, under the address of the next context.
pub record Spawns {F : Type 0} (req : Request F) (msg : Message F) (h : Handled F) : Type 0 where
  pub allowed : lacks_init req ≡ false
  pub fresh : Dict.lookup String_discrete msg.id req.operations ≡ none
  pub begun :
      h.spawned
      ≡ some (
        size req.contexts,
        record { id = msg.id; phase = starting msg.payload.raw_message; sends = [] },
      )
  pub no_error : h.err ≡ none
  pub noted :
      h.request.operations ≡ Dict.insert String_discrete msg.id (size req.contexts) req.operations
  pub counted : h.request.wg ≡ suc req.wg
  pub same_protocol : h.request.protocol ≡ req.protocol
  pub same_init : h.request.init ≡ req.init
  pub same_closed : h.request.closed ≡ req.closed
  pub same_panicked : h.request.panicked ≡ req.panicked
  pub same_outgoing : h.request.outgoing ≡ req.outgoing
  pub grows : suc (size req.contexts) ≤ size h.request.contexts

abbrev pub Effect : {F : Type 0} → Request F → Message F → Handled F → Type 0
Effect req msg h = ((h.spawned ≡ none) × Keeps req h.request) ⊎ Spawns req msg h

size-stop_operation : (s : Contexts) (o : Option ℕ) → size (stop_operation s o) ≡ size s
unfolding stop_operation
size-stop_operation s none = refl
size-stop_operation s (some a) = omega (arith, size-cancel, size-put)

module _ {F : Type 0} where
  spawn-Spawns :
      (req : Request F) (msg : Message F)
      → lacks_init req ≡ false
      → Dict.lookup String_discrete msg.id req.operations ≡ none
      → Spawns req msg (spawn req msg)
  unfolding spawn Mutable.new_mutable_context
  spawn-Spawns req msg a f = record {
    allowed = a;
    fresh = f;
    begun = refl;
    no_error = refl;
    noted = refl;
    counted = refl;
    same_protocol = refl;
    same_init = refl;
    same_closed = refl;
    same_panicked = refl;
    same_outgoing = refl;
    grows = omega (arith, size-put);
  }

  read_websocket_start-Effect :
      (req : Request F) (msg : Message F) → Effect req msg (read_websocket_start req msg)
  unfolding read_websocket_start unless_running
  read_websocket_start-Effect req msg = elim (Bool-cases (lacks_init req)) [
    | inl e ↦ rw e (inl (refl, Keeps-refl req))
    | inr e ↦ elim (Option-cases (Dict.lookup String_discrete msg.id req.operations)) [
      | inl f ↦ rw (e, f) (inr (spawn-Spawns req msg e f))
      | inr (a, f) ↦ rw (e, f) (inl (refl, Keeps-refl req))
    ]
  ]

  read_websocket_stop-Effect :
      (req : Request F) (msg : Message F) → Effect req msg (read_websocket_stop req msg)
  unfolding read_websocket_stop
  read_websocket_stop-Effect req msg = elim (Bool-cases (lacks_init req)) [
    | inl e ↦ rw e (inl (refl, Keeps-refl req))
    | inr e ↦
        rw e (inl (refl, Keeps-contexts req _ (omega (arith, size-stop_operation req.contexts))))
  ]

  read_websocket_terminate-Effect :
      (req : Request F) (msg : Message F) → Effect req msg (read_websocket_terminate req)
  unfolding read_websocket_terminate
  read_websocket_terminate-Effect req msg = elim (Bool-cases (is_transport_ws req.protocol)) [
    | inl e ↦ rw e (inl (refl, Keeps-refl req))
    | inr e ↦ rw e (
        inl (
          refl,
          Keeps-contexts req _
              (omega (arith, size-put, size-request_context_of req.contexts req.ctx)),
        ))
  ]

  -- Every message but `connection_init` either starts one new operation or leaves the operations,
  -- the flags and the channel as they are.
  pub dispatch-Effect :
      (t : Operation) (req : Request F) (msg : Message F) → Effect req msg (dispatch t req msg)
  unfolding dispatch read_websocket_ping
  dispatch-Effect Operation.start req msg = read_websocket_start-Effect req msg
  dispatch-Effect Operation.subscribe req msg = read_websocket_start-Effect req msg
  dispatch-Effect Operation.stop req msg = read_websocket_stop-Effect req msg
  dispatch-Effect Operation.complete req msg = read_websocket_stop-Effect req msg
  dispatch-Effect Operation.connection_terminate req msg = read_websocket_terminate-Effect req msg
  dispatch-Effect Operation.ping req msg =
      inl (refl, write_websocket_message-Keeps req req.ctx pong msg.payload.value)
  dispatch-Effect _ req msg = inl (refl, Keeps-refl req)

  hand-Keeps : (h : Handed) (req : Request F) → Keeps req (hand h req)
  unfolding hand Mutable.new_mutable_context
  hand-Keeps not_called req = Keeps-refl req
  hand-Keeps called req = Keeps-refl req
  hand-Keeps called_derived req = ground arith

  acknowledge-Keeps :
      (req : Request F) (err : Option (Error F))
      → ((acknowledge req err).spawned ≡ none) × Keeps req (acknowledge req err).request
  unfolding acknowledge
  acknowledge-Keeps req none = (refl, write_websocket_message-Keeps req req.ctx connection_ack nil)
  acknowledge-Keeps req (some e) = (refl, Keeps-refl req)

  init_with-Keeps :
      (req : Request F) (o : InitOutcome F) (err : Option (Error F))
      → ((init_with req o err).spawned ≡ none) × Keeps req (init_with req o err).request
  unfolding init_with
  init_with-Keeps req o (some e) = (refl, Keeps-refl req)
  init_with-Keeps req o none =
      let (none_begun, kept) = acknowledge-Keeps (hand o.handed req) o.returned in
      (none_begun, Keeps-trans (hand-Keeps o.handed req) kept)

  pub read_websocket_init-Keeps :
      (unmarshal : String → Option (Error F)) (req : Request F) (msg : Message F)
      (o : InitOutcome F)
      → ((read_websocket_init unmarshal req msg o).spawned ≡ none)
        × Keeps req (read_websocket_init unmarshal req msg o).request
  unfolding read_websocket_init
  read_websocket_init-Keeps unmarshal req msg o = init_with-Keeps req o _

  -- A step of an operation keeps the operation's id.
  abbrev pub StepKeeps : Request F → Task F → Request F × Task F → Type 0
  StepKeeps req t (req', t') = Keeps req req' × (t'.id ≡ t.id)

  after_result-Keeps :
      (req : Request F) (t : Task F) (w : Request F × List (Send F)) (e : Option (Error F))
      → Keeps req w.0
      → StepKeeps req t (after_result t (w, e))
  unfolding after_result
  after_result-Keeps req t (req', sends) none k = (k, refl)
  after_result-Keeps req t (req', sends) (some e) k = (k, refl)

module _ {F : Type 0} (env : Environment F) (req : Request F) (opctx : ℕ) (t : Task F) where
  report-Keeps : (operr : Option (Error F)) → Keeps req (report env req opctx operr).0
  unfolding report
  report-Keeps none = Keeps-refl req
  report-Keeps (some err) = elim (Bool-cases (context_operation_executed req.contexts opctx)) [
    | inl e ↦ rw e (Keeps-refl req)
    | inr e ↦ rw e (handle_error-Keeps env.gql req opctx err)
  ]

  finish-Keeps : Keeps req (finish req opctx).0
  unfolding finish
  finish-Keeps =
      elim (Bool-cases
        (not (context_operation_stopped req.contexts opctx) || is_graphql_ws req.protocol)) [
          | inl e ↦ rw (e, finish) (write_websocket_message-Keeps req opctx complete nil)
          | inr e ↦ rw (e, finish) (Keeps-refl req)
        ]

  phase_step-Keeps :
      (p : Phase F) (ev : TaskEvent F) → OnSome (StepKeeps req t) (phase_step env req opctx t p ev)
  unfolding phase_step set_executed process_result after_write write_data
  phase_step-Keeps (starting raw) (unreadable err text) = (Keeps-refl req, refl)
  phase_step-Keeps (starting raw) readable = (Keeps-refl req, refl)
  phase_step-Keeps running (returned operr) = (Keeps-refl req, refl)
  phase_step-Keeps running results = (
    Keeps-contexts req _ (omega (arith, size-put, size-operation_context_of req.contexts opctx)),
    refl,
  )
  phase_step-Keeps (served _) results = (
    Keeps-contexts req _ (omega (arith, size-put, size-operation_context_of req.contexts opctx)),
    refl,
  )
  phase_step-Keeps streaming (received res) =
      after_result-Keeps req t _ _ (write_websocket_data-Keeps req opctx _)
  phase_step-Keeps streaming closed = (Keeps-refl req, refl)
  phase_step-Keeps streaming (context_done err) = elim (Bool-cases (is_done req.contexts opctx)) [
    | inl e ↦ rw e (Keeps-refl req, refl)
    | inr e ↦ rw e tt
  ]
  phase_step-Keeps (served _) (returned operr) = (Keeps-refl req, refl)
  phase_step-Keeps (finishing operr) check_error = (report-Keeps operr, refl)
  phase_step-Keeps completing check_complete = (finish-Keeps, refl)
  phase_step-Keeps _ _ = tt

  pub task_step-Keeps :
      (sends : List (Send F)) (ev : TaskEvent F)
      → OnSome (StepKeeps req t) (task_step env req opctx t sends ev)
  unfolding task_step
  task_step-Keeps [] ev = phase_step-Keeps t.phase ev
  task_step-Keeps (_ ∷ _) ev = tt
