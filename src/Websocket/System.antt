-- ===== src/Websocket/System.antt =====
-- v1/server_websocket.go: the goroutines of one websocket request, step by step.
--
-- A step runs one goroutine up to its next send, its next read, or its end. `step` gives `none`
-- where the event cannot happen in the state. The three calls by which an operation's goroutine
-- ends (`Cancel`, `delete`, `wg.Done`) are one step.
use wsgraphql.Prelude.{
  ℕ, ◌-◌, String, ◌≡◌, Bool, true, false, Option, none, some, List, [], ◌∷◌, ◌++◌, ℕ_discrete,
  if◌then◌else◌, String_discrete, ◌==◌,
}
use wsgraphql.Prelude.Dict
use wsgraphql.Mutable.{is_done, cancel}
use wsgraphql.Context.{Contexts, request_context_of}
use wsgraphql.Apollows.{
  Protocol, Operation, connection_init, Error, apollows, event, Message,
  event_initialization_timeout, event_too_many_initialization_requests,
}
use wsgraphql.Websocket.State.{
  OutgoingMessage, Send, Request, Reader, reading, signalling, failing, waiting, exited, Phase,
  leaving, Task, Timer, unused, armed, fired, ended, json, System,
}
use wsgraphql.Websocket.Outgoing.{handle_error}
use wsgraphql.Websocket.Channel.{attempt, frame_of, frames, tick_message}
use wsgraphql.Websocket.Reader.{InitOutcome, Handled, read_websocket_init, dispatch}
use wsgraphql.Websocket.Operations.{Environment, TaskEvent, task_step}

pub data Goroutine : Type 0 where
  reader timer : Goroutine
  task : ℕ → Goroutine

-- `receive`, `read_failed`: `ReadJSON` returned. `hand_over`: the hand-shake of `connectSuccessful`.
-- `send`, `give_up`: the two cases of the `select` in `writeWebsocketMessage`. `write`, `tick`: the
-- cases of the loop in `serveWebsocketRequest`, with the error of `WriteJSON` or `Close`, if any.
-- `timer_fires`, `timer_stops`: the cases of `backgroundTimeout`. `server_done`: the HTTP server
-- cancels the context of the request.
pub data Event (F : Type 0) : Type 0 where
  receive : Message F → InitOutcome F → Event F
  read_failed : Error F → Event F
  hand_over : InitOutcome F → Event F
  tear_down close_outgoing : Event F
  send give_up : Goroutine → Event F
  of_task : ℕ → TaskEvent F → Event F
  leave : ℕ → Event F
  write tick : Option String → Event F
  timer_fires timer_stops server_done : Event F

-- The `connectSuccessful` channel and `backgroundTimeout`, made if there is a timeout.
abbrev pub timer_of : Bool → Timer
timer_of true = armed
timer_of false = unused

-- What `serveWebsocketRequest` starts with, once the protocol is known to it.
unfoldable pub begin : {F : Type 0} → Contexts → ℕ → Protocol → Bool → System F
begin s ctx protocol timeout = record {
  request = record {
    ctx = ctx;
    outgoing = [];
    operations = [];
    protocol = protocol;
    wg = 0;
    init = false;
    contexts = s;
    closed = false;
    panicked = false;
  };
  reader = reading;
  reader_sends = [];
  tasks = [];
  timer = timer_of timeout;
  timer_sends = [];
  wire = [];
}

module _ {F : Type 0} where
  unfoldable pub task_sent :
      System F → ℕ → Task F → Option (Request F × List (Send F)) → Option (System F)
  task_sent sys a t none = none
  task_sent sys a t (some (req, rest)) = some (record sys {
    request = req;
    tasks = Dict.insert ℕ_discrete a (record t { sends = rest }) sys.tasks;
  })

  unfoldable pub task_attempt : Bool → System F → ℕ → Option (Task F) → Option (System F)
  task_attempt way sys a none = none
  task_attempt way sys a (some t) = task_sent sys a t (attempt way sys.request t.sends)

  unfoldable pub reader_sent : System F → Option (Request F × List (Send F)) → Option (System F)
  reader_sent sys none = none
  reader_sent sys (some (req, rest)) = some (record sys { request = req; reader_sends = rest })

  unfoldable pub timer_sent : System F → Option (Request F × List (Send F)) → Option (System F)
  timer_sent sys none = none
  timer_sent sys (some (req, rest)) = some (record sys { request = req; timer_sends = rest })

  unfoldable pub send_step : Bool → System F → Goroutine → Option (System F)
  send_step way sys reader = reader_sent sys (attempt way sys.request sys.reader_sends)
  send_step way sys timer = timer_sent sys (attempt way sys.request sys.timer_sends)
  send_step way sys (task a) = task_attempt way sys a (Dict.lookup ℕ_discrete a sys.tasks)

  unfoldable pub write_step :
      System F → List (OutgoingMessage F) → Option String → Option (System F)
  write_step sys [] err = none
  write_step sys (m ∷ rest) err = some (record sys {
    request = record sys.request { outgoing = rest };
    wire = sys.wire ++ frames (frame_of m) err;
  })

module _ {F : Type 0} (env : Environment F) where
  -- `return` with an error in `readWebsocket`: the deferred function up to `Cancel`.
  unfoldable pub fail : System F → Error F → System F
  fail sys err =
      let (req, sent) = handle_error env.gql sys.request sys.request.ctx err in
      record sys { request = req; reader = failing; reader_sends = sent }

  unfoldable pub spawned : List (ℕ × Task F) → Option (ℕ × Task F) → List (ℕ × Task F)
  spawned tasks none = tasks
  spawned tasks (some (a, t)) = Dict.insert ℕ_discrete a t tasks

  -- The end of a round of the loop of `readWebsocket`.
  unfoldable pub settle : System F → Handled F → Option (Error F) → System F
  settle sys h none = record sys {
    request = h.request;
    reader = reading;
    reader_sends = h.sends;
    tasks = spawned sys.tasks h.spawned;
  }
  settle sys h (some err) = fail (record sys { request = h.request }) err

  unfoldable pub initialise : System F → Message F → InitOutcome F → System F
  initialise sys msg outcome =
      let h = read_websocket_init env.unmarshal_init sys.request msg outcome in settle sys h h.err

  unfoldable pub connect : System F → Message F → InitOutcome F → Timer → System F
  connect sys msg outcome unused = initialise sys msg outcome
  connect sys msg outcome _ = record sys { reader = signalling msg }

  -- One round of the loop of `readWebsocket`.
  unfoldable pub read : System F → Message F → InitOutcome F → Operation → System F
  read sys msg outcome connection_init =
      if sys.request.init
      then fail sys (apollows (event event_too_many_initialization_requests))
      else connect (record sys { request = record sys.request { init = true } }) msg outcome
          sys.timer
  read sys msg outcome t = let h = dispatch t sys.request msg in settle sys h h.err

  unfoldable pub reader_step :
      System F → Reader F → List (Send F) → Timer → Event F → Option (System F)
  reader_step sys reading [] tm (receive msg outcome) = some (read sys msg outcome msg.type)
  reader_step sys reading [] tm (read_failed err) = some (fail sys err)
  reader_step sys (signalling msg) [] armed (hand_over outcome) =
      some (initialise (record sys { timer = ended }) msg outcome)
  reader_step sys failing [] tm tear_down =
      let (s, reqctx) = request_context_of sys.request.contexts sys.request.ctx in
      some (record sys {
        request = record sys.request { contexts = cancel s reqctx };
        reader = waiting;
      })
  reader_step sys waiting [] tm close_outgoing =
      if sys.request.wg == 0
      then some (record sys { request = record sys.request { closed = true }; reader = exited })
      else none
  reader_step sys r sends tm e = none

  unfoldable pub timer_step : System F → Timer → Event F → Option (System F)
  timer_step sys armed timer_fires =
      let (req, sent) =
        handle_error env.gql sys.request sys.request.ctx
          (apollows (event event_initialization_timeout)) in
      some (record sys { request = req; timer = fired; timer_sends = sent })
  timer_step sys armed timer_stops =
      if is_done sys.request.contexts sys.request.ctx
      then some (record sys { timer = ended })
      else none
  timer_step sys tm e = none

  unfoldable pub stepped : System F → ℕ → Option (Request F × Task F) → Option (System F)
  stepped sys a none = none
  stepped sys a (some (req, t)) =
      some (record sys { request = req; tasks = Dict.insert ℕ_discrete a t sys.tasks })

  unfoldable pub of_task_step : System F → ℕ → TaskEvent F → Option (Task F) → Option (System F)
  of_task_step sys a ev none = none
  of_task_step sys a ev (some t) = stepped sys a (task_step env sys.request a t t.sends ev)

  -- `opctx.Cancel()`, `delete(req.operations, msg.ID)`, `req.wg.Done()`
  unfoldable pub remove_task : System F → ℕ → Task F → System F
  remove_task sys a t = record sys {
    request = record sys.request {
      contexts = cancel sys.request.contexts a;
      operations = Dict.delete String_discrete t.id sys.request.operations;
      wg = sys.request.wg - 1;
    };
    tasks = Dict.delete ℕ_discrete a sys.tasks;
  }

  unfoldable pub leave_phase : System F → ℕ → Task F → Phase F → List (Send F) → Option (System F)
  leave_phase sys a t leaving [] = some (remove_task sys a t)
  leave_phase sys a t p sends = none

  unfoldable pub leave_step : System F → ℕ → Option (Task F) → Option (System F)
  leave_step sys a none = none
  leave_step sys a (some t) = leave_phase sys a t t.phase t.sends

  unfoldable pub step : System F → Event F → Option (System F)
  step sys (send who) = send_step true sys who
  step sys (give_up who) = send_step false sys who
  step sys (of_task a ev) = of_task_step sys a ev (Dict.lookup ℕ_discrete a sys.tasks)
  step sys (leave a) = leave_step sys a (Dict.lookup ℕ_discrete a sys.tasks)
  step sys (write err) = write_step sys sys.request.outgoing err
  step sys (tick err) =
      some (record sys { wire = sys.wire ++ frames (json (tick_message sys.request.protocol)) err })
  step sys timer_fires = timer_step sys sys.timer timer_fires
  step sys timer_stops = timer_step sys sys.timer timer_stops
  step sys server_done = some (record sys {
    request = record sys.request { contexts = record sys.request.contexts { base_done = true } };
  })
  step sys e = reader_step sys sys.reader sys.reader_sends sys.timer e

  -- The states that a request can come to.
  pub data Reach (start : System F) : System F → Type 0 where
    here : Reach start start
    next : {s t : System F} (e : Event F) → Reach start s → step s e ≡ some t → Reach start t
