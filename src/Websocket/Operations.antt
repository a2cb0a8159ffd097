-- ===== src/Websocket/Operations.antt =====
-- v1/server_websocket.go: the goroutine of an operation, and `serveWebsocketOperation` in it.
--
-- The interceptors, the parser and the executor are not the program's. An event says what they did
-- or what `select` chose; a step is what the goroutine does up to its next send or its next event.
use wsgraphql.Prelude.{ℕ, String, not, ◌||◌, Option, none, some, List, [], ◌∷◌, ◌++◌, if◌then◌else◌}
use wsgraphql.Mutable.{is_done}
use wsgraphql.Context.{context_operation_stopped, context_operation_executed}
use wsgraphql.Apollows.{complete, Error, apollows, Result, nil, event_invalid_message}
use wsgraphql.Apollows.Errors.{wrap_error}
use wsgraphql.Formatting.{Gqlerrors}
use wsgraphql.Results.{process_result, set_executed}
use wsgraphql.Websocket.State.{
  Send, Request, Task, Phase, starting, running, streaming, served, finishing, completing, leaving,
}
use wsgraphql.Websocket.Outgoing.{
  write_websocket_message, write_websocket_data, handle_error, is_graphql_ws,
}
use wsgraphql.Websocket.Reader.{is_transport_ws}

-- What the websocket code takes from elsewhere: graphql-go's errors, the `ResultProcessor`, and
-- whether `json.Unmarshal` refuses an `init` payload.
pub record Environment (F : Type 0) : Type 0 where
  pub gql : Gqlerrors F
  pub processor : Result F → Result F
  pub unmarshal_init : String → Option (Error F)

-- `unreadable`: `json.Unmarshal` gave this error, of this text. `results`: `processResults` is
-- called, by an interceptor's first call of its handler or a further one, after the first returned.
-- `received`, `closed`, `context_done`: what its `select` chose, with `ctx.Err()`.
-- `returned`: the `Operation` interceptor returned. The last two are the goroutine's own.
pub data TaskEvent (F : Type 0) : Type 0 where
  unreadable : Error F → String → TaskEvent F
  readable results : TaskEvent F
  received : Result F → TaskEvent F
  closed : TaskEvent F
  context_done : Error F → TaskEvent F
  returned : Option (Error F) → TaskEvent F
  check_error check_complete : TaskEvent F

module _ {F : Type 0} where
  -- The `operr` of a payload that `json.Unmarshal` refused.
  unfoldable pub payload_error : Request F → Error F → String → Error F
  payload_error req err text =
      if is_transport_ws req.protocol
      then apollows (wrap_error err text event_invalid_message)
      else err

  -- The closure that `serveWebsocketOperation` hands to `processResults`.
  unfoldable pub write_data :
      ℕ → Request F × List (Send F) → Result F → (Request F × List (Send F)) × Option (Error F)
  write_data opctx (req, sends) res =
      let (req', sent) = write_websocket_data req opctx res in ((req', sends ++ sent), none)

  unfoldable pub after_result :
      Task F → (Request F × List (Send F)) × Option (Error F) → Request F × Task F
  after_result t ((req, sends), none) = (req, record t { phase = streaming; sends = sends })
  after_result t ((req, sends), some err) =
      (req, record t { phase = served (some err); sends = sends })

  -- `!ContextOperationStopped(opctx) || req.protocol == …GraphqlWS`
  unfoldable pub finish : Request F → ℕ → Request F × List (Send F)
  finish req opctx =
      if not (context_operation_stopped req.contexts opctx) || is_graphql_ws req.protocol
      then write_websocket_message req opctx complete nil
      else (req, [])

  abbrev moved : Task F → Phase F → Request F × List (Send F) → Request F × Task F
  moved t p (req, sends) = (req, record t { phase = p; sends = sends })

module _ {F : Type 0} (env : Environment F) where
  -- `operr != nil && !ContextOperationExecuted(opctx)`
  unfoldable pub report : Request F → ℕ → Option (Error F) → Request F × List (Send F)
  report req opctx none = (req, [])
  report req opctx (some operr) =
      if context_operation_executed req.contexts opctx
      then (req, [])
      else handle_error env.gql req opctx operr

  -- One step of the goroutine of `t`, whose context is `opctx` and whose sends are done; `none` if
  -- the event does not fit where it stands.
  unfoldable pub phase_step :
      Request F → ℕ → Task F → Phase F → TaskEvent F → Option (Request F × Task F)
  phase_step req opctx t (starting raw) (unreadable err text) =
      some (req, record t { phase = finishing (some (payload_error req err text)) })
  phase_step req opctx t (starting raw) readable = some (req, record t { phase = running })
  phase_step req opctx t running (returned operr) = some (req, record t { phase = finishing operr })
  phase_step req opctx t running results =
      some
        (record req { contexts = set_executed req.contexts opctx }, record t { phase = streaming })
  phase_step req opctx t (served _) results =
      some
        (record req { contexts = set_executed req.contexts opctx }, record t { phase = streaming })
  phase_step req opctx t streaming (received res) =
      some (after_result t (process_result env.gql env.processor (write_data opctx) (req, []) res))
  phase_step req opctx t streaming closed = some (req, record t { phase = served none })
  phase_step req opctx t streaming (context_done err) =
      if is_done req.contexts opctx
      then some (
        req,
        record t {
          phase = served (if context_operation_stopped req.contexts opctx then none else some err);
        },
      )
      else none
  phase_step req opctx t (served _) (returned operr) =
      some (req, record t { phase = finishing operr })
  phase_step req opctx t (finishing operr) check_error =
      some (moved t completing (report req opctx operr))
  phase_step req opctx t completing check_complete = some (moved t leaving (finish req opctx))
  phase_step req opctx t _ _ = none

  -- `phase_step`, once the sends are done.
  unfoldable pub task_step :
      Request F → ℕ → Task F → List (Send F) → TaskEvent F → Option (Request F × Task F)
  task_step req opctx t [] ev = phase_step req opctx t t.phase ev
  task_step req opctx t (_ ∷ _) ev = none
