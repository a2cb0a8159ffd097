-- ===== src/Websocket/Replies.antt =====
-- How the server answers messages that it must refuse, and what ends an operation.
use wsgraphql.Prelude.{
  String, List, ℕ, ◌<◌, ◌≡◌, refl, ◌∙◌, true, false, some, [], ◌∷◌, arith, length,
}
use wsgraphql.Mutable.{is_done, cancel}
use wsgraphql.Context.{
  Contexts, get, put, operation_stopped, boolean, context_operation_stopped, context_operation_id,
  operation_id, context_operation_executed, request_context, mutable_context, as_boolean,
}
use wsgraphql.Context.Laws.{
  IsRegistered, get-put_self, get-put_ne, operation_context_of_registered,
  request_context_of_registered, get-cancel, length-put,
}
use wsgraphql.Mutable.Cancellation.{is_done-cancel_self}
use wsgraphql.Apollows.{
  graphql_transport_ws, Operation, start, subscribe, stop, complete, error, Error, ApollowsError,
  apollows, result_error, event, Body, one_error, many_errors, Message, event_unauthorized,
}
use wsgraphql.Apollows.Errors.{new_subscriber_already_exists_error}
use wsgraphql.Formatting.{Gqlerrors}
use wsgraphql.Websocket.State.{Send, message, Request, System, failing}
use wsgraphql.Websocket.Outgoing.{send_failure, handle_error, write_websocket_message, set_stopped}
use wsgraphql.Websocket.Reader.{
  InitOutcome, lacks_init, dispatch, read_websocket_start, read_websocket_stop, unless_running,
  stop_operation,
}
use wsgraphql.Websocket.Operations.{Environment, report, finish}
use wsgraphql.Websocket.System.{read, settle, fail}
use wsgraphql.Websocket.Invariant.{operation_at}

-- The messages that ask for an operation to begin or to end.
pub data ForOperation : Operation → Type 0 where
  starts : ForOperation start
  subscribes : ForOperation subscribe
  stops : ForOperation stop
  completes : ForOperation complete

module _ {F : Type 0} where
  -- The connection is to be closed with an error, and no state but the reader's has changed.
  abbrev pub closing : System F → ApollowsError F → System F
  closing sys e = record sys { reader = failing; reader_sends = send_failure e ∷ [] }

  lacks_init-transport_ws :
      (req : Request F) → lacks_init req ≡ true → req.protocol ≡ graphql_transport_ws
  lacks_init-transport_ws req h = ground arith

module _ {F : Type 0} (env : Environment F) (sys : System F) (msg : Message F)
    (outcome : InitOutcome F) where
  -- Under graphql-transport-ws and before connection_init, every message that asks for an
  -- operation to begin or to end closes the connection with code 4401 and changes nothing else.
  pub unauthorized_before_init :
      (t : Operation)
      → ForOperation t
      → lacks_init sys.request ≡ true
      → read env sys msg outcome t ≡ closing sys (event event_unauthorized)
  unfolding read dispatch read_websocket_start read_websocket_stop settle fail handle_error
  unauthorized_before_init t starts h = ground (arith, lacks_init-transport_ws sys.request h)
  unauthorized_before_init t subscribes h = ground (arith, lacks_init-transport_ws sys.request h)
  unauthorized_before_init t stops h = ground (arith, lacks_init-transport_ws sys.request h)
  unauthorized_before_init t completes h = ground (arith, lacks_init-transport_ws sys.request h)

  -- Under graphql-transport-ws, a subscribe message with the id of an operation that has not ended
  -- closes the connection with an error that names the id, and starts nothing.
  pub duplicate_subscriber_refused :
      (a : ℕ)
      → sys.request.protocol ≡ graphql_transport_ws
      → lacks_init sys.request ≡ false
      → operation_at msg.id sys.request ≡ some a
      → read env sys msg outcome subscribe
        ≡ closing sys (new_subscriber_already_exists_error msg.id)
  unfolding read dispatch read_websocket_start unless_running settle fail handle_error
  duplicate_subscriber_refused a p h e = ground arith

module _ {F : Type 0} (req : Request F) (msg : Message F) (a : ℕ) where
  -- A stop or complete message for a running operation, where it is allowed, marks the operation's
  -- context as stopped and cancels it; it sends nothing, and the operation stays in the map.
  pub stop_reaches_operation :
      lacks_init req ≡ false
      → operation_at msg.id req ≡ some a
      → a < length req.contexts.nodes
      → let h = read_websocket_stop req msg in
        (context_operation_stopped h.request.contexts a ≡ true)
        × (is_done h.request.contexts a ≡ true)
        × (h.sends ≡ [])
        × (h.request.operations ≡ req.operations)
  unfolding read_websocket_stop stop_operation context_operation_stopped
  stop_reaches_operation allowed here below = rw (allowed, here) (stopped, done, refl, refl)
    where
      marked : Contexts
      marked = put req.contexts a operation_stopped (boolean true)

      stopped : as_boolean (get (cancel marked a) a operation_stopped) ≡ true
      stopped = rw (
        get-cancel marked a a operation_stopped,
        get-put_self req.contexts a operation_stopped (boolean true) below,
      )

      done : is_done (cancel marked a) a ≡ true
      done =
          is_done-cancel_self marked a
            (omega (arith, length-put req.contexts a operation_stopped (boolean true)))

-- Whether an error is reported by an error message, and not by closing the connection.
abbrev pub IsOperationError : {F : Type 0} → Error F → Type 0
IsOperationError (apollows _) = ⊥
IsOperationError _ = Unit

module _ {F : Type 0} where
  finish_stopped :
      (req : Request F) (opctx : ℕ)
      → req.protocol ≡ graphql_transport_ws
      → context_operation_stopped req.contexts opctx ≡ true
      → finish req opctx ≡ (req, [])
  unfolding finish
  finish_stopped req opctx p h = ground arith

  -- What an error message tells of an error.
  abbrev pub told : Gqlerrors F → Error F → Body F
  told gql (result_error content errors) = many_errors errors
  told gql err = one_error (gql.gql_format_error (some err))

  handle_error-operation :
      (gql : Gqlerrors F) (req : Request F) (ctx : ℕ) (err : Error F)
      → IsOperationError err
      → req.protocol ≡ graphql_transport_ws
      → handle_error gql req ctx err ≡ write_websocket_message req ctx error (told gql err)
  unfolding handle_error
  handle_error-operation gql req ctx (apollows e) h p = absurd h
  handle_error-operation gql req ctx (result_error content errors) h p = rw p refl
  handle_error-operation gql req ctx _ h p = refl

  -- One message of an operation, which is given up if the request of context `r` ends.
  abbrev pub answers : String → Operation → Body F → (r : ℕ) → List (Send F)
  answers id t content r =
      record {
        item =
            message (record {
              id = id;
              type = t;
              payload = record { value = content; raw_message = "" };
            });
        unless = some r;
      }
      ∷ []

module _ {F : Type 0} (env : Environment F) (req : Request F) (opctx r : ℕ) where
  reported :
      (b : Body F)
      → IsRegistered req.contexts opctx
      → get req.contexts opctx request_context ≡ mutable_context r
      → opctx < length req.contexts.nodes
      → let (req', sent) = write_websocket_message req opctx error b in
        (sent ≡ answers (context_operation_id req.contexts opctx) error b r)
        × (context_operation_stopped req'.contexts opctx ≡ true)
        × (req'.protocol ≡ req.protocol)
  unfolding write_websocket_message set_stopped context_operation_stopped context_operation_id
  reported b own whole below =
      rw
        (
          operation_context_of_registered req.contexts opctx own,
          request_context_of_registered (put req.contexts opctx operation_stopped (boolean true))
              opctx r
              (get-put_ne req.contexts opctx opctx operation_stopped request_context (boolean true)
                  (λ e. cc)
                ∙ whole),
          get-put_self req.contexts opctx operation_stopped (boolean true) below,
          get-put_ne req.contexts opctx opctx operation_stopped operation_id (boolean true)
              (λ e. cc),
        )
        (refl, refl, refl)

  -- Under graphql-transport-ws, take an operation whose context exists and shows itself as the
  -- operation's context and the request's as the request's. If it fails before it was executed, with an
  -- error that does not close the connection, it sends exactly one message: one of type `error`, with
  -- the operation's id and the error as its payload. No complete message follows it.
  pub error_ends_operation :
      (err : Error F)
      → IsOperationError err
      → req.protocol ≡ graphql_transport_ws
      → IsRegistered req.contexts opctx
      → get req.contexts opctx request_context ≡ mutable_context r
      → opctx < length req.contexts.nodes
      → context_operation_executed req.contexts opctx ≡ false
      → let (req', sent) = report env req opctx (some err) in
        (sent ≡ answers (context_operation_id req.contexts opctx) error (told env.gql err) r)
        × (finish req' opctx ≡ (req', []))
  unfolding report
  error_ends_operation err plain_error p own whole below fresh =
      let e = handle_error-operation env.gql req opctx err plain_error p in
      let (one, stopped, same) = reported (told env.gql err) own whole below in
      rw (fresh, e) (one, finish_stopped _ opctx (same ∙ p) stopped)
