-- ===== src/Callbacks/Laws.antt =====
-- v1/callbacks.go: callbacks that are nil, and what is written for an error.
use wsgraphql.Prelude.{ℕ, String, ◌≡◌, refl, false, Option, none, some, List, ◌++◌}
use wsgraphql.Context.{context_http_response_started}
use wsgraphql.Apollows.{Error, Datum, Result}
use wsgraphql.Formatting.{Gqlerrors}
use wsgraphql.Response.{World}
use wsgraphql.Response.Laws.{error_response, answered, write_error-fresh}
use wsgraphql.Interceptors.{unless_failed, Outcome, ExecuteOutcome, HttpRequestArgs, PayloadArgs}
use wsgraphql.Callbacks.{
  Callbacks, legacy_callback_http_request, legacy_callback_init, legacy_callback_operation,
  legacy_callback_operation_parse, legacy_callback_execute, request_done, deferred_error, requested,
  before, disconnected, operation_done, validated, relayed,
}

module _ {F U : Type 0} (gql : Gqlerrors F) (marshal : Datum F → List F → String) where
  -- With neither OnRequest nor OnRequestDone set, an error of the handler that comes before a
  -- response was started is written to the response twice, and then returned.
  pub default_error_written_twice :
      {I P : Type 0} (callbacks : Callbacks F U I P) (w w' : World U) (ctx writer r : ℕ)
      (handler : HttpRequestArgs (World U) → Outcome (World U) (Error F)) (err : Error F)
      → callbacks.on_request ≡ none
      → callbacks.on_request_done ≡ none
      → handler (w, ctx, writer, r) ≡ (w', some err)
      → context_http_response_started w'.contexts ctx ≡ false
      → let (last, returned) =
          legacy_callback_http_request gql marshal callbacks (w, ctx, writer, r) handler in
        (last.calls
          ≡ (w'.calls ++ error_response gql marshal writer err)
            ++ error_response gql marshal writer err)
        × (returned ≡ some err)
  unfolding legacy_callback_http_request request_done deferred_error requested unless_failed
  default_error_written_twice callbacks w w' ctx writer r handler err on off fails fresh =
      rw
        (
          on,
          off,
          fails,
          write_error-fresh gql marshal w' ctx writer err fresh,
          write_error-fresh gql marshal (answered gql marshal w' writer err) ctx writer err fresh,
        )
        (refl, refl)

module _ {F U : Type 0} where
  disconnected-none : (ctx : ℕ) (o : Outcome (World U) (Error F)) → disconnected none ctx o ≡ o
  unfolding disconnected
  disconnected-none ctx (w, err) = refl

module _ {F U P : Type 0} where
  operation_done-none :
      (ctx : ℕ) (p : P) (o : Outcome (World U) (Error F)) → operation_done none ctx p o ≡ o
  unfolding operation_done
  operation_done-none ctx p (w, err) = refl

  validated-none : (ctx : ℕ) (p : P) (o : Outcome (World U) (Error F)) → validated none ctx p o ≡ o
  unfolding validated
  validated-none ctx p (w, err) = refl

  relayed-none :
      (ctx : ℕ) (p : P) (o : ExecuteOutcome (World U) (List (Result F)) (Error F))
      → ((relayed none ctx p o).0 ≡ o.0) × ((relayed none ctx p o).2 ≡ o.2)
  unfolding relayed
  relayed-none ctx p (w, cres, none) = (refl, refl)
  relayed-none ctx p (w, cres, some err) = (refl, refl)

module _ {F U I P : Type 0} where
  -- The callbacks of which none is set.
  abbrev pub no_callbacks : Callbacks F U I P
  no_callbacks = record {
    on_request = none;
    on_request_done = none;
    on_connect = none;
    on_disconnect = none;
    on_operation = none;
    on_operation_validation = none;
    on_operation_result = none;
    on_operation_done = none;
  }

  -- With no callback set, the interceptors of connections, operations and parsing do what their
  -- handlers do, and that of execution leaves the world and the error of its handler.
  pub no_callbacks_transparent :
      (connection : PayloadArgs (World U) (Option I)) (args : PayloadArgs (World U) P)
      (init : PayloadArgs (World U) (Option I) → Outcome (World U) (Error F))
      (stage : PayloadArgs (World U) P → Outcome (World U) (Error F))
      (execute : PayloadArgs (World U) P → ExecuteOutcome (World U) (List (Result F)) (Error F))
      → (legacy_callback_init no_callbacks connection init ≡ init connection)
        × (legacy_callback_operation no_callbacks args stage ≡ stage args)
        × (legacy_callback_operation_parse no_callbacks args stage ≡ stage args)
        × ((legacy_callback_execute no_callbacks args execute).0 ≡ (execute args).0)
        × ((legacy_callback_execute no_callbacks args execute).2 ≡ (execute args).2)
  unfolding legacy_callback_init legacy_callback_operation legacy_callback_operation_parse
      legacy_callback_execute unless_failed before
  no_callbacks_transparent (w, c, i) (v, d, p) init stage execute = (
    disconnected-none c (init (w, c, i)),
    operation_done-none d p (stage (v, d, p)),
    validated-none d p (stage (v, d, p)),
    (relayed-none d p (execute (v, d, p))).0,
    (relayed-none d p (execute (v, d, p))).1,
  )
