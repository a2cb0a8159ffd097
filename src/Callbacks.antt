-- ===== src/Callbacks.antt =====
-- v1/callbacks.go: the deprecated callbacks, as interceptors.
--
-- A callback gets the world and leaves it changed. The channel of results is the list of what it
-- will deliver; the goroutine that relays it is a function on that list, run where it is started.
-- `none` is a channel that never delivers and is never closed, as a nil one is.
pub mod Laws
use wsgraphql.Prelude.{ℕ, Option, none, some, List, [], ◌∷◌, String}
use wsgraphql.Context.{Contexts, request_context_of, operation_context_of}
use wsgraphql.Apollows.{Error, result_error, Datum, Result, failure}
use wsgraphql.Formatting.{Gqlerrors}
use wsgraphql.Response.{World, write_error}
use wsgraphql.Interceptors.{
  unless_failed, Outcome, ExecuteOutcome, HttpRequestArgs, PayloadArgs, Interceptors,
  InterceptorHttpRequest, InterceptorInit, InterceptorOperation, InterceptorOperationParse,
  InterceptorOperationExecute,
}
use wsgraphql.Options.{ServerOption, with_extra_interceptors}

-- `Callbacks`, each of which may be nil. The numbers are a context, and a request and its writer.
pub record Callbacks (F U I P : Type 0) : Type 0 where
  pub on_request : Option (World U → ℕ → ℕ → ℕ → Outcome (World U) (Error F))
  pub on_request_done : Option (World U → ℕ → ℕ → ℕ → Option (Error F) → World U)
  pub on_connect : Option (World U → ℕ → Option I → Outcome (World U) (Error F))
  pub on_disconnect : Option (World U → ℕ → Option (Error F) → Outcome (World U) (Error F))
  pub on_operation : Option (World U → ℕ → P → Outcome (World U) (Error F))
  pub on_operation_validation :
      Option (World U → ℕ → P → Option (Result F) → Outcome (World U) (Error F))
  pub on_operation_result :
      Option (World U → ℕ → P → Result F → (World U × Result F) × Option (Error F))
  pub on_operation_done : Option (World U → ℕ → P → Option (Error F) → Outcome (World U) (Error F))

module _ {U : Type 0} where
  -- `OperationContext(ctx)` and `RequestContext(ctx)` in a world.
  unfoldable pub operation_context_in : World U → ℕ → World U × ℕ
  operation_context_in w ctx =
      let (s, a) = operation_context_of w.contexts ctx in (record w { contexts = s }, a)

  unfoldable pub request_context_in : World U → ℕ → World U × ℕ
  request_context_in w ctx =
      let (s, a) = request_context_of w.contexts ctx in (record w { contexts = s }, a)

module _ {F U P : Type 0} where
  -- The goroutine of `legacyCallbackExecute`: what it sends, up to the first error.
  unfoldable pub relay :
      (World U → ℕ → P → Result F → (World U × Result F) × Option (Error F))
      → World U
      → ℕ
      → P
      → List (Result F)
      → World U × List (Result F)
  relay f w ctx payload [] = (w, [])
  relay f w ctx payload (res ∷ cres) =
      let (w', opctx) = operation_context_in w ctx in
      let ((w'', res'), err) = f w' opctx payload res in
      let (last, rest) = relay f w'' ctx payload cres in
      elim err [
        | some e ↦ (w'', record { content = failure e; errors = [] } ∷ [])
        | none ↦ (last, res' ∷ rest)
      ]

  unfoldable pub relayed :
      Option (World U → ℕ → P → Result F → (World U × Result F) × Option (Error F))
      → ℕ
      → P
      → ExecuteOutcome (World U) (List (Result F)) (Error F)
      → ExecuteOutcome (World U) (List (Result F)) (Error F)
  relayed f ctx payload (w, cres, some err) = (w, none, some err)
  relayed none ctx payload (w, cres, none) = (w, cres, none)
  relayed (some f) ctx payload (w, none, none) = (w, none, none)
  relayed (some f) ctx payload (w, some cres, none) =
      let (w', ch) = relay f w ctx payload cres in (w', some ch, none)

module _ {F : Type 0} where
  -- `result, _ := err.(ResultError)`
  unfoldable pub result_of : Option (Error F) → Option (Result F)
  result_of (some (result_error content errors)) =
      some (record { content = content; errors = errors })
  result_of _ = none

module _ {F U : Type 0} where
  -- `if nerr != nil { return nerr }; return err`
  unfoldable pub first_error :
      Outcome (World U) (Error F) → Option (Error F) → Outcome (World U) (Error F)
  first_error (w, some nerr) err = (w, some nerr)
  first_error (w, none) err = (w, err)

  -- A callback that is called if it is there.
  unfoldable pub before :
      {A : Type 0}
      → Option (World U → ℕ → A → Outcome (World U) (Error F))
      → World U × ℕ
      → World U
      → A
      → Outcome (World U) (Error F)
  before none (w', a) w x = (w, none)
  before (some f) (w', a) w x = f w' a x

module _ {F U : Type 0} where
  unfoldable pub disconnected :
      Option (World U → ℕ → Option (Error F) → Outcome (World U) (Error F))
      → ℕ
      → Outcome (World U) (Error F)
      → Outcome (World U) (Error F)
  disconnected none ctx (w, err) = (w, err)
  disconnected (some f) ctx (w, err) =
      let (w', reqctx) = request_context_in w ctx in f w' reqctx err

module _ {F U P : Type 0} where
  unfoldable pub validated :
      Option (World U → ℕ → P → Option (Result F) → Outcome (World U) (Error F))
      → ℕ
      → P
      → Outcome (World U) (Error F)
      → Outcome (World U) (Error F)
  validated none ctx payload (w, err) = (w, err)
  validated (some f) ctx payload (w, err) =
      let (w', opctx) = operation_context_in w ctx in
      first_error (f w' opctx payload (result_of err)) err

  unfoldable pub operation_done :
      Option (World U → ℕ → P → Option (Error F) → Outcome (World U) (Error F))
      → ℕ
      → P
      → Outcome (World U) (Error F)
      → Outcome (World U) (Error F)
  operation_done none ctx payload (w, err) = (w, err)
  operation_done (some f) ctx payload (w, err) =
      let (w', opctx) = operation_context_in w ctx in f w' opctx payload err

module _ {F U I P : Type 0} where
  -- `legacyCallbackExecute`
  unfoldable pub legacy_callback_execute :
      Callbacks F U I P → InterceptorOperationExecute (World U) P (List (Result F)) (Error F)
  legacy_callback_execute callbacks (w, ctx, payload) handler =
      relayed callbacks.on_operation_result ctx payload (handler (w, ctx, payload))

  -- `legacyCallbackOperationParse`
  unfoldable pub legacy_callback_operation_parse :
      Callbacks F U I P → InterceptorOperationParse (World U) P (Error F)
  legacy_callback_operation_parse callbacks (w, ctx, payload) handler =
      validated callbacks.on_operation_validation ctx payload (handler (w, ctx, payload))

  -- `legacyCallbackOperation`
  unfoldable pub legacy_callback_operation :
      Callbacks F U I P → InterceptorOperation (World U) P (Error F)
  legacy_callback_operation callbacks (w, ctx, payload) handler =
      operation_done callbacks.on_operation_done ctx payload (
        unless_failed (λ w'. handler (w', ctx, payload))
          (before callbacks.on_operation (operation_context_in w ctx) w payload))

  -- `legacyCallbackInit`
  unfoldable pub legacy_callback_init : Callbacks F U I P → InterceptorInit (World U) I (Error F)
  legacy_callback_init callbacks (w, ctx, init) handler = disconnected callbacks.on_disconnect ctx (
      unless_failed (λ w'. handler (w', ctx, init))
        (before callbacks.on_connect (request_context_in w ctx) w init))

module _ {F U : Type 0} where
  -- `callbacks.OnRequestDone`, or `WriteError` in its place.
  unfoldable pub request_done :
      Gqlerrors F
      → (marshal : Datum F → List F → String)
      → Option (World U → ℕ → ℕ → ℕ → Option (Error F) → World U)
      → (ctx writer r : ℕ) → Outcome (World U) (Error F)
      → Outcome (World U) (Error F)
  request_done gql marshal none ctx writer r (w, err) =
      (write_error gql marshal w ctx writer err, err)
  request_done gql marshal (some f) ctx writer r (w, err) =
      let (w', reqctx) = request_context_in w ctx in (f w' reqctx r writer err, err)

  -- The deferred function of `legacyCallbackHTTPRequest`.
  unfoldable pub deferred_error :
      Gqlerrors F
      → (marshal : Datum F → List F → String) → (ctx writer : ℕ) → Outcome (World U) (Error F)
      → Outcome (World U) (Error F)
  deferred_error gql marshal ctx writer (w, err) = (write_error gql marshal w ctx writer err, err)

  unfoldable pub requested :
      Option (World U → ℕ → ℕ → ℕ → Outcome (World U) (Error F))
      → World U
      → (ctx writer r : ℕ) → Outcome (World U) (Error F)
  requested none w ctx writer r = (w, none)
  requested (some f) w ctx writer r =
      let (w', reqctx) = request_context_in w ctx in f w' reqctx r writer

module _ {F U I P : Type 0} where
  -- `legacyCallbackHTTPRequest`
  unfoldable pub legacy_callback_http_request :
      Gqlerrors F
      → (marshal : Datum F → List F → String) → Callbacks F U I P
      → InterceptorHttpRequest (World U) (Error F)
  legacy_callback_http_request gql marshal callbacks (w, ctx, writer, r) handler =
      deferred_error gql marshal ctx writer (
        request_done gql marshal callbacks.on_request_done ctx writer r (
          unless_failed (λ w'. handler (w', ctx, writer, r))
            (requested callbacks.on_request w ctx writer r)))

  -- `WithCallbacks`
  unfoldable pub with_callbacks :
      {X : Type 0}
      → Gqlerrors F
      → (marshal : Datum F → List F → String) → Callbacks F U I P
      → ServerOption (World U) I P (List (Result F)) (Error F) X
  with_callbacks gql marshal callbacks = with_extra_interceptors (record {
    http_request = some (legacy_callback_http_request gql marshal callbacks);
    init = some (legacy_callback_init callbacks);
    operation = some (legacy_callback_operation callbacks);
    operation_parse = some (legacy_callback_operation_parse callbacks);
    operation_execute = some (legacy_callback_execute callbacks);
  })
