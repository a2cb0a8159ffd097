-- ===== src/Plain.antt =====
-- v1/server_plain.go: an operation that is the body of an HTTP request.
--
-- graphql-go, encoding/json and the response writer are parameters, in the record `Plain`. Where
-- Go dereferences a nil writer or a nil request, and panics, the model returns `nil_dereference`.
-- A result is never nil here: `processResult` has read its fields before.
pub mod Opened
pub mod Laws
pub mod Requests
pub mod Rejection
pub mod Queries
mod Tests
use Prim.Native.String
use wsgraphql.Prelude.{
  ℕ, String, Bool, true, false, not, ◌&&◌, ◌⊎◌, inl, inr, Option, none, some, List, [], ◌∷◌,
  if◌then◌else◌,
}
use wsgraphql.Mutable.{new_mutable_context, cancel}
use wsgraphql.Context.{
  operation_context, http_response_started, mutable_context, boolean, put, request_context_of,
  context_ast, context_subscription, context_http_request, context_http_response_writer,
  context_http_response_started,
}
use wsgraphql.Apollows.{Error, plain, Result, PayloadOperation}
use wsgraphql.Apollows.Errors.{◌+s◌}
use wsgraphql.Response.{World, respond, set_header, text, decimal, write, flush}
use wsgraphql.Interceptors.{
  unless_failed, PayloadArgs, Outcome, ExecuteOutcome, InterceptorInit, InterceptorOperation,
  InterceptorOperationParse, InterceptorOperationExecute,
}
use wsgraphql.Results.{Holder, Channel, closes, cancels, delivers, process_results}
use wsgraphql.Ast.{Graphql, parse_ast}

-- What the `select` chooses, round by round, if `cres` is always ready: to receive from it, or
-- `ctx.Done()`, with `ctx.Err()`.
pub data Turns (W F : Type 0) : Type 0 where
  receive : (meanwhile : W → W) → Turns W F → Turns W F
  done : (meanwhile : W → W) → Error F → Turns W F

-- A channel that holds some results and is closed.
unfoldable pub buffered : {W F : Type 0} → Turns W F → List (Result F) → Channel W F
buffered (done meanwhile err) rs = cancels meanwhile err
buffered (receive meanwhile turns) [] = closes meanwhile
buffered (receive meanwhile turns) (r ∷ rs) = delivers meanwhile r (buffered turns rs)

-- `graphql.ExecuteParams`, without the schema and the root object of the server.
pub record ExecuteParams : Type 0 where
  pub document : Option ℕ
  pub operation_name : String
  pub args : ℕ
  pub ctx : ℕ

-- The server, its interceptors as `initInterceptors` leaves them, and what it calls. The
-- interceptor of a connection knows nothing of the variables `V` that its handler assigns. For a
-- nil channel, `until_done` tells how the wait for `ctx.Done()` ends.
pub record Plain (U F I : Type 0) : Type 1 where
  pub graphql : Graphql (World U) F
  pub reject_http_queries : Bool
  pub result_processor : ℕ → PayloadOperation → Result F → Result F
  pub init : {V : Type 0} → InterceptorInit (World U × V) I (Error F)
  pub operation : InterceptorOperation (World U) PayloadOperation (Error F)
  pub operation_parse : InterceptorOperationParse (World U) PayloadOperation (Error F)
  pub operation_execute :
      InterceptorOperationExecute (World U) PayloadOperation (Channel (World U) F) (Error F)
  pub execute : ExecuteParams → World U → World U × Result F
  pub execute_subscription : ExecuteParams → World U → World U × Channel (World U) F
  pub turns : World U → (ctx : ℕ) → Turns (World U) F
  pub until_done : World U → (ctx : ℕ) → (World U → World U) × Error F
  pub marshal : Result F → Error F ⊎ String
  pub decode : World U → (request : ℕ) → World U × (Error F ⊎ PayloadOperation)
  pub is_flusher : (writer : ℕ) → Bool
  pub write_fails : World U → (writer : ℕ) → String → Option (Error F)

abbrev pub holder : {U : Type 0} → Holder (World U)
holder = record { contexts = λ w. w.contexts; with_contexts = λ w s. record w { contexts = s } }

module _ {F : Type 0} where
  -- `errHTTPQueryRejected`
  abbrev pub http_query_rejected : Error F
  http_query_rejected = plain "HTTP query rejected"

  abbrev pub nil_dereference : Error F
  nil_dereference = plain "runtime error: invalid memory address or nil pointer dereference"

module _ {U F I : Type 0} (server : Plain U F I) where
  without_error :
      World U × Channel (World U) F → ExecuteOutcome (World U) (Channel (World U) F) (Error F)
  without_error (w, cres) = (w, some cres, none)

  one_result : ℕ → World U × Result F → World U × Channel (World U) F
  one_result ctx (w, result) = (w, buffered (server.turns w ctx) (result ∷ []))

  -- `operationExecute`
  unfoldable pub operation_execute :
      PayloadArgs (World U) PayloadOperation
      → ExecuteOutcome (World U) (Channel (World U) F) (Error F)
  unfolding without_error one_result
  operation_execute (w, ctx, payload) =
      let params : ExecuteParams = record {
        document = context_ast w.contexts ctx;
        operation_name = payload.operation_name;
        args = payload.variables;
        ctx = ctx;
      } in
      without_error (
        if context_subscription w.contexts ctx
        then server.execute_subscription params w
        else one_result ctx (server.execute params w))

  -- `operationParse`
  unfoldable pub operation_parse :
      PayloadArgs (World U) PayloadOperation → Outcome (World U) (Error F)
  operation_parse args = parse_ast server.graphql args

  -- The end of `writePlainResult`, from the error of `w.Write` on.
  unfoldable pub after_body :
      (ctx writer : ℕ) → (flusher : Bool) → World U → Option (Error F) → Outcome (World U) (Error F)
  after_body ctx writer flusher w (some err) = (w, some err)
  after_body ctx writer flusher w none =
      let flushed = if flusher then respond w writer flush else w in
      let (s, reqctx) = request_context_of flushed.contexts ctx in
      (record flushed { contexts = put s reqctx http_response_started (boolean true) }, none)

  -- `writePlainResult`, from the error of `json.Marshal` on.
  unfoldable pub write_body :
      (ctx writer : ℕ) → (flusher : Bool) → World U → Error F ⊎ String → Outcome (World U) (Error F)
  write_body ctx writer flusher w (inl err) = (w, some err)
  write_body ctx writer flusher w (inr body) =
      let bs = body +s "\n" in
      let measured =
        if not (context_http_response_started w.contexts ctx) && not flusher
        then respond w writer (set_header "content-length" (decimal (String.len bs)))
        else w in
      after_body ctx writer flusher (respond measured writer (write bs))
        (server.write_fails measured writer bs)

  -- `writePlainResult`; `flusher` is whether it is not nil.
  unfoldable pub write_plain_result :
      (ctx writer : ℕ) → (flusher : Bool) → World U → Result F → Outcome (World U) (Error F)
  write_plain_result ctx writer flusher w result =
      write_body ctx writer flusher w (server.marshal result)

  -- `cres`, also if it is nil.
  unfoldable pub channel : World U → (ctx : ℕ) → Option (Channel (World U) F) → Channel (World U) F
  channel w ctx (some cres) = cres
  channel w ctx none = let (meanwhile, err) = server.until_done w ctx in cancels meanwhile err

  -- `plainRequestOperation`, from the result of `OperationExecute` on.
  unfoldable pub write_results :
      (ctx writer : ℕ)
      → PayloadOperation
      → ExecuteOutcome (World U) (Channel (World U) F) (Error F)
      → Outcome (World U) (Error F)
  write_results ctx writer payload (w, cres, some err) = (w, some err)
  write_results ctx writer payload (w, cres, none) =
      let subscribed = context_subscription w.contexts ctx in
      let prepared =
        if subscribed
        then respond (respond w writer (set_header "x-content-type-options" (text "nosniff")))
            writer (set_header "connection" (text "keep-alive"))
        else w in
      process_results holder server.graphql.gql (server.result_processor ctx payload)
        (write_plain_result ctx writer (subscribed && server.is_flusher writer)) ctx prepared
        (channel prepared ctx cres)

  with_writer : Option ℕ → World U → (ℕ → Outcome (World U) (Error F)) → Outcome (World U) (Error F)
  with_writer none w next = (w, some nil_dereference)
  with_writer (some writer) w next = next writer

  -- `plainRequestOperation`
  unfoldable pub plain_request_operation :
      PayloadArgs (World U) PayloadOperation → Outcome (World U) (Error F)
  unfolding with_writer
  plain_request_operation (w, ctx, payload) =
      unless_failed
        (λ parsed. with_writer (context_http_response_writer parsed.contexts ctx) parsed λ writer.
          let typed = respond parsed writer (set_header "content-type" (text "application/json")) in
          write_results ctx writer payload
            (server.operation_execute (typed, ctx, payload) operation_execute))
        (server.operation_parse (w, ctx, payload) operation_parse)

  cancelled : ℕ → Outcome (World U) (Error F) → Outcome (World U) (Error F)
  cancelled opctx (w, err) = (record w { contexts = cancel w.contexts opctx }, err)

  -- `servePlainRequest`, from `NewMutableContext` on, with the deferred `Cancel`.
  unfoldable pub serve_operation :
      (reqctx : ℕ) → PayloadOperation → World U → Outcome (World U) (Error F)
  unfolding cancelled
  serve_operation reqctx payload w =
      let (s, opctx) = new_mutable_context w.contexts (some reqctx) in
      let opened = put s opctx operation_context (mutable_context opctx) in
      cancelled opctx
        (server.operation (record w { contexts = opened }, opctx, payload) plain_request_operation)

  with_payload : (reqctx : ℕ) → World U × (Error F ⊎ PayloadOperation) → Outcome (World U) (Error F)
  with_payload reqctx (w, inl err) = (w, some err)
  with_payload reqctx (w, inr payload) = serve_operation reqctx payload w

  with_request : (reqctx : ℕ) → Option ℕ → World U → Outcome (World U) (Error F)
  unfolding with_payload
  with_request reqctx none w = (w, some nil_dereference)
  with_request reqctx (some r) w = with_payload reqctx (server.decode w r)

  -- `servePlainRequest`, from the result of `Init` on; `reqctx` is what the handler assigned.
  unfoldable pub after_init : (World U × ℕ) × Option (Error F) → Outcome (World U) (Error F)
  unfolding with_request
  after_init ((w, reqctx), some err) = (w, some err)
  after_init ((w, reqctx), none) = with_request reqctx (context_http_request w.contexts reqctx) w

  -- `servePlainRequest`
  unfoldable pub serve_plain_request : World U → (reqctx : ℕ) → Outcome (World U) (Error F)
  serve_plain_request w reqctx =
      if server.reject_http_queries
      then (w, some http_query_rejected)
      else after_init
          (server.init ((w, reqctx), reqctx, none) (λ ((v, _), nctx, _). ((v, nctx), none)))
