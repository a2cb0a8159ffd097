-- ===== src/Serving.antt =====
-- v1/server.go: `ServeHTTP`, the context of a request, and the choice of `handleHTTPRequest`.
--
-- The two ways to serve a request are arguments.
pub mod Laws
mod Tests
use wsgraphql.Prelude.{
  ℕ, String, String_discrete, Bool, true, false, not, ◌&&◌, Option, none, some, is_some, ite,
  if◌then◌else◌,
}
use wsgraphql.Mutable.{new_mutable_context, cancel}
use wsgraphql.Context.{
  Contexts, request_context, http_request, http_response_writer, mutable_context, request,
  response_writer, put,
}
use wsgraphql.Response.{World}
use wsgraphql.Interceptors.{HttpRequestArgs, Outcome, InterceptorHttpRequest}

-- `reqctx`, with its three values. The parent is the context of the HTTP server.
unfoldable pub open_request : Contexts → (writer r : ℕ) → Contexts × ℕ
open_request s writer r =
    let (s1, reqctx) = new_mutable_context s none in
    let s2 = put s1 reqctx request_context (mutable_context reqctx) in
    let s3 = put s2 reqctx http_request (request (some r)) in
    (put s3 reqctx http_response_writer (response_writer writer), reqctx)

-- The test in `handleHTTPRequest`, on the two headers and `server.upgrader`.
unfoldable pub upgrades : (connection upgrade : String) → (upgrader : Option ℕ) → Bool
upgrades connection upgrade upgrader =
    not (ite (String_discrete connection "") true false)
    && not (ite (String_discrete upgrade "") true false)
    && is_some upgrader

module _ {U E : Type 0} where
  -- `handleHTTPRequest`
  unfoldable pub handle_http_request :
      (serve_websocket serve_plain : HttpRequestArgs (World U) → Outcome (World U) E)
      → (connection upgrade : String) → (upgrader : Option ℕ) → HttpRequestArgs (World U)
      → Outcome (World U) E
  handle_http_request serve_websocket serve_plain connection upgrade upgrader args =
      if upgrades connection upgrade upgrader then serve_websocket args else serve_plain args

  -- `reqctx.Cancel()`
  unfoldable pub close_request : ℕ → Outcome (World U) E → World U
  close_request reqctx (w, err) = record w { contexts = cancel w.contexts reqctx }

  -- `ServeHTTP`
  unfoldable pub serve_http :
      InterceptorHttpRequest (World U) E
      → (handler : HttpRequestArgs (World U) → Outcome (World U) E) → World U
      → (writer r : ℕ) → World U
  serve_http intercept handler w writer r =
      let (s, reqctx) = open_request w.contexts writer r in
      close_request reqctx (intercept (record w { contexts = s }, reqctx, writer, r) handler)
