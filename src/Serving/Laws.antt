-- ===== src/Serving/Laws.antt =====
-- v1/server.go: what the context of a request shows, and that it ends with the request.
use wsgraphql.Prelude.{ℕ, ◌<◌, ◌≡◌, refl, ◌∙◌, true, none, some, length, arith}
use wsgraphql.Mutable.{is_done, new_mutable_context}
use wsgraphql.Mutable.Cancellation.{is_done-cancel_self, is_done-new_root, length-cancel}
use wsgraphql.Context.{
  Contexts, request_context, http_request, http_response_writer, mutable_context, request,
  response_writer, put, context_http_request, context_http_response_writer, request_context_of,
}
use wsgraphql.Context.Laws.{
  get-put_self, get-put_ne, length-put, is_done-put, request_context_of_registered,
}
use wsgraphql.Response.{World}
use wsgraphql.Interceptors.{HttpRequestArgs, Outcome, InterceptorHttpRequest}
use wsgraphql.Serving.{open_request, close_request, serve_http}

-- The context of a new request is its own request context, shows the request and its writer, and
-- is done exactly if the context of the HTTP server is.
pub open_request_lem :
    (s : Contexts) (writer r : ℕ)
    → let (t, reqctx) = open_request s writer r in
      (request_context_of t reqctx ≡ (t, reqctx))
      × (context_http_request t reqctx ≡ some r)
      × (context_http_response_writer t reqctx ≡ some writer)
      × (is_done t reqctx ≡ s.base_done)
unfolding open_request context_http_request context_http_response_writer new_mutable_context
open_request_lem s writer r = (
  request_context_of_registered _ a a (
      get-put_ne s3 a a http_response_writer request_context _ (λ e. cc)
      ∙ get-put_ne s2 a a http_request request_context _ (λ e. cc)
      ∙ get-put_self s1 a request_context _ in_s1),
  rw
      (
        get-put_ne s3 a a http_response_writer http_request (response_writer writer) (λ e. cc),
        get-put_self s2 a http_request (request (some r)) in_s2,
      )
      refl,
  rw (get-put_self s3 a http_response_writer (response_writer writer) in_s3) refl,
  is_done-put s3 a a http_response_writer (response_writer writer)
      ∙ is_done-put s2 a a http_request (request (some r))
      ∙ is_done-put s1 a a request_context (mutable_context a)
      ∙ is_done-new_root s,
)
  where
    a : ℕ
    a = length s.nodes

    s1 : Contexts
    s1 = (new_mutable_context s none).0

    s2 : Contexts
    s2 = put s1 a request_context (mutable_context a)

    s3 : Contexts
    s3 = put s2 a http_request (request (some r))

    in_s1 : a < length s1.nodes
    in_s1 = unfold new_mutable_context in omega arith

    in_s2 : a < length s2.nodes
    in_s2 = omega (arith, length-put s1 a request_context (mutable_context a), in_s1)

    in_s3 : a < length s3.nodes
    in_s3 = omega (arith, length-put s2 a http_request (request (some r)), in_s2)

module _ {U E : Type 0} where
  -- Once a request was served, its context is done, whatever the interceptor did, if it lost none
  -- of the contexts that it was given.
  pub served_is_done :
      (intercept : InterceptorHttpRequest (World U) E)
      (handler : HttpRequestArgs (World U) → Outcome (World U) E) (w : World U) (writer r : ℕ)
      → length w.contexts.nodes < length (serve_http intercept handler w writer r).contexts.nodes
      → is_done (serve_http intercept handler w writer r).contexts (length w.contexts.nodes) ≡ true
  unfolding serve_http open_request new_mutable_context
  served_is_done intercept handler w writer r kept = closed _ kept
    where
      a : ℕ
      a = length w.contexts.nodes

      closed :
          (o : Outcome (World U) E)
          → a < length (close_request a o).contexts.nodes
          → is_done (close_request a o).contexts a ≡ true
      closed (v, err) h =
          unfold close_request in
          is_done-cancel_self v.contexts a (omega (arith, length-cancel v.contexts a, h))
