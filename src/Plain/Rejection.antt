-- ===== src/Plain/Rejection.antt =====
-- v1/server_plain.go, v1/server.go, v1/api_server.go: a plain request that is refused.
use wsgraphql.Prelude.{
  ℕ, ◌≡◌, refl, ◌∙◌, ap, String, true, false, Option, none, some, List, ◌++◌, length, arith,
}
use wsgraphql.Prelude.Dict
use wsgraphql.Mutable
use wsgraphql.Mutable.{Node, node_at, is_done, new_mutable_context, cancel}
use wsgraphql.Context.{
  Contexts, Key, get, request_context, http_response_started, context_http_response_started, nil,
  http_request, http_response_writer,
}
use wsgraphql.Context.Laws.{get-put_ne}
use wsgraphql.Apollows.{Error, Datum}
use wsgraphql.Response.Laws.{error_response, write_error-fresh}
use wsgraphql.Serving.{open_request, upgrades, handle_http_request, serve_http, close_request}
use wsgraphql.Response.{World, write_error}
use wsgraphql.Interceptors.{Outcome, HttpRequestArgs, report_error, reported}
use wsgraphql.Plain.{Plain, serve_plain_request, http_query_rejected}

get-new_root :
    (s : Contexts) (k : Key)
    → get (new_mutable_context s none).0 (length s.nodes) k ≡ s.base_value k
unfolding get Mutable.value new_mutable_context Dict.lookup
get-new_root s k = ground arith

-- A response was not started when a request is opened, unless the HTTP server says so.
open_request-fresh :
    (s : Contexts) (writer r : ℕ)
    → s.base_value http_response_started ≡ nil
    → let (t, reqctx) = open_request s writer r in context_http_response_started t reqctx ≡ false
unfolding open_request context_http_response_started Mutable.value new_mutable_context
open_request-fresh s writer r h =
    rw
      (
        get-put_ne _ _ _ http_response_writer http_response_started _ (λ e. cc),
        get-put_ne _ _ _ http_request http_response_started _ (λ e. cc),
        get-put_ne _ _ _ request_context http_response_started _ (λ e. cc),
        get-new_root s http_response_started,
        h,
      )
      refl

module _ {U F I : Type 0} (server : Plain U F I) (marshal : Datum F → List F → String)
    (serve_websocket : HttpRequestArgs (World U) → Outcome (World U) (Error F))
    (connection upgrade : String) (upgrader : Option ℕ) where
  -- `ServeHTTP`, with the interceptor that `initInterceptors` provides.
  abbrev pub served_by_default : World U → (writer r : ℕ) → World U
  served_by_default =
      serve_http
        (report_error
          (λ w ctx writer err. write_error server.graphql.gql marshal w ctx writer (some err)))
        (handle_http_request serve_websocket (λ (w, ctx, _, _). serve_plain_request server w ctx)
          connection upgrade upgrader)

  -- Where the HTTPRequest interceptor is the one that `initInterceptors` puts in place of a missing
  -- one: if HTTP queries are rejected, then what `ServeHTTP` adds to the response of a request that is
  -- not upgraded, and whose response is not marked as started from outside, is one 400 whose body is
  -- that error.
  pub rejected_response :
      (w : World U) (writer r : ℕ)
      → server.reject_http_queries ≡ true
      → upgrades connection upgrade upgrader ≡ false
      → w.contexts.base_value http_response_started ≡ nil
      → (served_by_default w writer r).calls
        ≡ w.calls ++ error_response server.graphql.gql marshal writer http_query_rejected
  unfolding serve_http handle_http_request report_error reported serve_plain_request close_request
  rejected_response w writer r rejects plain unstarted =
      ap (λ o. (close_request a (reported fails a writer o)).calls) answer
      ∙ ap (λ (v : World U). v.calls)
          (write_error-fresh server.graphql.gql marshal opened a writer http_query_rejected
            (open_request-fresh w.contexts writer r unstarted))
    where
      a : ℕ
      a = (open_request w.contexts writer r).1

      opened : World U
      opened = record w { contexts = (open_request w.contexts writer r).0 }

      fails : World U → ℕ → ℕ → Error F → World U
      fails v ctx writer' err = write_error server.graphql.gql marshal v ctx writer' (some err)

      answer :
          handle_http_request serve_websocket
            (λ (v, ctx, _, _). serve_plain_request server v ctx)
            connection
            upgrade
            upgrader
            (opened, a, writer, r)
          ≡ (opened, some http_query_rejected)
      answer = rw (plain, rejects) refl
