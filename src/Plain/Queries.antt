-- ===== src/Plain/Queries.antt =====
-- v1/server_plain.go: a query, from the context of its operation to the response.
use wsgraphql.Prelude.{
  ℕ, ◌≡◌, refl, ◌∙◌, sym, ap, subst, String, Bool, false, ◌&&◌, inr, Option, none, some, List, [],
  ◌∷◌, ◌++◌, length,
}
use mathlib.Core.List.{append-nil}
use wsgraphql.Mutable.{new_mutable_context}
use wsgraphql.Context.{
  put, operation_context, mutable_context, context_ast, context_subscription,
  context_http_response_writer, context_http_response_started,
}
use wsgraphql.Context.Laws.{IsRegistered}
use wsgraphql.Apollows.{Error, Result, PayloadOperation}
use wsgraphql.Apollows.Errors.{◌+s◌}
use wsgraphql.Response.{World, HeaderValue, set_header, respond}
use wsgraphql.Interceptors.{Outcome, pass_through, unless_failed}
use wsgraphql.Ast.{parse_ast}
use wsgraphql.Results.{closes, delivers}
use wsgraphql.Plain.{
  Plain, cancelled, with_writer, Turns, receive, buffered, ExecuteParams, operation_execute,
  operation_parse, write_results, plain_request_operation, serve_operation,
}
use wsgraphql.Plain.Opened.{Opened}
use wsgraphql.Plain.Laws.{Quiet, line, shown, fault, lines}
use wsgraphql.Plain.Requests.{announced, write_results_lem}

module _ {U F I : Type 0} (server : Plain U F I) (text_of : Result F → String)
    (marshals : (r : Result F) → server.marshal r ≡ inr (text_of r))
    (writes : (w : World U) (writer : ℕ) (bs : String) → server.write_fails w writer bs ≡ none)
    (reqctx writer : ℕ) (payload : PayloadOperation) where
  -- The world and the context in which an operation begins.
  abbrev pub operating : World U → World U
  operating w = record w {
    contexts =
        put (new_mutable_context w.contexts (some reqctx)).0 (length w.contexts.nodes)
          operation_context (mutable_context (length w.contexts.nodes));
  }

  abbrev pub typed : World U → World U
  typed w = respond w writer (set_header "content-type" (HeaderValue.text "application/json"))

  abbrev pub params_of : World U → (ctx : ℕ) → ExecuteParams
  params_of w ctx = record {
    document = context_ast w.contexts ctx;
    operation_name = payload.operation_name;
    args = payload.variables;
    ctx = ctx;
  }

  module _ (ctx : ℕ) (w0 w1 w2 : World U) (res : Result F) (m m' : World U → World U)
      (rest : Turns (World U) F) (ip : server.operation_parse ≡ pass_through)
      (ie : server.operation_execute ≡ pass_through)
      (parsed : parse_ast server.graphql (w0, ctx, payload) ≡ (w1, none))
      (has_writer : context_http_response_writer w1.contexts ctx ≡ some writer)
      (is_query : context_subscription w1.contexts ctx ≡ false)
      (executes : server.execute (params_of (typed w1) ctx) (typed w1) ≡ (w2, res))
      (turn : server.turns w2 ctx ≡ receive m (receive m' rest)) where
    parses : server.operation_parse (w0, ctx, payload) (operation_parse server) ≡ (w1, none)
    unfolding pass_through operation_parse
    parses = ap (λ i. i (w0, ctx, payload) (operation_parse server)) ip ∙ parsed

    executed :
        server.operation_execute (typed w1, ctx, payload) (operation_execute server)
        ≡ (w2, some (delivers m res (closes m')), none)
    unfolding pass_through
    executed =
        ap (λ i. i (typed w1, ctx, payload) (operation_execute server)) ie
        ∙ (unfold operation_execute buffered respond in rw (is_query, executes, turn) refl)

    plain_request_operation_lem :
        plain_request_operation server (w0, ctx, payload)
        ≡ write_results server ctx writer payload (w2, some (delivers m res (closes m')), none)
    unfolding plain_request_operation unless_failed with_writer
    plain_request_operation_lem = rw (parses, has_writer, executed) refl

  tidy :
      {A E : Type 0} (xs : List A) (x : A) (ys : List A) (f : Option E)
      → ((xs ++ x ∷ []) ++ []) ++ (ys ++ (elim f [ some err ↦ [] | none ↦ [] ])) ≡ xs ++ (x ∷ ys)
  tidy [] x ys none = ap (λ r. x ∷ r) (append-nil ys)
  tidy [] x ys (some err) = ap (λ r. x ∷ r) (append-nil ys)
  tidy (z ∷ xs) x ys f = ap (λ r. z ∷ r) (tidy xs x ys f)

  same : {E : Type 0} (f : Option E) → (elim f [ some err ↦ some err | none ↦ none ]) ≡ f
  same none = refl
  same (some err) = refl

  written_lem :
      (ctx : ℕ) (w1 : World U) (res : Result F) (u : U) (m m' : World U → World U)
      → Opened w1.contexts ctx reqctx
      → IsRegistered w1.contexts ctx
      → context_subscription w1.contexts ctx ≡ false
      → context_http_response_started w1.contexts ctx ≡ false
      → Quiet m
      → Quiet m'
      → let out =
          write_results server ctx writer payload
            (record (typed w1) { user = u }, some (delivers m res (closes m')), none) in
        let body = text_of (shown server (server.result_processor ctx payload) res) +s "\n" in
        (out.0.calls
          ≡ w1.calls
            ++ ((writer, set_header "content-type" (HeaderValue.text "application/json"))
                ∷ line false false writer body))
        × (out.1 ≡ fault server (server.result_processor ctx payload) res)
  unfolding respond
  written_lem ctx w1 res u m m' o reg is_query fresh q q' =
      let (calls, err) =
        write_results_lem server text_of marshals writes ctx reqctx writer payload
          (delivers m res (closes m')) (record (typed w1) { user = u }) o reg (q, q') in
      (
        subst (λ b. Written b false) is_query
              (subst (λ b. Written (context_subscription w1.contexts ctx) b) fresh calls)
            ∙ tidy w1.calls _ _ (fault server (server.result_processor ctx payload) res),
        err ∙ same (fault server (server.result_processor ctx payload) res),
      )
    where
      Written : (subscribed begun : Bool) → Type 0
      Written subscribed begun =
          (write_results server ctx writer payload
            (record (typed w1) { user = u }, some (delivers m res (closes m')), none)).0.calls
          ≡ ((typed w1).calls ++ announced subscribed writer)
            ++ lines server (server.result_processor ctx payload) text_of
                (subscribed && server.is_flusher writer) begun writer (delivers m res (closes m'))

  -- If no interceptor was given, and a query is parsed without an error into a context as the server
  -- makes it, in which no response was started, and execution and the others neither write nor touch
  -- the contexts until its result was received and the channel found closed, then the response gets
  -- the content type, the length of the body and the body, which is the processed result and the
  -- end of a line; and the error is that of the result.
  pub query_answered :
      (w w1 : World U) (res : Result F) (u : U) (m m' : World U → World U)
      (rest : Turns (World U) F)
      → server.operation ≡ pass_through
      → server.operation_parse ≡ pass_through
      → server.operation_execute ≡ pass_through
      → let ctx = length w.contexts.nodes in
        parse_ast server.graphql (operating w, ctx, payload) ≡ (w1, none)
        → Opened w1.contexts ctx reqctx
        → IsRegistered w1.contexts ctx
        → context_http_response_writer w1.contexts ctx ≡ some writer
        → context_subscription w1.contexts ctx ≡ false
        → context_http_response_started w1.contexts ctx ≡ false
        → server.execute (params_of (typed w1) ctx) (typed w1)
          ≡ (record (typed w1) { user = u }, res)
        → server.turns (record (typed w1) { user = u }) ctx ≡ receive m (receive m' rest)
        → Quiet m
        → Quiet m'
        → let out = serve_operation server reqctx payload w in
          let body = text_of (shown server (server.result_processor ctx payload) res) +s "\n" in
          (out.0.calls
            ≡ w1.calls
              ++ ((writer, set_header "content-type" (HeaderValue.text "application/json"))
                  ∷ line false false writer body))
          × (out.1 ≡ fault server (server.result_processor ctx payload) res)
  unfolding serve_operation new_mutable_context pass_through cancelled
  query_answered w w1 res u m m' rest io ip ie parsed o reg has_writer is_query fresh executes turn
        q q' =
      subst (λ out. Answer (cancelled server ctx out)) (sym operates)
        (written_lem ctx w1 res u m m' o reg is_query fresh q q')
    where
      ctx : ℕ
      ctx = length w.contexts.nodes

      Answer : Outcome (World U) (Error F) → Type 0
      Answer out =
          (out.0.calls
            ≡ w1.calls
              ++ ((writer, set_header "content-type" (HeaderValue.text "application/json"))
                  ∷ line false false writer
                      (text_of (shown server (server.result_processor ctx payload) res) +s "\n")))
          × (out.1 ≡ fault server (server.result_processor ctx payload) res)

      operates :
          server.operation (operating w, ctx, payload) (plain_request_operation server)
          ≡ write_results server ctx writer payload
              (record (typed w1) { user = u }, some (delivers m res (closes m')), none)
      operates =
          ap (λ i. i (operating w, ctx, payload) (plain_request_operation server)) io
          ∙ plain_request_operation_lem ctx (operating w) w1 (record (typed w1) { user = u }) res m
              m' rest ip ie parsed has_writer is_query executes turn
