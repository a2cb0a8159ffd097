-- ===== src/Plain/Requests.antt =====
-- v1/server_plain.go: what a plain request leaves, from the channel of results to the context.
use mathlib.Core.List.{append-nil}
use wsgraphql.Prelude.{
  ℕ, ◌<◌, ◌≡◌, refl, ◌∙◌, sym, ap, subst, String, Bool, true, false, ◌&&◌, inr, none, some, List,
  [], ◌∷◌, ◌++◌, if◌then◌else◌, length, arith,
}
use wsgraphql.Mutable.{is_done, new_mutable_context}
use wsgraphql.Mutable.Cancellation.{is_done-cancel_self, length-cancel}
use wsgraphql.Context.{
  Contexts, put, operation_executed, http_response_started, operation_stopped, boolean,
  context_http_response_started, context_operation_stopped, context_subscription,
}
use wsgraphql.Context.Laws.{IsRegistered, get-put_ne, operation_context_of_registered}
use wsgraphql.Apollows.{Error, Result, PayloadOperation}
use wsgraphql.Response.{World, ResponseCall, HeaderValue, set_header, respond}
use wsgraphql.Interceptors.{Outcome}
use wsgraphql.Results.{Channel, process_results, set_executed}
use wsgraphql.Plain.{Plain, holder, write_plain_result, write_results, channel, serve_operation}
use wsgraphql.Plain.Opened.{Opened, set-Opened}
use wsgraphql.Plain.Laws.{Undisturbed, lines, ending, Shows, looped, process_loop_lem}

executed : Contexts → ℕ → Contexts
executed s ctx = put s ctx operation_executed (boolean true)

set_executed-registered :
    (s : Contexts) (ctx : ℕ) → IsRegistered s ctx → set_executed s ctx ≡ executed s ctx
unfolding set_executed executed
set_executed-registered s ctx h = rw (operation_context_of_registered s ctx h) refl

reads-executed :
    (s : Contexts) (ctx : ℕ)
    → (context_http_response_started (executed s ctx) ctx ≡ context_http_response_started s ctx)
      × (context_operation_stopped (executed s ctx) ctx ≡ context_operation_stopped s ctx)
unfolding executed context_http_response_started context_operation_stopped
reads-executed s ctx = (
  rw (get-put_ne s ctx ctx operation_executed http_response_started (boolean true) (λ e. cc)) refl,
  rw (get-put_ne s ctx ctx operation_executed operation_stopped (boolean true) (λ e. cc)) refl,
)

two_calls :
    {A : Type 0} (xs : List A) (a b : A) (rest : List A)
    → ((xs ++ a ∷ []) ++ b ∷ []) ++ rest ≡ (xs ++ a ∷ b ∷ []) ++ rest
two_calls [] a b rest = refl
two_calls (x ∷ xs) a b rest = ap (λ r. x ∷ r) (two_calls xs a b rest)

-- What goes before the results of a subscription.
abbrev pub announced : (subscribed : Bool) → (writer : ℕ) → List (ℕ × ResponseCall)
announced false writer = []
announced true writer =
    (writer, set_header "x-content-type-options" (HeaderValue.text "nosniff"))
    ∷ (writer, set_header "connection" (HeaderValue.text "keep-alive"))
    ∷ []

module _ {U F I : Type 0} (server : Plain U F I) (text_of : Result F → String)
    (marshals : (r : Result F) → server.marshal r ≡ inr (text_of r))
    (writes : (w : World U) (writer : ℕ) (bs : String) → server.write_fails w writer bs ≡ none)
    (ctx reqctx writer : ℕ) (payload : PayloadOperation) where
  -- What is to be shown, for the world before.
  abbrev Answers :
      (flusher : Bool) → Channel (World U) F → World U → Outcome (World U) (Error F) → Type 0
  Answers flusher cres w out =
      Shows server text_of marshals writes ctx reqctx writer (server.result_processor ctx payload)
        flusher w.calls (context_http_response_started w.contexts ctx)
        (context_operation_stopped w.contexts ctx) out cres

  process_results_lem :
      (flusher : Bool) (cres : Channel (World U) F) (w : World U)
      → Opened w.contexts ctx reqctx
      → IsRegistered w.contexts ctx
      → Undisturbed cres
      → Answers flusher cres w (
          process_results holder server.graphql.gql
            (server.result_processor ctx payload)
            (write_plain_result server ctx writer flusher)
            ctx
            w
            cres)
  unfolding process_results
  process_results_lem flusher cres w o reg quiet =
      subst (λ (s : Contexts). Answers flusher cres w (looping (record w { contexts = s })))
        (sym (set_executed-registered w.contexts ctx reg))
        (subst (λ (b : Bool). Shown b (context_operation_stopped w.contexts ctx))
          (reads-executed w.contexts ctx).0
          (subst
            (λ (b : Bool). Shown (context_http_response_started (executed w.contexts ctx) ctx) b)
            (reads-executed w.contexts ctx).1
            (process_loop_lem server text_of marshals writes ctx reqctx writer
              (server.result_processor ctx payload) flusher cres marked
              (unfold executed in
                set-Opened w.contexts ctx reqctx operation_executed (boolean true) (λ e. cc)
                  (λ e. cc) o)
              quiet)))
    where
      marked : World U
      marked = record w { contexts = executed w.contexts ctx }

      looping : World U → Outcome (World U) (Error F)
      looping v =
          looped server text_of marshals writes ctx reqctx writer
            (server.result_processor ctx payload) flusher v cres

      Shown : (begun stopped : Bool) → Type 0
      Shown begun stopped =
          Shows server text_of marshals writes ctx reqctx writer
            (server.result_processor ctx payload) flusher w.calls begun stopped (looping marked)
            cres

  -- If every result can be marshalled and written, and others neither write nor touch the contexts
  -- meanwhile, then the results of an operation go out in the order of their channel, one line each,
  -- until the first that has errors, whose errors end the operation; a subscription is announced
  -- first, and flushed line by line if the writer can; else the length of the first line is
  -- announced, unless the response was started before.
  pub write_results_lem :
      (cres : Channel (World U) F) (w : World U)
      → Opened w.contexts ctx reqctx
      → IsRegistered w.contexts ctx
      → Undisturbed cres
      → let subscribed = context_subscription w.contexts ctx in
        let out = write_results server ctx writer payload (w, some cres, none) in
        (out.0.calls
          ≡ (w.calls ++ announced subscribed writer)
            ++ lines server
                (server.result_processor ctx payload)
                text_of
                (subscribed && server.is_flusher writer)
                (context_http_response_started w.contexts ctx)
                writer
                cres)
        × (out.1
            ≡ ending server
                (server.result_processor ctx payload)
                (context_operation_stopped w.contexts ctx)
                cres)
  unfolding write_results channel respond
  write_results_lem cres w o reg quiet = split (context_subscription w.contexts ctx)
    where
      prepared : Bool → World U
      prepared subscribed =
          if subscribed
          then respond
              (respond w writer (set_header "x-content-type-options" (HeaderValue.text "nosniff")))
              writer (set_header "connection" (HeaderValue.text "keep-alive"))
          else w

      out : Bool → Outcome (World U) (Error F)
      out subscribed =
          process_results holder server.graphql.gql (server.result_processor ctx payload)
            (write_plain_result server ctx writer (subscribed && server.is_flusher writer)) ctx
            (prepared subscribed) cres

      split :
          (b : Bool)
          → ((out b).0.calls
              ≡ (w.calls ++ announced b writer)
                ++ lines server
                    (server.result_processor ctx payload)
                    text_of
                    (b && server.is_flusher writer)
                    (context_http_response_started w.contexts ctx)
                    writer
                    cres)
            × ((out b).1
                ≡ ending server
                    (server.result_processor ctx payload)
                    (context_operation_stopped w.contexts ctx)
                    cres)
      split true =
          let (calls, err) =
            process_results_lem (server.is_flusher writer) cres (prepared true) o reg quiet in
          (calls ∙ two_calls w.calls _ _ _, err)
      split false =
          let (calls, err) = process_results_lem false cres w o reg quiet in
          (rw append-nil calls, err)

module _ {U F I : Type 0} (server : Plain U F I) where
  -- Once an operation was served, its context is done, whatever the interceptors and graphql-go
  -- did, if they lost none of the contexts that they were given.
  pub served_operation_is_done :
      (reqctx : ℕ) (payload : PayloadOperation) (w : World U)
      → length w.contexts.nodes < length (serve_operation server reqctx payload w).0.contexts.nodes
      → is_done (serve_operation server reqctx payload w).0.contexts (length w.contexts.nodes)
        ≡ true
  unfolding serve_operation new_mutable_context
  served_operation_is_done reqctx payload w kept =
      is_done-cancel_self _ (length w.contexts.nodes)
        (omega (arith, length-cancel _ (length w.contexts.nodes), kept))
