-- ===== src/Ast/Laws.antt =====
-- v1/ast.go: how `parseAST` ends, and what a parsed operation's context shows.
use mathlib.Core.List.{Mem, mem-cons, mem-cons_self, mem-cons_of_mem, not-mem-nil}
use mathlib.Core.Logic.Or
use wsgraphql.Prelude.{
  ℕ, ◌<◌, ◌≡◌, ◌↔◌, refl, ap, String, Bool, true, Option, none, some, List, [], ◌∷◌, length, arith,
  OnSome,
}
use wsgraphql.Context.{
  Contexts, subscription, boolean, put, operation_context_of, context_subscription,
}
use wsgraphql.Context.Laws.{get-put_self, length-put}
use wsgraphql.Apollows.{Error, Datum, result_error, nothing, PayloadOperation}
use wsgraphql.Response.{World, is_result_error, error_body, error_string}
use wsgraphql.Ast.Hooks.{ParseFinish}
use wsgraphql.Ast.{
  Graphql, Definition, subscription_definition, is_subscription, has_subscription, parse_errors,
  parse_finish, or_failed, accept, validate_ast, parse_document, parse_ast,
}
use wsgraphql.Ast.Recovery.{finish_all-length-le}

Mem-has_subscription :
    (ds : List Definition) → (has_subscription ds ≡ true) ↔ Mem subscription_definition ds
unfolding has_subscription is_subscription
Mem-has_subscription [] = (λ e. cc, λ m. absurd (not-mem-nil m))
Mem-has_subscription (subscription_definition ∷ ds) = (λ e. mem-cons_self, λ m. refl)
Mem-has_subscription (d ∷ ds) = (
  λ e. mem-cons_of_mem d ((Mem-has_subscription ds).0 e),
  λ m. Or.elim (hlevel) (mem-cons.0 m) (λ e. cc) (λ m'. (Mem-has_subscription ds).1 m'),
)

context_subscription-put :
    (s : Contexts) (opctx : ℕ) (b : Bool)
    → opctx < length (put s opctx subscription (boolean b)).nodes
    → context_subscription (put s opctx subscription (boolean b)) opctx ≡ b
unfolding context_subscription
context_subscription-put s opctx b below =
    rw
      (get-put_self s opctx subscription (boolean b)
        (omega (arith, below, length-put s opctx subscription (boolean b))))
      refl

module _ {U F : Type 0} (g : Graphql (World U) F) where
  parse_finish-nil :
      (fs : List (String × ParseFinish (World U) F)) (w : World U) (err : Option (Error F))
      → (parse_finish g fs w err).1 ≡ []
      → err ≡ none
  unfolding parse_finish parse_errors
  parse_finish-nil fs w none h = refl
  parse_finish-nil fs w (some err) h = absurd (
      omega (
        arith,
        ap length h,
        finish_all-length-le g.gql "ParseFinishFunc" (λ f v. f v (some err)) (g.parse_order fs)
            (w, g.gql.gql_format_error (some err) ∷ []),
      ))

  -- How `parseAST` ends, for the proofs.
  record Ends (P : World U × Option (Error F) → Type 0) (opctx : ℕ) (payload : PayloadOperation)
      : Type 0 where
    failing : (w : World U) (errs : List F) → P (w, some (result_error nothing errs))
    accepting :
        (w : World U)
        → (g.parse payload.query).1 ≡ none
        → P (
          record w {
            contexts =
                put w.contexts opctx subscription
                  (boolean (has_subscription (g.definitions (g.parse payload.query).0)));
          },
          none,
        )

  module _ {P : World U × Option (Error F) → Type 0} {opctx : ℕ} {payload : PayloadOperation}
      (ends : Ends P opctx payload) where
    or_failed_ends :
        (w : World U) (errs : List F) (next : World U → World U × Option (Error F))
        → (errs ≡ [] → P (next w))
        → P (or_failed g w errs next)
    unfolding or_failed
    or_failed_ends w [] next h = h refl
    or_failed_ends w (e ∷ es) next h = ends.failing w (e ∷ es)

    accept_ends :
        (valid : Bool) (r : World U × List F)
        → (g.parse payload.query).1 ≡ none
        → P (accept g opctx (g.parse payload.query).0 valid r)
    unfolding accept
    accept_ends true (w, []) parsed = ends.accepting w parsed
    accept_ends valid (w, errs) parsed = ends.failing w errs

    parse_document_ends :
        (ctx p : ℕ) (fs : List (String × ParseFinish (World U) F)) (w : World U)
        → P (parse_document g opctx ctx p payload fs w)
    unfolding parse_document validate_ast
    parse_document_ends ctx p fs w =
        or_failed_ends _ _ _ λ clean. accept_ends _ _ (parse_finish-nil fs _ _ clean)

  parse_ast_ends :
      (P : World U × Option (Error F) → Type 0) (w : World U) (ctx : ℕ) (payload : PayloadOperation)
      → Ends P (operation_context_of w.contexts ctx).1 payload
      → P (parse_ast g (w, ctx, payload))
  unfolding parse_ast
  parse_ast_ends P w ctx payload ends =
      or_failed_ends ends _ _ _ λ _. or_failed_ends ends _ _ _ λ _. parse_document_ends ends _ _ _ _

  abbrev Accepted : ℕ → PayloadOperation → World U × Option (Error F) → Type 0
  Accepted opctx payload r =
      r.1 ≡ none
      → opctx < length r.0.contexts.nodes
      → ((g.parse payload.query).1 ≡ none)
        × ((context_subscription r.0.contexts opctx ≡ true)
            ↔ Mem subscription_definition (g.definitions (g.parse payload.query).0))

  -- If an operation was parsed without an error, then the parser gave none, and unless its context
  -- is gone, it shows a subscription exactly if one of the definitions of the document is one.
  pub parse_ast_subscription :
      (w : World U) (ctx : ℕ) (payload : PayloadOperation)
      → let opctx = (operation_context_of w.contexts ctx).1 in
        let r = parse_ast g (w, ctx, payload) in
        r.1 ≡ none
        → opctx < length r.0.contexts.nodes
        → ((g.parse payload.query).1 ≡ none)
          × ((context_subscription r.0.contexts opctx ≡ true)
              ↔ Mem subscription_definition (g.definitions (g.parse payload.query).0))
  parse_ast_subscription w ctx payload =
      parse_ast_ends (Accepted (operation_context_of w.contexts ctx).1 payload) w ctx payload
        (record {
          failing = λ v errs h below. cc;
          accepting = λ v parsed h below.
              (parsed, rw (context_subscription-put v.contexts _ _ below) (Mem-has_subscription _));
        })

  -- An error of parsing is a `ResultError` without data, and the body of its response is that
  -- result.
  pub parse_ast-error_body :
      (marshal : Datum F → List F → String) (w : World U) (ctx : ℕ) (payload : PayloadOperation)
      → OnSome
          (λ err.
            (errs : List F) × (err ≡ result_error nothing errs)
            × (error_body g.gql marshal err ≡ marshal nothing errs))
          (parse_ast g (w, ctx, payload)).1
  unfolding error_body is_result_error error_string
  parse_ast-error_body marshal w ctx payload =
      parse_ast_ends
        (λ r.
          OnSome
            (λ err.
              (errs : List F) × (err ≡ result_error nothing errs)
              × (error_body g.gql marshal err ≡ marshal nothing errs))
            r.1)
        w ctx payload
        (record { failing = λ v errs. (errs, refl, refl); accepting = λ v parsed. tt })
