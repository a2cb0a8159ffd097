-- ===== src/Ast.antt =====
-- v1/ast.go: parsing and validation of an operation, with the hooks of the schema's extensions.
--
-- The extensions are the user's, and the parser and the validator are graphql-go's: they are
-- parameters. A call of an extension may panic; the code recovers at each call. A document, the
-- `Params` and its copy of the schema are named by numbers. Go goes through a map in any order,
-- which is a parameter too.
pub mod Hooks
pub mod Recovery
pub mod Laws
mod Tests
use wsgraphql.Prelude.{
  ℕ, String, String_discrete, Bool, true, false, ◌&&◌, ◌||◌, not, Option, none, some, List, [], ◌∷◌,
  ◌++◌, if◌then◌else◌,
}
use wsgraphql.Prelude.Dict
use wsgraphql.Context.{
  operation_params, ast, subscription, params, document, boolean, put, operation_context_of,
}
use wsgraphql.Apollows.{Error, plain, result_error, nothing, PayloadOperation}
use wsgraphql.Apollows.Errors.{◌+s◌}
use wsgraphql.Formatting.{Gqlerrors}
use wsgraphql.Response.{World}
use wsgraphql.Ast.Hooks.{
  Called, ParseFinish, ValidationFinish, Extension, Hooked, hook_all, finish_all,
}

-- A definition of a document: an operation, or anything else.
pub data Definition : Type 0 where
  query mutation subscription_definition other : Definition

-- What graphql-go provides, the extensions of the schema, and the orders of the two maps.
pub record Graphql (W F : Type 0) : Type 0 where
  pub gql : Gqlerrors F
  pub extensions : List (Extension W F)
  pub new_params : W → (ctx : ℕ) → PayloadOperation → W × ℕ
  pub parse : String → Option ℕ × Option (Error F)
  pub validate : W → (params : ℕ) → (document : Option ℕ) → List F × Bool
  pub definitions : Option ℕ → List Definition
  pub parse_order : List (String × ParseFinish W F) → List (String × ParseFinish W F)
  pub validation_order : List (String × ValidationFinish W F) → List (String × ValidationFinish W F)

module _ {W F : Type 0} (g : Graphql W F) where
  abbrev pub unhooked : {Y : Type 0} → W → ℕ → Hooked W F Y
  unhooked w ctx = record { world = w; ctx = ctx; finishers = []; errs = [] }

  -- `handleExtensionsInits`
  unfoldable pub handle_extensions_inits : W → (ctx params : ℕ) → Hooked W F (Unit {0})
  handle_extensions_inits w ctx p =
      hook_all g.gql "Init" (λ e v c. e.init v c p) g.extensions (unhooked w ctx)

  -- `handleExtensionsParseDidStart`, and the function that it returns.
  unfoldable pub handle_extensions_parse_did_start : W → ℕ → Hooked W F (ParseFinish W F)
  handle_extensions_parse_did_start w ctx =
      hook_all g.gql "ParseDidStart" (λ e. e.parse_did_start) g.extensions (unhooked w ctx)

  unfoldable pub parse_errors : Option (Error F) → List F
  parse_errors none = []
  parse_errors (some err) = g.gql.gql_format_error (some err) ∷ []

  unfoldable pub parse_finish : List (String × ParseFinish W F) → W → Option (Error F) → W × List F
  parse_finish fs w err =
      finish_all g.gql "ParseFinishFunc" (λ f v. f v err) (g.parse_order fs) (w, parse_errors err)

  -- `handleExtensionsValidationDidStart`, and the function that it returns.
  unfoldable pub handle_extensions_validation_did_start : W → ℕ → Hooked W F (ValidationFinish W F)
  handle_extensions_validation_did_start w ctx =
      hook_all g.gql "ValidationDidStart" (λ e. e.validation_did_start) g.extensions
        (unhooked w ctx)

  unfoldable pub validation_finish : List (String × ValidationFinish W F) → W → List F → W × List F
  validation_finish fs w errs =
      finish_all g.gql "ValidationFinishFunc" (λ f v. f v errs) (g.validation_order fs) (w, errs)

unfoldable pub is_subscription : Definition → Bool
is_subscription subscription_definition = true
is_subscription _ = false

-- The loop over `astdoc.Definitions`.
unfoldable pub has_subscription : List Definition → Bool
unfolding is_subscription
has_subscription [] = false
has_subscription (d ∷ ds) = is_subscription d || has_subscription ds

module _ {U F : Type 0} (g : Graphql (World U) F) where
  -- `result` is not nil if there are errors; the deferred function returns it.
  unfoldable pub or_failed :
      World U → List F → (World U → World U × Option (Error F)) → World U × Option (Error F)
  or_failed w [] next = next w
  or_failed w (e ∷ es) next = (w, some (result_error nothing (e ∷ es)))

  -- The rest of `parseAST` after validation.
  unfoldable pub accept :
      (opctx : ℕ)
      → (document : Option ℕ) → (is_valid : Bool) → World U × List F
      → World U × Option (Error F)
  accept opctx doc true (w, []) = (
    record w {
      contexts = put w.contexts opctx subscription (boolean (has_subscription (g.definitions doc)));
    },
    none,
  )
  accept opctx doc valid (w, errs) = (w, some (result_error nothing errs))

  -- From `handleExtensionsValidationDidStart` on.
  unfoldable pub validate_ast :
      (opctx ctx params : ℕ) → (document : Option ℕ) → World U → World U × Option (Error F)
  validate_ast opctx ctx p doc w =
      let started = handle_extensions_validation_did_start g w ctx in
      let (errors, valid) = g.validate started.world p doc in
      let (w', errs) = validation_finish g started.finishers started.world errors in
      accept opctx doc valid (w', started.errs ++ errs)

  -- From `parser.Parse` on.
  unfoldable pub parse_document :
      (opctx ctx params : ℕ)
      → PayloadOperation
      → List (String × ParseFinish (World U) F)
      → World U
      → World U × Option (Error F)
  parse_document opctx ctx p payload fs w =
      let (doc, err) = g.parse payload.query in
      let w1 = record w { contexts = put w.contexts opctx ast (document doc) } in
      let (w2, errs) = parse_finish g fs w1 err in or_failed w2 errs (validate_ast opctx ctx p doc)

  -- `parseAST`
  unfoldable pub parse_ast : World U × ℕ × PayloadOperation → World U × Option (Error F)
  parse_ast (w, ctx, payload) =
      let (s, opctx) = operation_context_of w.contexts ctx in
      let (w1, p) = g.new_params (record w { contexts = s }) ctx payload in
      let w2 = record w1 { contexts = put w1.contexts opctx operation_params (params (some p)) } in
      let begun = handle_extensions_inits g w2 ctx p in
      or_failed begun.world begun.errs λ w3.
        let parsing = handle_extensions_parse_did_start g w3 begun.ctx in
        or_failed parsing.world parsing.errs
          (parse_document opctx parsing.ctx p payload parsing.finishers)
