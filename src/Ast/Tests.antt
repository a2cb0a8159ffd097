-- ===== src/Ast/Tests.antt =====
-- A schema with two extensions, of which one panics when an operation begins.
use mathlib.Core.List.{Mem}
use wsgraphql.Prelude.{
  ◌⊎◌, ℕ, ◌≡◌, ◌↔◌, refl, String, true, false, Option, none, some, List, [], ◌∷◌, arith,
  String_discrete, ℕ_discrete,
}
use wsgraphql.Prelude.Dict
use wsgraphql.Mutable
use wsgraphql.Context
use wsgraphql.Context.{
  Contexts, Value, operation_context, mutable_context, operation_context_of, context_subscription,
}
use wsgraphql.Apollows.{Error, plain, result_error, nothing, PayloadOperation}
use wsgraphql.Formatting.{Gqlerrors}
use wsgraphql.Response.{World, error_body}
use wsgraphql.Ast.Hooks.{
  panicked, returned, Extension, Hooked, ParseFinish, hook_all, hooked, finish_all, finished,
  panic_error,
}
use wsgraphql.Ast.{
  Graphql, query, subscription_definition, parse_ast, parse_document, validate_ast, accept,
  or_failed, handle_extensions_inits, handle_extensions_parse_did_start,
  handle_extensions_validation_did_start, parse_finish, validation_finish, parse_errors, unhooked,
}
use wsgraphql.Ast.Recovery.{outcome, hook_all_recovers}
use wsgraphql.Ast.Laws.{parse_ast_subscription, parse_ast-error_body}

abbrev gql : Gqlerrors String
gql = record {
  gql_format_error = λ e. "formatted";
  new_formatted_error = λ s. s;
  original_error = λ f. some (plain f);
  locations = λ f. [];
  extensions = λ f. [];
  set_extensions = λ f e. f;
  error_text = λ f. f;
}

abbrev first_of : List String → String
first_of [] = ""
first_of (e ∷ es) = e

abbrev W : Type 0
W = World ℕ

abbrev quiet : String → Extension W String
quiet name = record {
  name = name;
  init = λ w c p. returned w (c, tt);
  parse_did_start = λ w c. returned w (c, λ v err. returned v tt);
  validation_did_start = λ w c. returned w (c, λ v errs. returned v tt);
}

abbrev failing : Extension W String
failing = record (quiet "bad") { init = λ w c p. panicked w "boom" }

abbrev graphql : List (Extension W String) → Graphql W String
graphql es = record {
  gql = gql;
  extensions = es;
  new_params = λ w ctx payload. (w, 0);
  parse = λ text. (some 0, none);
  validate = λ w p doc. ([], true);
  definitions = λ doc. query ∷ subscription_definition ∷ [];
  parse_order = λ fs. fs;
  validation_order = λ fs. fs;
}

-- A request, and the context of an operation in it.
abbrev contexts : Contexts
contexts = record {
  base_value = λ k. Value.nil;
  base_done = false;
  nodes =
      record {
        parent = none;
        values = (operation_context, mutable_context 0) ∷ [];
        cancelled = false;
      }
      ∷ [];
}

abbrev world : W
world = record { contexts = contexts; calls = []; user = 0 }

abbrev payload : PayloadOperation
payload = record {
  variables = 0;
  extensions = 0;
  query = "subscription { tick }";
  operation_name = "";
}

-- What the parse hook of an extension does.
abbrev parse_outcome : Extension W String → String ⊎ ParseFinish W String
parse_outcome e = outcome (e.parse_did_start world 0)

-- Two extensions of one name, the second with another finish function, and one that panics.
abbrev strict : Extension W String
strict = record (quiet "a") { parse_did_start = λ w c. returned w (c, λ v err. panicked v "no") }

abbrev noisy : Extension W String
noisy = record failing { parse_did_start = λ w c. panicked w "boom" }

abbrev three : List (Extension W String)
three = quiet "a" ∷ noisy ∷ strict ∷ []

abbrev begun : Hooked W String (ParseFinish W String)
begun = handle_extensions_parse_did_start (graphql three) world 0

hook_all_recovers_example :
    (begun.errs ≡ panic_error gql "bad" "ParseDidStart" "boom" ∷ [])
    × (Dict.lookup String_discrete "a" begun.finishers ≡ some (λ v err. panicked v "no"))
unfolding handle_extensions_parse_did_start String_discrete Dict.lookup
hook_all_recovers_example =
    hook_all_recovers gql "ParseDidStart" (λ e. e.parse_did_start) parse_outcome three
      (λ w c. refl, (λ w c. refl, (λ w c. refl, tt))) (unhooked (graphql three) world 0) "a"

abbrev accepted : W × Option (Error String)
accepted = parse_ast (graphql (quiet "a" ∷ [])) (world, 0, payload)

parse_ast_subscription_example :
    (((graphql (quiet "a" ∷ [])).parse payload.query).1 ≡ none)
    × ((context_subscription accepted.0.contexts 0 ≡ true)
        ↔ Mem subscription_definition (query ∷ subscription_definition ∷ []))
unfolding parse_ast parse_document validate_ast accept or_failed operation_context_of
    handle_extensions_inits handle_extensions_parse_did_start hook_all hooked
    handle_extensions_validation_did_start parse_finish validation_finish finish_all finished
    parse_errors Context.put Dict.insert Mutable.value Mutable.set ℕ_discrete Dict.lookup
    Context.Key_discrete
parse_ast_subscription_example =
    parse_ast_subscription (graphql (quiet "a" ∷ [])) world 0 payload refl (omega arith)

parse_ast-error_body_example :
    (errs : List String) × (result_error nothing ("formatted" ∷ []) ≡ result_error nothing errs)
    × (error_body gql (λ d es. first_of es) (result_error nothing ("formatted" ∷ []))
        ≡ first_of errs)
unfolding parse_ast or_failed handle_extensions_inits hook_all hooked panic_error
    operation_context_of
parse_ast-error_body_example =
    parse_ast-error_body (graphql (failing ∷ [])) (λ d es. first_of es) world 0 payload
