-- ===== src/Plain/Tests.antt =====
-- A request whose operation gives one result, and one with an error.
use wsgraphql.Prelude.{
  ℕ, ◌≡◌, refl, String, Bool, true, false, ◌&&◌, inr, none, some, [], ◌∷◌, ◌++◌, arith,
  String_discrete, ℕ_discrete,
}
use wsgraphql.Prelude.Dict
use wsgraphql.Mutable
use wsgraphql.Mutable.{new_mutable_context, is_done, cancel, update_at}
use wsgraphql.Context
use wsgraphql.Context.{
  Contexts, Value, operation_params, ast, subscription, http_response_writer, params, document,
  boolean, response_writer, put, request_context, operation_context, mutable_context,
  context_subscription,
}
use wsgraphql.Apollows.{plain, nothing, json, Result, PayloadOperation}
use wsgraphql.Formatting.{Gqlerrors}
use wsgraphql.Response
use wsgraphql.Results
use wsgraphql.Response.{World, HeaderValue, set_header}
use wsgraphql.Response.Laws.{error_response}
use wsgraphql.Results.{Channel, closes, delivers}
use wsgraphql.Serving
use wsgraphql.Ast
use wsgraphql.Ast.Hooks
use wsgraphql.Interceptors
use wsgraphql.Ast.{Graphql, query}
use wsgraphql.Plain.{Plain, receive, done, write_results, serve_operation, http_query_rejected}
use wsgraphql.Plain.Opened.{Opened, set-Opened, operation-Opened}
use wsgraphql.Plain.Queries.{query_answered}
use wsgraphql.Plain.Laws.{line, lines, ending}
use wsgraphql.Plain.Rejection.{rejected_response, served_by_default}
use wsgraphql.Plain.Requests.{announced, write_results_lem}

abbrev gql : Gqlerrors String
gql = record {
  gql_format_error = λ e. "formatted";
  new_formatted_error = λ s. s;
  original_error = λ f. some (plain f);
  locations = λ f. [];
  extensions = λ f. [];
  set_extensions = λ f e. f;
  error_text = λ f. f;
}

abbrev W : Type 0
W = World ℕ

abbrev graphql : Graphql W String
graphql = record {
  gql = gql;
  extensions = [];
  new_params = λ w ctx payload. (w, 0);
  parse = λ text. (some 0, none);
  validate = λ w p doc. ([], true);
  definitions = λ doc. query ∷ [];
  parse_order = λ fs. fs;
  validation_order = λ fs. fs;
}

abbrev one : Result String
one = record { content = json "{}"; errors = [] }

abbrev bad : Result String
bad = record { content = nothing; errors = "bad" ∷ [] }

abbrev text_of : Result String → String
text_of r = "{}"

abbrev payload : PayloadOperation
payload = record { variables = 0; extensions = 0; query = "{ a }"; operation_name = "" }

abbrev server : Bool → Plain ℕ String ℕ
server rejects = record {
  graphql = graphql;
  reject_http_queries = rejects;
  result_processor = λ ctx payload r. r;
  init = λ args handler. handler args;
  operation = λ args handler. handler args;
  operation_parse = λ args handler. handler args;
  operation_execute = λ args handler. handler args;
  execute = λ params w. (w, one);
  execute_subscription = λ params w. (w, closes (λ v. v));
  turns = λ w ctx. receive (λ v. v) (receive (λ v. v) (done (λ v. v) (plain "cancelled")));
  until_done = λ w ctx. (λ v. v, plain "cancelled");
  marshal = λ r. inr (text_of r);
  decode = λ w r. (w, inr payload);
  is_flusher = λ writer. false;
  write_fails = λ w writer bs. none;
}

-- A request, whose context is 0.
abbrev requested : Contexts
requested = record {
  base_value = λ k. Value.nil;
  base_done = false;
  nodes =
      record {
        parent = none;
        values = (request_context, mutable_context 0) ∷ [];
        cancelled = false;
      }
      ∷ [];
}

abbrev world : W
world = record { contexts = requested; calls = []; user = 0 }

-- Its operation, whose context is 1.
abbrev operating_world : W
operating_world = record world {
  contexts = put (new_mutable_context requested (some 0)).0 1 operation_context (mutable_context 1);
}

abbrev replies : Channel W String
replies = delivers (λ w. w) one (delivers (λ w. w) bad (delivers (λ w. w) one (closes (λ w. w))))

request_registered : Context.get requested 0 request_context ≡ mutable_context 0
unfolding Context.get Mutable.value Dict.lookup Context.Key_discrete ℕ_discrete
request_registered = refl

write_results_lem_example :
    let subscribed = context_subscription operating_world.contexts 1 in
    let out = write_results (server false) 1 7 payload (operating_world, some replies, none) in
    (out.0.calls
      ≡ ([] ++ announced subscribed 7)
        ++ lines
            (server false)
            (λ r. r)
            text_of
            (subscribed && false)
            (Context.context_http_response_started operating_world.contexts 1)
            7
            replies)
    × (out.1
        ≡ ending
            (server false)
            (λ r. r)
            (Context.context_operation_stopped operating_world.contexts 1)
            replies)
unfolding new_mutable_context
write_results_lem_example =
    write_results_lem (server false) text_of (λ r. refl) (λ w writer bs. refl) 1 0 7 payload replies
      operating_world (operation-Opened requested 0 request_registered (omega arith)).0
      (operation-Opened requested 0 request_registered (omega arith)).1
      (λ w. (refl, refl), (λ w. (refl, refl), (λ w. (refl, refl), λ w. (refl, refl))))

rejected_response_example :
    (served_by_default
      (server true)
      (λ d es. "{}")
      (λ (w, _, _, _). (w, none))
      ""
      ""
      none
      world
      7
      5).calls
    ≡ error_response gql (λ d es. "{}") 7 http_query_rejected
unfolding Serving.upgrades String_discrete
rejected_response_example =
    rejected_response (server true) (λ d es. "{}") (λ (w, _, _, _). (w, none)) "" "" none world 7 5
      refl refl refl

-- The same request with its writer, and its operation once it is parsed.
abbrev answerable : W
answerable = record world { contexts = put requested 0 http_response_writer (response_writer 7) }

abbrev parsed : W
parsed = record world {
  contexts =
      put
        (put
          (put
            (put (new_mutable_context answerable.contexts (some 0)).0 1 operation_context
              (mutable_context 1))
            1 operation_params (params (some 0)))
          1 ast (document (some 0)))
        1 subscription (boolean false);
}

answerable_registered : Context.get answerable.contexts 0 request_context ≡ mutable_context 0
unfolding Context.get put Mutable.set Mutable.value Dict.lookup Dict.insert Context.Key_discrete
    ℕ_discrete
answerable_registered = refl

parsed-Opened : Opened parsed.contexts 1 0
unfolding put Mutable.set new_mutable_context ℕ_discrete
parsed-Opened =
    set-Opened _ 1 0 subscription _ (λ e. cc) (λ e. cc)
      (set-Opened _ 1 0 ast _ (λ e. cc) (λ e. cc)
        (set-Opened _ 1 0 operation_params _ (λ e. cc) (λ e. cc)
          (operation-Opened answerable.contexts 0 answerable_registered (omega arith)).0))

parses :
    Ast.parse_ast graphql (
      record world {
        contexts =
            put
              (new_mutable_context answerable.contexts (some 0)).0
              1
              operation_context
              (mutable_context 1);
      },
      1,
      payload,
    )
    ≡ (parsed, none)
unfolding Ast.parse_ast Ast.parse_document Ast.validate_ast Ast.accept Ast.or_failed
    Ast.handle_extensions_inits Ast.handle_extensions_parse_did_start Ast.parse_finish
    Ast.parse_errors Ast.handle_extensions_validation_did_start Ast.validation_finish
    Ast.has_subscription Ast.is_subscription Hooks.hook_all Hooks.finish_all
    Context.operation_context_of put Mutable.set Mutable.value new_mutable_context Dict.lookup
    Dict.insert Context.Key_discrete ℕ_discrete
parses = refl

query_answered_example :
    ((serve_operation (server false) 0 payload answerable).0.calls
      ≡ (7, set_header "content-type" (HeaderValue.text "application/json"))
        ∷ line false false 7 "{}\n")
    × ((serve_operation (server false) 0 payload answerable).1 ≡ none)
unfolding Context.get Context.context_http_response_writer Context.context_http_response_started
    context_subscription put Mutable.set Mutable.value new_mutable_context Dict.lookup Dict.insert
    Context.Key_discrete ℕ_discrete Interceptors.pass_through Response.respond Results.has_errors
    Results.target_errors Results.data_errors
query_answered_example =
    query_answered (server false) text_of (λ r. refl) (λ w writer bs. refl) 0 7 payload answerable
      parsed one 0 (λ v. v) (λ v. v) (done (λ v. v) (plain "cancelled")) refl refl refl parses
      parsed-Opened refl refl refl refl refl refl (λ w. (refl, refl)) (λ w. (refl, refl))
