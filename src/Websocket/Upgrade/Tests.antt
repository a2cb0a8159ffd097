-- ===== src/Websocket/Upgrade/Tests.antt =====
-- A server with one protocol, and connections of both kinds.
use wsgraphql.Prelude.{
  ℕ, ◌≡◌, refl, String, none, some, List, [], ◌∷◌, ◌++◌, map, arith, false, ℕ_discrete,
}
use wsgraphql.Prelude.Dict
use wsgraphql.Prelude.Int.{pos}
use wsgraphql.Context.{
  Contexts, Value, request_context, mutable_context, get, context_websocket_connection,
}
use wsgraphql.Mutable
use wsgraphql.Context
use wsgraphql.Apollows.{graphql_ws, protocol_of_string, plain, Datum}
use wsgraphql.Formatting.{Gqlerrors}
use wsgraphql.Response.{World}
use wsgraphql.Options.{Server, empty_config, with_protocol, with_upgrader, server, new_server}
use wsgraphql.Options.Laws.{spoken}
use wsgraphql.Options
use wsgraphql.Interceptors.{init_interceptors, or_default}
use wsgraphql.Websocket.Upgrade.{upgraded, serve_websocket_request}
use wsgraphql.Websocket.Upgrade.Laws.{
  is_serving, contexts_of, serves_spoken_protocols, upgraded_writes_no_error,
}

abbrev empty_server_config : Options.Config ℕ ℕ ℕ ℕ ℕ ℕ
empty_server_config = empty_config

abbrev ws_server : Server ℕ ℕ ℕ ℕ ℕ ℕ ℕ
ws_server = record {
  extensions = [];
  config = record empty_server_config {
    upgrader = some 3;
    subscription_protocols = (graphql_ws, tt) ∷ [];
    interceptors = init_interceptors (λ w ctx writer e. w) empty_server_config.interceptors;
    result_processor = some 0;
  };
}

abbrev contexts : Contexts
contexts = record {
  base_value = λ k. Value.nil;
  base_done = false;
  nodes =
      record {
        parent = none;
        values = (request_context, mutable_context 0) ∷ [];
        cancelled = false;
      }
      ∷ [];
}

made :
    new_server
      (λ w ctx writer e. w)
      0
      (some [])
      8
      ((with_upgrader (some 3) ∷ []) ++ map with_protocol (graphql_ws ∷ []))
    ≡ server ws_server
unfolding new_server Options.finish_server Options.apply_options with_protocol with_upgrader
    Dict.insert Options.default_protocols empty_config Options.Protocol_discrete or_default
made = refl

serves_spoken_protocols_example :
    (ws_server.config.upgrader ≡ some 3)
    × (is_serving {F = String} (
          serve_websocket_request ws_server.config.subscription_protocols
            ws_server.config.connect_timeout contexts 0
            (upgraded 4 "graphql-transport-ws"))
        ≡ spoken (protocol_of_string "graphql-transport-ws") (graphql_ws ∷ []))
unfolding Options.apply_options with_upgrader empty_config
serves_spoken_protocols_example =
    serves_spoken_protocols String (λ w ctx writer e. w) 0 [] 8 (with_upgrader (some 3) ∷ [])
      (graphql_ws ∷ []) ws_server contexts 0 4 "graphql-transport-ws" refl refl made

abbrev gql : Gqlerrors String
gql = record {
  gql_format_error = λ e. "formatted";
  new_formatted_error = λ s. s;
  original_error = λ f. some (plain f);
  locations = λ f. [];
  extensions = λ f. [];
  set_extensions = λ f e. f;
  error_text = λ f. f;
}

abbrev world : World ℕ
world = record { contexts = contexts; calls = []; user = 0 }

abbrev to_text : Datum String → List String → String
to_text d es = "{}"

upgraded_writes_no_error_example :
    context_websocket_connection
      (contexts_of {F = String} (serve_websocket_request [] (pos 5) contexts 0 (upgraded 4 "soap")))
      0
    ≡ some 4
unfolding get Mutable.value Context.Key_discrete ℕ_discrete Dict.lookup
upgraded_writes_no_error_example =
    (upgraded_writes_no_error String gql to_text [] (pos 5) world 0 0 4 9 "soap" (plain "no") refl
      (omega arith)).0
