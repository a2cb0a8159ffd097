-- ===== src/Tests.antt =====
-- Small inputs on which the theorems on contexts, interceptors, options and results are applied.
use wsgraphql.Prelude.{
  ℕ, ◌≡◌, inl, refl, false, ◌||◌, String, Option, none, some, List, [], ◌∷◌, ◌++◌, ◌+◌, arith,
  ℕ_discrete, map,
}
use wsgraphql.Mutable.{Store, is_done, new_mutable_context, cancel, value, set}
use wsgraphql.Mutable.Cancellation.{descends, is_done-cancel}
use wsgraphql.Mutable.Values.{value-set_stranger, new_mutable_context_lem}
use wsgraphql.Apollows.{Datum, Protocol, graphql_ws, Error, plain}
use wsgraphql.Context.{Value, get, context_http_response_started}
use wsgraphql.Response.{World}
use wsgraphql.Callbacks.{Callbacks, legacy_callback_http_request}
use wsgraphql.Response.Laws.{error_response}
use wsgraphql.Callbacks.Laws.{no_callbacks, default_error_written_twice}
use wsgraphql.Formatting.{Gqlerrors}
use wsgraphql.Interceptors.{chained, HttpRequestArgs, Outcome, Interceptor, Interceptors}
use wsgraphql.Interceptors.Laws.{present, nest, chained_lem}
use wsgraphql.Options.{
  Config, Server, server, refused, empty_config, ServerOption, with_extra_interceptors,
  with_protocol, with_root_object, apply_options, new_server,
}
use wsgraphql.Options.Laws.{
  completed, knows, spoken, extra_interceptors_nest, new_server_first_error, new_server_protocols,
}

-- A context, one derived from it on which a key is set, and a stranger.
abbrev family : Store ℕ ℕ
family = record {
  base_value = λ k. 0;
  base_done = false;
  nodes =
      record { parent = none; values = []; cancelled = false }
      ∷ record { parent = some 0; values = (7, 70) ∷ []; cancelled = false }
      ∷ record { parent = none; values = (5, 50) ∷ []; cancelled = false }
      ∷ [];
}

is_done-cancel_example : is_done (cancel family 0) 1 ≡ (descends family 1 0 || is_done family 1)
is_done-cancel_example = is_done-cancel family 0 1

stranger : descends family 2 0 ≡ false
unfolding descends ℕ_discrete
stranger = refl

value-set_stranger_example :
    value ℕ_discrete (set ℕ_discrete family 0 5 51) 2 5 ≡ value ℕ_discrete family 2 5
value-set_stranger_example = value-set_stranger ℕ_discrete family 0 2 5 5 51 (inl stranger)

new_mutable_context_lem_example :
    let (t, a) = new_mutable_context family (some 1) in
    (value ℕ_discrete t a 7 ≡ value ℕ_discrete family 1 7)
    × (is_done t a ≡ is_done family 1)
    × (value ℕ_discrete t 2 7 ≡ value ℕ_discrete family 2 7)
    × (is_done t 2 ≡ is_done family 2)
new_mutable_context_lem_example = new_mutable_context_lem ℕ_discrete family 1 2 7 (omega arith)

-- One adds before the handler, one after it, and one never calls it.
abbrev tally : List (Option (Interceptor ℕ ℕ))
tally = some (λ a handler. handler (a + 1)) ∷ none ∷ some (λ a handler. handler a + 10) ∷ []

chained_lem_example : chained tally 5 (λ a. a + a) ≡ nest (present tally) (λ a. a + a) 5
chained_lem_example = chained_lem tally 5 (λ a. a + a)

abbrev gql : Gqlerrors String
gql = record {
  gql_format_error = λ e. "formatted";
  new_formatted_error = λ s. s;
  original_error = λ f. some (plain f);
  locations = λ f. [];
  extensions = λ f. [];
  set_extensions = λ f e. f;
  error_text = λ f. f;
}

-- Interceptors of operations alone, over a world that counts.
abbrev only : (ℕ × ℕ × ℕ → (ℕ × ℕ × ℕ → ℕ × Option ℕ) → ℕ × Option ℕ) → Interceptors ℕ ℕ ℕ ℕ ℕ
only i = record {
  http_request = none;
  init = none;
  operation = some i;
  operation_parse = none;
  operation_execute = none;
}

abbrev extras : List (Interceptors ℕ ℕ ℕ ℕ ℕ)
extras = only (λ (w, c, p) h. h (w + 1, c, p)) ∷ only (λ a h. ((h a).0 + 10, (h a).1)) ∷ []

abbrev fresh_config : Config ℕ ℕ ℕ ℕ ℕ ℕ
fresh_config = empty_config

extra_interceptors_nest_example :
    completed
      (apply_options fresh_config (map with_extra_interceptors extras)).0.interceptors.operation
      (5, 0, 0)
      (λ (w, c, p). (w + w, none))
    ≡ nest
        (present (map (λ (is : Interceptors ℕ ℕ ℕ ℕ ℕ). is.operation) extras))
        (λ (w, c, p). (w + w, none))
        (5, 0, 0)
unfolding empty_config
extra_interceptors_nest_example =
    (extra_interceptors_nest fresh_config extras (5, 0, 0) (λ (w, c, p). (w + w, none)) refl).1

abbrev failing_option : ServerOption ℕ ℕ ℕ ℕ ℕ ℕ
failing_option c = (c, some 9)

new_server_first_error_example :
    new_server {Y = ℕ}
      (λ w ctx writer e. w)
      0
      (some [])
      8
      (with_root_object (some 3) ∷ failing_option ∷ with_root_object none ∷ [])
    ≡ refused 9
unfolding apply_options with_root_object
new_server_first_error_example =
    new_server_first_error {Y = ℕ} (λ w ctx writer e. w) 0 (some []) 8 9
      (with_root_object (some 3) ∷ []) (with_root_object none ∷ []) failing_option refl refl

new_server_protocols_example :
    (s : Server ℕ ℕ ℕ ℕ ℕ ℕ ℕ) × (new_server
        (λ w ctx writer e. w)
        0
        (some [])
        8
        (map with_protocol (graphql_ws ∷ []))
      ≡ server s)
    × ((q : Protocol) → knows q s.config.subscription_protocols ≡ spoken q (graphql_ws ∷ []))
new_server_protocols_example = new_server_protocols (λ w ctx writer e. w) 0 [] 8 (graphql_ws ∷ [])

abbrev quiet : Callbacks String ℕ ℕ ℕ
quiet = no_callbacks

abbrev world : World ℕ
world = record {
  contexts = record { base_value = λ k. Value.nil; base_done = false; nodes = [] };
  calls = [];
  user = 0;
}

abbrev to_text : Datum String → List String → String
to_text d es = "{}"

abbrev rejecting : HttpRequestArgs (World ℕ) → Outcome (World ℕ) (Error String)
rejecting (w, ctx, writer, r) = (w, some (plain "no"))

default_error_written_twice_example :
    (legacy_callback_http_request gql to_text quiet (world, 0, 1, 2) rejecting).0.calls
    ≡ error_response gql to_text 1 (plain "no") ++ error_response gql to_text 1 (plain "no")
unfolding context_http_response_started get value
default_error_written_twice_example =
    (default_error_written_twice gql to_text quiet world world 0 1 2 rejecting (plain "no") refl
      refl refl refl).0
