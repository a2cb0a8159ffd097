-- ===== src/Options.antt =====
-- v1/api_server.go and the configuration of v1/server.go: the options of a server, and `NewServer`.
--
-- The upgrader and the root object are named by numbers; `X` are the result processors. That the
-- schema's extensions can be reflected is an argument: the slice, or `none`.
pub mod Laws
use wsgraphql.Prelude.{
  ℕ, String_discrete, Bool, true, false, Option, none, some, List, [], ◌∷◌, if◌then◌else◌, String,
}
use wsgraphql.Prelude.Dict
use wsgraphql.Prelude.Int.{ℤ, pos}
use wsgraphql.Apollows.{Protocol, graphql_ws, graphql_transport_ws}
use wsgraphql.Interceptors.{
  Interceptor, Interceptors, chained, interceptor_http_request_chain, interceptor_init_chain,
  interceptor_operation_chain, interceptor_operation_parse_chain,
  interceptor_operation_execute_chain, init_interceptors, or_default,
}

unfoldable pub Protocol_discrete : Discrete Protocol
Protocol_discrete = hlevel String_discrete

-- `serverConfig`; a set is a map to `Unit`.
pub record Config (W I P C E X : Type 0) : Type 0 where
  pub upgrader : Option ℕ
  pub interceptors : Interceptors W I P C E
  pub result_processor : Option X
  pub root_object : Option ℕ
  pub subscription_protocols : List (Protocol × Unit {0})
  pub keepalive : ℤ
  pub connect_timeout : ℤ
  pub reject_http_queries : Bool

-- `serverImpl`, over the extensions `Y` of its schema.
pub record Server (W I P C E X Y : Type 0) : Type 0 where
  pub extensions : List Y
  pub config : Config W I P C E X

pub data Made (W I P C E X Y : Type 0) : Type 0 where
  server : Server W I P C E X Y → Made W I P C E X Y
  refused : E → Made W I P C E X Y

-- The zero value of `serverConfig`, with the map made.
unfoldable pub empty_config : {W I P C E X : Type 0} → Config W I P C E X
empty_config = record {
  upgrader = none;
  interceptors = record {
    http_request = none;
    init = none;
    operation = none;
    operation_parse = none;
    operation_execute = none;
  };
  result_processor = none;
  root_object = none;
  subscription_protocols = [];
  keepalive = pos 0;
  connect_timeout = pos 0;
  reject_http_queries = false;
}

-- `if extra != nil { config = chain(config, extra) }`
unfoldable pub extend :
    {A R : Type 0}
    → (List (Option (Interceptor A R)) → Interceptor A R)
    → Option (Interceptor A R)
    → Option (Interceptor A R)
    → Option (Interceptor A R)
extend chain_of config none = config
extend chain_of config (some i) = some (chain_of (config ∷ some i ∷ []))

-- `ServerOption`
abbrev pub ServerOption : (W I P C E X : Type 0) → Type 0
ServerOption W I P C E X = Config W I P C E X → Config W I P C E X × Option E

unfoldable pub extend_interceptors :
    {W I P C E : Type 0} → Interceptors W I P C E → Interceptors W I P C E → Interceptors W I P C E
extend_interceptors c extra = record {
  http_request = extend interceptor_http_request_chain c.http_request extra.http_request;
  init = extend interceptor_init_chain c.init extra.init;
  operation = extend interceptor_operation_chain c.operation extra.operation;
  operation_parse =
      extend interceptor_operation_parse_chain c.operation_parse extra.operation_parse;
  operation_execute =
      extend interceptor_operation_execute_chain c.operation_execute extra.operation_execute;
}

unfoldable pub default_protocols : List (Protocol × Unit {0}) → List (Protocol × Unit {0})
default_protocols [] =
    Dict.insert Protocol_discrete graphql_transport_ws tt
      (Dict.insert Protocol_discrete graphql_ws tt [])
default_protocols (p ∷ ps) = p ∷ ps

module _ {W I P C E X : Type 0} where
  unfoldable pub with_upgrader : Option ℕ → ServerOption W I P C E X
  with_upgrader u c = (record c { upgrader = u }, none)

  unfoldable pub with_interceptors : Interceptors W I P C E → ServerOption W I P C E X
  with_interceptors is c = (record c { interceptors = is }, none)

  unfoldable pub with_extra_interceptors : Interceptors W I P C E → ServerOption W I P C E X
  with_extra_interceptors extra c =
      (record c { interceptors = extend_interceptors c.interceptors extra }, none)

  unfoldable pub with_keepalive : ℤ → ServerOption W I P C E X
  with_keepalive interval c = (record c { keepalive = interval }, none)

  unfoldable pub without_http_queries : ServerOption W I P C E X
  without_http_queries c = (record c { reject_http_queries = true }, none)

  unfoldable pub with_protocol : Protocol → ServerOption W I P C E X
  with_protocol p c = (
    record c {
      subscription_protocols = Dict.insert Protocol_discrete p tt c.subscription_protocols;
    },
    none,
  )

  unfoldable pub with_connect_timeout : ℤ → ServerOption W I P C E X
  with_connect_timeout timeout c = (record c { connect_timeout = timeout }, none)

  unfoldable pub with_root_object : Option ℕ → ServerOption W I P C E X
  with_root_object root c = (record c { root_object = root }, none)

  unfoldable pub with_result_processor : Option X → ServerOption W I P C E X
  with_result_processor proc c = (record c { result_processor = proc }, none)

  -- The loop over the options in `NewServer`: the configuration, or the first error.
  unfoldable pub apply_options :
      Config W I P C E X → List (ServerOption W I P C E X) → Config W I P C E X × Option E
  apply_options c [] = (c, none)
  apply_options c (o ∷ os) =
      let (c', e) = o c in elim e [ some err ↦ (c', some err) | none ↦ apply_options c' os ]

  -- `NewServer` after its options: the defaults, and the extensions.
  unfoldable pub finish_server :
      {Y : Type 0}
      → (write_error : W → ℕ → ℕ → E → W) → (identity : X) → (reflected : Option (List Y))
      → (err_reflect_extensions : E) → Config W I P C E X × Option E
      → Made W I P C E X Y
  finish_server write_error identity reflected reflect_error (c, some err) = refused err
  finish_server write_error identity none reflect_error (c, none) = refused reflect_error
  finish_server write_error identity (some exts) reflect_error (c, none) = server (record {
    extensions = exts;
    config = record c {
      subscription_protocols = default_protocols c.subscription_protocols;
      interceptors = init_interceptors write_error c.interceptors;
      result_processor = or_default identity c.result_processor;
    };
  })

  -- `NewServer`
  unfoldable pub new_server :
      {Y : Type 0}
      → (write_error : W → ℕ → ℕ → E → W) → (identity : X) → (reflected : Option (List Y))
      → (err_reflect_extensions : E) → List (ServerOption W I P C E X)
      → Made W I P C E X Y
  new_server write_error identity reflected reflect_error options =
      finish_server write_error identity reflected reflect_error
        (apply_options empty_config options)
