-- ===== src/Websocket/Upgrade/Laws.antt =====
-- v1/server_websocket.go: which connections are served, and what their contexts show.
use wsgraphql.Prelude.{
  ℕ, ◌<◌, ◌≡◌, refl, ap, String, Bool, true, false, Option, none, some, is_some, List, [], ◌++◌,
  map, arith, length, ◌∙◌,
}
use wsgraphql.Prelude.Int.{ℤ}
use wsgraphql.Context.{
  Contexts, get, put, request_context, mutable_context, websocket_connection, connection, boolean,
  http_response_started, context_http_response_started, context_websocket_connection,
}
use wsgraphql.Context.Laws.{get-put_self, get-put_ne, length-put, request_context_of_registered}
use wsgraphql.Apollows.{Protocol, protocol_of_string, Error, Datum}
use wsgraphql.Options.{
  Server, server, with_protocol, new_server, ServerOption, apply_options, empty_config,
}
use wsgraphql.Options.Laws.{knows, spoken, new_server_after}
use wsgraphql.Formatting.{Gqlerrors}
use wsgraphql.Response.{World, write_error}
use wsgraphql.Websocket.System.{begin}
use wsgraphql.Websocket.Upgrade.{
  upgraded, Served, rejected, serving, unless_unknown, serve_websocket_request,
}

abbrev pub is_serving : {F : Type 0} → Served F → Bool
is_serving (serving sys) = true
is_serving _ = false

abbrev pub contexts_of : {F : Type 0} → Served F → Contexts
contexts_of (rejected s frames err) = s
contexts_of (serving sys) = sys.request.contexts

module _ (F : Type 0) where
  is_serving-unless_unknown :
      (s : Contexts) (ctx : ℕ) (p : Protocol) (timeout : ℤ) (known : Option (Unit {0}))
      → is_serving {F = F} (unless_unknown s ctx p timeout known) ≡ is_some known
  unfolding unless_unknown
  is_serving-unless_unknown s ctx p timeout none = refl
  is_serving-unless_unknown s ctx p timeout (some u) = refl

  contexts_of-unless_unknown :
      (s : Contexts) (ctx : ℕ) (p : Protocol) (timeout : ℤ) (known : Option (Unit {0}))
      → contexts_of {F = F} (unless_unknown s ctx p timeout known) ≡ s
  unfolding unless_unknown begin
  contexts_of-unless_unknown s ctx p timeout none = refl
  contexts_of-unless_unknown s ctx p timeout (some u) = refl

  -- A server is made from options, of which the last are `WithProtocol` options, and those before
  -- them, such as `WithUpgrader`, do not fail and name no protocol. It has the upgrader that the
  -- options before give, and a connection that was upgraded is served exactly if the `WithProtocol`
  -- options name its subprotocol, or if there are none and it is one of the two known ones.
  pub serves_spoken_protocols :
      {W I P C E X Y : Type 0} (write_error : W → ℕ → ℕ → E → W) (identity : X) (exts : List Y)
      (reflect_error : E) (others : List (ServerOption W I P C E X)) (ps : List Protocol)
      (s : Server W I P C E X Y) (c : Contexts) (ctx ws : ℕ) (subprotocol : String)
      → (apply_options empty_config others).1 ≡ none
      → (apply_options empty_config others).0.subscription_protocols ≡ []
      → new_server write_error identity (some exts) reflect_error (others ++ map with_protocol ps)
        ≡ server s
      → (s.config.upgrader ≡ (apply_options empty_config others).0.upgrader)
        × (is_serving {F = F} (
              serve_websocket_request s.config.subscription_protocols s.config.connect_timeout c ctx
                (upgraded ws subprotocol))
            ≡ spoken (protocol_of_string subprotocol) ps)
  unfolding serve_websocket_request
  serves_spoken_protocols write_error identity exts reflect_error others ps s c ctx ws subprotocol
        fine bare made =
      let (t, made', all, upgrades) =
        new_server_after write_error identity exts reflect_error others ps fine bare in
      let same : s ≡ t = cc (made, made') in
      (
        ap (λ (r : Server _ _ _ _ _ _ _). r.config.upgrader) same ∙ upgrades,
        is_serving-unless_unknown _ ctx _ _ _
            ∙ ap
                (λ (r : Server _ _ _ _ _ _ _).
                  knows (protocol_of_string subprotocol) r.config.subscription_protocols)
                same
            ∙ all (protocol_of_string subprotocol),
      )

  -- Once a connection was upgraded, known protocol or not, the request's context shows it, and
  -- `WriteError` writes no error into its response any more.
  pub upgraded_writes_no_error :
      {U : Type 0} (gql : Gqlerrors F) (marshal : Datum F → List F → String)
      (protocols : List (Protocol × Unit {0})) (timeout : ℤ) (w : World U) (ctx r ws writer : ℕ)
      (subprotocol : String) (err : Error F)
      → get w.contexts ctx request_context ≡ mutable_context r
      → r < length w.contexts.nodes
      → let s =
          contexts_of {F = F}
            (serve_websocket_request protocols timeout w.contexts ctx (upgraded ws subprotocol)) in
        (context_websocket_connection s r ≡ some ws)
        × (write_error gql marshal (record w { contexts = s }) r writer (some err)
            ≡ record w { contexts = s })
  unfolding serve_websocket_request context_websocket_connection context_http_response_started
      write_error
  upgraded_writes_no_error gql marshal protocols timeout w ctx r ws writer subprotocol err own
        below =
      rw
        (
          request_context_of_registered w.contexts ctx r own,
          contexts_of-unless_unknown _ ctx _ _ _,
          get-put_ne connected r r http_response_started websocket_connection (boolean true)
              (λ e. cc),
          get-put_self w.contexts r websocket_connection (connection ws) below,
          get-put_self connected r http_response_started (boolean true)
              (omega (arith, length-put w.contexts r websocket_connection (connection ws), below)),
        )
        (refl, refl)
    where
      connected : Contexts
      connected = put w.contexts r websocket_connection (connection ws)
