-- ===== src/Websocket/Upgrade.antt =====
-- v1/server_websocket.go: the beginning of `serveWebsocketRequest`, up to its request.
--
-- The upgrader belongs to an adapter: what `Upgrade` returned is an argument.
pub mod Laws
mod Tests
use wsgraphql.Prelude.{ℕ, String, true, Option, none, some, List, [], ◌∷◌}
use wsgraphql.Prelude.Dict
use wsgraphql.Prelude.Int.{ℤ, is_positive}
use wsgraphql.Context.{
  Contexts, websocket_connection, http_response_started, connection, boolean, put,
  request_context_of,
}
use wsgraphql.Apollows.{Protocol, protocol_of_string, Error, plain, event_close_normal}
use wsgraphql.Options.{Protocol_discrete}
use wsgraphql.Websocket.State.{Frame, close, System}
use wsgraphql.Websocket.System.{begin}

-- The connection and its `Subprotocol()`, or an error.
pub data Upgraded (F : Type 0) : Type 0 where
  failed : Error F → Upgraded F
  upgraded : (ws : ℕ) → (subprotocol : String) → Upgraded F

-- An early return with the frames sent and the error, or the request that is served.
pub data Served (F : Type 0) : Type 0 where
  rejected : Contexts → List (Frame F) → Error F → Served F
  serving : System F → Served F

-- `apollows.ErrUnknownProtocol`
abbrev pub err_unknown_protocol : {F : Type 0} → Error F
err_unknown_protocol = plain "unknown subscription protocol"

module _ {F : Type 0} where
  unfoldable pub unless_unknown :
      Contexts → ℕ → Protocol → (connect_timeout : ℤ) → Option (Unit {0}) → Served F
  unless_unknown s ctx protocol timeout none =
      rejected s (close event_close_normal "unknown subscription protocol" ∷ [])
        err_unknown_protocol
  unless_unknown s ctx protocol timeout (some known) =
      serving (begin s ctx protocol (is_positive timeout))

  -- `serveWebsocketRequest`, before its loop.
  unfoldable pub serve_websocket_request :
      List (Protocol × Unit {0})
      → (connect_timeout : ℤ) → Contexts
      → (ctx : ℕ) → Upgraded F
      → Served F
  serve_websocket_request protocols timeout s ctx (failed err) = rejected s [] err
  serve_websocket_request protocols timeout s ctx (upgraded ws subprotocol) =
      let (s', reqctx) = request_context_of s ctx in
      unless_unknown
        (put (put s' reqctx websocket_connection (connection ws)) reqctx http_response_started
          (boolean true))
        ctx (protocol_of_string subprotocol) timeout
        (Dict.lookup Protocol_discrete (protocol_of_string subprotocol) protocols)
