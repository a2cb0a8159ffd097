-- ===== src/Gorilla.antt =====
-- v1/compat/gorillaws/api.go: the websocket connection of gorilla/websocket as a `Conn`.
--
-- `W` is the state of the connections, each named by a number; gorilla's own operations are
-- parameters, in the record `Gorilla`.
pub mod Laws
use wsgraphql.Prelude.{ℕ, String, Option, none, some}
use wsgraphql.Interceptors.{Outcome}

pub record Gorilla (W H E : Type 0) : Type 0 where
  pub close_message : ℕ
  pub format_close_message : (code : ℕ) → String → String
  pub write_message : W → (conn type : ℕ) → String → Outcome W E
  pub close_connection : W → (conn : ℕ) → Outcome W E
  pub upgrade_connection : W → (writer r : ℕ) → H → Outcome (W × ℕ) E
  pub negotiated : W → (conn : ℕ) → String

module _ {W H E : Type 0} (gorilla : Gorilla W H E) where
  -- `if err == nil { err = origerr }`
  unfoldable pub or_origerr : (origerr : Option E) → Outcome W E → Outcome W E
  or_origerr origerr (w, none) = (w, origerr)
  or_origerr origerr (w, some err) = (w, some err)

  -- `conn.Close`
  unfoldable pub close : W → (conn : ℕ) → (code : ℕ) → (message : String) → Outcome W E
  unfolding or_origerr
  close w conn code message =
      let (w', origerr) =
        gorilla.write_message w conn gorilla.close_message
          (gorilla.format_close_message code message) in
      or_origerr origerr (gorilla.close_connection w' conn)

  -- `conn.Subprotocol`
  unfoldable pub subprotocol : W → (conn : ℕ) → String
  subprotocol w conn = gorilla.negotiated w conn

  wrapped : Outcome (W × ℕ) E → (W × Option ℕ) × Option E
  wrapped ((w, conn), some err) = ((w, none), some err)
  wrapped ((w, conn), none) = ((w, some conn), none)

  -- `Wrapper.Upgrade`; there is a connection exactly if there is no error.
  unfoldable pub upgrade : W → (writer r : ℕ) → H → (W × Option ℕ) × Option E
  unfolding wrapped
  upgrade w writer r header = wrapped (gorilla.upgrade_connection w writer r header)
