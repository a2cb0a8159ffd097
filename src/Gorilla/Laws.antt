-- ===== src/Gorilla/Laws.antt =====
-- v1/compat/gorillaws/api.go: what closing and upgrading report.
use wsgraphql.Prelude.{ℕ, String, ◌≡◌, ◌↔◌, refl, Option, none, some}
use wsgraphql.Interceptors.{Outcome}
use wsgraphql.Gorilla.{Gorilla, or_origerr, close}

module _ {W H E : Type 0} (gorilla : Gorilla W H E) where
  or_origerr-none :
      (origerr : Option E) (out : Outcome W E)
      → ((or_origerr gorilla origerr out).0 ≡ out.0)
        × (((or_origerr gorilla origerr out).1 ≡ none) ↔ ((origerr ≡ none) × (out.1 ≡ none)))
  unfolding or_origerr
  or_origerr-none origerr (w, none) = (refl, (λ e. (e, refl), λ (e, _). e))
  or_origerr-none origerr (w, some err) = (refl, (λ e. cc, λ (_, e). e))

  -- Closing closes the connection of gorilla, also if the close frame could not be sent, and reports
  -- no error exactly if the frame was sent and the connection was closed without one.
  pub close-none :
      (w : W) (conn code : ℕ) (message : String)
      → let sent =
          gorilla.write_message w conn gorilla.close_message
            (gorilla.format_close_message code message) in
        let shut = gorilla.close_connection sent.0 conn in
        ((close gorilla w conn code message).0 ≡ shut.0)
        × (((close gorilla w conn code message).1 ≡ none) ↔ ((sent.1 ≡ none) × (shut.1 ≡ none)))
  unfolding close
  close-none w conn code message = or_origerr-none _ _
