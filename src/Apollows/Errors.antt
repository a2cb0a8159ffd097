-- ===== src/Apollows/Errors.antt =====
-- v1/apollows/proto.go: the texts and the codes of errors.
use Prim.Native.String
use wsgraphql.Prelude.{String, String_discrete, ℕ_discrete, ite}
use wsgraphql.Apollows.{
  MessageType, event_close_normal, event_invalid_message, event_unauthorized,
  event_initialization_timeout, event_too_many_initialization_requests,
  event_subscriber_already_exists, Error, ApollowsError, event, error_impl, no_cause, cause,
}

infixl 65 ◌+s◌
abbrev pub ◌+s◌ : String → String → String
s +s t = String.◌++◌ s t

-- `MessageType.Error`: the entry of `messageTypeDescriptions`, or the empty text.
unfoldable pub description : MessageType → String
description m = ite (ℕ_discrete m event_close_normal) "Termination requested" (
    ite (ℕ_discrete m event_invalid_message) "Invalid message" (
      ite (ℕ_discrete m event_unauthorized) "Unauthorized" (
        ite (ℕ_discrete m event_initialization_timeout) "Connection initialisation timeout" (
          ite (ℕ_discrete m event_too_many_initialization_requests)
            "Too many initialisation requests" ""))))

module _ {F : Type 0} where
  -- `EventMessageType`
  unfoldable pub event_message_type : ApollowsError F → MessageType
  event_message_type (event m) = m
  event_message_type (error_impl c message m) = m

  -- `Error` of an `apollows.Error`
  unfoldable pub apollows_error_text : ApollowsError F → String
  unfolding description
  apollows_error_text (event m) = description m
  apollows_error_text (error_impl c message m) = message

  -- `WrapError`; the text of the wrapped error is handed over with it.
  unfoldable pub wrap_error : Error F → String → MessageType → ApollowsError F
  unfolding description
  wrap_error err text m =
      error_impl (cause err)
        (ite (String_discrete (description m) "") text (description m +s ": " +s text)) m

  -- `NewSubscriberAlreadyExistsError`
  unfoldable pub new_subscriber_already_exists_error : String → ApollowsError F
  new_subscriber_already_exists_error id =
      error_impl no_cause ("Subscriber for " +s id +s " already exists")
        event_subscriber_already_exists
