-- ===== src/Websocket/Acks.antt =====
-- v1/server_websocket.go: the `connection_ack` messages that a request sends.
mod Sources
pub mod Invariant
mod Reading
pub mod Once
use wsgraphql.Prelude.{ℕ, ◌+◌, ◌≡◌, List, [], ◌∷◌, ◌++◌, arith}
use wsgraphql.Apollows.{Operation, connection_ack}
use wsgraphql.Websocket.State.{OutgoingMessage, message, failure, Send, Frame, json, close}

-- The sum over a list.
abbrev pub total : {A : Type 0} → (A → ℕ) → List A → ℕ
total f [] = 0
total f (x ∷ xs) = f x + total f xs

pub total-append :
    {A : Type 0} (f : A → ℕ) (xs ys : List A) → total f (xs ++ ys) ≡ total f xs + total f ys
total-append f [] ys = omega arith
total-append f (x ∷ xs) ys = omega (arith, total-append f xs ys)

abbrev pub is_ack : Operation → ℕ
is_ack connection_ack = 1
is_ack _ = 0

module _ {F : Type 0} where
  abbrev pub item_acks : OutgoingMessage F → ℕ
  item_acks (message m) = is_ack m.type
  item_acks (failure e) = 0

  abbrev pub frame_acks : Frame F → ℕ
  frame_acks (json m) = is_ack m.type
  frame_acks (close code text) = 0

  abbrev pub send_acks : List (Send F) → ℕ
  send_acks sends = total (λ s. item_acks s.item) sends
