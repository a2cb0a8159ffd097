-- ===== src/Websocket/Invariant/Sending.antt =====
-- A send, and the invariant.
use wsgraphql.Prelude.{
  ℕ, ◌≤◌, ◌≡◌, refl, Bool, true, false, List, [], ◌∷◌, ◌++◌, arith, length, length-append, OnSome,
  if_both, ltb,
}
use wsgraphql.Websocket.State.{OutgoingMessage, Send, Request, Task}
use wsgraphql.Websocket.Channel.{give_up_at, try_send, try_give_up, attempt}
use wsgraphql.Websocket.Invariant.Registry.{Core}

-- A send fills the channel to at most one message, and panics only on a closed channel.
pub record Sends {F : Type 0} (req req' : Request F) : Type 0 where
  pub keeps_core : (tasks : List (ℕ × Task F)) → Core req tasks → Core req' tasks
  pub same_closed : req'.closed ≡ req.closed
  pub room : length req.outgoing ≤ 1 → length req'.outgoing ≤ 1
  pub calm : req.closed ≡ false → req'.panicked ≡ req.panicked

module _ {F : Type 0} where
  pub Core-channel :
      (req : Request F) (o : List (OutgoingMessage F)) (p : Bool) (tasks : List (ℕ × Task F))
      → Core req tasks
      → Core (record req { outgoing = o; panicked = p }) tasks
  Core-channel req o p tasks c = record {
    counted = c.counted;
    distinct = c.distinct;
    below = c.below;
    registered = c.registered;
    running = c.running;
    gated = c.gated;
  }

  abbrev pub SentFrom : Request F → Request F × List (Send F) → Type 0
  SentFrom req (req', rest) = Sends req req'

  Sends-refl : (req : Request F) → Sends req req
  Sends-refl req = record {
    keeps_core = λ tasks c. c;
    same_closed = refl;
    room = λ h. h;
    calm = λ h. refl;
  }

  try_send-Sends :
      (req : Request F) (sends : List (Send F)) → OnSome (SentFrom req) (try_send req sends)
  unfolding try_send
  try_send-Sends req [] = tt
  try_send-Sends req (s ∷ rest) =
      if_both (OnSome (SentFrom req)) req.closed
        (λ c. record {
          keeps_core = Core-channel req req.outgoing true;
          same_closed = refl;
          room = λ h. h;
          calm = λ o. cc;
        })
        (λ o.
          if_both (OnSome (SentFrom req)) (ltb (length req.outgoing) 1)
            (λ free. record {
              keeps_core = Core-channel req (req.outgoing ++ s.item ∷ []) req.panicked;
              same_closed = refl;
              room = λ h. ground (arith, length-append req.outgoing (s.item ∷ []));
              calm = λ h. refl;
            })
            (λ _. tt))

  try_give_up-Sends :
      (req : Request F) (sends : List (Send F)) → OnSome (SentFrom req) (try_give_up req sends)
  unfolding try_give_up
  try_give_up-Sends req [] = tt
  try_give_up-Sends req (s ∷ rest) =
      if_both (OnSome (SentFrom req)) (give_up_at req.contexts s.unless) (λ _. Sends-refl req)
        (λ _. tt)

  pub attempt-Sends :
      (way : Bool) (req : Request F) (sends : List (Send F))
      → OnSome (SentFrom req) (attempt way req sends)
  unfolding attempt
  attempt-Sends true req sends = try_send-Sends req sends
  attempt-Sends false req sends = try_give_up-Sends req sends
