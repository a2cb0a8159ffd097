-- ===== src/Websocket/Safety.antt =====
-- What the invariant says of a request that began with no operation.
use wsgraphql.Prelude.{ℕ, ◌≡◌, ◌↔◌, String, Bool, true, some, [], length}
use wsgraphql.Context.{Contexts}
use wsgraphql.Apollows.{Protocol}
use wsgraphql.Websocket.State.{System, Task, exited, fired}
use wsgraphql.Websocket.Reader.{lacks_init}
use wsgraphql.Websocket.Operations.{Environment}
use wsgraphql.Websocket.System.{begin, Reach}
use wsgraphql.Websocket.Invariant.{Inv, begin-Inv, Reach-Inv, task_at, operation_at}

module _ {F : Type 0} (env : Environment F) (s : Contexts) (ctx : ℕ) (p : Protocol)
    (timeout : Bool) where
  abbrev pub Reachable : System F → Type 0
  Reachable sys = Reach env (begin s ctx p timeout) sys

  Reachable-Inv : {sys : System F} → Reachable sys → Inv sys
  Reachable-Inv r = Reach-Inv env (begin-Inv env s ctx p timeout) r

  -- In every state that a request can come to, if the outgoing channel is closed, then the reader
  -- has ended with nothing left to send, and no operation is running.
  pub closed_after_all :
      (sys : System F)
      → Reachable sys
      → sys.request.closed ≡ true
      → (sys.reader ≡ exited) × (sys.reader_sends ≡ []) × (sys.tasks ≡ [])
  closed_after_all sys r c = (Reachable-Inv r).shut c

  -- In every state that a request can come to, a goroutine has sent on the closed outgoing channel
  -- only if the timer of the connect timeout has fired.
  pub panic_only_after_timer :
      (sys : System F) → Reachable sys → sys.request.panicked ≡ true → sys.timer ≡ fired
  panic_only_after_timer sys r h = (Reachable-Inv r).panic h

  -- In every state that a request can come to, the map of operations holds an id with a context
  -- exactly if an operation of that id is running under that context, and the wait group counts
  -- the running operations.
  pub operations_are_running :
      (sys : System F)
      → Reachable sys
      → ((id : String) (a : ℕ)
          → (operation_at id sys.request ≡ some a)
            ↔ ((t : Task F) × (task_at a sys.tasks ≡ some t) × (t.id ≡ id)))
        × (sys.request.wg ≡ length sys.tasks)
  operations_are_running sys r = (
    λ id a. (inv.core.running id a, λ (t, at_a, e). rw (← e) (inv.core.registered a t at_a)),
    inv.core.counted,
  )
    where
      inv : Inv sys
      inv = Reachable-Inv r

  -- In every state that a request can come to, under graphql-transport-ws no operation is running
  -- as long as no connection_init message was read.
  pub none_before_init :
      (sys : System F) → Reachable sys → lacks_init sys.request ≡ true → sys.tasks ≡ []
  none_before_init sys r h = (Reachable-Inv r).core.gated h
