-- ===== src/Websocket/Accepting/Started.antt =====
-- Every step keeps the gate.
use wsgraphql.Prelude.{
  ℕ, ◌≡◌, refl, String, Bool, true, false, Option, none, some, List, [], ◌∷◌, OnSome, OnSome-some,
  inl, inr, if_both, ltb, length,
}
use wsgraphql.Mutable.{is_done}
use wsgraphql.Context.{Contexts}
use wsgraphql.Apollows.{
  Protocol, graphql_transport_ws, apollows, event, event_initialization_timeout,
}
use wsgraphql.Websocket.State.{
  OutgoingMessage, Send, Request, Phase, leaving, Task, Timer, armed, System,
}
use wsgraphql.Websocket.Channel.{give_up_at, try_send, try_give_up, attempt}
use wsgraphql.Websocket.Keeps.{handle_error-Keeps}
use wsgraphql.Websocket.Operations.{Environment, TaskEvent}
use wsgraphql.Websocket.Handling.{StepKeeps, task_step-Keeps}
use wsgraphql.Websocket.System.{
  Goroutine, reader, timer, task, Event, send, give_up, of_task, leave, write, tick, timer_fires,
  timer_stops, server_done, begin, task_sent, task_attempt, reader_sent, timer_sent, send_step,
  write_step, stepped, of_task_step, remove_task, leave_phase, leave_step, timer_step, step, Reach,
  here, next,
}
use wsgraphql.Websocket.Invariant.{task_at, no_task}
use wsgraphql.Websocket.Accepting.{Accepts, HasAccepted}
use wsgraphql.Websocket.Accepting.Gate.{Gate, Gate-map, reader_step-Gate}

-- The protocol and `req.init` stay.
abbrev Same : {F : Type 0} → Request F → Request F → Type 0
Same req req' = (req'.protocol ≡ req.protocol) × (req'.init ≡ req.init)

abbrev SameSent : {F : Type 0} → Request F → Request F × List (Send F) → Type 0
SameSent req (req', rest) = Same req req'

module _ {F : Type 0} where
  attempt-Same :
      (way : Bool) (req : Request F) (sends : List (Send F))
      → OnSome (SameSent req) (attempt way req sends)
  unfolding attempt try_send try_give_up
  attempt-Same true req [] = tt
  attempt-Same false req [] = tt
  attempt-Same true req (s ∷ rest) =
      if_both (OnSome (SameSent req)) req.closed (λ _. (refl, refl))
        (λ _.
          if_both (OnSome (SameSent req)) (ltb (length req.outgoing) 1) (λ _. (refl, refl))
            (λ _. tt))
  attempt-Same false req (s ∷ rest) =
      if_both (OnSome (SameSent req)) (give_up_at req.contexts s.unless) (λ _. (refl, refl))
        (λ _. tt)

module _ {F : Type 0} (B : Type 0) (sys : System F) (g : Gate B sys) where
  reader_sent-Gate :
      (r : Option (Request F × List (Send F)))
      → OnSome (SameSent sys.request) r
      → OnSome (Gate B) (reader_sent sys r)
  unfolding reader_sent
  reader_sent-Gate none h = tt
  reader_sent-Gate (some (req, rest)) (p, i) = record { idle = rw i g.idle; busy = rw p g.busy }

  timer_sent-Gate :
      (r : Option (Request F × List (Send F)))
      → OnSome (SameSent sys.request) r
      → OnSome (Gate B) (timer_sent sys r)
  unfolding timer_sent
  timer_sent-Gate none h = tt
  timer_sent-Gate (some (req, rest)) (p, i) = record { idle = rw i g.idle; busy = rw p g.busy }

  -- While an operation runs, whatever becomes of the operations.
  with_task :
      (a : ℕ) (t : Task F) (req : Request F) (tasks : List (ℕ × Task F))
      → task_at a sys.tasks ≡ some t
      → Same sys.request req
      → Gate B (record sys { request = req; tasks = tasks })
  with_task a t req tasks at_a (p, i) = record {
    idle = rw i g.idle;
    busy = rw p (λ ws _. g.busy ws (λ e. no_task a sys.tasks e at_a));
  }

  task_sent-Gate :
      (a : ℕ) (t : Task F) (r : Option (Request F × List (Send F)))
      → task_at a sys.tasks ≡ some t
      → OnSome (SameSent sys.request) r
      → OnSome (Gate B) (task_sent sys a t r)
  unfolding task_sent
  task_sent-Gate a t none at_a h = tt
  task_sent-Gate a t (some (req, rest)) at_a h = with_task a t req _ at_a h

  task_attempt-Gate :
      (way : Bool) (a : ℕ) (o : Option (Task F))
      → task_at a sys.tasks ≡ o
      → OnSome (Gate B) (task_attempt way sys a o)
  unfolding task_attempt
  task_attempt-Gate way a none at_a = tt
  task_attempt-Gate way a (some t) at_a =
      task_sent-Gate a t _ at_a (attempt-Same way sys.request t.sends)

  send_step-Gate : (way : Bool) (who : Goroutine) → OnSome (Gate B) (send_step way sys who)
  unfolding send_step
  send_step-Gate way reader = reader_sent-Gate _ (attempt-Same way sys.request sys.reader_sends)
  send_step-Gate way timer = timer_sent-Gate _ (attempt-Same way sys.request sys.timer_sends)
  send_step-Gate way (task a) = task_attempt-Gate way a _ refl

  write_step-Gate :
      (o : List (OutgoingMessage F)) (err : Option String) → OnSome (Gate B) (write_step sys o err)
  unfolding write_step
  write_step-Gate [] err = tt
  write_step-Gate (m ∷ rest) err = record { idle = g.idle; busy = g.busy }

module _ {F : Type 0} (env : Environment F) (B : Type 0) (sys : System F) (g : Gate B sys) where
  timer_step-Gate : (tm : Timer) (e : Event F) → OnSome (Gate B) (timer_step env sys tm e)
  unfolding timer_step
  timer_step-Gate armed timer_fires =
      let k =
        handle_error-Keeps env.gql sys.request sys.request.ctx
          (apollows (event event_initialization_timeout)) in
      record { idle = rw k.same_init g.idle; busy = rw k.same_protocol g.busy }
  timer_step-Gate armed timer_stops =
      if_both (OnSome (Gate B)) (is_done sys.request.contexts sys.request.ctx)
        (λ _. record { idle = g.idle; busy = g.busy }) (λ _. tt)
  timer_step-Gate tm e = tt

  stepped-Gate :
      (a : ℕ) (t : Task F) (r : Option (Request F × Task F))
      → task_at a sys.tasks ≡ some t
      → OnSome (StepKeeps sys.request t) r
      → OnSome (Gate B) (stepped env sys a r)
  unfolding stepped
  stepped-Gate a t none at_a h = tt
  stepped-Gate a t (some (req, t')) at_a (k, _) =
      with_task B sys g a t req _ at_a (k.same_protocol, k.same_init)

  of_task_step-Gate :
      (a : ℕ) (ev : TaskEvent F) (o : Option (Task F))
      → task_at a sys.tasks ≡ o
      → OnSome (Gate B) (of_task_step env sys a ev o)
  unfolding of_task_step
  of_task_step-Gate a ev none at_a = tt
  of_task_step-Gate a ev (some t) at_a =
      stepped-Gate a t _ at_a (task_step-Keeps env sys.request a t t.sends ev)

  leave_phase-Gate :
      (a : ℕ) (t : Task F) (p : Phase F) (sends : List (Send F))
      → task_at a sys.tasks ≡ some t
      → OnSome (Gate B) (leave_phase env sys a t p sends)
  unfolding leave_phase remove_task
  leave_phase-Gate a t leaving [] at_a = with_task B sys g a t _ _ at_a (refl, refl)
  leave_phase-Gate a t p sends at_a = tt

  leave_step-Gate :
      (a : ℕ) (o : Option (Task F))
      → task_at a sys.tasks ≡ o
      → OnSome (Gate B) (leave_step env sys a o)
  unfolding leave_step
  leave_step-Gate a none at_a = tt
  leave_step-Gate a (some t) at_a = leave_phase-Gate a t t.phase t.sends at_a

  step-Gate : (e : Event F) → (Accepts env sys e → B) → OnSome (Gate B) (step env sys e)
  unfolding step
  step-Gate (send who) accepts = send_step-Gate B sys g true who
  step-Gate (give_up who) accepts = send_step-Gate B sys g false who
  step-Gate (of_task a ev) accepts = of_task_step-Gate a ev _ refl
  step-Gate (leave a) accepts = leave_step-Gate a _ refl
  step-Gate (write err) accepts = write_step-Gate B sys g sys.request.outgoing err
  step-Gate (tick err) accepts = record { idle = g.idle; busy = g.busy }
  step-Gate timer_fires accepts = timer_step-Gate sys.timer timer_fires
  step-Gate timer_stops accepts = timer_step-Gate sys.timer timer_stops
  step-Gate server_done accepts = record { idle = g.idle; busy = g.busy }
  step-Gate e accepts =
      reader_step-Gate env B sys sys.reader sys.reader_sends sys.timer e g refl accepts

module _ {F : Type 0} (env : Environment F) (c : Contexts) (ctx : ℕ) (p : Protocol)
    (timeout : Bool) where
  Reach-Gate :
      {sys : System F} (r : Reach env (begin c ctx p timeout) sys) → Gate (HasAccepted env r) sys
  unfolding begin
  Reach-Gate here = record { idle = λ i. absurd (cc i); busy = λ ws some_task. some_task refl }
  Reach-Gate (next {s} {t} e r stepped) =
      OnSome-some (Gate (HasAccepted env (next e r stepped))) stepped
        (step-Gate env _ s (Gate-map inl (Reach-Gate r)) e inr)

  -- Under graphql-transport-ws, whenever an operation is running, a connection_init message was
  -- accepted on the way to that state: it was read where none had been read before, or handed over to
  -- the waiting connect timeout; its payload could be read; and the Init interceptor returned no error
  -- for it.
  pub started_after_acceptance :
      (sys : System F) (r : Reach env (begin c ctx p timeout) sys) (a : ℕ) (t : Task F)
      → sys.request.protocol ≡ graphql_transport_ws
      → task_at a sys.tasks ≡ some t
      → HasAccepted env r
  started_after_acceptance sys r a t ws at_a =
      (Reach-Gate r).busy (rw ws refl) (λ e. no_task a sys.tasks e at_a)
