-- ===== src/Websocket/Stuck.antt =====
-- What goes wrong if the connect timeout fires at the wrong moment.
use wsgraphql.Prelude.{
  ℕ, ◌≡◌, ◌≢◌, refl, String, Bool, true, false, Option, none, some, List, [], ◌∷◌, OnSome,
  OnSome-some, inl, inr, Bool-cases,
}
use wsgraphql.Context.{Contexts}
use wsgraphql.Apollows.{Protocol, Message}
use wsgraphql.Websocket.State.{
  Send, Request, System, Task, Reader, signalling, Timer, armed, Phase, leaving, OutgoingMessage,
}
use wsgraphql.Websocket.Channel.{attempt}
use wsgraphql.Websocket.Operations.{Environment, TaskEvent}
use wsgraphql.Websocket.System.{
  Goroutine, reader, timer, task, Event, hand_over, send, give_up, of_task, leave, write, tick,
  timer_fires, timer_stops, server_done, begin, reader_sent, timer_sent, task_sent, task_attempt,
  send_step, write_step, reader_step, timer_step, stepped, of_task_step, remove_task, leave_phase,
  leave_step, step, Reach, here, next,
}
use wsgraphql.Websocket.Invariant.{begin-Inv, Reach-Inv}

-- The reader waits to hand a connection_init message over to `backgroundTimeout`, which has left
-- its `select`.
abbrev pub Abandoned : {F : Type 0} → Message F → System F → Type 0
Abandoned msg sys = (sys.reader ≡ signalling msg) × (sys.timer ≢ armed)

module _ {F : Type 0} (env : Environment F) (msg : Message F) where
  module _ (sys : System F) (w : Abandoned msg sys) where
    reader_sent-Abandoned :
        (r : Option (Request F × List (Send F))) → OnSome (Abandoned msg) (reader_sent sys r)
    unfolding reader_sent
    reader_sent-Abandoned none = tt
    reader_sent-Abandoned (some (req, rest)) = w

    timer_sent-Abandoned :
        (r : Option (Request F × List (Send F))) → OnSome (Abandoned msg) (timer_sent sys r)
    unfolding timer_sent
    timer_sent-Abandoned none = tt
    timer_sent-Abandoned (some (req, rest)) = w

    task_attempt-Abandoned :
        (way : Bool) (a : ℕ) (o : Option (Task F))
        → OnSome (Abandoned msg) (task_attempt way sys a o)
    unfolding task_attempt
    task_attempt-Abandoned way a none = tt
    task_attempt-Abandoned way a (some t) = sent (attempt way sys.request t.sends)
      where
        sent :
            (r : Option (Request F × List (Send F))) → OnSome (Abandoned msg) (task_sent sys a t r)
        sent none = unfold task_sent in tt
        sent (some (req, rest)) = unfold task_sent in w

    send_step-Abandoned :
        (way : Bool) (who : Goroutine) → OnSome (Abandoned msg) (send_step way sys who)
    unfolding send_step
    send_step-Abandoned way reader = reader_sent-Abandoned _
    send_step-Abandoned way timer = timer_sent-Abandoned _
    send_step-Abandoned way (task a) = task_attempt-Abandoned way a _

    stepped-Abandoned :
        (a : ℕ) (r : Option (Request F × Task F)) → OnSome (Abandoned msg) (stepped env sys a r)
    unfolding stepped
    stepped-Abandoned a none = tt
    stepped-Abandoned a (some (req, t)) = w

    of_task-Abandoned :
        (a : ℕ) (ev : TaskEvent F) (o : Option (Task F))
        → OnSome (Abandoned msg) (of_task_step env sys a ev o)
    unfolding of_task_step
    of_task-Abandoned a ev none = tt
    of_task-Abandoned a ev (some t) = stepped-Abandoned a _

    leave_phase-Abandoned :
        (a : ℕ) (t : Task F) (p : Phase F) (sends : List (Send F))
        → OnSome (Abandoned msg) (leave_phase env sys a t p sends)
    unfolding leave_phase remove_task
    leave_phase-Abandoned a t leaving [] = w
    leave_phase-Abandoned a t _ _ = tt

    leave-Abandoned :
        (a : ℕ) (o : Option (Task F)) → OnSome (Abandoned msg) (leave_step env sys a o)
    unfolding leave_step
    leave-Abandoned a none = tt
    leave-Abandoned a (some t) = leave_phase-Abandoned a t t.phase t.sends

    write-Abandoned :
        (o : List (OutgoingMessage F)) (err : Option String)
        → OnSome (Abandoned msg) (write_step sys o err)
    unfolding write_step
    write-Abandoned [] err = tt
    write-Abandoned (m ∷ rest) err = w

    timer-Abandoned :
        (tm : Timer) (e : Event F)
        → sys.timer ≡ tm
        → OnSome (Abandoned msg) (timer_step env sys tm e)
    unfolding timer_step
    timer-Abandoned armed e at_tm = absurd (w.1 at_tm)
    timer-Abandoned _ e at_tm = tt

    reader-Abandoned :
        (r : Reader F) (sends : List (Send F)) (tm : Timer) (e : Event F)
        → sys.reader ≡ r
        → sys.timer ≡ tm
        → OnSome (Abandoned msg) (reader_step env sys r sends tm e)
    unfolding reader_step
    reader-Abandoned (signalling m) [] armed (hand_over o) at_r at_tm = absurd (w.1 at_tm)
    reader-Abandoned (signalling m) _ _ _ at_r at_tm = tt
    reader-Abandoned r sends tm e at_r at_tm = absurd (cc (w.0))

    step-Abandoned : (e : Event F) → OnSome (Abandoned msg) (step env sys e)
    unfolding step
    step-Abandoned (send who) = send_step-Abandoned true who
    step-Abandoned (give_up who) = send_step-Abandoned false who
    step-Abandoned (of_task a ev) = of_task-Abandoned a ev _
    step-Abandoned (leave a) = leave-Abandoned a _
    step-Abandoned (write err) = write-Abandoned sys.request.outgoing err
    step-Abandoned (tick err) = w
    step-Abandoned timer_fires = timer-Abandoned sys.timer timer_fires refl
    step-Abandoned timer_stops = timer-Abandoned sys.timer timer_stops refl
    step-Abandoned server_done = w
    step-Abandoned e = reader-Abandoned sys.reader sys.reader_sends sys.timer _ refl refl

  Reach-Abandoned : {s t : System F} → Abandoned msg s → Reach env s t → Abandoned msg t
  Reach-Abandoned w here = w
  Reach-Abandoned w (next {s = u} e r stepped) =
      OnSome-some (Abandoned msg) stepped (step-Abandoned u (Reach-Abandoned w r) e)

  -- If the connect timeout has ended its wait while the reader is to tell it of a connection_init
  -- message, then in every state that follows the reader still waits, and the outgoing channel is
  -- never closed, so that the request never ends.
  pub reader_waits_forever :
      (c : Contexts) (ctx : ℕ) (p : Protocol) (timeout : Bool) (s t : System F)
      → Reach env (begin c ctx p timeout) s
      → s.reader ≡ signalling msg
      → s.timer ≢ armed
      → Reach env s t
      → (t.reader ≡ signalling msg) × (t.request.closed ≡ false)
  reader_waits_forever c ctx p timeout s t before at_r at_tm r = (waits, open_still)
    where
      waits : t.reader ≡ signalling msg
      waits = (Reach-Abandoned (at_r, at_tm) r).0

      open_still : t.request.closed ≡ false
      open_still = elim (Bool-cases t.request.closed) [
        | inl e ↦ absurd (
            cc (
              ((Reach-Inv env (Reach-Inv env (begin-Inv env c ctx p timeout) before) r).shut e).0,
              waits,
            ))
        | inr o ↦ o
      ]
