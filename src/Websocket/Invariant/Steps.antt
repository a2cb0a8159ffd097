-- ===== src/Websocket/Invariant/Steps.antt =====
-- Every step keeps the invariant.
use wsgraphql.Prelude.{
  ℕ, String, ◌≡◌, refl, ap, Bool, true, false, Option, none, some, List, [], ◌∷◌, arith, length,
  OnSome, OnSome-some, inl, inr, Bool-cases,
}
use wsgraphql.Prelude.Dict
use wsgraphql.Context.{Contexts}
use wsgraphql.Apollows.{Protocol}
use wsgraphql.Websocket.State.{Send, Request, Task, fired, System, OutgoingMessage}
use wsgraphql.Websocket.Channel.{try_send, try_give_up, attempt}
use wsgraphql.Websocket.Keeps.{Keeps-contexts}
use wsgraphql.Websocket.Operations.{Environment}
use wsgraphql.Websocket.System.{
  Goroutine, reader, timer, task, Event, send, give_up, of_task, leave, write, tick, timer_fires,
  timer_stops, server_done, begin, reader_sent, timer_sent, task_sent, task_attempt, send_step,
  write_step, stepped, step, Reach, here, next,
}
use wsgraphql.Websocket.Invariant.Sending.{SentFrom, attempt-Sends, Core-channel}
use wsgraphql.Websocket.Invariant.Registry.{no_task, Core-Keeps, Core-update, task_at}
use wsgraphql.Websocket.Invariant.Defs.{Inv}
use wsgraphql.Websocket.Invariant.Reading.{reader_step-Inv}
use wsgraphql.Websocket.Invariant.Tasks.{timer_step-Inv, of_task_step-Inv, leave_step-Inv}

module _ {F : Type 0} (sys : System F) (inv : Inv sys) where
  reader_sent-Inv :
      (r : Option (Request F × List (Send F)))
      → sys.request.closed ≡ false
      → OnSome (SentFrom sys.request) r
      → OnSome Inv (reader_sent sys r)
  unfolding reader_sent
  reader_sent-Inv none o h = tt
  reader_sent-Inv (some (req, rest)) o h = record {
    core = h.keeps_core sys.tasks inv.core;
    room = h.room inv.room;
    shut = λ c. cc (h.same_closed);
    quiet = inv.quiet;
    panic = λ e. inv.panic (rw (h.calm o) at e);
  }

  -- A closed channel finds the reader with nothing to send.
  reader_attempt-Inv :
      (way : Bool) (sends : List (Send F))
      → sys.reader_sends ≡ sends
      → OnSome Inv (reader_sent sys (attempt way sys.request sends))
  unfolding attempt try_send try_give_up reader_sent
  reader_attempt-Inv true [] e = tt
  reader_attempt-Inv false [] e = tt
  reader_attempt-Inv way (s ∷ rest) e = elim (Bool-cases sys.request.closed) [
    | inl c ↦ absurd (cc ((inv.shut c).1))
    | inr o ↦ reader_sent-Inv _ o (attempt-Sends way sys.request (s ∷ rest))
  ]

  timer_sent-Inv :
      (r : Option (Request F × List (Send F)))
      → sys.timer ≡ fired
      → OnSome (SentFrom sys.request) r
      → OnSome Inv (timer_sent sys r)
  unfolding timer_sent
  timer_sent-Inv none f h = tt
  timer_sent-Inv (some (req, rest)) f h = record {
    core = h.keeps_core sys.tasks inv.core;
    room = h.room inv.room;
    shut = λ c. inv.shut (rw h.same_closed at c);
    quiet = inl f;
    panic = λ e. f;
  }

  timer_attempt-Inv :
      (way : Bool) (sends : List (Send F))
      → sys.timer_sends ≡ sends
      → OnSome Inv (timer_sent sys (attempt way sys.request sends))
  unfolding attempt try_send try_give_up timer_sent
  timer_attempt-Inv true [] e = tt
  timer_attempt-Inv false [] e = tt
  timer_attempt-Inv way (s ∷ rest) e = elim inv.quiet [
    | inl f ↦ timer_sent-Inv _ f (attempt-Sends way sys.request (s ∷ rest))
    | inr nothing ↦ absurd (cc nothing)
  ]

  open_with_task : (a : ℕ) (t : Task F) → task_at a sys.tasks ≡ some t → sys.request.closed ≡ false
  open_with_task a t at_a = elim (Bool-cases sys.request.closed) [
    | inl c ↦ absurd (no_task a sys.tasks (inv.shut c).2 at_a)
    | inr o ↦ o
  ]

  task_sent-Inv :
      (a : ℕ) (t : Task F) (r : Option (Request F × List (Send F)))
      → task_at a sys.tasks ≡ some t
      → OnSome (SentFrom sys.request) r
      → OnSome Inv (task_sent sys a t r)
  unfolding task_sent
  task_sent-Inv a t none at_a h = tt
  task_sent-Inv a t (some (req, rest)) at_a h = record {
    core = Core-update (h.keeps_core sys.tasks inv.core) a t at_a _ refl;
    room = h.room inv.room;
    shut = λ c. absurd (no_task a sys.tasks (inv.shut (rw h.same_closed at c)).2 at_a);
    quiet = inv.quiet;
    panic = λ e. inv.panic (rw (h.calm (open_with_task a t at_a)) at e);
  }

  task_attempt-Inv :
      (way : Bool) (a : ℕ) (o : Option (Task F))
      → task_at a sys.tasks ≡ o
      → OnSome Inv (task_attempt way sys a o)
  unfolding task_attempt
  task_attempt-Inv way a none at_a = tt
  task_attempt-Inv way a (some t) at_a =
      task_sent-Inv a t _ at_a (attempt-Sends way sys.request t.sends)

  send_step-Inv : (way : Bool) (who : Goroutine) → OnSome Inv (send_step way sys who)
  unfolding send_step
  send_step-Inv way reader = reader_attempt-Inv way sys.reader_sends refl
  send_step-Inv way timer = timer_attempt-Inv way sys.timer_sends refl
  send_step-Inv way (task a) = task_attempt-Inv way a _ refl

  write_step-Inv :
      (o : List (OutgoingMessage F)) (err : Option String)
      → sys.request.outgoing ≡ o
      → OnSome Inv (write_step sys o err)
  unfolding write_step
  write_step-Inv [] err e = tt
  write_step-Inv (m ∷ rest) err e = record {
    core = Core-channel sys.request rest sys.request.panicked sys.tasks inv.core;
    room = omega (arith, ap length e, inv.room);
    shut = inv.shut;
    quiet = inv.quiet;
    panic = inv.panic;
  }

module _ {F : Type 0} (env : Environment F) where
  step-Inv-some : (sys : System F) (e : Event F) → Inv sys → OnSome Inv (step env sys e)
  unfolding step
  step-Inv-some sys (send who) inv = send_step-Inv sys inv true who
  step-Inv-some sys (give_up who) inv = send_step-Inv sys inv false who
  step-Inv-some sys (of_task a ev) inv = of_task_step-Inv env sys a ev _ inv refl
  step-Inv-some sys (leave a) inv = leave_step-Inv env sys a _ inv refl
  step-Inv-some sys (write err) inv = write_step-Inv sys inv sys.request.outgoing err refl
  step-Inv-some sys (tick err) inv = record {
    core = inv.core;
    room = inv.room;
    shut = inv.shut;
    quiet = inv.quiet;
    panic = inv.panic;
  }
  step-Inv-some sys timer_fires inv = timer_step-Inv env sys sys.timer timer_fires inv refl
  step-Inv-some sys timer_stops inv = timer_step-Inv env sys sys.timer timer_stops inv refl
  step-Inv-some sys server_done inv = record {
    core = Core-Keeps inv.core (
        Keeps-contexts sys.request (record sys.request.contexts { base_done = true })
          (omega arith));
    room = inv.room;
    shut = inv.shut;
    quiet = inv.quiet;
    panic = inv.panic;
  }
  step-Inv-some sys e inv =
      reader_step-Inv env sys sys.reader sys.reader_sends sys.timer _ inv refl refl refl

  pub step-Inv : {s t : System F} (e : Event F) → step env s e ≡ some t → Inv s → Inv t
  step-Inv {s} e stepped inv = OnSome-some Inv stepped (step-Inv-some s e inv)

  pub begin-Inv :
      (s : Contexts) (ctx : ℕ) (p : Protocol) (timeout : Bool) → Inv {F = F} (begin s ctx p timeout)
  unfolding begin Dict.lookup
  begin-Inv s ctx p timeout = record {
    core = record {
      counted = refl;
      distinct = tt;
      below = λ a t e. cc;
      registered = λ a t e. cc;
      running = λ id a e. cc;
      gated = λ e. refl;
    };
    room = omega arith;
    shut = λ e. cc;
    quiet = inr refl;
    panic = λ e. cc;
  }

  pub Reach-Inv : {s t : System F} → Inv s → Reach env s t → Inv t
  Reach-Inv inv here = inv
  Reach-Inv inv (next e r stepped) = step-Inv e stepped (Reach-Inv inv r)
