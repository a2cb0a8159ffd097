-- ===== src/Websocket/Invariant/Tasks.antt =====
-- The timer and the operations keep the invariant.
use wsgraphql.Prelude.{ℕ, ◌≡◌, refl, Option, none, some, List, [], arith, OnSome, inl, if_both}
use wsgraphql.Mutable.{is_done}
use wsgraphql.Apollows.{apollows, event, event_initialization_timeout}
use wsgraphql.Websocket.State.{Send, Request, Phase, leaving, Task, Timer, armed, System}
use wsgraphql.Websocket.Outgoing.{handle_error}
use wsgraphql.Websocket.Keeps.{size-cancel, Keeps, handle_error-Keeps}
use wsgraphql.Websocket.Operations.{Environment, TaskEvent}
use wsgraphql.Websocket.Handling.{StepKeeps, task_step-Keeps}
use wsgraphql.Websocket.System.{
  Event, timer_fires, timer_stops, timer_step, stepped, of_task_step, remove_task, leave_phase,
  leave_step,
}
use wsgraphql.Websocket.Invariant.Registry.{no_task, Core-Keeps, Core-leave, task_at}
use wsgraphql.Websocket.Invariant.Defs.{Inv, Inv-task}

module _ {F : Type 0} (env : Environment F) where
  fired_Keeps :
      (sys : System F)
      → Keeps sys.request
          (handle_error env.gql sys.request sys.request.ctx
            (apollows (event event_initialization_timeout))).0
  fired_Keeps sys = handle_error-Keeps env.gql sys.request sys.request.ctx _

  pub timer_step-Inv :
      (sys : System F) (tm : Timer) (e : Event F)
      → Inv sys
      → sys.timer ≡ tm
      → OnSome Inv (timer_step env sys tm e)
  unfolding timer_step
  timer_step-Inv sys armed timer_fires inv at_tm = record {
    core = Core-Keeps inv.core (fired_Keeps sys);
    room = rw (fired_Keeps sys).same_outgoing inv.room;
    shut = λ e. inv.shut (rw (fired_Keeps sys).same_closed at e);
    quiet = inl refl;
    panic = λ e. refl;
  }
  timer_step-Inv sys armed timer_stops inv at_tm =
      if_both (OnSome Inv) (is_done sys.request.contexts sys.request.ctx)
        (λ _. record {
          core = inv.core;
          room = inv.room;
          shut = inv.shut;
          quiet = ground (arith, inv.quiet);
          panic = λ e. cc (inv.panic e);
        })
        (λ _. tt)
  timer_step-Inv sys tm e inv at_tm = tt

  stepped-Inv :
      (sys : System F) (a : ℕ) (t : Task F) (r : Option (Request F × Task F))
      → Inv sys
      → task_at a sys.tasks ≡ some t
      → OnSome (StepKeeps sys.request t) r
      → OnSome Inv (stepped env sys a r)
  unfolding stepped
  stepped-Inv sys a t none inv at_a h = tt
  stepped-Inv sys a t (some (req, t')) inv at_a (k, same) = Inv-task inv req a t t' k at_a same

  pub of_task_step-Inv :
      (sys : System F) (a : ℕ) (ev : TaskEvent F) (o : Option (Task F))
      → Inv sys
      → task_at a sys.tasks ≡ o
      → OnSome Inv (of_task_step env sys a ev o)
  unfolding of_task_step
  of_task_step-Inv sys a ev none inv at_a = tt
  of_task_step-Inv sys a ev (some t) inv at_a =
      stepped-Inv sys a t _ inv at_a (task_step-Keeps env sys.request a t t.sends ev)

  leave_phase-Inv :
      (sys : System F) (a : ℕ) (t : Task F) (p : Phase F) (sends : List (Send F))
      → Inv sys
      → task_at a sys.tasks ≡ some t
      → OnSome Inv (leave_phase env sys a t p sends)
  unfolding leave_phase remove_task
  leave_phase-Inv sys a t leaving [] inv at_a = record {
    core = Core-leave inv.core a t at_a _ refl refl refl refl (size-cancel sys.request.contexts a);
    room = inv.room;
    shut = λ e. absurd (no_task a sys.tasks (inv.shut e).2 at_a);
    quiet = inv.quiet;
    panic = inv.panic;
  }
  leave_phase-Inv sys a t p sends inv at_a = tt

  pub leave_step-Inv :
      (sys : System F) (a : ℕ) (o : Option (Task F))
      → Inv sys
      → task_at a sys.tasks ≡ o
      → OnSome Inv (leave_step env sys a o)
  unfolding leave_step
  leave_step-Inv sys a none inv at_a = tt
  leave_step-Inv sys a (some t) inv at_a = leave_phase-Inv sys a t t.phase t.sends inv at_a
