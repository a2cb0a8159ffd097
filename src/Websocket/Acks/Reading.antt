-- ===== src/Websocket/Acks/Reading.antt =====
-- The reader, the timer and the operations keep the invariant on acknowledgements.
use wsgraphql.Prelude.{
  ℕ, ◌+◌, ◌≤◌, ◌≡◌, refl, true, Option, none, some, List, [], arith, OnSome, if_both, inl, inr,
  ◌==◌,
}
use wsgraphql.Mutable.{is_done}
use wsgraphql.Apollows.{
  Operation, connection_init, Error, apollows, event, Message, event_initialization_timeout,
}
use wsgraphql.Websocket.State.{
  Send, Request, Reader, reading, signalling, failing, waiting, Task, Phase, leaving, Timer, unused,
  armed, ended, System,
}
use wsgraphql.Websocket.Keeps.{handle_error-Keeps}
use wsgraphql.Websocket.Reader.{InitOutcome, Handled}
use wsgraphql.Websocket.Handling.{
  StepKeeps, dispatch-Effect, read_websocket_init-Keeps, task_step-Keeps,
}
use wsgraphql.Websocket.Operations.{Environment, TaskEvent}
use wsgraphql.Websocket.System.{
  Event, receive, read_failed, hand_over, tear_down, close_outgoing, timer_fires, timer_stops, fail,
  spawned, settle, initialise, connect, read, reader_step, timer_step, stepped, of_task_step,
  remove_task, leave_phase, leave_step,
}
use wsgraphql.Websocket.Invariant.{task_at}
use wsgraphql.Websocket.Acks.{total, item_acks, frame_acks, send_acks}
use wsgraphql.Websocket.Acks.Sources.{
  handle_error-acks, dispatch-acks, read_websocket_init-acks, StepMute, task_step-acks,
}
use wsgraphql.Websocket.Acks.Invariant.{
  inits_read, sent_acks, Quiet, Acked, insert-Quiet, delete-Quiet,
}

module _ {F : Type 0} (env : Environment F) where
  fail-Acked :
      (sys : System F) (err : Error F)
      → Quiet sys.tasks
      → send_acks sys.timer_sends ≡ 0
      → sent_acks sys ≤ inits_read sys.request.init
      → Acked (fail env sys err)
  unfolding fail
  fail-Acked sys err q tq h =
      let k = handle_error-Keeps env.gql sys.request sys.request.ctx err in
      record {
        quiet = q;
        timer_quiet = tq;
        once =
            rw (k.same_outgoing, k.same_init)
              (omega (arith, handle_error-acks env.gql sys.request sys.request.ctx err, h));
      }

  spawned-Quiet :
      (tasks : List (ℕ × Task F)) (o : Option (ℕ × Task F))
      → Quiet tasks
      → OnSome (λ (p : ℕ × Task F). send_acks p.1.sends ≡ 0) o
      → Quiet (spawned env tasks o)
  unfolding spawned
  spawned-Quiet tasks none q h = q
  spawned-Quiet tasks (some (a, t)) q h = insert-Quiet tasks a t q h

  settle-Acked :
      (sys : System F) (h : Handled F) (err : Option (Error F))
      → Quiet sys.tasks
      → send_acks sys.timer_sends ≡ 0
      → OnSome (λ (p : ℕ × Task F). send_acks p.1.sends ≡ 0) h.spawned
      → (total frame_acks sys.wire + total item_acks h.request.outgoing + send_acks h.sends
          ≤ inits_read h.request.init)
      → Acked (settle env sys h err)
  unfolding settle
  settle-Acked sys h none q tq sq b = record {
    quiet = spawned-Quiet sys.tasks h.spawned q sq;
    timer_quiet = tq;
    once = omega (arith, b);
  }
  settle-Acked sys h (some err) q tq sq b =
      fail-Acked (record sys { request = h.request }) err q tq (omega (arith, b))

  initialise-Acked :
      (sys : System F) (msg : Message F) (outcome : InitOutcome F)
      → Quiet sys.tasks
      → send_acks sys.timer_sends ≡ 0
      → (sent_acks sys + 1 ≤ inits_read sys.request.init)
      → Acked (initialise env sys msg outcome)
  unfolding initialise
  initialise-Acked sys msg outcome q tq h =
      let (none_begun, k) = read_websocket_init-Keeps env.unmarshal_init sys.request msg outcome in
      settle-Acked sys _ _ q tq (rw none_begun tt) (
        rw (k.same_outgoing, k.same_init)
          (omega (arith, read_websocket_init-acks env.unmarshal_init sys.request msg outcome, h)))

  connect-Acked :
      (sys : System F) (msg : Message F) (outcome : InitOutcome F) (tm : Timer)
      → Quiet sys.tasks
      → send_acks sys.timer_sends ≡ 0
      → send_acks sys.reader_sends ≡ 0
      → (sent_acks sys + 1 ≤ inits_read sys.request.init)
      → Acked (connect env sys msg outcome tm)
  unfolding connect
  connect-Acked sys msg outcome unused q tq rq h = initialise-Acked sys msg outcome q tq h
  connect-Acked sys msg outcome _ q tq rq h = record {
    quiet = q;
    timer_quiet = tq;
    once = omega (arith, h, rq);
  }

  read-Acked :
      (sys : System F) (msg : Message F) (outcome : InitOutcome F) (t : Operation)
      → Acked sys
      → send_acks sys.reader_sends ≡ 0
      → Acked (read env sys msg outcome t)
  unfolding read
  read-Acked sys msg outcome connection_init inv rq =
      if_both Acked sys.request.init
        (λ _. fail-Acked sys _ inv.quiet inv.timer_quiet (omega (arith, inv.once)))
        (λ e.
          connect-Acked (record sys { request = record sys.request { init = true } }) msg outcome
            sys.timer inv.quiet inv.timer_quiet rq (omega (arith, rw e at inv.once)))
  read-Acked sys msg outcome t inv rq =
      let (silent, task_silent) = dispatch-acks t sys.request msg in
      settle-Acked sys _ _ inv.quiet inv.timer_quiet task_silent
        (elim (dispatch-Effect t sys.request msg) [
          | inl (none_begun, k) ↦
              rw (k.same_outgoing, k.same_init) (omega (arith, silent, inv.once))
          | inr s ↦ rw (s.same_outgoing, s.same_init) (omega (arith, silent, inv.once))
        ])

  pub reader_step-Acked :
      (sys : System F) (r : Reader F) (sends : List (Send F)) (tm : Timer) (e : Event F)
      → Acked sys
      → sys.reader ≡ r
      → sys.reader_sends ≡ sends
      → OnSome Acked (reader_step env sys r sends tm e)
  unfolding reader_step
  reader_step-Acked sys reading [] tm (receive msg outcome) inv at_r empty =
      read-Acked sys msg outcome msg.type inv (rw empty refl)
  reader_step-Acked sys reading [] tm (read_failed err) inv at_r empty =
      fail-Acked sys err inv.quiet inv.timer_quiet (omega (arith, inv.once))
  reader_step-Acked sys (signalling msg) [] armed (hand_over outcome) inv at_r empty =
      initialise-Acked (record sys { timer = ended }) msg outcome inv.quiet inv.timer_quiet
        (omega (arith, rw (at_r, empty) at inv.once))
  reader_step-Acked sys failing [] tm tear_down inv at_r empty = record {
    quiet = inv.quiet;
    timer_quiet = inv.timer_quiet;
    once = omega (arith, inv.once);
  }
  reader_step-Acked sys waiting [] tm close_outgoing inv at_r empty =
      if_both (OnSome Acked) (sys.request.wg == 0)
        (λ _. record {
          quiet = inv.quiet;
          timer_quiet = inv.timer_quiet;
          once = omega (arith, inv.once);
        })
        (λ _. tt)
  reader_step-Acked sys r sends tm e inv at_r empty = tt

  pub timer_step-Acked :
      (sys : System F) (tm : Timer) (e : Event F)
      → Acked sys
      → OnSome Acked (timer_step env sys tm e)
  unfolding timer_step
  timer_step-Acked sys armed timer_fires inv =
      let err : Error F = apollows (event event_initialization_timeout) in
      let k = handle_error-Keeps env.gql sys.request sys.request.ctx err in
      record {
        quiet = inv.quiet;
        timer_quiet = handle_error-acks env.gql sys.request sys.request.ctx err;
        once = rw (k.same_outgoing, k.same_init) inv.once;
      }
  timer_step-Acked sys armed timer_stops inv =
      if_both (OnSome Acked) (is_done sys.request.contexts sys.request.ctx)
        (λ _. record { quiet = inv.quiet; timer_quiet = inv.timer_quiet; once = inv.once })
        (λ _. tt)
  timer_step-Acked sys tm e inv = tt

  pub of_task_step-Acked :
      (sys : System F) (a : ℕ) (ev : TaskEvent F) (o : Option (Task F))
      → Acked sys
      → task_at a sys.tasks ≡ o
      → OnSome Acked (of_task_step env sys a ev o)
  unfolding of_task_step
  of_task_step-Acked sys a ev none inv at_a = tt
  of_task_step-Acked sys a ev (some t) inv at_a =
      stepped_Acked _ (task_step-Keeps env sys.request a t t.sends ev)
        (task_step-acks env sys.request a t (inv.quiet a t at_a) t.sends ev)
    where
      stepped_Acked :
          (r : Option (Request F × Task F))
          → OnSome (StepKeeps sys.request t) r
          → OnSome (StepMute env sys.request a t (inv.quiet a t at_a)) r
          → OnSome Acked (stepped env sys a r)
      stepped_Acked none k m = unfold stepped in tt
      stepped_Acked (some (req, t')) (k, _) m =
          unfold stepped in
          record {
            quiet = insert-Quiet sys.tasks a t' inv.quiet m;
            timer_quiet = inv.timer_quiet;
            once = rw (k.same_outgoing, k.same_init) inv.once;
          }

  pub leave_step-Acked :
      (sys : System F) (a : ℕ) (o : Option (Task F))
      → Acked sys
      → OnSome Acked (leave_step env sys a o)
  unfolding leave_step
  leave_step-Acked sys a none inv = tt
  leave_step-Acked sys a (some t) inv = left t.phase t.sends
    where
      left : (p : Phase F) (sends : List (Send F)) → OnSome Acked (leave_phase env sys a t p sends)
      left leaving [] =
          unfold leave_phase remove_task in
          record {
            quiet = delete-Quiet sys.tasks a inv.quiet;
            timer_quiet = inv.timer_quiet;
            once = inv.once;
          }
      left p sends = unfold leave_phase in tt
