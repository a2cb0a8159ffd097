-- ===== src/Websocket/Acks/Once.antt =====
-- That a request acknowledges `connection_init` at most once.
use wsgraphql.Prelude.{
  ℕ, ◌+◌, ◌≤◌, ◌≡◌, refl, String, Bool, true, false, Option, none, some, List, [], ◌∷◌, arith,
  OnSome, OnSome-some,
}
use wsgraphql.Prelude.Dict
use wsgraphql.Context.{Contexts}
use wsgraphql.Apollows.{Protocol}
use wsgraphql.Websocket.State.{OutgoingMessage, message, failure, Send, Request, Task, json, System}
use wsgraphql.Websocket.Channel.{frame_of, frames, tick_message}
use wsgraphql.Websocket.Operations.{Environment}
use wsgraphql.Websocket.System.{
  Goroutine, reader, timer, task, Event, send, give_up, of_task, leave, write, tick, timer_fires,
  timer_stops, server_done, begin, task_sent, task_attempt, reader_sent, timer_sent, send_step,
  write_step, stepped, step, Reach, here, next,
}
use wsgraphql.Websocket.Invariant.{task_at}
use wsgraphql.Websocket.Acks.{total, total-append, item_acks, frame_acks, send_acks}
use wsgraphql.Websocket.Acks.Sources.{ticker_type-acks, Moved, attempt-Moved}
use wsgraphql.Websocket.Acks.Invariant.{inits_read, sent_acks, Acked, insert-Quiet}
use wsgraphql.Websocket.Acks.Reading.{
  reader_step-Acked, timer_step-Acked, of_task_step-Acked, leave_step-Acked,
}

module _ {F : Type 0} (env : Environment F) where
  send_step-Acked :
      (way : Bool) (sys : System F) (who : Goroutine)
      → Acked sys
      → OnSome Acked (send_step way sys who)
  unfolding send_step
  send_step-Acked way sys reader inv = by_reader _ (attempt-Moved way sys.request sys.reader_sends)
    where
      by_reader :
          (r : Option (Request F × List (Send F)))
          → OnSome (Moved sys.request sys.reader_sends) r
          → OnSome Acked (reader_sent sys r)
      by_reader none m = unfold reader_sent in tt
      by_reader (some (req, rest)) m =
          unfold reader_sent in
          record {
            quiet = inv.quiet;
            timer_quiet = inv.timer_quiet;
            once = rw m.same_init (omega (arith, m.conserved, inv.once));
          }
  send_step-Acked way sys timer inv = by_timer _ (attempt-Moved way sys.request sys.timer_sends)
    where
      by_timer :
          (r : Option (Request F × List (Send F)))
          → OnSome (Moved sys.request sys.timer_sends) r
          → OnSome Acked (timer_sent sys r)
      by_timer none m = unfold timer_sent in tt
      by_timer (some (req, rest)) m =
          unfold timer_sent in
          record {
            quiet = inv.quiet;
            timer_quiet = omega (arith, m.fewer, inv.timer_quiet);
            once = rw m.same_init (omega (arith, m.conserved, inv.timer_quiet, inv.once));
          }
  send_step-Acked way sys (task a) inv = by_task (task_at a sys.tasks) refl
    where
      sent_by :
          (t : Task F) (r : Option (Request F × List (Send F)))
          → send_acks t.sends ≡ 0
          → OnSome (Moved sys.request t.sends) r
          → OnSome Acked (task_sent sys a t r)
      sent_by t none q m = unfold task_sent in tt
      sent_by t (some (req, rest)) q m =
          unfold task_sent in
          record {
            quiet =
                insert-Quiet sys.tasks a (record t { sends = rest }) inv.quiet
                  (omega (arith, m.fewer, q));
            timer_quiet = inv.timer_quiet;
            once = rw m.same_init (omega (arith, m.conserved, q, inv.once));
          }

      by_task :
          (o : Option (Task F)) → task_at a sys.tasks ≡ o → OnSome Acked (task_attempt way sys a o)
      by_task none e = unfold task_attempt in tt
      by_task (some t) e =
          unfold task_attempt in
          sent_by t _ (inv.quiet a t e) (attempt-Moved way sys.request t.sends)

  frames-acks :
      (m : OutgoingMessage F) (err : Option String)
      → total frame_acks (frames (frame_of m) err) ≡ item_acks m
  unfolding frames frame_of
  frames-acks (message m) none = omega arith
  frames-acks (message m) (some err) = omega arith
  frames-acks (failure e) none = refl
  frames-acks (failure e) (some err) = refl

  tick-acks :
      (p : Protocol) (err : Option String)
      → total frame_acks (frames {F = F} (json (tick_message p)) err) ≡ 0
  unfolding frames tick_message
  tick-acks p none = omega (arith, ticker_type-acks p)
  tick-acks p (some err) = omega (arith, ticker_type-acks p)

  write_step-Acked :
      (sys : System F) (o : List (OutgoingMessage F)) (err : Option String)
      → Acked sys
      → sys.request.outgoing ≡ o
      → OnSome Acked (write_step sys o err)
  unfolding write_step
  write_step-Acked sys [] err inv e = tt
  write_step-Acked sys (m ∷ rest) err inv e = record {
    quiet = inv.quiet;
    timer_quiet = inv.timer_quiet;
    once = omega (
      arith,
      total-append frame_acks sys.wire (frames (frame_of m) err),
      frames-acks m err,
      rw e at inv.once,
    );
  }

  step-Acked : (sys : System F) (e : Event F) → Acked sys → OnSome Acked (step env sys e)
  unfolding step
  step-Acked sys (send who) inv = send_step-Acked true sys who inv
  step-Acked sys (give_up who) inv = send_step-Acked false sys who inv
  step-Acked sys (of_task a ev) inv = of_task_step-Acked env sys a ev _ inv refl
  step-Acked sys (leave a) inv = leave_step-Acked env sys a _ inv
  step-Acked sys (write err) inv = write_step-Acked sys sys.request.outgoing err inv refl
  step-Acked sys (tick err) inv = record {
    quiet = inv.quiet;
    timer_quiet = inv.timer_quiet;
    once = omega (
      arith,
      total-append frame_acks sys.wire (frames (json (tick_message sys.request.protocol)) err),
      tick-acks sys.request.protocol err,
      inv.once,
    );
  }
  step-Acked sys timer_fires inv = timer_step-Acked env sys sys.timer timer_fires inv
  step-Acked sys timer_stops inv = timer_step-Acked env sys sys.timer timer_stops inv
  step-Acked sys server_done inv = record {
    quiet = inv.quiet;
    timer_quiet = inv.timer_quiet;
    once = inv.once;
  }
  step-Acked sys e inv =
      reader_step-Acked env sys sys.reader sys.reader_sends sys.timer e inv refl refl

  begin-Acked :
      (s : Contexts) (ctx : ℕ) (p : Protocol) (timeout : Bool)
      → Acked {F = F} (begin s ctx p timeout)
  unfolding begin Dict.lookup
  begin-Acked s ctx p timeout = record {
    quiet = λ a t e. cc;
    timer_quiet = refl;
    once = omega arith;
  }

  Reach-Acked : {s t : System F} → Acked s → Reach env s t → Acked t
  Reach-Acked inv here = inv
  Reach-Acked inv (next {s} e r stepped) =
      OnSome-some Acked stepped (step-Acked s e (Reach-Acked inv r))

  -- In every state that a request can come to, no connection_ack message was written, waits in the
  -- outgoing channel or is to be sent by the reader before a connection_init message was read, and
  -- at most one ever after.
  pub acknowledged_once :
      (s : Contexts) (ctx : ℕ) (p : Protocol) (timeout : Bool) (sys : System F)
      → Reach env (begin s ctx p timeout) sys
      → sent_acks sys + send_acks sys.reader_sends ≤ inits_read sys.request.init
  acknowledged_once s ctx p timeout sys r =
      let inv = Reach-Acked (begin-Acked s ctx p timeout) r in omega (arith, inv.once)
