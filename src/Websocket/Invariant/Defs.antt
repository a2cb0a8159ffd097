-- ===== src/Websocket/Invariant/Defs.antt =====
-- The invariant, and how the effects of handlers keep it.
use wsgraphql.Prelude.{
  ℕ, ◌≤◌, ℕ_discrete, ◌≡◌, ◌≢◌, sym, ◌∙◌, true, false, some, List, [], length, inl, inr, ◌⊎◌,
  Bool-cases,
}
use wsgraphql.Prelude.Dict
use wsgraphql.Websocket.State.{Send, Request, Reader, exited, Task, fired, System}
use wsgraphql.Websocket.Keeps.{Keeps}
use wsgraphql.Websocket.Invariant.Registry.{Core, no_task, Core-Keeps, Core-update, task_at}

-- `shut`: once `outgoing` is closed, neither the reader nor any operation is left to send on it.
-- `quiet`, `panic`: only `backgroundTimeout` can, after its timer.
pub record Inv {F : Type 0} (sys : System F) : Type 0 where
  pub core : Core sys.request sys.tasks
  pub room : length sys.request.outgoing ≤ 1
  pub shut :
      sys.request.closed ≡ true → (sys.reader ≡ exited) × (sys.reader_sends ≡ []) × (sys.tasks ≡ [])
  pub quiet : (sys.timer ≡ fired) ⊎ (sys.timer_sends ≡ [])
  pub panic : sys.request.panicked ≡ true → sys.timer ≡ fired

module _ {F : Type 0} {sys : System F} (inv : Inv sys) where
  -- A handler's effect on an open request, by the reader.
  pub Inv-reader :
      (req : Request F) (r : Reader F) (sends : List (Send F))
      → sys.request.closed ≡ false
      → Keeps sys.request req
      → Inv (record sys { request = req; reader = r; reader_sends = sends })
  Inv-reader req r sends open_yet k = record {
    core = Core-Keeps inv.core k;
    room = rw k.same_outgoing inv.room;
    shut = λ e. cc (k.same_closed);
    quiet = inv.quiet;
    panic = λ e. inv.panic (rw k.same_panicked at e);
  }

  -- The same by another goroutine, with a task changed.
  pub Inv-task :
      (req : Request F) (a : ℕ) (t t' : Task F)
      → Keeps sys.request req
      → task_at a sys.tasks ≡ some t
      → t'.id ≡ t.id
      → Inv (record sys { request = req; tasks = Dict.insert ℕ_discrete a t' sys.tasks })
  Inv-task req a t t' k at_a same = record {
    core = Core-update (Core-Keeps inv.core k) a t at_a t' same;
    room = rw k.same_outgoing inv.room;
    shut = λ e. absurd (no_task a sys.tasks (inv.shut (rw k.same_closed at e)).2 at_a);
    quiet = inv.quiet;
    panic = λ e. inv.panic (rw k.same_panicked at e);
  }

  pub is_open : (r : Reader F) → sys.reader ≡ r → r ≢ exited → sys.request.closed ≡ false
  is_open r e other = elim (Bool-cases sys.request.closed) [
    | inl c ↦ absurd (other (sym e ∙ (inv.shut c).0))
    | inr o ↦ o
  ]
