-- ===== src/Websocket/Invariant/Registry.antt =====
-- The operations of a request against its tasks.
use wsgraphql.Prelude.{
  ℕ, ◌-◌, ◌<◌, String, String_discrete, ℕ_discrete, ◌≡◌, sym, ap, ◌∙◌, true, Option, none, some,
  List, [], arith, length, ite, subst, Option-cases, inl, inr,
}
use wsgraphql.Prelude.Dict
use wsgraphql.Apollows.{Message}
use wsgraphql.Websocket.State.{Request, Task}
use wsgraphql.Websocket.Keeps.{size, Keeps}
use wsgraphql.Websocket.Reader.{Handled, lacks_init}
use wsgraphql.Websocket.Handling.{Spawns}

abbrev pub task_at : {F : Type 0} → ℕ → List (ℕ × Task F) → Option (Task F)
task_at a tasks = Dict.lookup ℕ_discrete a tasks

abbrev pub operation_at : {F : Type 0} → String → Request F → Option ℕ
operation_at id req = Dict.lookup String_discrete id req.operations

pub record Core {F : Type 0} (req : Request F) (tasks : List (ℕ × Task F)) : Type 0 where
  pub counted : req.wg ≡ length tasks
  pub distinct : Dict.Distinct ℕ_discrete tasks
  pub below : (a : ℕ) (t : Task F) → task_at a tasks ≡ some t → a < size req.contexts
  pub registered : (a : ℕ) (t : Task F) → task_at a tasks ≡ some t → operation_at t.id req ≡ some a
  pub running :
      (id : String) (a : ℕ)
      → operation_at id req ≡ some a
      → (t : Task F) × (task_at a tasks ≡ some t) × (t.id ≡ id)
  pub gated : lacks_init req ≡ true → tasks ≡ []

pub no_task :
    {F : Type 0} (a : ℕ) {t : Task F} (tasks : List (ℕ × Task F))
    → tasks ≡ []
    → task_at a tasks ≡ some t
    → ⊥
unfolding Dict.lookup
no_task a {t} tasks e here = cc (subst (λ ts. task_at a ts ≡ some t) e here)

module _ {F : Type 0} {req : Request F} {tasks : List (ℕ × Task F)} (inv : Core req tasks) where
  pub Core-Keeps : {req' : Request F} → Keeps req req' → Core req' tasks
  Core-Keeps k = record {
    counted = k.same_wg ∙ inv.counted;
    distinct = inv.distinct;
    below = λ a t e. omega (arith, inv.below a t e, k.grows);
    registered = λ a t e. rw k.same_operations (inv.registered a t e);
    running = λ id a e. inv.running id a (rw k.same_operations at e);
    gated = λ e. inv.gated (rw (k.same_init, k.same_protocol) at e);
  }

  pub Core-init : Core (record req { init = true }) tasks
  Core-init = record {
    counted = inv.counted;
    distinct = inv.distinct;
    below = inv.below;
    registered = inv.registered;
    running = inv.running;
    gated = λ e. cc;
  }

  module _ (a : ℕ) (t : Task F) (here : task_at a tasks ≡ some t) where
    pub Core-update : (t' : Task F) → t'.id ≡ t.id → Core req (Dict.insert ℕ_discrete a t' tasks)
    Core-update t' same = record {
      counted = inv.counted ∙ sym (Dict.length-insert_old ℕ_discrete a t' t tasks here);
      distinct = Dict.insert-Distinct ℕ_discrete a t' tasks inv.distinct;
      below = λ b u e.
          ground (arith, Dict.lookup-insert ℕ_discrete a b t' tasks, inv.below b u, inv.below a t);
      registered = λ b u e. ground (
        arith,
        Dict.lookup-insert ℕ_discrete a b t' tasks,
        inv.registered b u,
        inv.registered a t,
      );
      running = λ id b e. running_after id b (inv.running id b e);
      gated = λ e. absurd (no_task a tasks (inv.gated e) here);
    }
      where
        running_after :
            (id : String) (b : ℕ)
            → (u : Task F) × (task_at b tasks ≡ some u) × (u.id ≡ id)
            → (u : Task F) × (task_at b (Dict.insert ℕ_discrete a t' tasks) ≡ some u) × (u.id ≡ id)
        running_after id b (u, at_b, named) = elim (ℕ_discrete a b) [
          | yes e ↦
              let same_task : t ≡ u = ground arith in
              (
                t',
                ground (arith, Dict.lookup-insert ℕ_discrete a b t' tasks),
                same ∙ ap (λ (x : Task F). x.id) same_task ∙ named,
              )
          | no e ↦ (u, ground (arith, Dict.lookup-insert ℕ_discrete a b t' tasks), named)
        ]

    -- The operation is taken out of the map, and its task is gone.
    pub Core-leave :
        (req' : Request F)
        → req'.operations ≡ Dict.delete String_discrete t.id req.operations
        → req'.wg ≡ req.wg - 1
        → req'.init ≡ req.init
        → req'.protocol ≡ req.protocol
        → size req'.contexts ≡ size req.contexts
        → Core req' (Dict.delete ℕ_discrete a tasks)
    Core-leave req' ops wg same_init same_protocol same_size = record {
      counted =
          omega (arith, wg, inv.counted, Dict.length-delete ℕ_discrete a t tasks inv.distinct here);
      distinct = Dict.delete-Distinct ℕ_discrete a tasks inv.distinct;
      below = λ b u e. ground (arith, Dict.lookup-delete ℕ_discrete a b tasks, inv.below b u);
      registered =
          λ b u e. rw ops (registered_after b u (Dict.lookup-delete ℕ_discrete a b tasks) e);
      running = λ id b e. running_after id b (rw ops at e);
      gated = λ e. absurd (no_task a tasks (inv.gated (rw (same_init, same_protocol) at e)) here);
    }
      where
        registered_after :
            (b : ℕ) (u : Task F)
            → (task_at b (Dict.delete ℕ_discrete a tasks)
                ≡ ite (ℕ_discrete a b) none (task_at b tasks))
            → task_at b (Dict.delete ℕ_discrete a tasks) ≡ some u
            → Dict.lookup String_discrete u.id (Dict.delete String_discrete t.id req.operations)
              ≡ some b
        registered_after b u l e = ground (
          arith,
          Dict.lookup-delete String_discrete t.id u.id req.operations,
          inv.registered b u,
          inv.registered a t here,
        )

        running_after :
            (id : String) (b : ℕ)
            → Dict.lookup String_discrete id (Dict.delete String_discrete t.id req.operations)
              ≡ some b
            → (u : Task F) × (task_at b (Dict.delete ℕ_discrete a tasks) ≡ some u) × (u.id ≡ id)
        running_after id b e = elim (String_discrete t.id id) [
          | yes same ↦
              absurd (ground (arith, Dict.lookup-delete String_discrete t.id id req.operations))
          | no other ↦
              let (u, at_b, named) =
                inv.running id b
                  (ground (arith, Dict.lookup-delete String_discrete t.id id req.operations)) in
              (u, ground (arith, Dict.lookup-delete ℕ_discrete a b tasks), named)
        ]

  pub Core-spawn :
      (msg : Message F) (h : Handled F) (t : Task F)
      → Spawns req msg h
      → t.id ≡ msg.id
      → Core h.request (Dict.insert ℕ_discrete (size req.contexts) t tasks)
  Core-spawn msg h t s named = record {
    counted =
        omega (arith, s.counted, inv.counted, Dict.length-insert_new ℕ_discrete a t tasks fresh);
    distinct = Dict.insert-Distinct ℕ_discrete a t tasks inv.distinct;
    below =
        λ b u e. ground (arith, s.grows, Dict.lookup-insert ℕ_discrete a b t tasks, inv.below b u);
    registered = λ b u e. rw s.noted (registered_after b u e);
    running = λ id b e. running_after id b (rw s.noted at e);
    gated = λ e. cc (s.allowed, s.same_init, s.same_protocol);
  }
    where
      a : ℕ
      a = size req.contexts

      fresh : task_at a tasks ≡ none
      fresh = elim (Option-cases (task_at a tasks)) [
        | inl e ↦ e
        | inr (u, e) ↦ absurd (omega (arith, inv.below a u e))
      ]

      registered_after :
          (b : ℕ) (u : Task F)
          → task_at b (Dict.insert ℕ_discrete a t tasks) ≡ some u
          → Dict.lookup String_discrete u.id (Dict.insert String_discrete msg.id a req.operations)
            ≡ some b
      registered_after b u e = elim (ℕ_discrete a b) [
        | yes same ↦
            let new : t ≡ u = ground (arith, Dict.lookup-insert ℕ_discrete a b t tasks) in
            let ids : msg.id ≡ u.id = sym named ∙ ap (λ (x : Task F). x.id) new in
            ground (arith, Dict.lookup-insert String_discrete msg.id u.id a req.operations)
        | no other ↦ ground (
          arith,
          Dict.lookup-insert ℕ_discrete a b t tasks,
          Dict.lookup-insert String_discrete msg.id u.id a req.operations,
          inv.registered b u,
        )
      ]

      running_after :
          (id : String) (b : ℕ)
          → Dict.lookup String_discrete id (Dict.insert String_discrete msg.id a req.operations)
            ≡ some b
          → (u : Task F) × (task_at b (Dict.insert ℕ_discrete a t tasks) ≡ some u) × (u.id ≡ id)
      running_after id b e = elim (String_discrete msg.id id) [
        | yes same ↦ (
          t,
          ground (
            arith,
            Dict.lookup-insert String_discrete msg.id id a req.operations,
            Dict.lookup-insert ℕ_discrete a b t tasks,
          ),
          named ∙ same,
        )
        | no other ↦
            let (u, at_b, named_u) =
              inv.running id b
                (ground (arith, Dict.lookup-insert String_discrete msg.id id a req.operations)) in
            (u, ground (arith, Dict.lookup-insert ℕ_discrete a b t tasks, inv.below b u), named_u)
      ]
