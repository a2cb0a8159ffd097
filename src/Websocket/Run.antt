-- ===== src/Websocket/Run.antt =====
-- Running a schedule of events.
use wsgraphql.Prelude.{Option, none, some, List, [], ◌∷◌, OnSome, ◌≡◌, refl}
use wsgraphql.Websocket.State.{System}
use wsgraphql.Websocket.Operations.{Environment}
use wsgraphql.Websocket.System.{Event, step, Reach, here, next}

module _ {F : Type 0} (env : Environment F) where
  unfoldable pub steps : Option (System F) → List (Event F) → Option (System F)
  steps none es = none
  steps (some sys) [] = some sys
  steps (some sys) (e ∷ es) = steps (step env sys e) es

  -- The state after a schedule, or the first state if an event of it cannot happen.
  unfoldable pub final : System F → List (Event F) → System F
  final sys es = elim (steps (some sys) es) [ none ↦ sys | some t ↦ t ]

  module _ (start : System F) where
    step-Reach :
        (sys : System F) (e : Event F)
        → Reach env start sys
        → OnSome (Reach env start) (step env sys e)
    step-Reach sys e r = stepped (step env sys e) refl
      where
        stepped : (o : Option (System F)) → step env sys e ≡ o → OnSome (Reach env start) o
        stepped none same = tt
        stepped (some t) same = next e r same

    steps-Reach :
        (o : Option (System F)) (es : List (Event F))
        → OnSome (Reach env start) o
        → OnSome (Reach env start) (steps o es)
    unfolding steps
    steps-Reach none es h = tt
    steps-Reach (some sys) [] h = h
    steps-Reach (some sys) (e ∷ es) h = steps-Reach (step env sys e) es (step-Reach sys e h)

  final-of :
      (start : System F) (o : Option (System F))
      → OnSome (Reach env start) o
      → Reach env start (elim o [ none ↦ start | some t ↦ t ])
  final-of start none h = here
  final-of start (some t) h = h

  pub final-Reach : (start : System F) (es : List (Event F)) → Reach env start (final start es)
  unfolding final
  final-Reach start es =
      final-of start (steps (some start) es) (steps-Reach start (some start) es here)
