-- ===== src/Plain/Laws.antt =====
-- v1/server_plain.go: what the results of an operation are on the wire.
use wsgraphql.Prelude.{
  ℕ, ◌≡◌, refl, ◌∙◌, sym, ap, subst, String, Bool, true, false, inr, Option, none, some, List, [],
  ◌∷◌, ◌++◌, if◌then◌else◌,
}
use Prim.Native.String
use mathlib.Core.List.{append_assoc, append-nil}
use wsgraphql.Context.{
  Contexts, http_response_started, operation_stopped, boolean, context_http_response_started,
  context_operation_stopped, request_context_of,
}
use wsgraphql.Context.Laws.{get-put_ne, request_context_of_registered}
use wsgraphql.Apollows.{Error, Result}
use wsgraphql.Apollows.Errors.{◌+s◌}
use wsgraphql.Response.{World, ResponseCall, set_header, decimal, write, flush, respond}
use wsgraphql.Results.{
  Channel, closes, cancels, delivers, process_loop, process_result, target_errors, after_write,
  has_errors,
}
use wsgraphql.Plain.Opened.{Opened, started, started-Opened, started-shows}
use wsgraphql.Plain.{Plain, holder, write_plain_result, write_body, after_body}

-- What one line of a response is: its length is announced if it is the first and there is no
-- flusher, and it is flushed if there is one.
abbrev pub line : (flusher started : Bool) → (writer : ℕ) → String → List (ℕ × ResponseCall)
line true started writer bs = (writer, write bs) ∷ (writer, flush) ∷ []
line false true writer bs = (writer, write bs) ∷ []
line false false writer bs =
    (writer, set_header "content-length" (decimal (String.len bs))) ∷ (writer, write bs) ∷ []

module _ {U F I : Type 0} (server : Plain U F I) (processor : Result F → Result F) where
  -- A result as it is shown, and whether that ends the operation.
  abbrev pub shown : Result F → Result F
  shown r = target_errors server.graphql.gql (processor r)

  abbrev pub fault : Result F → Option (Error F)
  fault r = has_errors (shown r) (shown r).errors

  -- What is written of the results of a channel: up to the first that has errors.
  abbrev pub lines :
      (text_of : Result F → String)
      → (flusher begun : Bool) → (writer : ℕ) → Channel (World U) F
      → List (ℕ × ResponseCall)
  lines text_of flusher begun writer (closes m) = []
  lines text_of flusher begun writer (cancels m err) = []
  lines text_of flusher begun writer (delivers m r rest) =
      let more = lines text_of flusher true writer rest in
      line flusher begun writer (text_of (shown r) +s "\n")
      ++ (elim (fault r) [ some err ↦ [] | none ↦ more ])

  -- The error that this ends with; `stopped` is whether the client stopped the operation.
  abbrev pub ending : (stopped : Bool) → Channel (World U) F → Option (Error F)
  ending stopped (closes m) = none
  ending stopped (cancels m err) = if stopped then none else some err
  ending stopped (delivers m r rest) =
      let later = ending stopped rest in elim (fault r) [ some err ↦ some err | none ↦ later ]

module _ {U : Type 0} where
  -- What others do meanwhile neither writes nor touches the contexts.
  abbrev pub Quiet : (World U → World U) → Type 0
  Quiet m = (w : World U) → ((m w).calls ≡ w.calls) × ((m w).contexts ≡ w.contexts)

  abbrev pub Undisturbed : {F : Type 0} → Channel (World U) F → Type 0
  Undisturbed (closes m) = Quiet m
  Undisturbed (cancels m err) = Quiet m
  Undisturbed (delivers m r rest) = Quiet m × Undisturbed rest

-- The world after one result was written.
written : {U : Type 0} → World U → (reqctx : ℕ) → List (ℕ × ResponseCall) → World U
written w reqctx calls = record w { contexts = started w.contexts reqctx; calls = w.calls ++ calls }

module _ {U F I : Type 0} (server : Plain U F I) (text_of : Result F → String)
    (marshals : (r : Result F) → server.marshal r ≡ inr (text_of r))
    (writes : (w : World U) (writer : ℕ) (bs : String) → server.write_fails w writer bs ≡ none)
    (ctx reqctx writer : ℕ) where
  write_plain_result_lem :
      (flusher : Bool) (w : World U) (r : Result F)
      → Opened w.contexts ctx reqctx
      → write_plain_result server ctx writer flusher w r ≡ (
        written w reqctx (
            line flusher (context_http_response_started w.contexts ctx) writer (text_of r +s "\n")),
        none,
      )
  unfolding write_plain_result write_body after_body respond written started
  write_plain_result_lem flusher w r o =
      split flusher (context_http_response_started w.contexts ctx) refl
    where
      reads : request_context_of w.contexts ctx ≡ (w.contexts, reqctx)
      reads = request_context_of_registered w.contexts ctx reqctx o.registered

      split :
          (f b : Bool)
          → context_http_response_started w.contexts ctx ≡ b
          → write_body server ctx writer f w (server.marshal r)
            ≡ (written w reqctx (line f b writer (text_of r +s "\n")), none)
      split true true e = rw (marshals r, e, writes, reads, append_assoc) refl
      split true false e = rw (marshals r, e, writes, reads, append_assoc) refl
      split false true e = rw (marshals r, e, writes, reads) refl
      split false false e = rw (marshals r, e, writes, reads, append_assoc) refl

  module _ (processor : Result F → Result F) (flusher : Bool) where
    abbrev pub looped : World U → Channel (World U) F → World U × Option (Error F)
    looped w cres =
        process_loop holder server.graphql.gql processor
          (write_plain_result server ctx writer flusher) ctx w cres

    -- What is to be shown of the loop, where `calls`, `begun` and `stopped` are those before it.
    abbrev pub Shows :
        List (ℕ × ResponseCall)
        → (begun stopped : Bool) → World U × Option (Error F)
        → Channel (World U) F
        → Type 0
    Shows calls begun stopped (w, err) cres =
        (w.calls ≡ calls ++ lines server processor text_of flusher begun writer cres)
        × (err ≡ ending server processor stopped cres)

    abbrev after : World U → Result F → World U
    after v r = written v reqctx (
        line flusher (context_http_response_started v.contexts ctx) writer
          (text_of (shown server processor r) +s "\n"))

    process_result_lem :
        (v : World U) (r : Result F)
        → Opened v.contexts ctx reqctx
        → process_result server.graphql.gql processor
            (write_plain_result server ctx writer flusher)
            v
            r
          ≡ (after v r, fault server processor r)
    unfolding process_result after_write
    process_result_lem v r o =
        rw (write_plain_result_lem flusher v (shown server processor r) o) refl

    stopped-started :
        (s : Contexts)
        → context_operation_stopped (started s reqctx) ctx ≡ context_operation_stopped s ctx
    unfolding context_operation_stopped started
    stopped-started s =
        rw
          (get-put_ne s reqctx ctx http_response_started operation_stopped (boolean true) (λ e. cc))
          refl

    looped-delivers :
        (m : World U → World U) (r : Result F) (rest : Channel (World U) F) (w : World U)
        → Opened (m w).contexts ctx reqctx
        → looped w (delivers m r rest) ≡ (elim (fault server processor r) [
          | some err ↦ (after (m w) r, some err)
          | none ↦ looped (after (m w) r) rest
        ])
    unfolding process_loop
    looped-delivers m r rest w o =
        ap
          (λ (q : World U × Option (Error F)). elim q.1 [
            | some err ↦ (q.0, some err)
            | none ↦ looped q.0 rest
          ])
          (process_result_lem (m w) r o)

    continued :
        (calls : List (ℕ × ResponseCall)) (begun stopped : Bool) (f : Option (Error F))
        (now : World U) (later : World U × Option (Error F)) (r : Result F) (m : World U → World U)
        (rest : Channel (World U) F)
        → fault server processor r ≡ f
        → now.calls
          ≡ calls ++ line flusher begun writer (text_of (shown server processor r) +s "\n")
        → Shows now.calls true stopped later rest
        → Shows calls begun stopped
            (elim f [ some err ↦ (now, some err) | none ↦ later ])
            (delivers m r rest)
    continued calls begun stopped (some err) now later r m rest e c h =
        (rw (e, append-nil) c, rw (e, ending) refl)
    continued calls begun stopped none now later r m rest e c h =
        (rw e (h.0 ∙ rw (c, append_assoc) refl), rw (e, ending) h.1)

    pub process_loop_lem :
        (cres : Channel (World U) F) (w : World U)
        → Opened w.contexts ctx reqctx
        → Undisturbed cres
        → Shows w.calls
            (context_http_response_started w.contexts ctx)
            (context_operation_stopped w.contexts ctx)
            (looped w cres)
            cres
    unfolding process_loop written
    process_loop_lem (closes m) w o q = (rw ((q w).0, append-nil) refl, refl)
    process_loop_lem (cancels m err) w o q = (rw ((q w).0, append-nil) refl, rw (q w).1 refl)
    process_loop_lem (delivers m r rest) w o (q, quiet) =
        let o' : Opened (m w).contexts ctx reqctx = rw (q w).1 o in
        let more =
          process_loop_lem rest (after (m w) r) (started-Opened (m w).contexts ctx reqctx o')
            quiet in
        subst
          (λ out.
            Shows w.calls (context_http_response_started w.contexts ctx)
              (context_operation_stopped w.contexts ctx) out (delivers m r rest))
          (sym (looped-delivers m r rest w o'))
          (continued w.calls _ _ (fault server processor r) (after (m w) r) _ r m rest refl
            (rw ((q w).0, (q w).1) refl)
            (subst (λ b. Shows (after (m w) r).calls true b (looped (after (m w) r) rest) rest)
              (stopped-started (m w).contexts ∙ ap (λ s. context_operation_stopped s ctx) (q w).1)
              (subst
                (λ b.
                  Shows (after (m w) r).calls b
                    (context_operation_stopped (after (m w) r).contexts ctx)
                    (looped (after (m w) r) rest) rest)
                (started-shows (m w).contexts ctx reqctx o') more)))
