-- ===== src/Options/Laws.antt =====
-- What a server made from options has.
use wsgraphql.Prelude.{
  ℕ, ◌≡◌, refl, Bool, true, false, Option, none, some, List, [], ◌∷◌, ◌++◌, arith, ite, is_some,
  map, ◌||◌,
}
use mathlib.Core.Logic.{if_pos, if_neg}
use wsgraphql.Prelude.Dict
use wsgraphql.Apollows.{Protocol, graphql_ws, graphql_transport_ws}
use wsgraphql.Interceptors.{
  Interceptor, Interceptors, skip_nil, call_at, chain, chained, pass_through, or_default,
  init_interceptors, interceptor_operation_chain,
}
use wsgraphql.Interceptors.Laws.{present, nest}
use wsgraphql.Options.{
  Protocol_discrete, Config, Server, server, refused, empty_config, extend, ServerOption,
  extend_interceptors, with_extra_interceptors, with_protocol, apply_options, default_protocols,
  finish_server, new_server,
}

module _ {A R : Type 0} where
  -- What `initInterceptors` makes of a configured interceptor.
  abbrev pub completed : Option (Interceptor A R) → Interceptor A R
  completed none = pass_through
  completed (some i) = i

  abbrev pub extend_all :
      Option (Interceptor A R) → List (Option (Interceptor A R)) → Option (Interceptor A R)
  extend_all c [] = c
  extend_all c (x ∷ xs) = extend_all (extend chained c x) xs

  extend_all-nest :
      (c : Option (Interceptor A R)) (xs : List (Option (Interceptor A R))) (args : A)
      (handler : A → R)
      → completed (extend_all c xs) args handler ≡ completed c args (nest (present xs) handler)
  unfolding extend chained chain skip_nil call_at pass_through
  extend_all-nest c [] args handler = refl
  extend_all-nest c (none ∷ xs) args handler = extend_all-nest c xs args handler
  extend_all-nest none (some i ∷ xs) args handler =
      extend_all-nest (some (λ a h. i a h)) xs args handler
  extend_all-nest (some j) (some i ∷ xs) args handler =
      extend_all-nest (some (λ a h. j a (λ b. i b h))) xs args handler

module _ {W I P C E X : Type 0} where
  extra_config : Config W I P C E X → List (Interceptors W I P C E) → Config W I P C E X
  extra_config c [] = c
  extra_config c (is ∷ iss) =
      extra_config (record c { interceptors = extend_interceptors c.interceptors is }) iss

  apply-extra :
      (c : Config W I P C E X) (iss : List (Interceptors W I P C E))
      → apply_options c (map with_extra_interceptors iss) ≡ (extra_config c iss, none)
  unfolding apply_options with_extra_interceptors extra_config
  apply-extra c [] = refl
  apply-extra c (is ∷ iss) =
      apply-extra (record c { interceptors = extend_interceptors c.interceptors is }) iss

  operation_extra :
      (c : Config W I P C E X) (iss : List (Interceptors W I P C E))
      → (extra_config c iss).interceptors.operation
        ≡ extend_all c.interceptors.operation (map (λ is. is.operation) iss)
  unfolding extra_config extend_interceptors interceptor_operation_chain
  operation_extra c [] = refl
  operation_extra c (is ∷ iss) =
      operation_extra (record c { interceptors = extend_interceptors c.interceptors is }) iss

  -- Interceptors of operations that are given by options one after another run from the outside
  -- in, the first one outermost, and those that are nil count for nothing.
  pub extra_interceptors_nest :
      (c : Config W I P C E X) (iss : List (Interceptors W I P C E)) (args : W × ℕ × P)
      (handler : W × ℕ × P → W × Option E)
      → c.interceptors.operation ≡ none
      → let (c', err) = apply_options c (map with_extra_interceptors iss) in
        (err ≡ none)
        × (completed c'.interceptors.operation args handler
            ≡ nest (present (map (λ is. is.operation) iss)) handler args)
  unfolding pass_through
  extra_interceptors_nest c iss args handler missing = rw (apply-extra c iss) (
    refl,
    rw (operation_extra c iss, missing)
        (extend_all-nest none (map (λ is. is.operation) iss) args handler),
  )

  apply_options-append :
      (c : Config W I P C E X) (before rest : List (ServerOption W I P C E X))
      → (apply_options c before).1 ≡ none
      → apply_options c (before ++ rest) ≡ apply_options (apply_options c before).0 rest
  unfolding apply_options
  apply_options-append c [] rest h = refl
  apply_options-append c (o ∷ os) rest h = ground (arith, apply_options-append (o c).0 os rest)

  apply_options-fails :
      (c : Config W I P C E X) (o : ServerOption W I P C E X)
      (after : List (ServerOption W I P C E X)) (err : E)
      → (o c).1 ≡ some err
      → (apply_options c (o ∷ after)).1 ≡ some err
  unfolding apply_options
  apply_options-fails c o after err h = ground arith

  finish_server-fails :
      {Y : Type 0} (write_error : W → ℕ → ℕ → E → W) (identity : X) (reflected : Option (List Y))
      (reflect_error err : E) (r : Config W I P C E X × Option E)
      → r.1 ≡ some err
      → finish_server write_error identity reflected reflect_error r ≡ refused err
  unfolding finish_server
  finish_server-fails write_error identity reflected reflect_error err (c, none) h = cc
  finish_server-fails write_error identity reflected reflect_error err (c, some e) h = cc

  -- An option that fails ends the making of the server with its error, whatever options follow.
  pub new_server_first_error :
      {Y : Type 0} (write_error : W → ℕ → ℕ → E → W) (identity : X) (reflected : Option (List Y))
      (reflect_error err : E) (before after : List (ServerOption W I P C E X))
      (o : ServerOption W I P C E X)
      → (apply_options empty_config before).1 ≡ none
      → (o (apply_options empty_config before).0).1 ≡ some err
      → new_server write_error identity reflected reflect_error (before ++ o ∷ after) ≡ refused err
  unfolding new_server
  new_server_first_error write_error identity reflected reflect_error err before after o ok fails =
      finish_server-fails write_error identity reflected reflect_error err _ (
        rw (apply_options-append empty_config before (o ∷ after) ok)
          (apply_options-fails _ o after err fails))

abbrev pub Protocols : Type 0
Protocols = List (Protocol × Unit {0})

abbrev pub knows : Protocol → Protocols → Bool
knows q m = is_some (Dict.lookup Protocol_discrete q m)

abbrev pub member : Protocol → List Protocol → Bool
member q [] = false
member q (p ∷ ps) = ite (Protocol_discrete p q) true (member q ps)

-- The protocols that a server with these `WithProtocol` options is to speak.
abbrev pub spoken : Protocol → List Protocol → Bool
spoken graphql_ws [] = true
spoken graphql_transport_ws [] = true
spoken _ [] = false
spoken q (p ∷ ps) = member q (p ∷ ps)

add_protocols : List Protocol → Protocols → Protocols
add_protocols [] m = m
add_protocols (p ∷ ps) m = add_protocols ps (Dict.insert Protocol_discrete p tt m)

knows-add_protocols :
    (q : Protocol) (ps : List Protocol) (m : Protocols)
    → knows q (add_protocols ps m) ≡ (member q ps || knows q m)
unfolding add_protocols
knows-add_protocols q [] m = refl
knows-add_protocols q (p ∷ ps) m = ground (
  arith,
  knows-add_protocols q ps (Dict.insert Protocol_discrete p tt m),
  Dict.lookup-insert Protocol_discrete p q tt m,
)

add_protocols-default :
    (ps : List Protocol) (e : Protocol × Unit {0}) (m : Protocols)
    → default_protocols (add_protocols ps (e ∷ m)) ≡ add_protocols ps (e ∷ m)
unfolding add_protocols default_protocols Dict.insert
add_protocols-default [] e m = refl
add_protocols-default (p ∷ ps) (q, u) m = elim (Protocol_discrete q p) [
  | yes same ↦ rw (if_pos _ same) (add_protocols-default ps (p, tt) m)
  | no other ↦
      rw (if_neg _ other) (add_protocols-default ps (q, u) (Dict.insert Protocol_discrete p tt m))
]

knows-one : (q p : Protocol) → knows q ((p, tt) ∷ []) ≡ ite (Protocol_discrete p q) true false
unfolding Dict.lookup
knows-one q p = ground arith

knows-default_given :
    (q p : Protocol) (ps : List Protocol)
    → knows q (default_protocols (add_protocols ps ((p, tt) ∷ [])))
      ≡ ite (Protocol_discrete p q) true (member q ps)
knows-default_given q p ps =
    rw (add_protocols-default ps (p, tt) [], knows-add_protocols q ps ((p, tt) ∷ []))
      (ground (arith, knows-one q p))

knows-default :
    (q : Protocol) (ps : List Protocol)
    → knows q (default_protocols (add_protocols ps [])) ≡ spoken q ps
unfolding Dict.lookup Dict.insert default_protocols add_protocols Protocol_discrete
knows-default graphql_ws [] = refl
knows-default graphql_transport_ws [] = refl
knows-default (Protocol.unnamed s) [] = refl
knows-default q (p ∷ ps) = knows-default_given q p ps

module _ {W I P C E X : Type 0} where
  protocol_config : Config W I P C E X → List Protocol → Config W I P C E X
  protocol_config c ps = record c {
    subscription_protocols = add_protocols ps c.subscription_protocols;
  }

  apply-protocols :
      (c : Config W I P C E X) (ps : List Protocol)
      → apply_options c (map with_protocol ps) ≡ (protocol_config c ps, none)
  unfolding apply_options with_protocol protocol_config add_protocols
  apply-protocols c [] = refl
  apply-protocols c (p ∷ ps) = apply-protocols (with_protocol p c).0 ps

  -- A server made with protocol options alone speaks exactly the protocols that they name, and
  -- both graphql-ws and graphql-transport-ws if there is no such option.
  pub new_server_protocols :
      {Y : Type 0} (write_error : W → ℕ → ℕ → E → W) (identity : X) (exts : List Y)
      (reflect_error : E) (ps : List Protocol)
      → (s : Server W I P C E X Y) × (new_server write_error identity
            (some exts)
            reflect_error
            (map with_protocol ps)
          ≡ server s)
        × ((q : Protocol) → knows q s.config.subscription_protocols ≡ spoken q ps)
  unfolding new_server finish_server protocol_config empty_config
  new_server_protocols write_error identity exts reflect_error ps = (
    record {
      extensions = exts;
      config =
          record (protocol_config (empty_config {W = W} {I = I} {P = P} {C = C} {E = E} {X = X})
            ps) {
              subscription_protocols = default_protocols (add_protocols ps []);
              interceptors =
                  init_interceptors write_error
                    (empty_config {W = W} {I = I} {P = P} {C = C} {E = E} {X = X}).interceptors;
              result_processor = or_default identity none;
            };
    },
    rw (apply-protocols (empty_config {W = W} {I = I} {P = P} {C = C} {E = E} {X = X}) ps) refl,
    λ q. knows-default q ps,
  )

  -- A server made with further protocol options after others that name no protocol: it speaks what
  -- they name, and the rest of its configuration that is not defaulted is that of the others.
  pub new_server_after :
      {Y : Type 0} (write_error : W → ℕ → ℕ → E → W) (identity : X) (exts : List Y)
      (reflect_error : E) (others : List (ServerOption W I P C E X)) (ps : List Protocol)
      → (apply_options empty_config others).1 ≡ none
      → (apply_options empty_config others).0.subscription_protocols ≡ []
      → (s : Server W I P C E X Y) × (new_server write_error identity
            (some exts)
            reflect_error
            (others ++ map with_protocol ps)
          ≡ server s)
        × ((q : Protocol) → knows q s.config.subscription_protocols ≡ spoken q ps)
        × (s.config.upgrader ≡ (apply_options empty_config others).0.upgrader)
  unfolding new_server finish_server protocol_config
  new_server_after write_error identity exts reflect_error others ps fine bare =
      let c = (apply_options empty_config others).0 in
      (
        record {
          extensions = exts;
          config = record c {
            subscription_protocols = default_protocols (add_protocols ps c.subscription_protocols);
            interceptors = init_interceptors write_error c.interceptors;
            result_processor = or_default identity c.result_processor;
          };
        },
        rw
            (
              apply_options-append empty_config others (map with_protocol ps) fine,
              apply-protocols c ps,
            )
            refl,
        λ q. rw bare (knows-default q ps),
        refl,
      )
