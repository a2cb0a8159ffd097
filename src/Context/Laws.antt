-- ===== src/Context/Laws.antt =====
-- Reading back what was stored, and what a new operation's context shows.
use wsgraphql.Prelude.{ℕ, ◌<◌, ◌≡◌, ◌≢◌, inr, some, length}
use wsgraphql.Mutable
use wsgraphql.Mutable.{is_done, cancel, is_done, new_mutable_context}
use wsgraphql.Mutable.Cancellation.{length-update_at}
use wsgraphql.Mutable.Values.{
  value-set_self, value-set_stranger, value-new, value-cancel, is_done-set,
}
use wsgraphql.Context.{
  Contexts, Key, Value, Key_discrete, get, put, default_mutcontext, operation_context,
  operation_context_of, request_context_of, request_context, mutable_context,
}

pub get-put_self :
    (s : Contexts) (a : ℕ) (k : Key) (v : Value) → a < length s.nodes → get (put s a k v) a k ≡ v
unfolding get put
get-put_self s a k v h = value-set_self Key_discrete s a k v h

pub get-put_ne :
    (s : Contexts) (a b : ℕ) (k j : Key) (v : Value) → k ≢ j → get (put s a k v) b j ≡ get s b j
unfolding get put
get-put_ne s a b k j v h = value-set_stranger Key_discrete s a b k j v (inr h)

pub get-new :
    (s : Contexts) (p : ℕ) (k : Key)
    → get (new_mutable_context s (some p)).0 (length s.nodes) k ≡ get s p k
unfolding get
get-new s p k = value-new Key_discrete s p k

pub length-put :
    (s : Contexts) (a : ℕ) (k : Key) (v : Value) → length (put s a k v).nodes ≡ length s.nodes
unfolding put Mutable.set
length-put s a k v = length-update_at a _ s.nodes

-- A context is registered when `OperationContext` finds the context itself.
abbrev pub IsRegistered : Contexts → ℕ → Type 0
IsRegistered s a = get s a operation_context ≡ mutable_context a

pub operation_context_of_registered :
    (s : Contexts) (a : ℕ) → IsRegistered s a → operation_context_of s a ≡ (s, a)
unfolding operation_context_of default_mutcontext
operation_context_of_registered s a h = rw h

pub get-cancel : (s : Contexts) (a b : ℕ) (k : Key) → get (cancel s a) b k ≡ get s b k
unfolding get
get-cancel s a b k = value-cancel Key_discrete s a b k

pub is_done-put :
    (s : Contexts) (a b : ℕ) (k : Key) (v : Value) → is_done (put s a k v) b ≡ is_done s b
unfolding put
is_done-put s a b k v = is_done-set Key_discrete s a b k v

pub request_context_of_registered :
    (s : Contexts) (a r : ℕ)
    → get s a request_context ≡ mutable_context r
    → request_context_of s a ≡ (s, r)
unfolding request_context_of default_mutcontext
request_context_of_registered s a r h = rw h
