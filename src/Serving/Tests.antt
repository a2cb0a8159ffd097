-- ===== src/Serving/Tests.antt =====
-- A request whose interceptor passes it on to a handler that fails.
use wsgraphql.Prelude.{ℕ, ◌≡◌, true, false, some, [], arith, ℕ_discrete}
use wsgraphql.Mutable
use wsgraphql.Mutable.{is_done, new_mutable_context, update_at}
use wsgraphql.Context.{Contexts, Value, put}
use wsgraphql.Response.{World}
use wsgraphql.Interceptors.{HttpRequestArgs, Outcome, InterceptorHttpRequest}
use wsgraphql.Serving.{open_request, close_request, serve_http}
use wsgraphql.Serving.Laws.{served_is_done}

abbrev contexts : Contexts
contexts = record { base_value = λ k. Value.nil; base_done = false; nodes = [] }

abbrev world : World ℕ
world = record { contexts = contexts; calls = []; user = 0 }

abbrev passing : InterceptorHttpRequest (World ℕ) ℕ
passing args handler = handler args

abbrev failing_handler : HttpRequestArgs (World ℕ) → Outcome (World ℕ) ℕ
failing_handler (w, ctx, writer, r) = (w, some 3)

served_is_done_example : is_done (serve_http passing failing_handler world 4 5).contexts 0 ≡ true
unfolding serve_http close_request open_request put Mutable.set Mutable.cancel new_mutable_context
    ℕ_discrete
served_is_done_example = served_is_done passing failing_handler world 4 5 (omega arith)
