-- ===== src/Core/Dispatch/Tests.antt =====
-- A dispatch to handlers of which one throws and one stops.
use wats.Base.{ℕ, ◌≡◌, refl, Bool, true, false, none, [], ◌∷◌, ◌==◌}
use wats.Base.Result.{Result, ok, err}
use wats.Core.Router.{sequential, Entry, Router}
use wats.Core.Dispatch.{
  HandlerContext, Outcome, done, stop, threw, dispatch, scan, run_handlers, run_sequential,
  evaluate_listeners,
}
use wats.Core.Dispatch.Ran.{called}
use wats.Core.Dispatch.Promise.{Dispatches, dispatch-Dispatches}

-- A filter is the update that it accepts, and filter 0 throws.
abbrev accepts : ℕ → ℕ → Result ℕ Bool
accepts f u = elim (f == 0) [ true ↦ err 99 | false ↦ ok (f == u) ]

-- Handler 1 throws, handler 2 stops, and the others are done.
abbrev call : ℕ → HandlerContext ℕ → Outcome ℕ
call h ctx = elim (h == 1) [
  | true ↦ threw 11
  | false ↦ elim (h == 2) [ true ↦ stop | false ↦ done ]
]

abbrev entry : ℕ → ℕ → ℕ → Entry ℕ ℕ
entry n f h = record { id = n; registration_index = n; filter = f; handler = h }

abbrev router : Router ℕ ℕ
router = record {
  entries = entry 0 7 1 ∷ entry 1 0 3 ∷ entry 2 7 2 ∷ entry 3 7 3 ∷ [];
  max_handlers_per_dispatch = 5;
  concurrency = sequential;
  next_registration_index = 4;
}

called_until_stop : called (dispatch accepts call router none 1 7).events ≡ 0 ∷ 2 ∷ []
unfolding called dispatch scan run_handlers run_sequential evaluate_listeners
called_until_stop = refl

dispatch-Dispatches_example :
    Dispatches accepts call router 7 1 (dispatch accepts call router none 1 7)
dispatch-Dispatches_example = dispatch-Dispatches accepts call router none 1 7
