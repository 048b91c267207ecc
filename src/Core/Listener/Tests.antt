-- ===== src/Core/Listener/Tests.antt =====
-- A registry with two listeners, and the theorems on it.
use wats.Base.{ℕ, ◌≤◌, refl, Bool, some, List, [], ◌∷◌, ◌==◌}
use wats.Base.Result.{Result, ok}
use wats.Core.Listener.{
  undefined, given, Options, Registry, create_listener_registry, validate_registry_options,
  active_count, evaluate,
}
use wats.Core.Listener.Calls.{Call, registers, evaluates, times_out, cancels, clears, run, IsOnce}
use wats.Core.Listener.Cap.{run-IsOnce-IsCapped}
use wats.Core.Listener.First.{Evaluated, evaluate-Evaluated}

abbrev options : Options
options = record { timeout_ms = given 50; signal = undefined; description = undefined }

abbrev is_seven : ℕ → Result ℕ Bool
is_seven u = ok (u == 7)

abbrev start : Registry ℕ ℕ
start = record { max_active = 2; entries = []; settlements = []; next_id = 0 }

-- Two listeners are registered and a third is refused; one is resolved, one times out.
abbrev calls : List (Call ℕ ℕ)
calls =
    registers (some is_seven) options
    ∷ registers (some is_seven) options
    ∷ registers (some is_seven) options
    ∷ evaluates 7
    ∷ times_out 1 50
    ∷ cancels 0
    ∷ clears
    ∷ []

run-IsOnce-IsCapped_example : IsOnce (run calls start) × (active_count (run calls start) ≤ 2)
unfolding create_listener_registry validate_registry_options
run-IsOnce-IsCapped_example = run-IsOnce-IsCapped (given 2) start calls refl

abbrev waiting : List (Call ℕ ℕ)
waiting = registers (some is_seven) options ∷ registers (some is_seven) options ∷ []

waiting-IsOnce : IsOnce (run waiting start)
unfolding create_listener_registry validate_registry_options
waiting-IsOnce = (run-IsOnce-IsCapped (given 2) start waiting refl).0

evaluate-Evaluated_example : Evaluated (run waiting start) 7 (evaluate (run waiting start) 7)
evaluate-Evaluated_example = evaluate-Evaluated (run waiting start) 7 waiting-IsOnce
