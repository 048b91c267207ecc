-- ===== src/Core/Filters/Tests.antt =====
-- A filter of two, one of which throws, and the law on it.
use wats.Base.{ℕ, true, Option, some, List, [], ◌∷◌, map, ltb, ◌==◌}
use wats.Base.Result.{ok, err}
use wats.Core.Filters.{TypedFilter, and_filter, or_filter}
use wats.Core.Filters.Laws.{AreOpposed, invert_arg, and_filter-or_filter}

abbrev small : TypedFilter ℕ ℕ
small = record { predicate = λ u. ok (ltb u 5); describe = b's' ∷ [] }

abbrev picky : TypedFilter ℕ ℕ
picky = record { predicate = λ u. elim (u == 3) [ true ↦ err 1 | _ ↦ ok true ]; describe = [] }

abbrev args : List (Option (TypedFilter ℕ ℕ))
args = some small ∷ some picky ∷ []

and_filter-or_filter_example : AreOpposed (and_filter args) (or_filter (map invert_arg args))
and_filter-or_filter_example = and_filter-or_filter args
