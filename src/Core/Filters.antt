-- ===== src/Core/Filters.antt =====
-- packages/core/src/filtersTyped/combinators.ts: filters of updates `U`, whose predicates may throw `X`,
-- and their combinators. Values that are not branded filters are `none`. Descriptions are lists of
-- code points.
pub mod Laws
mod Tests
use wats.Base.{ℕ, Bool, true, false, Option, none, some, List, [], ◌∷◌, ◌++◌, if◌then◌else◌}
use wats.Base.Result.{Result, ok, err, ◌>>=◌, ◌>>◌, guard}

pub data FilterError : Type 0 where
  empty_args not_a_filter invalid_pattern invalid_predicate empty_substring invalid_describe :
      FilterError

pub record TypedFilter (U X : Type 0) : Type 0 where
  pub predicate : U → Result X Bool
  pub describe : List ℕ

abbrev pub negated : {X : Type 0} → Result X Bool → Result X Bool
negated (ok true) = ok false
negated (ok false) = ok true
negated (err x) = err x

abbrev pub label : Option (List ℕ) → List ℕ
label none = b'c' ∷ b'u' ∷ b's' ∷ b't' ∷ b'o' ∷ b'm' ∷ []
label (some []) = b'c' ∷ b'u' ∷ b's' ∷ b't' ∷ b'o' ∷ b'm' ∷ []
label (some (c ∷ s)) = c ∷ s

module _ {U X : Type 0} where
  -- The arguments, if all are branded.
  pub assert_each : List (Option (TypedFilter U X)) → Result FilterError (List (TypedFilter U X))
  assert_each [] = ok []
  assert_each (none ∷ filters) = err not_a_filter
  assert_each (some f ∷ filters) = do rest ← assert_each filters; ok (f ∷ rest)

  -- `assertAllFilters`
  pub assert_all_filters :
      List (Option (TypedFilter U X)) → Result FilterError (List (TypedFilter U X))
  assert_all_filters [] = err empty_args
  assert_all_filters (f ∷ filters) = assert_each (f ∷ filters)

  pub join_parts : List (TypedFilter U X) → List ℕ
  join_parts [] = []
  join_parts (f ∷ []) = f.describe
  join_parts (f ∷ g ∷ fs) = f.describe ++ (b',' ∷ b' ' ∷ join_parts (g ∷ fs))

  -- `joinDescriptions`
  pub join_descriptions : List ℕ → List (TypedFilter U X) → List ℕ
  join_descriptions op fs = op ++ (b'(' ∷ (join_parts fs ++ (b')' ∷ [])))

  -- The predicate of `and`: it stops at the first filter that refuses or throws.
  pub all_accept : List (TypedFilter U X) → U → Result X Bool
  all_accept [] u = ok true
  all_accept (f ∷ fs) u =
      let rest = all_accept fs u in do b ← f.predicate u; if b then rest else ok false

  -- The predicate of `or`: it stops at the first filter that accepts or throws.
  pub some_accepts : List (TypedFilter U X) → U → Result X Bool
  some_accepts [] u = ok false
  some_accepts (f ∷ fs) u =
      let rest = some_accepts fs u in do b ← f.predicate u; if b then ok true else rest

  pub and_filter : List (Option (TypedFilter U X)) → Result FilterError (TypedFilter U X)
  and_filter filters = do
    fs ← assert_all_filters filters
    ok (record {
      predicate = all_accept fs;
      describe = join_descriptions (b'a' ∷ b'n' ∷ b'd' ∷ []) fs;
    })

  pub or_filter : List (Option (TypedFilter U X)) → Result FilterError (TypedFilter U X)
  or_filter filters = do
    fs ← assert_all_filters filters
    ok (record { predicate = some_accepts fs; describe = join_descriptions (b'o' ∷ b'r' ∷ []) fs })

  -- The filter that `not` makes of a branded one.
  pub inverted : TypedFilter U X → TypedFilter U X
  inverted f = record {
    predicate = λ u. negated (f.predicate u);
    describe = b'n' ∷ b'o' ∷ b't' ∷ b'(' ∷ (f.describe ++ (b')' ∷ []));
  }

  pub not_filter : Option (TypedFilter U X) → Result FilterError (TypedFilter U X)
  not_filter none = err not_a_filter
  not_filter (some f) = ok (inverted f)

  pub custom : Option (U → Result X Bool) → Option (List ℕ) → Result FilterError (TypedFilter U X)
  custom none describe = err invalid_predicate
  custom (some predicate) describe =
      ok (record { predicate = predicate; describe = label describe })
