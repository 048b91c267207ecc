-- ===== src/Core/Filters/Laws.antt =====
-- The laws of the combinators, with what predicates throw.
use wats.Base.{
  ℕ, ◌≡◌, ◌∙◌, refl, ap, Bool, true, false, Option, none, some, List, [], ◌∷◌, map, if◌then◌else◌,
}
use wats.Base.Result.{Result, ok, err, ◌>>=◌}
use wats.Core.Filters.{
  FilterError, TypedFilter, assert_each, assert_all_filters, all_accept, some_accepts, and_filter,
  or_filter, join_descriptions, negated, inverted,
}

step-negated :
    {X : Type 0} (m : Result X Bool) (rest other : Result X Bool)
    → other ≡ negated rest
    → (negated m >>= λ b. if b then ok true else other)
      ≡ negated (m >>= λ b. if b then rest else ok false)
step-negated (err x) rest other h = refl
step-negated (ok true) rest other h = h
step-negated (ok false) rest other h = refl

module _ {U X : Type 0} where
  some_accepts-inverted :
      (fs : List (TypedFilter U X)) (u : U)
      → some_accepts (map inverted fs) u ≡ negated (all_accept fs u)
  unfolding some_accepts all_accept inverted
  some_accepts-inverted [] u = refl
  some_accepts-inverted (f ∷ fs) u =
      step-negated (f.predicate u) (all_accept fs u) _ (some_accepts-inverted fs u)

  -- The arguments of `or`, each inverted.
  abbrev pub invert_arg : Option (TypedFilter U X) → Option (TypedFilter U X)
  invert_arg none = none
  invert_arg (some f) = some (inverted f)

  abbrev invert_all :
      Result FilterError (List (TypedFilter U X)) → Result FilterError (List (TypedFilter U X))
  invert_all (ok fs) = ok (map inverted fs)
  invert_all (err e) = err e

  cons-inverted :
      (f : TypedFilter U X) (m : Result FilterError (List (TypedFilter U X)))
      → (invert_all m >>= λ rest. ok (inverted f ∷ rest)) ≡ invert_all (m >>= λ rest. ok (f ∷ rest))
  cons-inverted f (ok fs) = refl
  cons-inverted f (err e) = refl

  assert_each-inverted :
      (args : List (Option (TypedFilter U X)))
      → assert_each (map invert_arg args) ≡ invert_all (assert_each args)
  unfolding assert_each
  assert_each-inverted [] = refl
  assert_each-inverted (none ∷ args) = refl
  assert_each-inverted (some f ∷ args) =
      ap (λ m. m >>= λ rest. ok (inverted f ∷ rest)) (assert_each-inverted args)
      ∙ cons-inverted f (assert_each args)

  assert_all_filters-inverted :
      (args : List (Option (TypedFilter U X)))
      → assert_all_filters (map invert_arg args) ≡ invert_all (assert_all_filters args)
  unfolding assert_all_filters
  assert_all_filters-inverted [] = refl
  assert_all_filters-inverted (f ∷ args) = assert_each-inverted (f ∷ args)

  -- Two filters that were made, or one complaint: the second filter accepts what the first refuses,
  -- refuses what it accepts, and throws what it throws.
  abbrev pub AreOpposed :
      Result FilterError (TypedFilter U X) → Result FilterError (TypedFilter U X) → Type 0
  AreOpposed (ok f) (ok g) = (u : U) → g.predicate u ≡ negated (f.predicate u)
  AreOpposed (err d) (err e) = d ≡ e
  AreOpposed (ok f) (err e) = ⊥
  AreOpposed (err e) (ok f) = ⊥

  opposed :
      (m : Result FilterError (List (TypedFilter U X))) (op op' : List ℕ)
      → AreOpposed
          (m >>= λ fs.
            ok (record { predicate = all_accept fs; describe = join_descriptions op fs }))
          (invert_all m >>= λ fs.
            ok (record { predicate = some_accepts fs; describe = join_descriptions op' fs }))
  opposed (ok fs) op op' = λ u. some_accepts-inverted fs u
  opposed (err e) op op' = refl

  -- De Morgan's law with errors: whatever the arguments, `or` of their inversions is opposed to `and`
  -- of them. Either both are refused with the same error, or the one accepts exactly the updates
  -- that the other refuses, and both throw the same for the same updates.
  pub and_filter-or_filter :
      (args : List (Option (TypedFilter U X)))
      → AreOpposed (and_filter args) (or_filter (map invert_arg args))
  unfolding and_filter or_filter
  and_filter-or_filter args =
      rw (assert_all_filters-inverted args) (opposed (assert_all_filters args) _ _)
