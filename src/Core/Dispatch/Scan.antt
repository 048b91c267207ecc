-- ===== src/Core/Dispatch/Scan.antt =====
-- The entries that a dispatch selects are the first ones, up to the cap, whose predicate accepts.
use wats.Base.{
  ℕ, zero, suc, ◌+◌, ◌≡◌, refl, Bool, false, List, [], ◌∷◌, take, keep, length, ltb, arith,
}
use wats.Base.Result.{Result, ok, err}
use wats.Core.Router.{Entry}
use wats.Core.Dispatch.{scan, HandlerContext, Outcome}

module _ {F H U X : Type 0} (accepts : F → U → Result X Bool)
    (call : H → HandlerContext U → Outcome X) where
  abbrev accepted : Result X Bool → Bool
  accepted (ok b) = b
  accepted (err x) = false

  abbrev pub is_accepted : U → Entry F H → Bool
  is_accepted u e = accepted (accepts e.filter u)

  -- What the predicates of entries throw.
  unfoldable pub predicate_errors : U → List (Entry F H) → List (ℕ × X)
  predicate_errors u [] = []
  predicate_errors u (e ∷ es) =
      let rest = predicate_errors u es in
      elim (accepts e.filter u) [ ok b ↦ rest | err x ↦ (e.id, x) ∷ rest ]

  pub scan-matching :
      (most room : ℕ) (u : U) (count : ℕ) (es : List (Entry F H))
      → most ≡ count + room
      → (scan accepts call most u count es).matching ≡ take room (keep (is_accepted u) es)
  unfolding scan
  scan-matching most zero u count [] h = refl
  scan-matching most (suc room) u count [] h = refl
  scan-matching most zero u count (e ∷ es) h = ground (arith, scan-matching most zero u count es)
  scan-matching most (suc room) u count (e ∷ es) h =
      ground
        (arith, scan-matching most (suc room) u count es, scan-matching most room u (suc count) es)

  pub scan-capped :
      (most room : ℕ) (u : U) (count : ℕ) (es : List (Entry F H))
      → most ≡ count + room
      → (scan accepts call most u count es).capped ≡ ltb room (length (keep (is_accepted u) es))
  unfolding scan
  scan-capped most room u count [] h = ground arith
  scan-capped most zero u count (e ∷ es) h = ground (arith, scan-capped most zero u count es)
  scan-capped most (suc room) u count (e ∷ es) h =
      ground (arith, scan-capped most (suc room) u count es, scan-capped most room u (suc count) es)

  pub scan-errors :
      (most : ℕ) (u : U) (count : ℕ) (es : List (Entry F H))
      → (scan accepts call most u count es).capped ≡ false
      → (scan accepts call most u count es).errors ≡ predicate_errors u es
  unfolding scan predicate_errors
  scan-errors most u count [] h = refl
  scan-errors most u count (e ∷ es) h =
      ground (arith, scan-errors most u count es, scan-errors most u (suc count) es)
