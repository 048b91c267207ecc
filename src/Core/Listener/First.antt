-- ===== src/Core/Listener/First.antt =====
-- The listener that an update resolves is the first whose predicate accepts it.
use wats.Base.{
  ℕ, ◌+◌, ◌≡◌, ◌≤◌, refl, ap, sym, Bool, true, false, Option, none, some, List, [], ◌∷◌, ◌++◌, All,
  any, arith, if◌then◌else◌, ==_refl,
}
use wats.Base.Result.{Result, ok, err, ◌>>=◌}
use wats.Core.Listener.{resolved, Entry, Registry, delete, has_id, finalize, evaluate, first_match}
use wats.Core.Listener.Settled.{pending, total}
use wats.Core.Listener.Calls.{IsOnce}

module _ {U X : Type 0} where
  -- The predicate of a listener refuses the update.
  abbrev pub IsRefused : U → Entry U X → Type 0
  IsRefused u e = e.predicate u ≡ ok false

  -- An entry, those before it, which refuse the update, and those after it.
  pub record Split (u : U) (es : List (Entry U X)) (e : Entry U X) : Type 0 where
    pub before : List (Entry U X)
    pub after : List (Entry U X)
    pub parts : es ≡ before ++ (e ∷ after)
    pub refused : All (IsRefused u) before

  Split-cons :
      (u : U) (es : List (Entry U X)) (x e : Entry U X)
      → IsRefused u x
      → Split u es e
      → Split u (x ∷ es) e
  Split-cons u es x e h s = record {
    before = x ∷ s.before;
    after = s.after;
    parts = ap (◌∷◌ x) s.parts;
    refused = (h, s.refused);
  }

  Split-head : (u : U) (es : List (Entry U X)) (e : Entry U X) → Split u (e ∷ es) e
  Split-head u es e = record { before = []; after = es; parts = refl; refused = tt }

  -- What `first_match` gives, by its three ways to end.
  abbrev Found : U → List (Entry U X) → Result X (Option (Entry U X)) → Type 0
  Found u es (ok none) = All (IsRefused u) es
  Found u es (ok (some e)) = Split u es e × (e.predicate u ≡ ok true)
  Found u es (err x) = (e : Entry U X) × Split u es e × (e.predicate u ≡ err x)

  Found-cons :
      (u : U) (es : List (Entry U X)) (x : Entry U X) (m : Result X (Option (Entry U X)))
      → IsRefused u x
      → Found u es m
      → Found u (x ∷ es) m
  Found-cons u es x (ok none) h f = (h, f)
  Found-cons u es x (ok (some e)) h f = (Split-cons u es x e h f.0, f.1)
  Found-cons u es x (err y) h f = (f.0, Split-cons u es x f.0 h f.1, f.2)

  first_match-Found : (u : U) (es : List (Entry U X)) → Found u es (first_match u es)
  unfolding first_match
  first_match-Found u [] = tt
  first_match-Found u (e ∷ es) = head u e es (e.predicate u) refl (first_match-Found u es)
    where
      head :
          (u : U) (e : Entry U X) (es : List (Entry U X)) (m : Result X Bool)
          → e.predicate u ≡ m
          → Found u es (first_match u es)
          → Found u (e ∷ es) (m >>= λ b. if b then ok (some e) else first_match u es)
      head u e es (err x) h f = (e, Split-head u es e, h)
      head u e es (ok true) h f = (Split-head u es e, h)
      head u e es (ok false) h f = Found-cons u es e (first_match u es) h f

  pending-append :
      (id : ℕ) (xs ys : List (Entry U X)) → pending id (xs ++ ys) ≡ pending id xs + pending id ys
  unfolding pending
  pending-append id [] ys = omega arith
  pending-append id (x ∷ xs) ys = omega (arith, pending-append id xs ys)

  delete-split :
      (before after : List (Entry U X)) (e : Entry U X)
      → pending e.id before ≡ 0
      → delete e.id (before ++ (e ∷ after)) ≡ before ++ after
  unfolding delete pending
  delete-split [] after e h = ground (arith, ==_refl e.id)
  delete-split (x ∷ before) after e h = ground (arith, delete-split before after e)

  any-split :
      (before after : List (Entry U X)) (e : Entry U X)
      → any (has_id e.id) (before ++ (e ∷ after)) ≡ true
  any-split [] after e = ground (arith, ==_refl e.id)
  any-split (x ∷ before) after e = ground (arith, any-split before after e)

  entries-split :
      (es before after : List (Entry U X)) (e : Entry U X)
      → es ≡ before ++ (e ∷ after)
      → pending e.id es ≤ 1
      → (any (has_id e.id) es ≡ true) × (delete e.id es ≡ before ++ after)
  unfolding pending
  entries-split es before after e p h =
      let once : pending e.id (before ++ (e ∷ after)) ≤ 1 = rw (sym p) h in
      rw p (
        any-split before after e,
        delete-split before after e
            (ground (arith, ==_refl e.id, once, pending-append e.id before (e ∷ after))),
      )

  pending-once : (r : Registry U X) (id : ℕ) → IsOnce r → pending id r.entries ≤ 1
  unfolding total
  pending-once r id h = ground (arith, h id)

  -- How `evaluate` ends: it throws what the first predicate that does not refuse throws, or the
  -- first predicate that does not refuse accepts, and its listener alone is resolved and removed,
  -- or all refuse and nothing changes.
  abbrev pub Evaluated : Registry U X → U → Result X (Registry U X × Option ℕ) → Type 0
  Evaluated r u (err x) = (e : Entry U X) × Split u r.entries e × (e.predicate u ≡ err x)
  Evaluated r u (ok (r', none)) = All (IsRefused u) r.entries × (r' ≡ r)
  Evaluated r u (ok (r', some id)) =
      (e : Entry U X) × (s : Split u r.entries e) × (e.predicate u ≡ ok true)
      × (id ≡ e.id)
      × (r' ≡ record r {
        entries = s.before ++ s.after;
        settlements = (e.id, resolved u) ∷ r.settlements;
      })

  finalize-Split :
      (u : U) (r : Registry U X) (e : Entry U X) (s : Split u r.entries e)
      → IsOnce r
      → finalize e.id (resolved u) r ≡ record r {
        entries = s.before ++ s.after;
        settlements = (e.id, resolved u) ∷ r.settlements;
      }
  unfolding finalize
  finalize-Split u r e s h =
      let parts = entries-split r.entries s.before s.after e s.parts (pending-once r e.id h) in
      rw (parts.0, parts.1) refl

  -- Take a registry where each issued listener is pending or has settled once. If `evaluate` throws,
  -- it is what the first predicate throws that does not refuse the update. If it names a listener,
  -- that is the first one whose predicate does not refuse, and accepts: it alone is removed, and
  -- resolved with the update. If it names none, all predicates refuse and nothing changes.
  pub evaluate-Evaluated : (r : Registry U X) (u : U) → IsOnce r → Evaluated r u (evaluate r u)
  unfolding evaluate
  evaluate-Evaluated r u h = go (first_match u r.entries) (first_match-Found u r.entries)
    where
      go :
          (m : Result X (Option (Entry U X)))
          → Found u r.entries m
          → Evaluated r u (
              m >>= λ found. ok (elim found [
                | none ↦ (r, none)
                | some e ↦ (finalize e.id (resolved u) r, some e.id)
              ]))
      go (err x) f = f
      go (ok none) f = (f, refl)
      go (ok (some e)) f = (e, f.0, f.1, refl, finalize-Split u r e f.0 h)
