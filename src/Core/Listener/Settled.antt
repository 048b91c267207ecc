-- ===== src/Core/Listener/Settled.antt =====
-- Every listener is pending or has settled once.
use wats.Base.{
  ℕ, ◌+◌, ◌≡◌, ◌∙◌, refl, Bool, List, [], ◌∷◌, ◌++◌, any, ◌==◌, ◌&&◌, arith, ==_refl, if◌then◌else◌,
}
use wats.Base.Result.{Result}
use wats.Core.Listener.{
  Settlement, Entry, Registry, Options, delete, has_id, finalize, finalize_all, enter, ids, clear,
  registry_cleared, new_entry,
}

abbrev pub one_if : Bool → ℕ
one_if b = if b then 1 else 0

unfoldable pub settled {ℓ} : {U : Type ℓ} → ℕ → List (ℕ × Settlement U) → ℕ
settled id [] = 0
settled id ((j, o) ∷ rest) = one_if (j == id) + settled id rest

module _ {U X : Type 0} where
  unfoldable pub pending : ℕ → List (Entry U X) → ℕ
  pending id [] = 0
  pending id (e ∷ es) = one_if (e.id == id) + pending id es

  -- How often a listener stands among the pending ones and the settlements.
  unfoldable pub total : ℕ → Registry U X → ℕ
  total id r = pending id r.entries + settled id r.settlements

  pending-delete :
      (id j : ℕ) (es : List (Entry U X))
      → pending id es ≡ pending id (delete j es) + one_if (any (has_id j) es && j == id)
  unfolding pending delete
  pending-delete id j [] = ground arith
  pending-delete id j (e ∷ es) = ground (arith, pending-delete id j es)

  pub total-finalize :
      (id j : ℕ) (o : Settlement U) (r : Registry U X) → total id (finalize j o r) ≡ total id r
  unfolding total settled finalize
  total-finalize id j o r = ground (arith, pending-delete id j r.entries)

  pub total-finalize_all :
      (id : ℕ) (js : List ℕ) (o : Settlement U) (r : Registry U X)
      → total id (finalize_all js o r) ≡ total id r
  unfolding finalize_all
  total-finalize_all id [] o r = refl
  total-finalize_all id (j ∷ js) o r =
      omega (arith, total-finalize_all id js o (finalize j o r), total-finalize id j o r)

  finalize-first :
      (o : Settlement U) (e : Entry U X) (es : List (Entry U X)) (r : Registry U X)
      → r.entries ≡ e ∷ es
      → (finalize e.id o r).entries ≡ es
  unfolding finalize delete
  finalize-first o e es r h = ground (arith, ==_refl e.id)

  finalize_all-ids :
      (o : Settlement U) (es : List (Entry U X)) (r : Registry U X)
      → r.entries ≡ es
      → (finalize_all (ids es) o r).entries ≡ []
  unfolding finalize_all ids
  finalize_all-ids o [] r h = h
  finalize_all-ids o (e ∷ es) r h =
      finalize_all-ids o es (finalize e.id o r) (finalize-first o e es r h)

  pending-append :
      (id : ℕ) (xs ys : List (Entry U X)) → pending id (xs ++ ys) ≡ pending id xs + pending id ys
  unfolding pending
  pending-append id [] ys = omega arith
  pending-append id (x ∷ xs) ys = omega (arith, pending-append id xs ys)

  pub total-enter :
      (id : ℕ) (f : U → Result X Bool) (o : Options) (r : Registry U X)
      → total id (enter f o r) ≡ total id r + one_if (r.next_id == id)
  unfolding total settled enter pending new_entry
  total-enter id f o r = ground (arith, pending-append id r.entries (new_entry r.next_id f o ∷ []))

  total-empty :
      (id : ℕ) (s : Registry U X)
      → s.entries ≡ []
      → total id (record s { entries = [] }) ≡ total id s
  unfolding total pending
  total-empty id s h = rw h refl

  pub total-clear : (id : ℕ) (r : Registry U X) → total id (clear r) ≡ total id r
  unfolding clear
  total-clear id r =
      total-empty id (finalize_all (ids r.entries) registry_cleared r)
        (finalize_all-ids registry_cleared r.entries r refl)
      ∙ total-finalize_all id (ids r.entries) registry_cleared r
