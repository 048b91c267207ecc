-- ===== src/Persistence/Table/Laws.antt =====
-- Reading a table after a change.
use Prim.Native.String.{String}
use text.Mathlib.Text.{◌==◌ as str_eq}
use text.Mathlib.TextEquality.{eq_iff}
use mathlib.Core.Option
use wats.Base.{◌≡◌, refl, none, some, List, [], ◌∷◌, arith, if◌then◌else◌}
use wats.Persistence.Table.{find, append, modify}

module _ {ℓ} {Row : Type ℓ} (key : Row → String) where
  pub find-append :
      (k : String) (r : Row) (rows : List Row)
      → find key k (append key r rows) ≡ (elim (find key k rows) [
        | some x ↦ some x
        | none ↦ if str_eq (key r) k then some r else none
      ])
  unfolding find append
  find-append k r [] = refl
  find-append k r (x ∷ rows) = ground (arith, find-append k r rows)

  pub find-modify :
      (k j : String) (f : Row → Row) (rows : List Row)
      → ((r : Row) → key (f r) ≡ key r)
      → find key j (modify key k f rows)
        ≡ (if str_eq k j then Option.map f (find key k rows) else find key j rows)
  unfolding find modify
  find-modify k j f [] h = ground arith
  find-modify k j f (x ∷ rows) h =
      ground (arith, h x, eq_iff k j, eq_iff (key x) k, eq_iff (key x) j, find-modify k j f rows h)

  -- What is found has the key.
  pub find-key : (k : String) (r : Row) (rows : List Row) → find key k rows ≡ some r → key r ≡ k
  unfolding find
  find-key k r [] h = cc
  find-key k r (x ∷ rows) h = ground (arith, eq_iff (key x) k, find-key k r rows)
