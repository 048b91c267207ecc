-- ===== src/Persistence/Table.antt =====
-- SQL tables with a text as their primary key, as packages/persistence/src/sqlite.ts uses them: the
-- rows in the order of their insertion, found by the key.
pub mod Laws
use Prim.Native.String.{String}
use text.Mathlib.Text.{◌==◌ as str_eq}
use wats.Base.{ℕ, Bool, true, false, Option, none, some, List, [], ◌∷◌, if◌then◌else◌}

module _ {ℓ} {Row : Type ℓ} (key : Row → String) where
  -- `SELECT … WHERE key = ?`
  unfoldable pub find : String → List Row → Option Row
  find k [] = none
  find k (r ∷ rows) = if str_eq (key r) k then some r else find k rows

  -- The table with a new row, in its last place.
  unfoldable pub append : Row → List Row → List Row
  append r [] = r ∷ []
  append r (x ∷ rows) = x ∷ append r rows

  -- `UPDATE … WHERE key = ?`
  unfoldable pub modify : String → (Row → Row) → List Row → List Row
  modify k f [] = []
  modify k f (r ∷ rows) = if str_eq (key r) k then f r ∷ rows else r ∷ modify k f rows
