-- ===== src/Persistence/OutboxRun/Settled.antt =====
-- A run of the worker settles every item that it claims.
use Prim.Native.String.{String}
use wats.Base.{ℕ, suc, ◌≡◌, none, some, List, [], ◌∷◌, map, All, if◌then◌else◌}
use wats.Base.Result.{ok}
use wats.Persistence.Table.{find}
use wats.Persistence.Outbox.{Row, Store, row_key, claimed, selected}
use wats.Persistence.OutboxRun.{Options, Turn, work}
use wats.Persistence.OutboxRun.Items.{settle, IsSpared}

module _ (o : Options) (delay : ℕ) (turn : Row → Turn) where
  -- How many items' handlers return, and how many throw.
  pub successes : List Row → ℕ
  successes [] = 0
  successes (x ∷ xs) = let n = successes xs in if (turn x).handled then suc n else n

  pub failures : List Row → ℕ
  failures [] = 0
  failures (x ∷ xs) = let n = failures xs in if (turn x).handled then n else suc n

  -- The loop ends with the counts, the items are settled, and spared rows stand.
  record Worked (xs : List Row) (s : Store) : Type 0 where
    after : Store
    is_worked : work o turn xs s ≡ (after, ok (successes xs, failures xs))
    settled : All (λ x. find row_key x.id after.rows ≡ some (settle o delay turn (turn x) x)) xs
    kept :
        (k : String) (r : Row)
        → find row_key k xs ≡ none
        → IsSpared o delay turn r
        → find row_key k s.rows ≡ some r
        → find row_key k after.rows ≡ some r

  abbrev pub items : Store → List Row
  items s = map (claimed o.now) (selected o.now o.limit s.rows)
