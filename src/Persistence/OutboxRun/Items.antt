-- ===== src/Persistence/OutboxRun/Items.antt =====
-- One item of a run: it is claimed in the table, others leave it alone, and its mark settles it.
use Prim.Native.String.{String}
use text.Mathlib.Text.{◌==◌ as str_eq}
use text.Mathlib.TextEquality.{eq_iff}
use wats.Base.{
  ℕ, ◌+◌, ◌≡◌, ◌≤◌, ◌∙◌, refl, sym, true, false, some, All, arith, inl, inr, Bool-cases,
  if◌then◌else◌,
}
use wats.Base.Result.{ok}
use wats.Persistence.Validation.{is_record_string}
use wats.Persistence.Table.{find}
use wats.Persistence.Outbox.{
  processing, Row, Store, row_key, update_where, is_row, is_lease_id, failed, finished,
}
use wats.Persistence.Outbox.Keys.{IsKeyed, IsOf, find-update_where, update_where-IsKeyed}
use wats.Persistence.Outbox.Kept.{Has}
use wats.Persistence.Outbox.History.{Spares, run, run-Has}
use wats.Persistence.Outbox.Closed.{run-closed}
use wats.Persistence.Outbox.Claimed.{
  IsMarkable, is_row_self, is_row-IsTestOf, find-update_where-other, mark_outbox_item_succeeded-ok,
  mark_outbox_item_failed-ok,
}
use wats.Persistence.OutboxRun.{
  Options, Turn, next_attempt, after_failure, fail_at, fail_item, after_success, mark_item,
  run_item,
}

-- The options, with a delay of the next attempt that is in range.
pub record IsTimed (o : Options) (delay : ℕ) : Type 0 where
  pub is_delay : o.retry_delay_ms ≡ some delay
  pub in_range : delay ≤ 86400000

module _ (o : Options) (delay : ℕ) (turn : Row → Turn) where
  -- The row of an item after its mark.
  abbrev pub settle : Turn → Row → Row
  settle t x = if t.handled then finished o.now x else failed (o.now + delay) o.now x

  -- No call of others, at any item, is a claim that is due to take the row or a mark of its lease.
  abbrev pub IsSpared : Row → Type 0
  IsSpared r = (y : Row) → All (Spares r) (turn y).others

  -- An item whose marks are accepted and which others leave alone, before its mark and after it.
  pub record IsItem (x : Row) : Type 0 where
    pub id_valid : is_record_string x.id ≡ true
    pub lease_valid : is_lease_id x.lease_id ≡ true
    pub is_processing : x.status ≡ processing
    pub success_sound : (turn x).success_fault ≡ false
    pub failure_sound : (turn x).failure_fault ≡ false
    pub spared : IsSpared x
    pub settled_spared : IsSpared (settle (turn x) x)

  -- The store after the mark of an item.
  abbrev pub settled_store : Store → Row → Store
  settled_store s x =
      let s₁ : Store = run (turn x).others s in
      record s₁ {
        rows = (update_where (is_row x.id processing x.lease_id) (settle (turn x)) s₁.rows).0;
      }

  next_attempt-ok : IsTimed o delay → next_attempt o.now o.retry_delay_ms ≡ ok (o.now + delay)
  unfolding next_attempt
  next_attempt-ok t = ground (arith, t.is_delay, t.in_range)

  settle-id : (t : Turn) (x : Row) → (settle t x).id ≡ x.id
  settle-id t x = ground arith

  markable :
      (s : Store) (x : Row)
      → IsItem x
      → s.closed ≡ false
      → IsKeyed s.rows
      → IsOf s.rows x
      → IsMarkable (run (turn x).others s) x
  markable s x i c w q =
      let has : Has x.id x (run (turn x).others s).rows =
        run-Has x.id x (turn x).others s (i.spared x) (record { keyed = w; is_found = q }) in
      record {
        is_open = run-closed (turn x).others s ∙ c;
        keyed = has.keyed;
        id_valid = i.id_valid;
        lease_valid = i.lease_valid;
        is_processing = i.is_processing;
        held = has.is_found;
      }

  pub run_item-settled_store :
      (s : Store) (x : Row)
      → IsTimed o delay
      → IsItem x
      → s.closed ≡ false
      → IsKeyed s.rows
      → IsOf s.rows x
      → run_item o (turn x) s x ≡ (settled_store s x, ok (turn x).handled)
  unfolding run_item mark_item fail_item fail_at after_failure after_success
  run_item-settled_store s x t i c w q =
      let m : IsMarkable (run (turn x).others s) x = markable s x i c w q in
      elim (Bool-cases ((turn x).handled)) [
        | inl y ↦
            rw (y, i.success_sound, mark_outbox_item_succeeded-ok (run (turn x).others s) x o.now m)
              refl
        | inr n ↦
            rw
              (
                n,
                i.failure_sound,
                next_attempt-ok t,
                mark_outbox_item_failed-ok (run (turn x).others s) x (o.now + delay) o.now m,
              )
              refl
      ]

  -- The row of a marked item.
  pub settled_store-settle :
      (s : Store) (x : Row)
      → IsItem x
      → s.closed ≡ false
      → IsKeyed s.rows
      → IsOf s.rows x
      → (IsKeyed (settled_store s x).rows)
        × (find row_key x.id (settled_store s x).rows ≡ some (settle (turn x) x))
        × ((settled_store s x).closed ≡ false)
  settled_store-settle s x i c w q =
      let m : IsMarkable (run (turn x).others s) x = markable s x i c w q in
      let own : is_row x.id processing x.lease_id x ≡ true =
        rw (sym (i.is_processing)) (is_row_self x) in
      (
        update_where-IsKeyed (is_row x.id processing x.lease_id) (settle (turn x))
            (run (turn x).others s).rows (settle-id (turn x)) (m.keyed),
        find-update_where x.id (is_row x.id processing x.lease_id) (settle (turn x))
              (run (turn x).others s).rows x (settle-id (turn x)) (m.held)
            ∙ rw own refl,
        m.is_open,
      )

  -- Another row that is spared stands.
  pub settled_store-other :
      (s : Store) (x : Row) (k : String) (r : Row)
      → IsSpared r
      → str_eq x.id k ≡ false
      → IsKeyed s.rows
      → find row_key k s.rows ≡ some r
      → find row_key k (settled_store s x).rows ≡ some r
  settled_store-other s x k r spared n w q =
      let has : Has k r (run (turn x).others s).rows =
        run-Has k r (turn x).others s (spared x) (record { keyed = w; is_found = q }) in
      find-update_where-other x.id k (is_row x.id processing x.lease_id) (settle (turn x))
        (run (turn x).others s).rows r (is_row-IsTestOf x.id processing x.lease_id)
        (settle-id (turn x)) (ground (arith, n, eq_iff x.id k, eq_iff k x.id)) (has.is_found)
