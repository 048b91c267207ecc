-- ===== src/Persistence/Outbox/Claimed.antt =====
-- What a claim of items that nothing disturbs does to the table, and the marks after it.
use Prim.Native.String.{String}
use text.Mathlib.Text.{◌==◌ as str_eq}
use text.Mathlib.TextEquality.{eq_iff}
use wats.Base.{
  ℕ, ◌≡◌, ◌≤◌, ◌∙◌, refl, sym, Bool, true, false, ◌&&◌, none, some, List, [], ◌∷◌, map, All, arith,
  leb, ==_refl,
}
use wats.Base.Result.{ok}
use wats.Persistence.Validation.{is_record_string}
use wats.Persistence.Table.{find}
use wats.Persistence.Table.Laws.{find-key}
use wats.Persistence.Outbox.{
  Status, processing, Row, Store, row_key, update_where, update_one, is_row, claimed, claim_rows,
  selected, claim_outbox_items, is_lease_id, failed, finished, mark_outbox_item_failed,
  mark_outbox_item_succeeded,
}
use wats.Persistence.Outbox.Keys.{
  IsKeyed, IsOf, IsTaken, find-update_where, update_where-IsKeyed, selected-IsTaken,
}
use wats.Persistence.Outbox.Updates.{IsTestOf, update_one-ok, selected-IsKeyed}

pub is_row-IsTestOf :
    (id : String) (status : Status) (lease : ℕ) → IsTestOf id (is_row id status lease)
unfolding is_row
is_row-IsTestOf id status lease x h = ground (arith, h, eq_iff x.id id)

pub is_row_self : (x : Row) → is_row x.id x.status x.lease_id x ≡ true
unfolding is_row
is_row_self x = ground (arith, eq_iff x.id x.id, ==_refl x.lease_id)

-- A row of another key is not changed by an update of the rows of a key.
pub find-update_where-other :
    (k j : String) (p : Row → Bool) (f : Row → Row) (rows : List Row) (r : Row)
    → IsTestOf k p
    → ((x : Row) → (f x).id ≡ x.id)
    → str_eq j k ≡ false
    → find row_key j rows ≡ some r
    → find row_key j (update_where p f rows).0 ≡ some r
find-update_where-other k j p f rows r t h n q =
    ground
      (arith, find-update_where j p f rows r h q, t r, find-key row_key j r rows q, eq_iff j k, n)

others-IsOf :
    (k : String) (p : Row → Bool) (f : Row → Row) (rows sel : List Row)
    → IsTestOf k p
    → ((x : Row) → (f x).id ≡ x.id)
    → find row_key k sel ≡ none
    → All (IsOf rows) sel
    → All (IsOf (update_where p f rows).0) sel
unfolding find
others-IsOf k p f rows [] t h n q = tt
others-IsOf k p f rows (y ∷ sel) t h n q = (
  find-update_where-other k y.id p f rows y t h (ground (arith, n)) (q.0),
  others-IsOf k p f rows sel t h (ground (arith, n)) (q.1),
)

-- What the statements of a claim give: each row that was read is claimed, the others stand.
pub record Claim (now : ℕ) (sel rows : List Row) : Type 0 where
  pub after : List Row
  pub is_claimed : claim_rows now sel rows ≡ ok after
  pub keyed : IsKeyed after
  pub taken : All (λ x. find row_key x.id after ≡ some (claimed now x)) sel
  pub kept :
      (k : String) (r : Row)
      → find row_key k sel ≡ none
      → find row_key k rows ≡ some r
      → find row_key k after ≡ some r

pub claimed-id : (now : ℕ) (x : Row) → (claimed now x).id ≡ x.id
unfolding claimed
claimed-id now x = refl

pub claim_rows-Claim :
    (now : ℕ) (sel rows : List Row)
    → IsKeyed sel
    → IsKeyed rows
    → All (IsOf rows) sel
    → Claim now sel rows
unfolding claim_rows find
claim_rows-Claim now [] rows d w q = record {
  after = rows;
  is_claimed = refl;
  keyed = w;
  taken = tt;
  kept = λ k r n h. h;
}
claim_rows-Claim now (x ∷ sel) rows d w q =
    let p : Row → Bool = is_row x.id x.status x.lease_id in
    let t : IsTestOf x.id p = is_row-IsTestOf x.id x.status x.lease_id in
    let id_kept : (y : Row) → (claimed now y).id ≡ y.id = claimed-id now in
    let c : Claim now sel (update_where p (claimed now) rows).0 =
      claim_rows-Claim now sel (update_where p (claimed now) rows).0 (d.1)
        (update_where-IsKeyed p (claimed now) rows id_kept w)
        (others-IsOf x.id p (claimed now) rows sel t id_kept (d.0) (q.1)) in
    record {
      after = c.after;
      is_claimed =
          rw (update_one-ok x.id p (claimed now) rows x t w (q.0) (is_row_self x)) (c.is_claimed);
      keyed = c.keyed;
      taken = (
        c.kept x.id (claimed now x) (d.0)
            (find-update_where x.id p (claimed now) rows x id_kept (q.0) ∙ rw (is_row_self x) refl),
        c.taken,
      );
      kept = λ k r n h. c.kept k r (ground (arith, n)) (
          find-update_where-other x.id k p (claimed now) rows r t id_kept
            (ground (arith, n, eq_iff x.id k, eq_iff k x.id)) h);
    }

taken-IsOf : (now : ℕ) (rows sel : List Row) → All (IsTaken now rows) sel → All (IsOf rows) sel
taken-IsOf now rows [] h = tt
taken-IsOf now rows (x ∷ sel) h = (h.0.0, taken-IsOf now rows sel (h.1))

-- A claim on an open store.
pub claim_outbox_items-Claim :
    (s : Store) (now limit : ℕ)
    → s.closed ≡ false
    → 1 ≤ limit
    → limit ≤ 100
    → IsKeyed s.rows
    → (c : Claim now (selected now limit s.rows) s.rows) × (claim_outbox_items false s now limit
        ≡ ok (record s { rows = c.after }, map (claimed now) (selected now limit s.rows)))
unfolding claim_outbox_items
claim_outbox_items-Claim s now limit o l m w =
    let c : Claim now (selected now limit s.rows) s.rows =
      claim_rows-Claim now (selected now limit s.rows) s.rows (selected-IsKeyed now limit s.rows w)
        w
        (taken-IsOf now s.rows (selected now limit s.rows) (selected-IsTaken now limit s.rows w)) in
    let in_range : leb 1 limit && leb limit 100 ≡ true = ground arith in
    (c, rw (o, in_range, c.is_claimed) refl)

-- The item is claimed in the table, and its mark is accepted: its key and its lease are valid.
pub record IsMarkable (s : Store) (item : Row) : Type 0 where
  pub is_open : s.closed ≡ false
  pub keyed : IsKeyed s.rows
  pub id_valid : is_record_string item.id ≡ true
  pub lease_valid : is_lease_id item.lease_id ≡ true
  pub is_processing : item.status ≡ processing
  pub held : find row_key item.id s.rows ≡ some item

update_one-markable :
    (s : Store) (item : Row) (f : Row → Row)
    → IsMarkable s item
    → update_one (is_row item.id processing item.lease_id) f s.rows
      ≡ ok (update_where (is_row item.id processing item.lease_id) f s.rows).0
update_one-markable s item f m =
    update_one-ok item.id (is_row item.id processing item.lease_id) f s.rows item
      (is_row-IsTestOf item.id processing item.lease_id) (m.keyed) (m.held)
      (rw (sym (m.is_processing)) (is_row_self item))

pub mark_outbox_item_succeeded-ok :
    (s : Store) (item : Row) (now : ℕ)
    → IsMarkable s item
    → mark_outbox_item_succeeded false s item.id item.lease_id now
      ≡ ok (record s {
        rows = (update_where (is_row item.id processing item.lease_id) (finished now) s.rows).0;
      })
unfolding mark_outbox_item_succeeded
mark_outbox_item_succeeded-ok s item now m =
    rw (m.is_open, m.id_valid, m.lease_valid, update_one-markable s item (finished now) m) refl

pub mark_outbox_item_failed-ok :
    (s : Store) (item : Row) (next now : ℕ)
    → IsMarkable s item
    → mark_outbox_item_failed false s item.id item.lease_id next now
      ≡ ok (record s {
        rows = (update_where (is_row item.id processing item.lease_id) (failed next now) s.rows).0;
      })
unfolding mark_outbox_item_failed
mark_outbox_item_failed-ok s item next now m =
    rw (m.is_open, m.id_valid, m.lease_valid, update_one-markable s item (failed next now) m) refl
