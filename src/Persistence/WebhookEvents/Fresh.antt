-- ===== src/Persistence/WebhookEvents/Fresh.antt =====
-- Which keys the table of webhook events has room for.
use Prim.Native.String.{String}
use text.Mathlib.Text.{◌==◌ as str_eq}
use text.Mathlib.TextEquality.{eq_iff}
use wats.Base.{
  ℕ, ◌+◌, ◌≤◌, ◌≡◌, inl, inr, Bool, true, false, not, Option, none, some, arith, Option-cases,
  if◌then◌else◌,
}
use wats.Base.Result.{Result, ok, err, guard, ◌>>=◌}
use wats.Persistence.Validation.{
  ErrorCode, invalid_record, migration_failed, store_closed, is_record_string,
}
use wats.Persistence.Table.{find}
use wats.Persistence.Table.Laws.{find-append}
use wats.Persistence.WebhookEvents.{
  Row, Store, row_key, RecordResult, recorded, duplicate, insert_event, record_webhook_event,
}

abbrev pub room : Option Row → ℕ
room none = 1
room (some r) = 0

-- 1 for a key that is not in the table, 0 for one that is.
pub fresh : String → Store → ℕ
fresh k s = room (find row_key k s.rows)

abbrev pub hits : String → String → ℕ
hits k key = if str_eq key k then 1 else 0

-- What recording a key does, as seen by the key `k`.
pub data Recording (k key : String) (s : Store)
    : Result ErrorCode (Store × RecordResult) → Type 0 where
  as_new :
      (s' : Store) → fresh k s ≡ hits k key + fresh k s' → Recording k key s (ok (s', recorded))
  as_known : (str_eq key k ≡ true → fresh k s ≡ 0) → Recording k key s (ok (s, duplicate))
  refused : (e : ErrorCode) → Recording k key s (err e)

insert_event-Recording :
    (k : String) (r : Row) (s : Store) → Recording k r.event_key s (ok (insert_event r s))
unfolding insert_event fresh
insert_event-Recording k r s = elim (Option-cases (find row_key r.event_key s.rows)) [
  | inl e ↦
      rw (e, insert_event)
        (as_new _ (ground (arith, e, find-append row_key k r s.rows, eq_iff r.event_key k)))
  | inr (old, e) ↦ rw (e, insert_event) (as_known (λ h. ground (arith, e, eq_iff r.event_key k)))
]

guard-Recording :
    (k key : String) (s : Store) (test : Bool) (e : ErrorCode)
    (m : Result ErrorCode (Store × RecordResult))
    → Recording k key s m
    → Recording k key s (guard test e >>= λ _. m)
guard-Recording k key s true e m r = r
guard-Recording k key s false e m r = refused e

-- The method refuses a call, or it inserts the event.
pub record_webhook_event-Recording :
    (k : String) (fault : Bool) (s : Store) (key hash : String) (at : ℕ)
    → Recording k key s (record_webhook_event fault s key hash at)
unfolding record_webhook_event
record_webhook_event-Recording k fault s key hash at =
    guard-Recording k key s (not s.closed) store_closed _ (
      guard-Recording k key s (is_record_string key) invalid_record _ (
        guard-Recording k key s (is_record_string hash) invalid_record _ (
          guard-Recording k key s (not fault) migration_failed _ (
            insert_event-Recording k
              (record { event_key = key; event_hash = hash; received_at = at }) s))))

pub fresh-le : (k : String) (s : Store) → fresh k s ≤ 1
unfolding fresh
fresh-le k s = ground arith

pub fresh_used :
    (k key : String) (s s' : Store)
    → fresh k s ≡ hits k key + fresh k s'
    → str_eq key k ≡ true
    → fresh k s' ≡ 0
fresh_used k key s s' e h = ground (arith, fresh-le k s)
