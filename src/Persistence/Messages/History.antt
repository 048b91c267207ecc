-- ===== src/Persistence/Messages/History.antt =====
-- Histories of calls on the message tables, and the status that a message has in the end.
use Prim.Native.String.{String}
use wats.Base.{
  ℕ, ◌≡◌, ◌∙◌, refl, inl, inr, false, none, some, List, [], ◌∷◌, ◌++◌, max, any, keep, All, arith,
  Bool-cases, ap, if-true, if-false,
}
use wats.Base.Result.{ok}
use wats.Persistence.Messages.{
  Message, Store, clashes, find_message, is_of, append_rows, record_rows, validate_message,
}
use wats.Persistence.Messages.Rank.{weight, top, IsRanked, top-insert_event}
use wats.Persistence.Messages.Order.{
  meet, reconciled, find-record_rows, find-record_rows-other, find-append_rows,
  find-append_rows-none,
}
use wats.Persistence.Messages.Calls.{
  appends, records, Call, step, run, is_accepted, highest, IsOther, Outcome, step-appends,
  is_recorded, step-records, is_recorded-valid, step-closed, meet-Grown, reconciled-Grown, outcome,
}

-- One call after the message is there.
step-Outcome :
    (id : String) (m : Message) (r : ℕ) (s : Store) (c : Call)
    → s.closed ≡ false
    → IsOther id c
    → Outcome id m r s
    → Outcome id m (max r (highest id (c ∷ []))) (step s c)
unfolding highest
step-Outcome id m r s (records fault x) h o out =
    let same = step-records s fault x h in
    elim (Bool-cases (is_recorded fault x)) [
      | inr n ↦
          outcome id m out.found r _ s _ (same ∙ if-false _ _ n) out.is_found out.grown
            (omega arith)
      | inl y ↦
          outcome id m out.found r _ (record_rows s x) _ (same ∙ if-true _ _ y)
            (find-record_rows-other id x s o ∙ out.is_found) out.grown (omega arith)
    ]
step-Outcome id m r s (appends fault e) h o out =
    let same = step-appends s fault e h in
    let found = find-append_rows id e out.found s out.is_found in
    elim (Bool-cases (is_accepted fault e)) [
      | inr n ↦
          outcome id m out.found r _ s _ (same ∙ if-false _ _ n) out.is_found out.grown
            (rw n (omega arith))
      | inl y ↦ elim (Bool-cases (is_of id e)) [
        | inr n ↦
            outcome id m out.found r _ (append_rows s e) _ (same ∙ if-true _ _ y)
              (found ∙ ap some (if-false _ _ n)) out.grown (rw (y, n) (omega arith))
        | inl z ↦
            outcome id m (meet e out.found) (max r (weight e.status)) _ (append_rows s e) _
              (same ∙ if-true _ _ y) (found ∙ ap some (if-true _ _ z))
              (meet-Grown m out.found r e out.grown) (rw (y, z) (omega arith))
      ]
    ]

highest-cons :
    (id : String) (c : Call) (calls : List Call)
    → highest id (c ∷ calls) ≡ max (highest id (c ∷ [])) (highest id calls)
unfolding highest
highest-cons id (appends fault e) calls = ground arith
highest-cons id (records fault m) calls = ground arith

highest-append :
    (id : String) (xs ys : List Call) → highest id (xs ++ ys) ≡ max (highest id xs) (highest id ys)
unfolding highest
highest-append id [] ys = omega arith
highest-append id (x ∷ xs) ys =
    omega (arith, highest-cons id x (xs ++ ys), highest-cons id x xs, highest-append id xs ys)

run-Outcome :
    (id : String) (m : Message) (calls : List Call) (r : ℕ) (s : Store)
    → s.closed ≡ false
    → All (IsOther id) calls
    → Outcome id m r s
    → Outcome id m (max r (highest id calls)) (run calls s)
unfolding run highest
run-Outcome id m [] r s h o out =
    outcome id m out.found r _ s _ refl out.is_found out.grown (omega arith)
run-Outcome id m (c ∷ calls) r s h o out =
    let more =
      run-Outcome id m calls _ (step s c) (step-closed s c h) o.1
        (step-Outcome id m r s c h o.0 out) in
    outcome id m more.found _ _ (run calls (step s c)) _ refl more.is_found more.grown
      (omega (arith, highest-cons id c calls))

-- Before the message is recorded, its events are kept.
record Early (id : String) (r : ℕ) (s : Store) : Type 0 where
  pub is_open : s.closed ≡ false
  pub missing : find_message id s.messages ≡ none
  pub kept : top (keep (is_of id) s.events) ≡ r

step-Early :
    (id : String) (r : ℕ) (s : Store) (c : Call)
    → IsOther id c
    → Early id r s
    → Early id (max r (highest id (c ∷ []))) (step s c)
unfolding highest append_rows record_rows
step-Early id r s (records fault x) o early = record {
  is_open = step-closed s (records fault x) early.is_open;
  missing =
      rw (step-records s fault x early.is_open) ground
        (arith, find-record_rows-other id x s o, early.missing);
  kept = rw (step-records s fault x early.is_open) ground (arith, early.kept);
}
step-Early id r s (appends fault e) o early = record {
  is_open = step-closed s (appends fault e) early.is_open;
  missing =
      rw (step-appends s fault e early.is_open) ground
        (arith, find-append_rows-none id e s early.missing, early.missing);
  kept =
      rw (step-appends s fault e early.is_open) ground
        (arith, early.kept, top-insert_event id e s.events);
}

run-Early :
    (id : String) (calls : List Call) (r : ℕ) (s : Store)
    → All (IsOther id) calls
    → Early id r s
    → Early id (max r (highest id calls)) (run calls s)
unfolding run highest
run-Early id [] r s o early = record {
  is_open = early.is_open;
  missing = early.missing;
  kept = omega (arith, early.kept);
}
run-Early id (c ∷ calls) r s o early =
    let more = run-Early id calls _ (step s c) o.1 (step-Early id r s c o.0 early) in
    record {
      is_open = more.is_open;
      missing = more.missing;
      kept = omega (arith, more.kept, highest-cons id c calls);
    }

run-append : (xs ys : List Call) (s : Store) → run (xs ++ ys) s ≡ run ys (run xs s)
unfolding run
run-append [] ys s = refl
run-append (x ∷ xs) ys s = run-append xs ys (step s x)

record-Outcome :
    (m : Message) (r : ℕ) (s : Store)
    → Early m.wa_message_id r s
    → validate_message m ≡ ok tt
    → IsRanked m.status
    → any (clashes m) s.messages ≡ false
    → Outcome m.wa_message_id m (max (weight m.status) r) (step s (records false m))
record-Outcome m r s early v h n =
    outcome m.wa_message_id m (reconciled s.events m) _ _ (record_rows s m) _
      (step-records s false m early.is_open ∙ if-true _ _ (is_recorded-valid m v))
      (find-record_rows m s n early.missing) (reconciled-Grown s.events m h)
      (omega (arith, early.kept))

-- Let `read` be above `delivered`, that above `failed`, that above `sent`, and that above all other
-- statuses. Take an open store without the message, and a valid message whose status has a rank and
-- whose keys are free when it is recorded between other calls, none of which records this message
-- again. In the end, whatever the order of the calls, the message is found and its status stands at
-- the highest of these steps that the recorded status, the events of the store at the start and the
-- accepted events of all calls reach; its time of update is not before the recorded one, and the
-- other columns are as recorded.
pub run-Outcome-recorded :
    (s : Store) (m : Message) (before after : List Call)
    → s.closed ≡ false
    → find_message m.wa_message_id s.messages ≡ none
    → validate_message m ≡ ok tt
    → IsRanked m.status
    → All (IsOther m.wa_message_id) before
    → All (IsOther m.wa_message_id) after
    → any (clashes m) (run before s).messages ≡ false
    → Outcome m.wa_message_id m
        (max
          (max (weight m.status) (top (keep (is_of m.wa_message_id) s.events)))
          (highest m.wa_message_id (before ++ after)))
        (run (before ++ (records false m ∷ after)) s)
unfolding run
run-Outcome-recorded s m before after h n v q ob oa c =
    let id = m.wa_message_id in
    let start : Early id (top (keep (is_of id) s.events)) s = record {
      is_open = h;
      missing = n;
      kept = refl;
    } in
    let early = run-Early id before _ s ob start in
    let recorded = record-Outcome m _ (run before s) early v q c in
    let out =
      run-Outcome id m after _ _ (step-closed (run before s) (records false m) early.is_open) oa
        recorded in
    outcome id m out.found _ _ _ _ (run-append before (records false m ∷ after) s) out.is_found
      out.grown (omega (arith, highest-append id before after))
