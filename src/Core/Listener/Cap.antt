-- ===== src/Core/Listener/Cap.antt =====
-- The cap on the pending listeners, and the theorem on all histories.
use wats.Base.{
  ℕ, ◌≡◌, ◌≤◌, refl, Bool, true, false, Option, none, some, List, [], ◌∷◌, length, ltb, arith, keep,
  length-append, ltb→lt,
}
use wats.Base.Result.{Result, ok, err, ◌>>=◌, ◌>>◌, guard}
use wats.Core.Listener.{
  Settlement, Entry, Registry, Options, OptionsError, Value, delete, finalize, finalize_all, enter,
  register, evaluate, first_match, ids, clear, on_timeout, on_abort, cancel, same_id, active_count,
  cancelled, timed_out, registry_cleared, signal_aborted, create_listener_registry,
  validate_registry_options, max_listeners_exceeded, resolved, new_entry,
}
use wats.Core.Listener.Settled.{total, pending, settled}
use wats.Core.Listener.Calls.{
  Call, registers, evaluates, times_out, aborts, cancels, clears, step, run, or_same, IsOnce,
  run-IsOnce,
}

module _ {U X : Type 0} where
  -- At most `n` listeners are pending, and `n` is the cap.
  record IsCapped (n : ℕ) (r : Registry U X) : Type 0 where
    pub cap : r.max_active ≡ n
    pub at_most : length r.entries ≤ n

  length-delete : (id : ℕ) (es : List (Entry U X)) → length (delete id es) ≤ length es
  unfolding delete
  length-delete id [] = omega arith
  length-delete id (e ∷ es) = ground (arith, length-delete id es)

  finalize-IsCapped :
      (n id : ℕ) (o : Settlement U) (r : Registry U X) → IsCapped n r → IsCapped n (finalize id o r)
  unfolding finalize
  finalize-IsCapped n id o r h = record {
    cap = ground (arith, h.cap);
    at_most = ground (arith, h.at_most, length-delete id r.entries);
  }

  finalize_all-IsCapped :
      (n : ℕ) (js : List ℕ) (o : Settlement U) (r : Registry U X)
      → IsCapped n r
      → IsCapped n (finalize_all js o r)
  unfolding finalize_all
  finalize_all-IsCapped n [] o r h = h
  finalize_all-IsCapped n (j ∷ js) o r h =
      finalize_all-IsCapped n js o (finalize j o r) (finalize-IsCapped n j o r h)

  enter-IsCapped :
      (n : ℕ) (f : U → Result X Bool) (o : Options) (r : Registry U X)
      → IsCapped n r
      → ltb (active_count r) r.max_active ≡ true
      → IsCapped n (enter f o r)
  unfolding enter active_count
  enter-IsCapped n f o r h q = record {
    cap = ground (arith, h.cap);
    at_most = ground (
      arith,
      h.cap,
      h.at_most,
      ltb→lt (length r.entries) r.max_active q,
      length-append r.entries (new_entry r.next_id f o ∷ []),
    );
  }

  checked-IsCapped :
      (n : ℕ) (r : Registry U X) (v : Result OptionsError (Unit {0})) (b : Bool)
      (x : Registry U X × ℕ)
      → IsCapped n r
      → (b ≡ true → IsCapped n x.0)
      → IsCapped n (or_same r (v >> (guard b max_listeners_exceeded >> ok x)))
  checked-IsCapped n r (err e) b x h g = h
  checked-IsCapped n r (ok _) false x h g = h
  checked-IsCapped n r (ok _) true x h g = g refl

  found-IsCapped :
      (n : ℕ) (r : Registry U X) (u : U) (m : Result X (Option (Entry U X)))
      → IsCapped n r
      → IsCapped n (
          or_same r (
            m >>= λ found.
            ok (elim found [
              | none ↦ (r, none)
              | some e ↦ (finalize e.id (resolved u) r, some e.id)
            ])))
  found-IsCapped n r u (err x) h = h
  found-IsCapped n r u (ok none) h = h
  found-IsCapped n r u (ok (some e)) h = finalize-IsCapped n e.id (resolved u) r h

  clear-IsCapped : (n : ℕ) (r : Registry U X) → IsCapped n r → IsCapped n (clear r)
  unfolding clear
  clear-IsCapped n r h = record {
    cap = (finalize_all-IsCapped n (ids r.entries) registry_cleared r h).cap;
    at_most = omega arith;
  }

  step-IsCapped : (n : ℕ) (r : Registry U X) (c : Call U X) → IsCapped n r → IsCapped n (step r c)
  unfolding step on_timeout on_abort cancel register evaluate
  step-IsCapped n r (registers none o) h = h
  step-IsCapped n r (registers (some f) o) h =
      checked-IsCapped n r _ _ (enter f o r, r.next_id) h (enter-IsCapped n f o r h)
  step-IsCapped n r (evaluates u) h = found-IsCapped n r u (first_match u r.entries) h
  step-IsCapped n r (times_out id ms) h = finalize-IsCapped n id (timed_out ms) r h
  step-IsCapped n r (cancels id) h = finalize-IsCapped n id cancelled r h
  step-IsCapped n r (aborts signal) h =
      finalize_all-IsCapped n (ids (keep (λ e. same_id e.signal signal) r.entries)) signal_aborted r
        h
  step-IsCapped n r clears h = clear-IsCapped n r h

  run-IsCapped :
      (n : ℕ) (calls : List (Call U X)) (r : Registry U X) → IsCapped n r → IsCapped n (run calls r)
  unfolding run
  run-IsCapped n [] r h = h
  run-IsCapped n (c ∷ calls) r h = run-IsCapped n calls (step r c) (step-IsCapped n r c h)

  created-fresh :
      (max_active : Value ℕ) (r : Registry U X)
      → create_listener_registry max_active ≡ ok r
      → (r.entries ≡ []) × (r.settlements ≡ []) × (r.next_id ≡ 0)
  unfolding create_listener_registry validate_registry_options
  created-fresh max_active r h = ground arith

  fresh-IsOnce :
      (r : Registry U X)
      → r.entries ≡ []
      → r.settlements ≡ []
      → r.next_id ≡ 0
      → IsOnce r × IsCapped r.max_active r
  unfolding total pending settled
  fresh-IsOnce r e s n =
      ((λ id. rw (e, s, n) (ground arith)), record { cap = refl; at_most = rw e (omega arith) })

  -- Take a registry that was created, and any calls, timers and aborts on it. Each listener that
  -- was issued is pending and unsettled, or it has settled once and is not pending; no other id is
  -- among the pending listeners or the settlements; and no more listeners are pending than the
  -- registry's maximum.
  pub run-IsOnce-IsCapped :
      (max_active : Value ℕ) (r : Registry U X) (calls : List (Call U X))
      → create_listener_registry max_active ≡ ok r
      → IsOnce (run calls r) × (active_count (run calls r) ≤ r.max_active)
  unfolding active_count
  run-IsOnce-IsCapped max_active r calls h =
      let fresh = created-fresh max_active r h in
      let start = fresh-IsOnce r fresh.0 fresh.1 fresh.2 in
      (run-IsOnce calls r start.0, (run-IsCapped r.max_active calls r start.1).at_most)
