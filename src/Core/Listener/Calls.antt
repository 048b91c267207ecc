-- ===== src/Core/Listener/Calls.antt =====
-- Histories of the registry's operations, of timers and of signals.
use wats.Base.{ℕ, suc, ◌≡◌, ◌∙◌, refl, Bool, Option, none, some, List, [], ◌∷◌, ltb, arith, keep}
use wats.Base.Result.{Result, ok, err, ◌>>=◌, ◌>>◌}
use wats.Core.Listener.{
  Settlement, Entry, Registry, Options, OptionsError, finalize, finalize_all, enter, register,
  evaluate, first_match, ids, clear, cancel, on_timeout, on_abort, same_id, signal_aborted,
  registry_cleared, resolved, cancelled, timed_out,
}
use wats.Core.Listener.Settled.{
  one_if, total, total-finalize, total-finalize_all, total-enter, total-clear,
}

module _ (U X : Type 0) where
  pub data Call : Type 0 where
    registers : Option (U → Result X Bool) → Options → Call
    evaluates : U → Call
    times_out : ℕ → ℕ → Call
    aborts cancels : ℕ → Call
    clears : Call

module _ {U X : Type 0} where
  abbrev pub or_same {ℓ κ} :
      {E : Type ℓ} {A : Type κ} → Registry U X → Result E (Registry U X × A) → Registry U X
  or_same r (ok x) = x.0
  or_same r (err e) = r

  unfoldable pub step : Registry U X → Call U X → Registry U X
  step r (registers predicate o) = or_same r (register r predicate o)
  step r (evaluates u) = or_same r (evaluate r u)
  step r (times_out id ms) = on_timeout id ms r
  step r (aborts signal) = on_abort signal r
  step r (cancels id) = cancel id r
  step r clears = clear r

  unfoldable pub run : List (Call U X) → Registry U X → Registry U X
  run [] r = r
  run (c ∷ calls) r = run calls (step r c)

  -- A listener that was issued stands once among the pending ones and the settlements, and one that
  -- was not does not.
  abbrev pub IsOnce : Registry U X → Type 0
  IsOnce r = (id : ℕ) → total id r ≡ one_if (ltb id r.next_id)

  finalize-next_id :
      (id : ℕ) (o : Settlement U) (r : Registry U X) → (finalize id o r).next_id ≡ r.next_id
  unfolding finalize
  finalize-next_id id o r = ground arith

  finalize_all-next_id :
      (js : List ℕ) (o : Settlement U) (r : Registry U X)
      → (finalize_all js o r).next_id ≡ r.next_id
  unfolding finalize_all
  finalize_all-next_id [] o r = refl
  finalize_all-next_id (j ∷ js) o r =
      finalize_all-next_id js o (finalize j o r) ∙ finalize-next_id j o r

  clear-next_id : (r : Registry U X) → (clear r).next_id ≡ r.next_id
  unfolding clear
  clear-next_id r = finalize_all-next_id (ids r.entries) registry_cleared r

  finalize-IsOnce :
      (id : ℕ) (o : Settlement U) (r : Registry U X) → IsOnce r → IsOnce (finalize id o r)
  finalize-IsOnce j o r h id = ground (arith, h id, total-finalize id j o r, finalize-next_id j o r)

  enter-next_id :
      (r : Registry U X) (f : U → Result X Bool) (o : Options)
      → (enter f o r).next_id ≡ suc r.next_id
  unfolding enter
  enter-next_id r f o = ground arith

  enter-IsOnce :
      (r : Registry U X) (f : U → Result X Bool) (o : Options) → IsOnce r → IsOnce (enter f o r)
  enter-IsOnce r f o h id = ground (arith, h id, total-enter id f o r, enter-next_id r f o)

  checked-IsOnce :
      (r : Registry U X) (v w : Result OptionsError (Unit {0})) (x : Registry U X × ℕ)
      → IsOnce r
      → IsOnce x.0
      → IsOnce (or_same r (v >> (w >> ok x)))
  checked-IsOnce r (err e) w x h g = h
  checked-IsOnce r (ok _) (err e) x h g = h
  checked-IsOnce r (ok _) (ok _) x h g = g

  register-IsOnce :
      (r : Registry U X) (f : Option (U → Result X Bool)) (o : Options)
      → IsOnce r
      → IsOnce (or_same r (register r f o))
  unfolding register
  register-IsOnce r none o h = h
  register-IsOnce r (some f) o h =
      checked-IsOnce r _ _ (enter f o r, r.next_id) h (enter-IsOnce r f o h)

  found-IsOnce :
      (r : Registry U X) (u : U) (m : Result X (Option (Entry U X)))
      → IsOnce r
      → IsOnce (
          or_same r (
            m >>= λ found.
            ok (elim found [
              | none ↦ (r, none)
              | some e ↦ (finalize e.id (resolved u) r, some e.id)
            ])))
  found-IsOnce r u (err x) h = h
  found-IsOnce r u (ok none) h = h
  found-IsOnce r u (ok (some e)) h = finalize-IsOnce e.id (resolved u) r h

  evaluate-IsOnce : (r : Registry U X) (u : U) → IsOnce r → IsOnce (or_same r (evaluate r u))
  unfolding evaluate
  evaluate-IsOnce r u h = found-IsOnce r u (first_match u r.entries) h

  finalize_all-IsOnce :
      (js : List ℕ) (o : Settlement U) (r : Registry U X) → IsOnce r → IsOnce (finalize_all js o r)
  finalize_all-IsOnce js o r h id =
      ground (arith, h id, total-finalize_all id js o r, finalize_all-next_id js o r)

  abort-IsOnce : (signal : ℕ) (r : Registry U X) → IsOnce r → IsOnce (on_abort signal r)
  unfolding on_abort
  abort-IsOnce signal r h =
      finalize_all-IsOnce (ids (keep (λ e. same_id e.signal signal) r.entries)) signal_aborted r h

  clear-IsOnce : (r : Registry U X) → IsOnce r → IsOnce (clear r)
  clear-IsOnce r h id = ground (arith, h id, total-clear id r, clear-next_id r)

  pub step-IsOnce : (r : Registry U X) (c : Call U X) → IsOnce r → IsOnce (step r c)
  unfolding step on_timeout on_abort cancel
  step-IsOnce r (registers f o) h = register-IsOnce r f o h
  step-IsOnce r (evaluates u) h = evaluate-IsOnce r u h
  step-IsOnce r (times_out id ms) h = finalize-IsOnce id (timed_out ms) r h
  step-IsOnce r (cancels id) h = finalize-IsOnce id cancelled r h
  step-IsOnce r (aborts signal) h = abort-IsOnce signal r h
  step-IsOnce r clears h = clear-IsOnce r h

  pub run-IsOnce : (calls : List (Call U X)) (r : Registry U X) → IsOnce r → IsOnce (run calls r)
  unfolding run
  run-IsOnce [] r h = h
  run-IsOnce (c ∷ calls) r h = run-IsOnce calls (step r c) (step-IsOnce r c h)
