-- ===== src/Graph/ReliableTransport/Success.antt =====
-- Retries that lead to an answer.
use wats.Base.{
  ℕ, zero, suc, ◌+◌, ◌≤◌, ◌<◌, ◌≡◌, ◌∙◌, ◌⊎◌, inl, inr, ◌==◌, ◌||◌, true, false, Option, none, some,
  List, arith,
}
use wats.Base.Result.{ok}
use wats.Graph.RetryAfter.{Fraction}
use wats.Graph.RetryPolicy.{
  Policy, Request, Response, Failure, network, is_retryable_method, is_5xx,
}
use wats.Graph.RetryPolicy.Delay.{bounded_delay_ms_ok}
use wats.Graph.RetryPolicy.Posts.{transient_failure, transient_response}
use wats.Graph.ReliableTransport.{
  response_asked, error_asked, Pause, Round, Answer, responded, failed, done, again, pause,
  on_error, on_response, dispatch, admission, attempts_from, request,
}
use wats.Graph.ReliableTransport.Attempts.{turn_done, turn_again}

-- Nothing aborts or fails in the pause, and the random number is in [0, 1].
pub record IsQuiet (x : Pause) : Type 0 where
  pub live : x.aborted ≡ false
  pub noticed : x.on_retry ≡ none
  pub slept : x.sleep ≡ none
  pub random_den : 0 < x.random.den
  pub random_num : x.random.num ≤ x.random.den

-- An answer that the default rule retries for GET and DELETE.
abbrev pub IsTransient : Answer → Type 0
IsTransient (responded x) = is_5xx x.status ≡ true
IsTransient (failed (network n)) = Unit
IsTransient (failed f) = ⊥

pub record IsUntroubled (r : Round) : Type 0 where
  pub live : r.aborted_start ≡ false
  pub limiter : r.limiter ≡ none
  pub still_live : r.aborted_admitted ≡ false
  pub live_caught : r.aborted_caught ≡ false
  pub after_response : IsQuiet r.after_response
  pub after_error : IsQuiet r.after_error

module _ (date_parse : List ℕ → Option ℕ) (abort_reason : Failure) (p : Policy) (req : Request)
    (default : p.retry_on ≡ none) (plain : p.jitter ≡ none)
    (idempotent : is_retryable_method req.method ≡ true) where
  pause_ok :
      (attempt : ℕ) (x : Option Response) (w : Pause)
      → IsQuiet w
      → (d : Fraction) × (pause date_parse abort_reason p req attempt x w ≡ ok d)
  unfolding pause
  pause_ok attempt x w q =
      let (d, e) =
        bounded_delay_ms_ok date_parse p attempt x w.now w.random plain q.random_den q.random_num in
      (d, rw (q.live, e, q.noticed, q.slept))

  admission_ok : (r : Round) → IsUntroubled r → admission date_parse abort_reason p req r ≡ ok tt
  unfolding admission
  admission_ok r u = ground arith

  dispatch-transient :
      (attempt : ℕ) (r : Round) (a : Answer)
      → attempt ≤ p.retries
      → IsUntroubled r
      → IsTransient a
      → (d : Fraction) × (dispatch date_parse abort_reason p req attempt r a ≡ again d)
  unfolding dispatch on_response on_error response_asked error_asked
  dispatch-transient attempt r (responded x) h u t =
      let (d, e) = pause_ok attempt (some x) r.after_response u.after_response in
      (d, ground (arith, transient_response p default attempt req x idempotent))
  dispatch-transient attempt r (failed (network n)) h u t =
      let (d, e) = pause_ok attempt none r.after_error u.after_error in
      (d, ground (arith, transient_failure p default attempt req n idempotent))
  dispatch-transient attempt r (failed f) h u t = absurd t

  -- A response that ends the request: one that is not retried, or that of the last attempt.
  dispatch-final :
      (attempt : ℕ) (r : Round) (x : Response) (a : Answer)
      → a ≡ responded x
      → (((x.status == 429) || is_5xx x.status) ≡ false) ⊎ (p.retries < attempt)
      → dispatch date_parse abort_reason p req attempt r a ≡ done x
  unfolding dispatch on_response response_asked
  dispatch-final attempt r x a e h =
      rw e (ground (arith, transient_response p default attempt req x idempotent))

  module _ (rounds : ℕ → Round) (x : Response) where
    attempts_from-success :
        (left fuel attempt last : ℕ)
        → left + attempt ≡ last
        → left < fuel
        → last ≤ p.retries
        → ((k : ℕ) → k ≤ last → IsUntroubled (rounds k))
        → ((k : ℕ) → k < last → IsTransient (rounds k).answer)
        → (rounds last).answer ≡ responded x
        → (((x.status == 429) || is_5xx x.status) ≡ false) ⊎ (p.retries ≡ last)
        → attempts_from date_parse abort_reason p req fuel rounds attempt
          ≡ some (record { outcome = ok x; attempts = suc last })
    attempts_from-success left zero attempt last e h most quiet transient final ends = elim h [ ]
    attempts_from-success zero (suc fuel) attempt last e h most quiet transient final ends =
        let same : attempt ≡ last = omega arith in
        let over : (((x.status == 429) || is_5xx x.status) ≡ false) ⊎ (p.retries < suc last) =
          elim ends [ inl plain_answer ↦ inl plain_answer | inr out ↦ inr (omega arith) ] in
        rw same (
          turn_done date_parse abort_reason p req rounds fuel last
            (admission_ok (rounds last) (quiet last (omega arith)))
            (dispatch-final (suc last) (rounds last) x (rounds last).answer final over))
    attempts_from-success (suc left) (suc fuel) attempt last e h most quiet transient final ends =
        let (d, v) =
          dispatch-transient (suc attempt) (rounds attempt) (rounds attempt).answer (omega arith)
            (quiet attempt (omega arith)) (transient attempt (omega arith)) in
        turn_again date_parse abort_reason p req rounds fuel attempt
          (admission_ok (rounds attempt) (quiet attempt (omega arith))) v
        ∙ attempts_from-success left fuel (suc attempt) last (omega arith) (omega arith) most quiet
            transient final ends

    -- Under the default rule and jitter, a GET or DELETE whose first `last` attempts end in a 5xx or a
    -- network error, with nothing aborted and no failure of the limiter or in the pauses, and `last` within
    -- `retries`, gets
    -- the response of the next attempt, if that is neither a 429 nor a 5xx; and whatever response
    -- comes where the retries are used up.
    pub request-success :
        (last : ℕ)
        → last ≤ p.retries
        → ((k : ℕ) → k ≤ last → IsUntroubled (rounds k))
        → ((k : ℕ) → k < last → IsTransient (rounds k).answer)
        → (rounds last).answer ≡ responded x
        → (((x.status == 429) || is_5xx x.status) ≡ false) ⊎ (p.retries ≡ last)
        → request date_parse abort_reason p req rounds
          ≡ some (record { outcome = ok x; attempts = suc last })
    unfolding request
    request-success last most quiet transient final ends =
        attempts_from-success last (suc p.retries) 0 last (omega arith) (omega arith) most quiet
          transient final ends
