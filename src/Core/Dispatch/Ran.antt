-- ===== src/Core/Dispatch/Ran.antt =====
-- The handlers that run, in both modes.
use wats.Base.{
  ℕ, ◌≡◌, ◌∙◌, refl, ap, Bool, true, false, List, [], ◌∷◌, ◌++◌, map, any, arith, if◌then◌else◌,
  append-nil,
}
use wats.Base.Result.{Result}
use wats.Core.Router.{Concurrency, sequential, parallel, Entry}
use wats.Core.Dispatch.{
  Event, before_dispatch, listener_match, handler_match, handler_called, handler_error,
  after_dispatch, Outcome, done, stop, threw, HandlerContext, Report, outcome_of, run_sequential,
  collect, run_parallel, run_handlers, error_event,
}

abbrev pub ids : {F H : Type 0} → List (Entry F H) → List ℕ
ids es = map (λ e. e.id) es

-- The handlers that events call.
unfoldable pub called : {X : Type 0} → List (Event X) → List ℕ
called [] = []
called (handler_called id ∷ events) = id ∷ called events
called (before_dispatch ∷ events) = called events
called (listener_match id ∷ events) = called events
called (handler_match id ∷ events) = called events
called (handler_error id x ∷ events) = called events
called (after_dispatch r ∷ events) = called events

called-append : {X : Type 0} (xs ys : List (Event X)) → called (xs ++ ys) ≡ called xs ++ called ys
unfolding called
called-append [] ys = refl
called-append (handler_called id ∷ xs) ys = ap (◌∷◌ id) (called-append xs ys)
called-append (before_dispatch ∷ xs) ys = called-append xs ys
called-append (listener_match id ∷ xs) ys = called-append xs ys
called-append (handler_match id ∷ xs) ys = called-append xs ys
called-append (handler_error id x ∷ xs) ys = called-append xs ys
called-append (after_dispatch r ∷ xs) ys = called-append xs ys

called-errors : {X : Type 0} (errors : List (ℕ × X)) → called (map error_event errors) ≡ []
unfolding called
called-errors [] = refl
called-errors ((id, x) ∷ errors) = called-errors errors

pub called-around :
    {X : Type 0} (heard : List (Event X)) (errors : List (ℕ × X)) (ran : List (Event X))
    (report : Report X)
    → called heard ≡ []
    → called (
        before_dispatch
        ∷ (heard ++ (map error_event errors ++ (ran ++ (after_dispatch report ∷ [])))))
      ≡ called ran
unfolding called
called-around heard errors ran report h =
    called-append heard (map error_event errors ++ (ran ++ (after_dispatch report ∷ [])))
    ∙ ap (λ xs. xs ++ called (map error_event errors ++ (ran ++ (after_dispatch report ∷ [])))) h
    ∙ called-append (map error_event errors) (ran ++ (after_dispatch report ∷ []))
    ∙ ap (λ xs. xs ++ called (ran ++ (after_dispatch report ∷ []))) (called-errors errors)
    ∙ called-append ran (after_dispatch report ∷ [])
    ∙ append-nil (called ran)

module _ {F H U X : Type 0} (accepts : F → U → Result X Bool)
    (call : H → HandlerContext U → Outcome X) where
  abbrev stops : Outcome X → Bool
  stops stop = true
  stops done = false
  stops (threw x) = false

  abbrev pub is_stopping : U → ℕ → Entry F H → Bool
  is_stopping u id e = stops (outcome_of accepts call u id e)

  -- The entries up to the first one that stops the dispatch, which is among them.
  unfoldable pub until_stop : U → ℕ → List (Entry F H) → List (Entry F H)
  until_stop u id [] = []
  until_stop u id (e ∷ es) =
      let rest = until_stop u id es in if is_stopping u id e then e ∷ [] else e ∷ rest

  -- What the handlers of entries throw.
  unfoldable pub handler_errors : U → ℕ → List (Entry F H) → List (ℕ × X)
  handler_errors u id [] = []
  handler_errors u id (e ∷ es) =
      let rest = handler_errors u id es in
      elim (outcome_of accepts call u id e) [ threw x ↦ (e.id, x) ∷ rest | _ ↦ rest ]

  sequential-called :
      (u : U) (id : ℕ) (es : List (Entry F H))
      → called (run_sequential accepts call u id es).events ≡ ids (until_stop u id es)
  unfolding run_sequential called until_stop
  sequential-called u id [] = refl
  sequential-called u id (e ∷ es) = ground (arith, sequential-called u id es)

  sequential-errors :
      (u : U) (id : ℕ) (es : List (Entry F H))
      → (run_sequential accepts call u id es).errors ≡ handler_errors u id (until_stop u id es)
  unfolding run_sequential until_stop handler_errors
  sequential-errors u id [] = refl
  sequential-errors u id (e ∷ es) = ground (arith, sequential-errors u id es)

  sequential-stopped :
      (u : U) (id : ℕ) (es : List (Entry F H))
      → (run_sequential accepts call u id es).stopped ≡ any (is_stopping u id) es
  unfolding run_sequential
  sequential-stopped u id [] = refl
  sequential-stopped u id (e ∷ es) = ground (arith, sequential-stopped u id es)

  collect-errors :
      (u : U) (id : ℕ) (es : List (Entry F H))
      → (collect accepts call u id es).0 ≡ handler_errors u id es
  unfolding collect handler_errors
  collect-errors u id [] = refl
  collect-errors u id (e ∷ es) = ground (arith, collect-errors u id es)

  collect-stopped :
      (u : U) (id : ℕ) (es : List (Entry F H))
      → (collect accepts call u id es).1 ≡ any (is_stopping u id) es
  unfolding collect
  collect-stopped u id [] = refl
  collect-stopped u id (e ∷ es) = ground (arith, collect-stopped u id es)

  -- The handlers that run, of those that match.
  unfoldable pub runs : Concurrency → U → ℕ → List (Entry F H) → List (Entry F H)
  runs sequential u id es = until_stop u id es
  runs parallel u id es = es

  called-matches :
      (es : List (Entry F H)) → called (map {B = Event X} (λ e. handler_match e.id) es) ≡ []
  unfolding called
  called-matches [] = refl
  called-matches (e ∷ es) = called-matches es

  called-calls :
      (es : List (Entry F H)) → called (map {B = Event X} (λ e. handler_called e.id) es) ≡ ids es
  unfolding called
  called-calls [] = refl
  called-calls (e ∷ es) = ap (◌∷◌ e.id) (called-calls es)

  parallel-called :
      (u : U) (id : ℕ) (es : List (Entry F H))
      → called (run_parallel accepts call u id es).events ≡ ids es
  unfolding run_parallel
  parallel-called u id es =
      let errors = (collect accepts call u id es).0 in
      called-append (map (λ e. handler_match e.id) es)
        (map (λ e. handler_called e.id) es ++ map error_event errors)
      ∙ ap (λ xs. xs ++ called (map (λ e. handler_called e.id) es ++ map error_event errors))
          (called-matches es)
      ∙ called-append (map (λ e. handler_called e.id) es) (map error_event errors)
      ∙ ap (◌++◌ (called (map (λ e. handler_called e.id) es))) (called-errors errors)
      ∙ append-nil _
      ∙ called-calls es

  pub run-called :
      (mode : Concurrency) (u : U) (id : ℕ) (es : List (Entry F H))
      → called (run_handlers accepts call mode u id es).events ≡ ids (runs mode u id es)
  unfolding run_handlers runs
  run-called sequential u id es = sequential-called u id es
  run-called parallel u id es = parallel-called u id es

  pub run-errors :
      (mode : Concurrency) (u : U) (id : ℕ) (es : List (Entry F H))
      → (run_handlers accepts call mode u id es).errors ≡ handler_errors u id (runs mode u id es)
  unfolding run_handlers run_parallel runs
  run-errors sequential u id es = sequential-errors u id es
  run-errors parallel u id es = collect-errors u id es

  pub run-stopped :
      (mode : Concurrency) (u : U) (id : ℕ) (es : List (Entry F H))
      → (run_handlers accepts call mode u id es).stopped ≡ any (is_stopping u id) es
  unfolding run_handlers run_parallel
  run-stopped sequential u id es = sequential-stopped u id es
  run-stopped parallel u id es = collect-stopped u id es
