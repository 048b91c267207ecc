-- ===== src/Core/Dispatch.antt =====
-- packages/core/src/typedRouter.ts, `dispatch`: the handlers that an update meets. `accepts` is a
-- filter's predicate and `call` runs a handler; predicates do not change the router while it scans
-- its entries. What a dispatch does outside is the list of its events. What an observer throws is
-- swallowed, so its hooks appear only there.
pub mod Scan
pub mod Ran
pub mod Promise
mod Tests
use wats.Base.{
  ℕ, suc, ◌+◌, Bool, true, false, not, Option, none, some, List, [], ◌∷◌, ◌++◌, map, any, length,
  ltb, leb, ◌==◌, if◌then◌else◌,
}
use wats.Base.Result.{Result, ok, err, ◌>>=◌, ◌>>◌, guard}
use wats.Core.Listener
use wats.Core.Router.{Concurrency, sequential, parallel, Entry, Router}

-- What a handler gives: nothing, `"stop"`, or a throw or rejection.
pub data Outcome (X : Type 0) : Type 0 where
  done stop : Outcome X
  threw : X → Outcome X

pub record HandlerContext (U : Type 0) : Type 0 where
  pub update : U
  pub registration_index : ℕ
  pub dispatch_id : ℕ

-- `DispatchReport`
pub record Report (X : Type 0) : Type 0 where
  pub dispatch_id : ℕ
  pub matched_handlers : ℕ
  pub errors : List (ℕ × X)
  pub stopped : Bool
  pub capped : Bool

-- The hooks of the observer, and the calls of handlers.
pub data Event (X : Type 0) : Type 0 where
  before_dispatch : Event X
  listener_match handler_match handler_called : ℕ → Event X
  handler_error : ℕ → X → Event X
  after_dispatch : Report X → Event X

-- The entries that match, whether the cap cut them off, and what predicates threw.
pub record Scanned (F H X : Type 0) : Type 0 where
  pub matching : List (Entry F H)
  pub capped : Bool
  pub errors : List (ℕ × X)

-- What the handlers did.
pub record HandlersRun (X : Type 0) : Type 0 where
  pub events : List (Event X)
  pub errors : List (ℕ × X)
  pub stopped : Bool

abbrev pub error_event : {X : Type 0} → ℕ × X → Event X
error_event (id, x) = handler_error id x

module _ {F H U X : Type 0} (accepts : F → U → Result X Bool)
    (call : H → HandlerContext U → Outcome X) where
  -- The loop over the snapshot, with `count` matches so far.
  pub scan : ℕ → U → ℕ → List (Entry F H) → Scanned F H X
  scan most u count [] = record { matching = []; capped = false; errors = [] }
  scan most u count (e ∷ es) = elim (accepts e.filter u) [
    | err x ↦ let rest = scan most u count es in record rest { errors = (e.id, x) ∷ rest.errors }
    | ok b ↦ elim b [
      | false ↦ scan most u count es
      | true ↦ elim (leb most count) [
        | true ↦ record { matching = []; capped = true; errors = [] }
        | false ↦
            let rest = scan most u (suc count) es in record rest { matching = e ∷ rest.matching }
      ]
    ]
  ]

  abbrev pub outcome_of : U → ℕ → Entry F H → Outcome X
  outcome_of u dispatch_id e =
      call e.handler (record {
        update = u;
        registration_index = e.registration_index;
        dispatch_id = dispatch_id;
      })

  -- One handler after the other, until one stops the dispatch.
  pub run_sequential : U → ℕ → List (Entry F H) → HandlersRun X
  run_sequential u dispatch_id [] = record { events = []; errors = []; stopped = false }
  run_sequential u dispatch_id (e ∷ es) = elim (outcome_of u dispatch_id e) [
    | stop ↦ record {
      events = handler_match e.id ∷ handler_called e.id ∷ [];
      errors = [];
      stopped = true;
    }
    | done ↦
        let rest = run_sequential u dispatch_id es in
        record rest { events = handler_match e.id ∷ handler_called e.id ∷ rest.events }
    | threw x ↦
        let rest = run_sequential u dispatch_id es in
        record {
          events = handler_match e.id ∷ handler_called e.id ∷ handler_error e.id x ∷ rest.events;
          errors = (e.id, x) ∷ rest.errors;
          stopped = rest.stopped;
        }
  ]

  -- The results of all handlers, in the order of registration.
  pub collect : U → ℕ → List (Entry F H) → List (ℕ × X) × Bool
  collect u dispatch_id [] = ([], false)
  collect u dispatch_id (e ∷ es) =
      let (errors, stopped) = collect u dispatch_id es in
      elim (outcome_of u dispatch_id e) [
        | stop ↦ (errors, true)
        | done ↦ (errors, stopped)
        | threw x ↦ ((e.id, x) ∷ errors, stopped)
      ]

  -- All handlers at once.
  pub run_parallel : U → ℕ → List (Entry F H) → HandlersRun X
  run_parallel u dispatch_id es =
      let (errors, stopped) = collect u dispatch_id es in
      record {
        events =
            map (λ e. handler_match e.id) es
            ++ (map (λ e. handler_called e.id) es ++ map error_event errors);
        errors = errors;
        stopped = stopped;
      }

  pub run_handlers : Concurrency → U → ℕ → List (Entry F H) → HandlersRun X
  run_handlers sequential u dispatch_id es = run_sequential u dispatch_id es
  run_handlers parallel u dispatch_id es = run_parallel u dispatch_id es

  pub record Dispatched : Type 0 where
    pub report : Report X
    pub events : List (Event X)
    pub listeners : Option (Listener.Registry U X)

  -- The listeners come first. What a listener's predicate throws is swallowed.
  pub evaluate_listeners :
      Option (Listener.Registry U X) → U → Option (Listener.Registry U X) × List (Event X)
  evaluate_listeners none u = (none, [])
  evaluate_listeners (some registry) u = elim (Listener.evaluate registry u) [
    | err x ↦ (some registry, [])
    | ok (registry', none) ↦ (some registry', [])
    | ok (registry', some id) ↦ (some registry', listener_match id ∷ [])
  ]

  -- `dispatch`, with the id that the factory makes.
  pub dispatch : Router F H → Option (Listener.Registry U X) → ℕ → U → Dispatched
  dispatch r listeners dispatch_id u =
      let (listeners', heard) = evaluate_listeners listeners u in
      let scanned = scan r.max_handlers_per_dispatch u 0 r.entries in
      let ran = run_handlers r.concurrency u dispatch_id scanned.matching in
      let report : Report X = record {
        dispatch_id = dispatch_id;
        matched_handlers = length scanned.matching;
        errors = scanned.errors ++ ran.errors;
        stopped = ran.stopped;
        capped = scanned.capped;
      } in
      record {
        report = report;
        events =
            before_dispatch
            ∷ (heard
                ++ (map error_event scanned.errors
                    ++ (ran.events ++ (after_dispatch report ∷ []))));
        listeners = listeners';
      }
