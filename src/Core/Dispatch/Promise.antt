-- ===== src/Core/Dispatch/Promise.antt =====
-- What a dispatch promises of the handlers that run and of its report.
use wats.Base.{
  ℕ, ◌≡◌, ◌∙◌, refl, Bool, false, Option, none, some, List, [], ◌++◌, any, length, arith, take,
  keep, ltb,
}
use wats.Base.Result.{Result}
use wats.Core.Listener
use wats.Core.Router.{Entry, Router}
use wats.Core.Dispatch.{Outcome, HandlerContext, evaluate_listeners, Dispatched, dispatch, scan}
use wats.Core.Dispatch.Scan.{is_accepted, predicate_errors, scan-matching, scan-capped, scan-errors}
use wats.Core.Dispatch.Ran.{
  called, called-around, is_stopping, handler_errors, ids, runs, run-called, run-errors,
  run-stopped,
}

module _ {F H U X : Type 0} (accepts : F → U → Result X Bool)
    (call : H → HandlerContext U → Outcome X) where
  called-heard :
      (listeners : Option (Listener.Registry U X)) (u : U)
      → called (evaluate_listeners accepts call listeners u).1 ≡ []
  unfolding evaluate_listeners called
  called-heard none u = refl
  called-heard (some registry) u = ground arith

  -- What a dispatch of `u` promises: which handlers run, and what the report says.
  pub record Dispatches (r : Router F H) (u : U) (id : ℕ) (d : Dispatched accepts call)
      : Type 0 where
    pub matching : List (Entry F H)
    pub selected :
        matching ≡ take r.max_handlers_per_dispatch (keep (is_accepted accepts call u) r.entries)
    pub handlers : called d.events ≡ ids (runs accepts call r.concurrency u id matching)
    pub matched : d.report.matched_handlers ≡ length matching
    pub stopped : d.report.stopped ≡ any (is_stopping accepts call u id) matching
    pub capped :
        d.report.capped
        ≡ ltb r.max_handlers_per_dispatch (length (keep (is_accepted accepts call u) r.entries))
    pub errors :
        d.report.capped ≡ false
        → d.report.errors
          ≡ predicate_errors accepts call u r.entries
            ++ handler_errors accepts call u id (runs accepts call r.concurrency u id matching)

  -- A dispatch selects the first registered handlers whose filter accepts the update, at most as
  -- many as the router's maximum, and says whether there were more. In parallel mode all of them run, in
  -- sequential mode those up to the first that stops the dispatch, whatever others throw, and
  -- whatever listeners do. The report counts the selected ones, says whether one of them stops,
  -- and, when the cap cut none off, holds all that predicates and then handlers threw, in order.
  pub dispatch-Dispatches :
      (r : Router F H) (listeners : Option (Listener.Registry U X)) (id : ℕ) (u : U)
      → Dispatches r u id (dispatch accepts call r listeners id u)
  unfolding dispatch
  dispatch-Dispatches r listeners id u =
      let most = r.max_handlers_per_dispatch in
      let scanned = scan accepts call most u 0 r.entries in
      record {
        matching = scanned.matching;
        selected = scan-matching accepts call most most u 0 r.entries (omega arith);
        handlers =
            called-around _ scanned.errors _ _ (called-heard listeners u)
            ∙ run-called accepts call r.concurrency u id scanned.matching;
        matched = refl;
        stopped = run-stopped accepts call r.concurrency u id scanned.matching;
        capped = scan-capped accepts call most most u 0 r.entries (omega arith);
        errors = λ h.
            rw (scan-errors accepts call most u 0 r.entries h)
              (rw (run-errors accepts call r.concurrency u id scanned.matching) refl);
      }
