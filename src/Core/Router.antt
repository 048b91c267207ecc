-- ===== src/Core/Router.antt =====
-- packages/core/src/typedRouter.ts, `TypedRouter`: its options and the registered handlers. Filters
-- and handlers are values of parameter types `F` and `H`.
use wats.Base.{ℕ, suc, Option, none, some, List, [], ◌∷◌, ◌++◌, length, ◌==◌, if◌then◌else◌}
use wats.Base.Result.{Result, ok, err, ◌>>◌, guard}
use wats.Core.Listener.{Value, given, is_positive, is_typed}

abbrev pub default_max_handlers_per_dispatch : ℕ
default_max_handlers_per_dispatch = 10000

pub data Concurrency : Type 0 where
  sequential parallel : Concurrency

pub data RouterError : Type 0 where
  invalid_observer invalid_max_handlers invalid_concurrency invalid_dispatch_id_factory
        invalid_listener_registry invalid_filter invalid_handler :
      RouterError

-- `TypedRouterOptions`, of an object; of an observer, a factory and a listener registry only whether
-- their members are functions.
pub record Options : Type 0 where
  pub observer : Value (Unit {0})
  pub max_handlers_per_dispatch : Value ℕ
  pub concurrency : Value Concurrency
  pub dispatch_id_factory : Value (Unit {0})
  pub listener_registry : Value (Unit {0})

-- `validateOptions`
pub validate_options : Options → Result RouterError (Unit {0})
validate_options o = do
  guard (is_typed o.observer) invalid_observer
  guard (is_positive o.max_handlers_per_dispatch) invalid_max_handlers
  guard (is_typed o.concurrency) invalid_concurrency
  guard (is_typed o.dispatch_id_factory) invalid_dispatch_id_factory
  guard (is_typed o.listener_registry) invalid_listener_registry

module _ (F H : Type 0) where
  -- `RegistrationEntry`. A removed entry leaves the list.
  pub record Entry : Type 0 where
    pub id : ℕ
    pub registration_index : ℕ
    pub filter : F
    pub handler : H

  pub record Router : Type 0 where
    pub entries : List Entry
    pub max_handlers_per_dispatch : ℕ
    pub concurrency : Concurrency
    pub next_registration_index : ℕ

module _ {F H : Type 0} where
  pub new_router : Options → Result RouterError (Router F H)
  new_router o = do
    validate_options o
    ok (record {
      entries = [];
      max_handlers_per_dispatch = elim o.max_handlers_per_dispatch [
        | given n ↦ n
        | _ ↦ default_max_handlers_per_dispatch
      ];
      concurrency = elim o.concurrency [ given c ↦ c | _ ↦ sequential ];
      next_registration_index = 0;
    })

  pub handler_count : Router F H → ℕ
  handler_count r = length r.entries

  -- `on`, with the index of the handle; the index serves as the symbol too. A filter that is not
  -- branded and a handler that is no function are `none`.
  pub on : Router F H → Option F → Option H → Result RouterError (Router F H × ℕ)
  on r none handler = err invalid_filter
  on r (some filter) none = err invalid_handler
  on r (some filter) (some handler) =
      let index = r.next_registration_index in
      ok (
        record r {
          entries =
              r.entries
              ++ (record {
                id = index;
                registration_index = index;
                filter = filter;
                handler = handler;
              }
                  ∷ []);
          next_registration_index = suc index;
        },
        index,
      )

  pub remove : ℕ → List (Entry F H) → List (Entry F H)
  remove id [] = []
  remove id (e ∷ es) = if e.id == id then es else e ∷ remove id es

  -- `handle.unregister()`
  pub unregister : ℕ → Router F H → Router F H
  unregister id r = record r { entries = remove id r.entries }

  pub clear : Router F H → Router F H
  clear r = record r { entries = [] }
