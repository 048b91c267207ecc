-- ===== src/Core/Listener.antt =====
-- packages/core/src/listener.ts, `createListenerRegistry`: listeners that wait for one update each.
-- Symbols are numbers in the order of their creation. What the handles show and how the promises
-- settle is the list of settlements. The kind of updates `U` and of what predicates throw `X` are
-- parameters.
pub mod Settled
pub mod Calls
pub mod Cap
pub mod First
mod Tests
use wats.Base.{
  ℕ, suc, ◌+◌, Bool, true, false, not, ◌||◌, Option, none, some, List, [], ◌∷◌, ◌++◌, map, any,
  keep, length, ltb, leb, ◌==◌, if◌then◌else◌,
}
use wats.Base.Result.{Result, ok, err, ◌>>=◌, ◌>>◌, guard}

abbrev pub default_max_active_listeners : ℕ
default_max_active_listeners = 10000

pub data OptionsError : Type 0 where
  invalid_filter invalid_options invalid_timeout invalid_signal invalid_description
        max_listeners_exceeded invalid_max_active_listeners :
      OptionsError

-- An `AbortSignal`, with what `aborted` reads.
pub record Signal : Type 0 where
  pub signal_id : ℕ
  pub aborted : Bool

-- An option is absent, of a wrong type, or a value of its type; a timeout that is not a whole
-- number is of a wrong type.
pub data Value {ℓ} (A : Type ℓ) : Type ℓ where
  undefined wrong : Value A
  given : A → Value A

-- `ListenerOptions`
pub record Options : Type 0 where
  pub timeout_ms : Value ℕ
  pub signal : Value Signal
  pub description : Value (List ℕ)

pub data Settlement {ℓ} (U : Type ℓ) : Type ℓ where
  resolved : U → Settlement U
  timed_out : ℕ → Settlement U
  cancelled signal_aborted registry_cleared : Settlement U

abbrev pub is_positive : Value ℕ → Bool
is_positive undefined = true
is_positive wrong = false
is_positive (given n) = ltb 0 n

abbrev pub is_typed {ℓ} : {A : Type ℓ} → Value A → Bool
is_typed undefined = true
is_typed wrong = false
is_typed (given x) = true

-- `validateRegistryOptions`
pub validate_registry_options : Value ℕ → Result OptionsError (Unit {0})
validate_registry_options max_active_listeners =
    guard (is_positive max_active_listeners) invalid_max_active_listeners

-- `validateListenerOptions`, for options that are an object
pub validate_listener_options : Options → Result OptionsError (Unit {0})
validate_listener_options o = do
  guard (is_positive o.timeout_ms) invalid_timeout
  guard (is_typed o.signal) invalid_signal
  guard (is_typed o.description) invalid_description

abbrev pub is_aborted : Value Signal → Bool
is_aborted (given s) = s.aborted
is_aborted undefined = false
is_aborted wrong = false

abbrev pub same_id : Option ℕ → ℕ → Bool
same_id none n = false
same_id (some m) n = m == n

module _ (U X : Type 0) where
  -- `RegistryEntry`: the predicate, the timer that is set, and the signal that is listened to.
  pub record Entry : Type 0 where
    pub id : ℕ
    pub predicate : U → Result X Bool
    pub timeout : Option ℕ
    pub signal : Option ℕ

  pub record Registry : Type 0 where
    pub max_active : ℕ
    pub entries : List Entry
    pub settlements : List (ℕ × Settlement U)
    pub next_id : ℕ

module _ {U X : Type 0} where
  pub create_listener_registry : Value ℕ → Result OptionsError (Registry U X)
  create_listener_registry max_active_listeners = do
    validate_registry_options max_active_listeners
    ok (record {
      max_active = elim max_active_listeners [ given n ↦ n | _ ↦ default_max_active_listeners ];
      entries = [];
      settlements = [];
      next_id = 0;
    })

  pub active_count : Registry U X → ℕ
  active_count r = length r.entries

  -- `entries.delete`
  pub delete : ℕ → List (Entry U X) → List (Entry U X)
  delete id [] = []
  delete id (e ∷ es) = if e.id == id then es else e ∷ delete id es

  abbrev pub has_id : ℕ → Entry U X → Bool
  has_id id e = e.id == id

  -- `finalize` and the settlement of the promise: nothing if the listener has settled.
  pub finalize : ℕ → Settlement U → Registry U X → Registry U X
  finalize id outcome r =
      if any (has_id id) r.entries
      then record r { entries = delete id r.entries; settlements = (id, outcome) ∷ r.settlements }
      else r

  pub finalize_all : List ℕ → Settlement U → Registry U X → Registry U X
  finalize_all [] outcome r = r
  finalize_all (id ∷ ids) outcome r = finalize_all ids outcome (finalize id outcome r)

  -- The entry of a new listener.
  pub new_entry : ℕ → (U → Result X Bool) → Options → Entry U X
  new_entry id predicate o = record {
    id = id;
    predicate = predicate;
    timeout = elim o.timeout_ms [ given ms ↦ some ms | _ ↦ none ];
    signal = elim o.signal [ given s ↦ some s.signal_id | _ ↦ none ];
  }

  pub enter : (U → Result X Bool) → Options → Registry U X → Registry U X
  enter predicate o r =
      if is_aborted o.signal
      then record r {
        settlements = (r.next_id, signal_aborted) ∷ r.settlements;
        next_id = suc r.next_id;
      }
      else record r {
        entries = r.entries ++ (new_entry r.next_id predicate o ∷ []);
        next_id = suc r.next_id;
      }

  -- `register`, with the id of the handle. `none` is no branded filter.
  pub register :
      Registry U X → Option (U → Result X Bool) → Options → Result OptionsError (Registry U X × ℕ)
  register r none o = err invalid_filter
  register r (some predicate) o = do
    validate_listener_options o
    guard (ltb (active_count r) r.max_active) max_listeners_exceeded
    ok (enter predicate o r, r.next_id)

  -- The first entry whose predicate accepts the update; what a predicate throws is thrown.
  pub first_match : U → List (Entry U X) → Result X (Option (Entry U X))
  first_match u [] = ok none
  first_match u (e ∷ es) =
      let rest = first_match u es in
      do matches ← e.predicate u; if matches then ok (some e) else rest

  -- `evaluate`, with the id of the listener that matched.
  pub evaluate : Registry U X → U → Result X (Registry U X × Option ℕ)
  evaluate r u = do
    found ← first_match u r.entries
    ok (elim found [ none ↦ (r, none) | some e ↦ (finalize e.id (resolved u) r, some e.id) ])

  pub ids : List (Entry U X) → List ℕ
  ids es = map (λ e. e.id) es

  pub clear : Registry U X → Registry U X
  clear r = record (finalize_all (ids r.entries) registry_cleared r) { entries = [] }

  -- `handle.cancel()`
  pub cancel : ℕ → Registry U X → Registry U X
  cancel id r = finalize id cancelled r

  -- The callback of the timer.
  pub on_timeout : ℕ → ℕ → Registry U X → Registry U X
  on_timeout id ms r = finalize id (timed_out ms) r

  -- A signal's abort event, which calls the listeners of the entries that listen to it.
  pub on_abort : ℕ → Registry U X → Registry U X
  on_abort signal r =
      finalize_all (ids (keep (λ e. same_id e.signal signal) r.entries)) signal_aborted r
