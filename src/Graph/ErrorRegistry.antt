-- ===== src/Graph/ErrorRegistry.antt =====
-- packages/graph/src/errorRegistry.ts: the entries for error codes and subcodes, and the guard of
-- the built-in ones. The keys `code:subcode` and `code:` are pairs here.
pub mod Resolve
use Prim.Native.String.{String}
use wats.Base.{
  ℕ, Bool, true, false, not, ◌&&◌, Option, none, some, List, [], ◌∷◌, ◌==◌, if◌then◌else◌,
}
use wats.Base.Result.{Result, ok, err, ◌>>=◌, ◌>>◌, guard}

-- What `typeof`, `isFinite` and `isInteger` tell apart in a value. The numbers that are not whole
-- or below zero are told apart by their texts.
pub data Number : Type 0 where
  whole : ℕ → Number
  negative fractional not_finite : List ℕ → Number
  not_number : Number

pub data EntryError : Type 0 where
  code_not_number code_not_finite code_not_integer code_negative subcode_not_number
        subcode_not_finite subcode_not_integer subcode_negative empty_name :
      EntryError

-- `GraphErrorRegistryEntry`, with the type of its factory as a parameter.
pub record Entry (Factory : Type 0) : Type 0 where
  pub code : Number
  pub subcode : Option Number
  pub error_name : List ℕ
  pub factory : Factory

pub record Key : Type 0 where
  pub code : ℕ
  pub subcode : Option ℕ

pub validate_code : Number → Result EntryError ℕ
validate_code (whole n) = ok n
validate_code (negative n) = err code_negative
validate_code (fractional n) = err code_not_integer
validate_code (not_finite n) = err code_not_finite
validate_code not_number = err code_not_number

pub validate_subcode : Option Number → Result EntryError (Option ℕ)
validate_subcode none = ok none
validate_subcode (some (whole n)) = ok (some n)
validate_subcode (some (negative n)) = err subcode_negative
validate_subcode (some (fractional n)) = err subcode_not_integer
validate_subcode (some (not_finite n)) = err subcode_not_finite
validate_subcode (some not_number) = err subcode_not_number

abbrev is_empty : List ℕ → Bool
is_empty [] = true
is_empty (c ∷ s) = false

abbrev pub same_subcode : Option ℕ → Option ℕ → Bool
same_subcode none none = true
same_subcode (some a) (some b) = a == b
same_subcode none (some b) = false
same_subcode (some a) none = false

abbrev pub any_subcode : ℕ → Key
any_subcode code = record { code = code; subcode = none }

pub same_key : Key → Key → Bool
same_key a b = a.code == b.code && same_subcode a.subcode b.subcode

module _ {Factory : Type 0} where
  -- `validateEntry`, with the key that it establishes.
  pub validate_entry : Entry Factory → Result EntryError Key
  validate_entry e = do
    code ← validate_code e.code
    subcode ← validate_subcode e.subcode
    guard (not (is_empty e.error_name)) empty_name
    ok (record { code = code; subcode = subcode })

  -- `Map.set`: a key that is there keeps its place.
  pub set : Key → Entry Factory → List (Key × Entry Factory) → List (Key × Entry Factory)
  set k e [] = (k, e) ∷ []
  set k e ((j, x) ∷ entries) = if same_key j k then (j, e) ∷ entries else (j, x) ∷ set k e entries

  -- `Map.get`
  pub get : Key → List (Key × Entry Factory) → Option (Entry Factory)
  get k [] = none
  get k ((j, x) ∷ entries) = if same_key j k then some x else get k entries

pub record Registry (Factory : Type 0) : Type 0 where
  pub entries : List (Key × Entry Factory)
  pub built_in_registered : Bool

module _ {Factory : Type 0} where
  -- `registerErrorCode`
  pub register_error_code : Registry Factory → Entry Factory → Result EntryError (Registry Factory)
  register_error_code r e = do k ← validate_entry e; ok (record r { entries = set k e r.entries })

  -- `clearErrorRegistry`
  pub clear_error_registry : Registry Factory → Registry Factory
  clear_error_registry r = record { entries = []; built_in_registered = false }

  pub mark_built_in_registered : Registry Factory → Registry Factory
  mark_built_in_registered r = record r { built_in_registered = true }

  -- `resolveRegisteredError`, for a code that is a whole number.
  pub resolve_registered_error : Registry Factory → ℕ → Option ℕ → Option (Entry Factory)
  resolve_registered_error r code none = get (any_subcode code) r.entries
  resolve_registered_error r code (some subcode) =
      elim (get (record { code = code; subcode = some subcode }) r.entries) [
        | some e ↦ some e
        | none ↦ get (any_subcode code) r.entries
      ]
