-- ===== src/Graph/ErrorRegistry/Resolve.antt =====
-- What is resolved after registrations: the last entry for the code and subcode, or else the last one
-- for the code alone.
use wats.Base.{
  ℕ, ◌≡◌, refl, sym, ap, ◌∙◌, Bool, true, false, not, ◌&&◌, ◌==◌, Option, none, some, List, [], ◌∷◌,
  arith, if◌then◌else◌, ◌↔◌, ==_iff,
}
use wats.Base.Result.{Result, ok, err, ◌>>=◌, ◌>>◌, guard}
use wats.Graph.ErrorRegistry.{
  Number, whole, validate_code, validate_subcode, empty_name, is_empty, EntryError, Entry, Key,
  Registry, same_key, validate_entry, set, get, register_error_code, resolve_registered_error,
  any_subcode, same_subcode,
}

same_subcode_iff : (a b : Option ℕ) → (same_subcode a b ≡ true) ↔ (a ≡ b)
same_subcode_iff none none = ground arith
same_subcode_iff none (some b) = ground arith
same_subcode_iff (some a) none = ground arith
same_subcode_iff (some a) (some b) = ground (arith, ==_iff a b)

same_key_iff : (a b : Key) → (same_key a b ≡ true) ↔ (a ≡ b)
unfolding same_key
same_key_iff a b = ground (arith, same_subcode_iff a.subcode b.subcode, ==_iff a.code b.code)

-- An entry's code is the number, and its subcode is the one or is absent as it is.
abbrev pub is_number : Number → ℕ → Bool
is_number (whole m) n = m == n
is_number _ n = false

abbrev pub is_subcode : Option Number → Option ℕ → Bool
is_subcode none none = true
is_subcode (some m) (some n) = is_number m n
is_subcode none (some n) = false
is_subcode (some m) none = false

abbrev pub has_name : List ℕ → Bool
has_name [] = false
has_name (c ∷ s) = true

-- The key of an entry with the code, the subcode and the name.
abbrev valid_key : Number → Option Number → List ℕ → Result EntryError Key
valid_key c b name = do
  code ← validate_code c
  subcode ← validate_subcode b
  guard (not (is_empty name)) empty_name
  ok (record { code = code; subcode = subcode })

abbrev is_key : Key → Result EntryError Key → Bool
is_key k (ok j) = same_key j k
is_key k (err x) = false

valid_key-is_key :
    (k : Key) (c : Number) (b : Option Number) (name : List ℕ)
    → is_key k (valid_key c b name)
      ≡ (is_number c k.code && is_subcode b k.subcode && has_name name)
unfolding same_key validate_code validate_subcode
valid_key-is_key k c b name = ground arith

module _ {Factory : Type 0} where
  get-set :
      (j k : Key) (e : Entry Factory) (entries : List (Key × Entry Factory))
      → get j (set k e entries) ≡ (if same_key k j then some e else get j entries)
  unfolding get set
  get-set j k e [] = ground arith
  get-set j k e ((i, x) ∷ entries) =
      ground (arith, same_key_iff i k, same_key_iff i j, same_key_iff k j, get-set j k e entries)

  abbrev or_same : Registry Factory → Result EntryError (Registry Factory) → Registry Factory
  or_same r (ok r') = r'
  or_same r (err x) = r

  -- The registrations in a row; one that is refused changes nothing.
  unfoldable pub register_all : Registry Factory → List (Entry Factory) → Registry Factory
  register_all r [] = r
  register_all r (e ∷ es) = register_all (or_same r (register_error_code r e)) es

  abbrev pub or_else : Option (Entry Factory) → Option (Entry Factory) → Option (Entry Factory)
  or_else (some x) y = some x
  or_else none y = y

  -- The entry, if it has a name and is for the code and the subcode.
  unfoldable pub own : Key → Entry Factory → Option (Entry Factory)
  own k e =
      if is_number e.code k.code && is_subcode e.subcode k.subcode && has_name e.error_name
      then some e
      else none

  validate_entry-own :
      (k : Key) (e : Entry Factory)
      → (elim (validate_entry e) [ ok j ↦ if same_key j k then some e else none | err x ↦ none ])
        ≡ own k e
  unfolding validate_entry own
  validate_entry-own k e =
      rw (sym (valid_key-is_key k e.code e.subcode e.error_name))
        (chosen k e (valid_key e.code e.subcode e.error_name))
    where
      chosen :
          (k : Key) (e : Entry Factory) (r : Result EntryError Key)
          → (elim r [ ok j ↦ if same_key j k then some e else none | err x ↦ none ])
            ≡ (if is_key k r then some e else none)
      chosen k e (ok j) = refl
      chosen k e (err x) = refl

  -- The last of the entries that is valid and has the key.
  unfoldable pub last_for : Key → List (Entry Factory) → Option (Entry Factory)
  last_for k [] = none
  last_for k (e ∷ es) = or_else (last_for k es) (own k e)

  or_else_assoc :
      (x y z : Option (Entry Factory)) → or_else x (or_else y z) ≡ or_else (or_else x y) z
  or_else_assoc none y z = refl
  or_else_assoc (some x) y z = refl

  get-register :
      (k : Key) (r : Registry Factory) (e : Entry Factory) (v : Result EntryError Key)
      → get k (or_same r (v >>= λ j. ok (record r { entries = set j e r.entries }))).entries
        ≡ or_else
            (elim v [ ok j ↦ if same_key j k then some e else none | err x ↦ none ])
            (get k r.entries)
  get-register k r e (err x) = refl
  get-register k r e (ok j) = ground (arith, get-set k j e r.entries)

  get-register_all :
      (k : Key) (es : List (Entry Factory)) (r : Registry Factory)
      → get k (register_all r es).entries ≡ or_else (last_for k es) (get k r.entries)
  unfolding register_all last_for register_error_code
  get-register_all k [] r = refl
  get-register_all k (e ∷ es) r =
      get-register_all k es (or_same r (register_error_code r e))
      ∙ ap (or_else (last_for k es)) (
          get-register k r e (validate_entry e)
          ∙ ap (λ o. or_else o (get k r.entries)) (validate_entry-own k e))
      ∙ or_else_assoc (last_for k es) (own k e) (get k r.entries)

  abbrev pub empty_registry : Registry Factory
  empty_registry = record { entries = []; built_in_registered = false }

  -- After registrations into an empty registry, a code with a subcode resolves to the last valid
  -- entry of them for that code and subcode, or else to the last one for the code without a subcode.
  pub resolve-register_all :
      (es : List (Entry Factory)) (code subcode : ℕ)
      → resolve_registered_error (register_all empty_registry es) code (some subcode)
        ≡ or_else
            (last_for (record { code = code; subcode = some subcode }) es)
            (last_for (any_subcode code) es)
  unfolding resolve_registered_error get
  resolve-register_all es code subcode = ground (
    arith,
    get-register_all (record { code = code; subcode = some subcode }) es empty_registry,
    get-register_all (any_subcode code) es empty_registry,
  )
