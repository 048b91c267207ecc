-- ===== src/Graph/Pagination/Sent.antt =====
-- What the parameters of a page's request are: the caller's own with the page size, or its
-- predecessor's with the cursor.
use Prim.Native.String.{String}
use text.Mathlib.Text.{◌==◌ as str_eq}
use text.Mathlib.TextEquality.{eq_iff}
use wats.Base.{
  ℕ, ◌≡◌, ◌≢◌, refl, ap, inl, inr, true, false, Bool-cases, Option, none, some, [], ◌∷◌, ◌++◌,
  arith, if◌then◌else◌,
}
use wats.Graph.Pagination.{Params, set_param, has_param, first_params, cursor_of}

-- The value under a key.
abbrev pub value_of : String → Params → Option String
value_of key [] = none
value_of key ((k, v) ∷ params) = if str_eq k key then some v else value_of key params

-- The parameters of a page that follows one with `params` by the cursor `after`.
pub record IsNext (params : Params) (after : String) (sent : Params) : Type 0 where
  pub cursor : value_of "after" sent ≡ some after
  pub kept : (key : String) → key ≢ "after" → value_of key sent ≡ value_of key params

-- The parameters of the first page: the caller's own if there is no page size or they have a limit,
-- and else with the page size as the limit.
pub data IsFirst (show : ℕ → String) : Option ℕ → Params → Params → Type 0 where
  no_size : (params : Params) → IsFirst show none params params
  own_limit :
      (n : ℕ) (params : Params) (v : String)
      → value_of "limit" params ≡ some v
      → IsFirst show (some n) params params
  sized :
      (n : ℕ) (params : Params)
      → value_of "limit" params ≡ none
      → IsFirst show (some n) params (params ++ (("limit", show n) ∷ []))

-- `next` is a URL, and not an empty one, from which the cursor is read.
pub record IsCursor (after_param : String → Option String) (next : Option String) (after : String)
    : Type 0 where
  pub url : String
  pub is_url : next ≡ some url
  pub is_full : url ≢ ""
  pub is_read : after_param url ≡ some after

-- There is no cursor: no URL, an empty one, or one without it.
pub data HasNoCursor (after_param : String → Option String) : Option String → Type 0 where
  no_url : HasNoCursor after_param none
  empty_url : HasNoCursor after_param (some "")
  no_after : (url : String) → after_param url ≡ none → HasNoCursor after_param (some url)

set_param-value :
    (key value : String) (params : Params) → value_of key (set_param key value params) ≡ some value
unfolding set_param
set_param-value key value [] = ground (arith, eq_iff key key)
set_param-value key value ((k, v) ∷ params) = elim (Bool-cases (str_eq k key)) [
  | inl e ↦ rw e (ground (arith, eq_iff key key))
  | inr e ↦ rw (e, e) (set_param-value key value params)
]

set_param-other :
    (key value other : String) (params : Params)
    → other ≢ key
    → value_of other (set_param key value params) ≡ value_of other params
unfolding set_param
set_param-other key value other [] n = ground (arith, eq_iff key other)
set_param-other key value other ((k, v) ∷ params) n = elim (Bool-cases (str_eq k key)) [
  | inl e ↦ rw e (ground (arith, eq_iff key other, eq_iff k key, eq_iff k other))
  | inr e ↦ rw e (elim (Bool-cases (str_eq k other)) [
    | inl m ↦ rw m refl
    | inr m ↦ rw m (set_param-other key value other params n)
  ])
]

pub set_param-IsNext :
    (params : Params) (after : String) → IsNext params after (set_param "after" after params)
set_param-IsNext params after = record {
  cursor = set_param-value "after" after params;
  kept = λ key n. set_param-other "after" after key params n;
}

-- A key is there or is set at the end.
set_param-absent :
    (key value : String) (params : Params)
    → has_param key params ≡ false
    → (value_of key params ≡ none) × (set_param key value params ≡ params ++ ((key, value) ∷ []))
unfolding has_param set_param
set_param-absent key value [] h = (refl, refl)
set_param-absent key value ((k, v) ∷ params) h = elim (Bool-cases (str_eq k key)) [
  | inl e ↦ ground (arith, e, h)
  | inr e ↦
      let rest = set_param-absent key value params (ground (arith, e, h)) in
      rw e (rest.0, ap (◌∷◌ (k, v)) rest.1)
]

has_param-value :
    (key : String) (params : Params)
    → has_param key params ≡ true
    → (v : String) × (value_of key params ≡ some v)
unfolding has_param
has_param-value key [] h = ground (arith, h)
has_param-value key ((k, v) ∷ params) h = elim (Bool-cases (str_eq k key)) [
  | inl e ↦ rw e (v, refl)
  | inr e ↦ rw e (has_param-value key params (ground (arith, e, h)))
]

pub first_params-IsFirst :
    (show : ℕ → String) (size : Option ℕ) (params : Params)
    → IsFirst show size params (first_params show size params)
unfolding first_params
first_params-IsFirst show none params = no_size params
first_params-IsFirst show (some n) params = elim (Bool-cases (has_param "limit" params)) [
  | inl h ↦ let own = has_param-value "limit" params h in rw h (own_limit n params own.0 own.1)
  | inr h ↦
      let absent = set_param-absent "limit" (show n) params h in
      rw (h, absent.1) (sized n params absent.0)
]

pub cursor_of-IsCursor :
    (after_param : String → Option String) (next : Option String) (after : String)
    → cursor_of after_param next ≡ some after
    → IsCursor after_param next after
unfolding cursor_of
cursor_of-IsCursor after_param none after h = ground (arith, h)
cursor_of-IsCursor after_param (some url) after h = elim (Bool-cases (str_eq url "")) [
  | inl e ↦ ground (arith, e, h)
  | inr e ↦ record {
    url = url;
    is_url = refl;
    is_full = ground (arith, e, eq_iff url "");
    is_read = ground (arith, e, h);
  }
]

pub cursor_of-HasNoCursor :
    (after_param : String → Option String) (next : Option String)
    → cursor_of after_param next ≡ none
    → HasNoCursor after_param next
unfolding cursor_of
cursor_of-HasNoCursor after_param none h = no_url
cursor_of-HasNoCursor after_param (some url) h = elim (Bool-cases (str_eq url "")) [
  | inl e ↦ let is_empty = (eq_iff url "").0 e in rw is_empty empty_url
  | inr e ↦ no_after url (ground (arith, e, h))
]
