-- ===== src/Graph/Pagination.antt =====
-- packages/graph/src/pagination.ts: walking a list of pages by their `after` cursors.
-- The endpoint, the platform's URL parser and the caller's signal are parameters; the two dynamic
-- checks of the endpoint's and the signal's shape are left out, as types make them.
pub mod Pages
pub mod Sent
mod Tests
use Prim.Native.String.{String}
use text.Mathlib.Text.{◌==◌ as str_eq}
use wats.Base.{
  ℕ, zero, suc, ◌+◌, ◌*◌, Bool, true, false, Option, none, some, List, [], ◌∷◌, ◌++◌, ltb, leb,
  if◌then◌else◌,
}
use wats.Base.Result.{Result, ok, err, ◌>>=◌, ◌>>◌, guard}

abbrev pub Params : Type 0
Params = List (String × String)

pub record Page {ℓ} (Item : Type ℓ) : Type ℓ where
  pub items : Option (List Item)
  -- `paging?.next`
  pub next : Option String

pub record PaginatedResult {ℓ} (Item : Type ℓ) : Type ℓ where
  pub items : List Item
  pub pages_consumed : ℕ
  pub page_limit_reached : Bool
  pub aborted : Bool

pub data PaginationError (Cause : Type 0) : Type 0 where
  invalid_max_pages invalid_page_size : PaginationError Cause
  -- the number of the page, and the endpoint's error
  page_fetch_failed : ℕ → Cause → PaginationError Cause

pub record Options : Type 0 where
  pub max_pages : Option ℕ
  pub page_size : Option ℕ

abbrev pub default_max_pages : ℕ
default_max_pages = 1000

-- `{ ...params, [key]: value }`
pub set_param : String → String → Params → Params
set_param key value [] = (key, value) ∷ []
set_param key value ((k, v) ∷ params) =
    if str_eq k key then (key, value) ∷ params else (k, v) ∷ set_param key value params

pub has_param : String → Params → Bool
has_param key [] = false
has_param key ((k, v) ∷ params) = if str_eq k key then true else has_param key params

abbrev positive :
    {Cause : Type 0} → Option ℕ → PaginationError Cause → Result (PaginationError Cause) (Unit {0})
positive none e = ok tt
positive (some n) e = guard (ltb 0 n) e

abbrev pub max_pages_of : Options → ℕ
max_pages_of o = elim o.max_pages [ none ↦ default_max_pages | some n ↦ n ]

pub validate_options : {Cause : Type 0} → Options → Result (PaginationError Cause) ℕ
validate_options o = do
  positive o.max_pages invalid_max_pages
  positive o.page_size invalid_page_size
  ok (max_pages_of o)

-- `String(n)` is the platform's.
pub first_params : (ℕ → String) → Option ℕ → Params → Params
first_params show none params = params
first_params show (some n) params =
    if has_param "limit" params then params else set_param "limit" (show n) params

abbrev pub data_of {ℓ} : {Item : Type ℓ} → Page Item → List Item
data_of page = elim page.items [ none ↦ [] | some items ↦ items ]

-- The `after` cursor of a next-page URL that is not empty, if the URL can be read and has one.
pub cursor_of : (String → Option String) → Option String → Option String
cursor_of after_param none = none
cursor_of after_param (some url) = if str_eq url "" then none else after_param url

-- `aborted k` is what the signal shows when it is read for the k-th time; without a signal it is
-- false throughout. `fetch k` is the endpoint's answer to the k-th call.
module _ {ℓ} {Item : Type ℓ} {Cause : Type 0} (after_param : String → Option String)
    (show : ℕ → String) (fetch : ℕ → Params → Result Cause (Page Item)) (aborted : ℕ → Bool) where
  abbrev summary : List Item → ℕ → Bool → Bool → PaginatedResult Item
  summary items consumed limit gone = record {
    items = items;
    pages_consumed = consumed;
    page_limit_reached = limit;
    aborted = gone;
  }

  -- The rest of the walk, once a page and its cursor are read: a page limit, the end, or `next`.
  abbrev pub after_page :
      Bool
      → Option String
      → (Bool → Option (Result (PaginationError Cause) (PaginatedResult Item)))
      → (String → Option (Result (PaginationError Cause) (PaginatedResult Item)))
      → Option (Result (PaginationError Cause) (PaginatedResult Item))
  after_page true cursor stop next = stop true
  after_page false none stop next = stop false
  after_page false (some after) stop next = next after

  -- The loop, with `consumed` pages read and `collected` items; `none` if the fuel runs out.
  pub pages_from :
      ℕ
      → ℕ
      → Params
      → ℕ
      → List Item
      → Option (Result (PaginationError Cause) (PaginatedResult Item))
  pages_from zero max_pages params consumed collected = none
  pages_from (suc fuel) max_pages params consumed collected =
      if aborted (suc consumed)
      then some (ok (summary collected consumed false true))
      else elim (fetch consumed params) [
        | err cause ↦ some (err (page_fetch_failed (consumed + 1) cause))
        | ok page ↦
            after_page (leb max_pages (consumed + 1)) (cursor_of after_param page.next)
              (λ full. some (ok (summary (collected ++ data_of page) (consumed + 1) full false)))
              (λ after.
                pages_from fuel max_pages (set_param "after" after params) (suc consumed)
                  (collected ++ data_of page))
      ]

  -- `paginate` driven to its end, as `paginateAll` does. The bound on the pages bounds the loop.
  pub paginate_all :
      Params → Options → Option (Result (PaginationError Cause) (PaginatedResult Item))
  paginate_all params o = elim (validate_options {Cause = Cause} o) [
    | err e ↦ some (err e)
    | ok max_pages ↦
        if aborted 0
        then some (ok (summary [] 0 false true))
        else pages_from max_pages max_pages (first_params show o.page_size params) 0 []
  ]
