-- ===== src/Graph/Pagination/Tests.antt =====
-- A walk over three pages, and the theorem on it.
use Prim.Native.String.{String}
use wats.Base.{ℕ, zero, suc, ◌≡◌, refl, Bool, true, false, Option, none, some, [], ◌∷◌}
use wats.Base.Result.{Result, ok, err}
use wats.Graph.Pagination.{
  Params, Page, Options, page_fetch_failed, cursor_of, pages_from, paginate_all, validate_options,
  invalid_max_pages,
}
use wats.Graph.Pagination.Sent.{IsFirst}
use wats.Graph.Pagination.Pages.{Walks, paginate_all-Walks}

abbrev page : ℕ → Option String → Page ℕ
page n next = record { items = some (n ∷ []); next = next }

-- The URL parser of the test takes the URL for the cursor.
abbrev fetch : ℕ → Params → Result String (Page ℕ)
fetch zero params = ok (page 1 (some "b"))
fetch (suc zero) params = ok (page 2 (some "c"))
fetch _ params = err "down"

abbrev show : ℕ → String
show n = "2"

abbrev never : ℕ → Bool
never k = false

abbrev options : Options
options = record { max_pages = some 2; page_size = some 2 }

two_pages :
    paginate_all some show fetch never [] options
    ≡ some (
        ok (record {
          items = 1 ∷ 2 ∷ [];
          pages_consumed = 2;
          page_limit_reached = true;
          aborted = false;
        }))
unfolding paginate_all pages_from validate_options cursor_of
two_pages = refl

third_page_fails :
    paginate_all some show fetch never [] (record options { max_pages = none })
    ≡ some (err (page_fetch_failed 3 "down"))
unfolding paginate_all pages_from validate_options cursor_of
third_page_fails = refl

no_pages_asked :
    paginate_all some show fetch never [] (record options { max_pages = some 0 })
    ≡ some (err invalid_max_pages)
unfolding paginate_all validate_options
no_pages_asked = refl

paginate_all-Walks_example :
    (sent : Params) × IsFirst show (some 2) [] sent
    × Walks some show fetch never 2 0 sent [] (paginate_all some show fetch never [] options)
unfolding validate_options
paginate_all-Walks_example = paginate_all-Walks some show fetch never 2 [] options refl refl
