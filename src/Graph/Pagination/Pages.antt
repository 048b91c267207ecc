-- ===== src/Graph/Pagination/Pages.antt =====
-- What a walk over the pages returns.
use Prim.Native.String.{String}
use wats.Base.{
  ℕ, zero, suc, ◌+◌, ◌≤◌, ◌<◌, ◌≡◌, refl, ap, sym, ◌∙◌, ◌⊎◌, inl, inr, Bool, true, false, Option,
  some, List, [], ◌∷◌, ◌++◌, append-nil, append_assoc, arith, leb, Bool-cases, Option-cases, length,
}
use wats.Base.Result.{Result, ok, err, Result-cases}
use wats.Graph.Pagination.{
  Params, Page, PaginatedResult, PaginationError, page_fetch_failed, Options, set_param,
  first_params, data_of, cursor_of, pages_from, paginate_all, validate_options,
}
use wats.Graph.Pagination.Sent.{
  IsNext, IsFirst, IsCursor, HasNoCursor, set_param-IsNext, first_params-IsFirst,
  cursor_of-IsCursor, cursor_of-HasNoCursor,
}

validate_options-pos :
    {Cause : Type 0} (o : Options) (max_pages : ℕ)
    → validate_options {Cause = Cause} o ≡ ok max_pages
    → 0 < max_pages
unfolding validate_options
validate_options-pos o max_pages h = ground arith

module _ {ℓ} {Item : Type ℓ} {Cause : Type 0} (after_param : String → Option String)
    (show : ℕ → String) (fetch : ℕ → Params → Result Cause (Page Item)) (aborted : ℕ → Bool)
    (max_pages : ℕ) where
  -- A page that is read: the signal is not aborted before it, and the endpoint answers with it.
  pub record IsRead (k : ℕ) (params : Params) (page : Page Item) : Type ℓ where
    pub live : aborted (suc k) ≡ false
    pub fetched : fetch k params ≡ ok page

  -- From a page on, the walk goes to the next one, which is asked for with `sent`: there is room for
  -- it, and the page's cursor is sent with the parameters.
  pub record GoesTo (k : ℕ) (params : Params) (page : Page Item) (sent : Params) : Type ℓ where
    pub read : IsRead k params page
    pub room : k + 1 < max_pages
    pub after : String
    pub is_cursor : IsCursor after_param page.next after
    pub is_next : IsNext params after sent

  -- The pages that were read from the `k`-th on, each with the parameters that its predecessor's
  -- cursor gives, up to what ends the walk, with the two flags of the summary: an abort, the page
  -- limit, or a page with no cursor.
  pub data Chain : ℕ → Params → List (Page Item) → Bool → Bool → Type ℓ where
    gone : {k : ℕ} {params : Params} → aborted (suc k) ≡ true → Chain k params [] false true
    full :
        {k : ℕ} {params : Params} (page : Page Item)
        → IsRead k params page
        → k + 1 ≡ max_pages
        → Chain k params (page ∷ []) true false
    over :
        {k : ℕ} {params : Params} (page : Page Item)
        → IsRead k params page
        → k + 1 < max_pages
        → HasNoCursor after_param page.next
        → Chain k params (page ∷ []) false false
    more :
        {k : ℕ} {params : Params} (page : Page Item) (sent : Params) {pages : List (Page Item)}
        {limit abort : Bool}
        → GoesTo k params page sent
        → Chain (suc k) sent pages limit abort
        → Chain k params (page ∷ pages) limit abort

  -- The page that the endpoint fails on, reached in the same way, and its error.
  pub data Fails : ℕ → Params → ℕ → Cause → Type ℓ where
    fails_here :
        {k : ℕ} {params : Params} {cause : Cause}
        → aborted (suc k) ≡ false
        → fetch k params ≡ err cause
        → Fails k params k cause
    fails_later :
        {k n : ℕ} {params : Params} {cause : Cause} (page : Page Item) (sent : Params)
        → GoesTo k params page sent
        → Fails (suc k) sent n cause
        → Fails k params n cause

  abbrev pub all_items : List (Page Item) → List Item
  all_items [] = []
  all_items (page ∷ pages) = data_of page ++ all_items pages

  -- A summary is right about the pages that were read.
  pub record IsSummary (k : ℕ) (params : Params) (collected : List Item) (r : PaginatedResult Item)
      : Type ℓ where
    pub pages : List (Page Item)
    pub chain : Chain k params pages r.page_limit_reached r.aborted
    pub items : r.items ≡ collected ++ all_items pages
    pub consumed : r.pages_consumed ≡ k + length pages
    pub within : r.pages_consumed ≤ max_pages

  -- An error names the page that the endpoint failed on.
  pub record IsFailure (k : ℕ) (params : Params) (e : PaginationError Cause) : Type ℓ where
    pub page : ℕ
    pub cause : Cause
    pub failed : Fails k params page cause
    pub named : e ≡ page_fetch_failed (page + 1) cause

  abbrev pub Walks :
      ℕ
      → Params
      → List Item
      → Option (Result (PaginationError Cause) (PaginatedResult Item))
      → Type ℓ
  Walks k params collected o =
      ((r : PaginatedResult Item) × (o ≡ some (ok r)) × IsSummary k params collected r)
      ⊎ ((e : PaginationError Cause) × (o ≡ some (err e)) × IsFailure k params e)

  Walks-next :
      {k : ℕ} {params : Params} {collected : List Item} (page : Page Item) (sent : Params)
      (o : Option (Result (PaginationError Cause) (PaginatedResult Item)))
      → GoesTo k params page sent
      → Walks (suc k) sent (collected ++ data_of page) o
      → Walks k params collected o
  Walks-next {collected} page sent o f (inl (r, e, s)) = inl (
    r,
    e,
    record {
      pages = page ∷ s.pages;
      chain = more page sent f s.chain;
      items = s.items ∙ append_assoc collected (data_of page) (all_items s.pages);
      consumed = omega (arith, s.consumed);
      within = s.within;
    },
  )
  Walks-next page sent o f (inr (x, e, s)) = inr (
    x,
    e,
    record {
      page = s.page;
      cause = s.cause;
      failed = fails_later page sent f s.failed;
      named = s.named;
    },
  )

  Walks-last :
      {k : ℕ} {params : Params} {collected : List Item} (page : Page Item) (limit : Bool)
      → Chain k params (page ∷ []) limit false
      → k < max_pages
      → IsSummary k params collected (record {
        items = collected ++ data_of page;
        pages_consumed = k + 1;
        page_limit_reached = limit;
        aborted = false;
      })
  Walks-last {collected} page limit c h = record {
    pages = page ∷ [];
    chain = c;
    items = ap (◌++◌ collected) (sym (append-nil (data_of page)));
    consumed = omega arith;
    within = omega arith;
  }

  pages_from-Walks :
      (fuel : ℕ) (params : Params) (k : ℕ) (collected : List Item)
      → k + fuel ≡ max_pages
      → 0 < fuel
      → Walks k params collected
          (pages_from after_param show fetch aborted fuel max_pages params k collected)
  unfolding pages_from
  pages_from-Walks zero params k collected e h = elim h [ ]
  pages_from-Walks (suc fuel) params k collected e h = elim (Bool-cases (aborted (suc k))) [
    | inl seen ↦ rw seen (
        inl (
          _,
          refl,
          record {
            pages = [];
            chain = gone seen;
            items = sym (append-nil collected);
            consumed = omega arith;
            within = omega arith;
          },
        ))
    | inr live ↦ rw live (elim (Result-cases (fetch k params)) [
      | inr (cause, f) ↦ rw f (
          inr
            (_, refl, record { page = k; cause = cause; failed = fails_here live f; named = refl }))
      | inl (page, f) ↦
          let read : IsRead k params page = record { live = live; fetched = f } in
          rw f (elim (Bool-cases (leb max_pages (k + 1))) [
            | inl last ↦
                rw last (
                  inl (_, refl, Walks-last page true (full page read (ground arith)) (omega arith)))
            | inr room ↦ rw room (elim (Option-cases (cursor_of after_param page.next)) [
              | inl end ↦
                  let none_there = cursor_of-HasNoCursor after_param page.next end in
                  rw end (
                    inl (
                      _,
                      refl,
                      Walks-last page false (over page read (ground arith) none_there)
                          (omega arith),
                    ))
              | inr (after, c) ↦
                  let is_cursor = cursor_of-IsCursor after_param page.next after c in
                  rw c (
                    Walks-next page (set_param "after" after params) _
                      (record {
                        read = read;
                        room = ground arith;
                        after = after;
                        is_cursor = is_cursor;
                        is_next = set_param-IsNext params after;
                      })
                      (pages_from-Walks fuel (set_param "after" after params) (suc k)
                        (collected ++ data_of page) (omega arith) (ground arith)))
            ])
          ])
    ])
  ]

  -- With valid options and a signal that is not aborted at the start, the walk ends. It returns the
  -- items, in order, of a chain of pages, each read while the signal is not aborted. The first is
  -- fetched with the caller's parameters, with the page size as `limit` unless they have one;
  -- each next one with its predecessor's cursor as `after` and the other parameters as they were.
  -- The chain stops only where the signal is seen aborted before a page, where `maxPages` pages are
  -- read, or at a page whose `next` is absent, empty or without a cursor, which the two flags
  -- report. Or the walk throws the error of the page, reached by such a chain, at which the endpoint
  -- failed.
  pub paginate_all-Walks :
      (params : Params) (o : Options)
      → validate_options {Cause = Cause} o ≡ ok max_pages
      → aborted 0 ≡ false
      → (sent : Params) × IsFirst show o.page_size params sent
        × Walks 0 sent [] (paginate_all after_param show fetch aborted params o)
  unfolding paginate_all
  paginate_all-Walks params o valid live = (
    first_params show o.page_size params,
    first_params-IsFirst show o.page_size params,
    rw (valid, live, paginate_all)
        (pages_from-Walks max_pages (first_params show o.page_size params) 0 [] (omega arith)
          (validate_options-pos o max_pages valid)),
  )
