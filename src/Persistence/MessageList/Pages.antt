-- ===== src/Persistence/MessageList/Pages.antt =====
-- Following the cursors from the first page on gives all messages, each once, in their order.
use Prim.Native.String.{String}
use wats.Base.{
  ℕ, zero, suc, ◌≡◌, ◌≤◌, ◌<◌, ◌∙◌, refl, ap, sym, inl, inr, true, false, ◌&&◌, Option, none, some,
  List, [], ◌∷◌, ◌++◌, append_assoc, keep, take, length, length-append, leb, ltb, All, arith,
  Bool-cases,
}
use mathlib.Core.Path.{subst}
use wats.Base.Result.{Result, ok, ◌>>=◌}
use wats.Base.Text.{codes, text_eq_iff, text_eq_refl}
use wats.Persistence.Validation.{ErrorCode, is_record_string}
use wats.Persistence.Messages.{Message, Store}
use wats.Persistence.MessageList.{
  precedes, insert_listed, listed, find_row, last_id, page_of, page_after, list_rows,
  validate_cursor, list_messages,
}
use wats.Persistence.MessageList.Sorted.{
  AreDistinct, Differ, IsSorted, listed-All, listed-IsSorted, keep-listed, keep_after, middle,
}

-- The pages from a cursor on, as many as the fuel allows, in one list.
pub follow : ℕ → Store → ℕ → Option String → Result ErrorCode (List Message)
follow zero s limit before = ok []
follow (suc n) s limit before = list_messages s limit before >>= λ page. (elim page.next_cursor [
  | none ↦ ok page.items
  | some id ↦ follow n s limit (some id) >>= λ more. ok (page.items ++ more)
])

last_id-append : (zs : List Message) (c : Message) → last_id (zs ++ c ∷ []) ≡ some c.row_id
unfolding last_id
last_id-append [] c = refl
last_id-append (z ∷ []) c = refl
last_id-append (z ∷ y ∷ zs) c = last_id-append (y ∷ zs) c

take-take : (n : ℕ) (ys : List Message) → take n (take (suc n) ys) ≡ take n ys
take-take zero ys = refl
take-take (suc n) [] = refl
take-take (suc n) (y ∷ ys) = ap (λ t. y ∷ t) (take-take n ys)

ltb-length-take : (n : ℕ) (ys : List Message) → ltb n (length (take (suc n) ys)) ≡ ltb n (length ys)
ltb-length-take zero [] = refl
ltb-length-take zero (y ∷ ys) = ground arith
ltb-length-take (suc n) [] = refl
ltb-length-take (suc n) (y ∷ ys) = ground (arith, ltb-length-take n ys)

take_all : (n : ℕ) (ys : List Message) → length ys ≤ n → take n ys ≡ ys
take_all zero [] h = refl
take_all zero (y ∷ ys) h = absurd (omega (arith, h))
take_all (suc n) [] h = refl
take_all (suc n) (y ∷ ys) h = ap (λ t. y ∷ t) (take_all n ys (omega (arith, h)))

-- A full page and the rows after it.
record Split (n : ℕ) (ys : List Message) : Type 0 where
  front : List Message
  last : Message
  back : List Message
  whole : ys ≡ front ++ last ∷ back
  page : take n ys ≡ front ++ last ∷ []

cut_page : (n : ℕ) (ys : List Message) → suc n < length ys → Split (suc n) ys
cut_page n [] h = absurd (omega (arith, h))
cut_page zero (y ∷ ys) h = record { front = []; last = y; back = ys; whole = refl; page = refl }
cut_page (suc n) (y ∷ ys) h =
    let more : Split (suc n) ys = cut_page n ys (omega (arith, h)) in
    record {
      front = y ∷ more.front;
      last = more.last;
      back = more.back;
      whole = ap (λ t. y ∷ t) more.whole;
      page = ap (λ t. y ∷ t) more.page;
    }

cut_full : (n : ℕ) (ys : List Message) → 1 ≤ n → n < length ys → Split n ys
cut_full zero ys l h = absurd (omega (arith, l))
cut_full (suc n) ys l h = cut_page n ys h

abbrev pub IsFound : List Message → Message → Type 0
IsFound rows m = find_row m.row_id rows ≡ some m

weaken :
    (r : Message) (rows sub : List Message)
    → All (Differ r) sub
    → All (IsFound rows) sub
    → All (IsFound (r ∷ rows)) sub
unfolding find_row
weaken r rows [] d h = tt
weaken r rows (x ∷ sub) d h = (
  ground (
    arith,
    d.0,
    h.0,
    text_eq_iff (codes r.row_id) (codes x.row_id),
    text_eq_iff (codes x.row_id) (codes r.row_id),
  ),
  weaken r rows sub (d.1) (h.1),
)

all-IsFound : (rows : List Message) → AreDistinct rows → All (IsFound rows) rows
unfolding find_row
all-IsFound [] d = tt
all-IsFound (r ∷ rows) d = (
  ground (arith, text_eq_refl (codes r.row_id)),
  weaken r rows rows (d.0) (all-IsFound rows (d.1)),
)

-- The page after a row is the first page of the rows after it.
list_rows-page_of :
    (limit : ℕ) (rows xs : List Message) (c : Message) (ys : List Message)
    → AreDistinct rows
    → listed rows ≡ xs ++ c ∷ ys
    → list_rows limit rows (some c.row_id) ≡ page_of limit (take (suc limit) ys)
unfolding list_rows page_after
list_rows-page_of limit rows xs c ys d e =
    let found : IsFound rows c =
      middle (IsFound rows) xs c ys
        (subst (All (IsFound rows)) e (listed-All (IsFound rows) rows (all-IsFound rows d))) in
    let left : listed (keep (precedes c) rows) ≡ ys =
      sym (keep-listed (precedes c) rows d)
      ∙ (ap (keep (precedes c)) e
          ∙ keep_after xs c ys (subst IsSorted e (listed-IsSorted rows d))) in
    rw (found, left) refl

length-insert_listed :
    (r : Message) (rows : List Message) → length (insert_listed r rows) ≡ suc (length rows)
unfolding insert_listed
length-insert_listed r [] = refl
length-insert_listed r (x ∷ rows) = ground (arith, length-insert_listed r rows)

length-listed : (rows : List Message) → length (listed rows) ≡ length rows
unfolding listed
length-listed [] = refl
length-listed (r ∷ rows) = length-insert_listed r (listed rows) ∙ ap suc (length-listed rows)

abbrev pub HasValidId : Message → Type 0
HasValidId m = is_record_string m.row_id ≡ true

module _ (s : Store) (limit : ℕ) (is_open : s.closed ≡ false) (least : 1 ≤ limit)
    (most : limit ≤ 100) where
  list_messages-first : list_messages s limit none ≡ ok (list_rows limit s.messages none)
  unfolding list_messages validate_cursor
  list_messages-first =
      let in_range : leb 1 limit && leb limit 100 ≡ true = ground arith in
      rw (is_open, in_range) refl

  list_messages-after :
      (id : String)
      → is_record_string id ≡ true
      → list_messages s limit (some id) ≡ ok (list_rows limit s.messages (some id))
  unfolding list_messages validate_cursor
  list_messages-after id v =
      let in_range : leb 1 limit && leb limit 100 ≡ true = ground arith in
      rw (is_open, in_range, v) refl

  follow-lem :
      (n : ℕ) (before : Option String) (xs ys : List Message)
      → AreDistinct s.messages
      → All HasValidId s.messages
      → listed s.messages ≡ xs ++ ys
      → list_messages s limit before ≡ ok (page_of limit (take (suc limit) ys))
      → length ys < n
      → follow n s limit before ≡ ok ys
  unfolding follow page_of
  follow-lem zero before xs ys d v e p h = absurd (omega (arith, h))
  follow-lem (suc n) before xs ys d v e p h = elim (Bool-cases (ltb limit (length ys))) [
    | inr small ↦
        rw
          (
            p,
            ltb-length-take limit ys,
            small,
            take-take limit ys,
            take_all limit ys (ground (arith, small)),
          )
          refl
    | inl big ↦
        let sp : Split limit ys = cut_full limit ys least (ground (arith, big)) in
        let e₂ : listed s.messages ≡ (xs ++ sp.front) ++ sp.last ∷ sp.back =
          e ∙ (ap (λ t. xs ++ t) sp.whole ∙ sym (append_assoc xs sp.front (sp.last ∷ sp.back))) in
        let valid : HasValidId sp.last =
          middle HasValidId (xs ++ sp.front) sp.last sp.back
            (subst (All HasValidId) e₂ (listed-All HasValidId s.messages v)) in
        let more : follow n s limit (some sp.last.row_id) ≡ ok sp.back =
          follow-lem n (some sp.last.row_id) ((xs ++ sp.front) ++ sp.last ∷ []) sp.back d v
            (e₂ ∙ sym (append_assoc (xs ++ sp.front) (sp.last ∷ []) sp.back))
            (list_messages-after sp.last.row_id valid
              ∙ ap ok (list_rows-page_of limit s.messages (xs ++ sp.front) sp.last sp.back d e₂))
            (omega (arith, h, ap length sp.whole, length-append sp.front (sp.last ∷ sp.back))) in
        rw
          (
            p,
            ltb-length-take limit ys,
            big,
            take-take limit ys,
            sp.page,
            last_id-append sp.front sp.last,
            more,
          )
          (ap ok (append_assoc sp.front (sp.last ∷ []) sp.back ∙ sym sp.whole))
  ]

-- On an open store whose row ids are valid and unique, with a limit from 1 to 100: the pages from the
-- first one on, each with the cursor that the one before it gives, end with a page without a
-- cursor after at most one page more than there are messages, and together are all messages, each
-- once, the latest first, and of those of one time the ones with the greater row id first.
pub follow-listed :
    (s : Store) (limit n : ℕ)
    → s.closed ≡ false
    → 1 ≤ limit
    → limit ≤ 100
    → AreDistinct s.messages
    → All HasValidId s.messages
    → length s.messages < n
    → follow n s limit none ≡ ok (listed s.messages)
unfolding list_rows
follow-listed s limit n o l m d v h =
    follow-lem s limit o l m n none [] (listed s.messages) d v refl
      (list_messages-first s limit o l m) (omega (arith, h, length-listed s.messages))
