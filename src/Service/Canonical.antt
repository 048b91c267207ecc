-- ===== src/Service/Canonical.antt =====
-- packages/service/src/webhookIngress.ts, `measureDepth` and `boundedCanonicalJson`: the depth of a
-- parsed value, and its text with the members of every object in the order of their keys.
pub mod Depth
pub mod Order
mod Tests
use wats.Base.{
  ℕ, suc, Bool, true, false, Option, none, some, List, [], ◌∷◌, ◌++◌, ltb, leb, if◌then◌else◌,
}
use wats.Base.Json.{Json, null, bool, num, str, arr, obj, Items, nil, cons, Fields, end, field}
use wats.Base.Text.{Text, codes, text_lt}
use wats.Service.JsonText.{quote, comma_separated}

-- `MAX_NESTED_DEPTH`
abbrev pub max_nested_depth : ℕ
max_nested_depth = 128

-- `if (d > max) max = d`
abbrev pub larger : ℕ → ℕ → ℕ
larger most d = if ltb most d then d else most

-- `measureDepth`
mutual
  pub measure_depth : Json → ℕ → ℕ
  measure_depth (arr xs) depth =
      if ltb max_nested_depth depth then depth else measure_items xs (suc depth) depth
  measure_depth (obj fs) depth =
      if ltb max_nested_depth depth then depth else measure_fields fs (suc depth) depth
  measure_depth null depth = depth
  measure_depth (bool b) depth = depth
  measure_depth (num t) depth = depth
  measure_depth (str t) depth = depth

  -- The loops over children at a depth, with the largest depth so far.
  pub measure_items : Items → ℕ → ℕ → ℕ
  measure_items nil depth most = most
  measure_items (cons v xs) depth most =
      measure_items xs depth (larger most (measure_depth v depth))

  pub measure_fields : Fields → ℕ → ℕ → ℕ
  measure_fields end depth most = most
  measure_fields (field k v fs) depth most =
      measure_fields fs depth (larger most (measure_depth v depth))

-- `isWithinDepthLimit`
unfoldable pub is_within_depth_limit : Json → Bool
unfolding measure_depth measure_items measure_fields
is_within_depth_limit v = leb (measure_depth v 0) max_nested_depth

-- A member with the text of its value.
abbrev pub Member : Type 0
Member = Text × Text

-- `Object.keys(value).sort()`
pub insert_member : Member → List Member → List Member
insert_member m [] = m ∷ []
insert_member m (n ∷ ms) = if text_lt n.0 m.0 then n ∷ insert_member m ms else m ∷ n ∷ ms

pub sort_members : List Member → List Member
sort_members [] = []
sort_members (m ∷ ms) = insert_member m (sort_members ms)

pub member_texts : List Member → List Text
member_texts [] = []
member_texts (m ∷ ms) = (quote m.0 ++ b':' ∷ m.1) ∷ member_texts ms

abbrev pub in_brackets : Option (List Text) → Option Text
in_brackets none = none
in_brackets (some ts) = some (b'[' ∷ (comma_separated ts ++ b']' ∷ []))

abbrev pub in_braces : Option (List Member) → Option Text
in_braces none = none
in_braces (some ms) = some (b'{' ∷ (comma_separated (member_texts (sort_members ms)) ++ b'}' ∷ []))

abbrev pub and_item : Option Text → Option (List Text) → Option (List Text)
and_item none rest = none
and_item (some t) none = none
and_item (some t) (some ts) = some (t ∷ ts)

abbrev pub and_member : Text → Option Text → Option (List Member) → Option (List Member)
and_member k none rest = none
and_member k (some t) none = none
and_member k (some t) (some ms) = some ((k, t) ∷ ms)

-- `boundedCanonicalJson`; the values of an object's members are written before the members are
-- sorted, which gives the same text.
mutual
  pub bounded_canonical_json : Json → ℕ → Option Text
  bounded_canonical_json (arr xs) depth =
      if ltb max_nested_depth depth then none else in_brackets (canonical_items xs (suc depth))
  bounded_canonical_json (obj fs) depth =
      if ltb max_nested_depth depth then none else in_braces (canonical_fields fs (suc depth))
  bounded_canonical_json null depth =
      if ltb max_nested_depth depth then none else some (codes "null")
  bounded_canonical_json (bool true) depth =
      if ltb max_nested_depth depth then none else some (codes "true")
  bounded_canonical_json (bool false) depth =
      if ltb max_nested_depth depth then none else some (codes "false")
  bounded_canonical_json (num t) depth = if ltb max_nested_depth depth then none else some t
  bounded_canonical_json (str t) depth = if ltb max_nested_depth depth then none else some (quote t)

  pub canonical_items : Items → ℕ → Option (List Text)
  canonical_items nil depth = some []
  canonical_items (cons v xs) depth =
      and_item (bounded_canonical_json v depth) (canonical_items xs depth)

  pub canonical_fields : Fields → ℕ → Option (List Member)
  canonical_fields end depth = some []
  canonical_fields (field k v fs) depth =
      and_member k (bounded_canonical_json v depth) (canonical_fields fs depth)
