-- ===== src/Service/Canonical/Depth.antt =====
-- The canonical text exists exactly for the values that pass the gate on their depth.
use wats.Base.{
  ℕ, suc, ◌≡◌, ◌≢◌, ◌↔◌, refl, Bool, true, false, ◌||◌, Option, none, some, List, arith, ltb,
}
use wats.Base.Json.{Json, null, bool, num, str, arr, obj, Items, nil, cons, Fields, end, field}
use wats.Base.Text.{Text}
use wats.Service.Canonical.{
  larger, measure_depth, measure_items, measure_fields, is_within_depth_limit, in_brackets,
  and_item, bounded_canonical_json, canonical_items, canonical_fields,
}

abbrev pub is_none : {A : Type 0} → Option A → Bool
is_none none = true
is_none (some a) = false

is_none-in_brackets : (o : Option (List Text)) → is_none (in_brackets o) ≡ is_none o
is_none-in_brackets none = refl
is_none-in_brackets (some ts) = refl

is_none-and_item :
    (o : Option Text) (rest : Option (List Text))
    → is_none (and_item o rest) ≡ (is_none o || is_none rest)
is_none-and_item none rest = refl
is_none-and_item (some t) none = refl
is_none-and_item (some t) (some ts) = refl

mutual
  unfolding measure_depth measure_items measure_fields bounded_canonical_json canonical_items
      canonical_fields

  ltb-measure_depth :
      (v : Json) (depth : ℕ)
      → ltb 128 (measure_depth v depth) ≡ is_none (bounded_canonical_json v depth)
  ltb-measure_depth null depth = ground arith
  ltb-measure_depth (bool true) depth = ground arith
  ltb-measure_depth (bool false) depth = ground arith
  ltb-measure_depth (num t) depth = ground arith
  ltb-measure_depth (str t) depth = ground arith
  ltb-measure_depth (arr xs) depth = ground (arith, ltb-measure_items xs (suc depth) depth)
  ltb-measure_depth (obj fs) depth = ground (arith, ltb-measure_fields fs (suc depth) depth)

  ltb-measure_items :
      (xs : Items) (depth most : ℕ)
      → ltb 128 (measure_items xs depth most) ≡ (ltb 128 most || is_none (canonical_items xs depth))
  ltb-measure_items nil depth most = ground arith
  ltb-measure_items (cons v xs) depth most = ground (
    arith,
    ltb-measure_depth v depth,
    ltb-measure_items xs depth (larger most (measure_depth v depth)),
  )

  ltb-measure_fields :
      (fs : Fields) (depth most : ℕ)
      → ltb 128 (measure_fields fs depth most)
        ≡ (ltb 128 most || is_none (canonical_fields fs depth))
  ltb-measure_fields end depth most = ground arith
  ltb-measure_fields (field k v fs) depth most = ground (
    arith,
    ltb-measure_depth v depth,
    ltb-measure_fields fs depth (larger most (measure_depth v depth)),
  )

-- The two functions agree on the limit: the canonical text of a value exists exactly if the measured
-- depth of the value is within the limit.
pub bounded_canonical_json-is_within_depth_limit :
    (v : Json) → (is_within_depth_limit v ≡ true) ↔ (bounded_canonical_json v 0 ≢ none)
unfolding is_within_depth_limit
bounded_canonical_json-is_within_depth_limit v = ground (arith, ltb-measure_depth v 0)
