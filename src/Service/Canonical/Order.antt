-- ===== src/Service/Canonical/Order.antt =====
-- The canonical text does not depend on the order of an object's members.
use wats.Base.{
  ℕ, suc, ◌≡◌, ◌≢◌, ◌∙◌, refl, ap, Option, none, some, List, [], ◌∷◌, arith, ltb, if◌then◌else◌,
}
use wats.Base.Json.{Json, arr, obj, Items, nil, cons, Fields, end, field}
use wats.Base.Text.{Text}
use wats.Base.Order.{text_lt_asym, text_lt_total, text_lt_split}
use wats.Service.Canonical.{
  max_nested_depth, Member, insert_member, sort_members, in_braces, and_member,
  bounded_canonical_json, canonical_items, canonical_fields,
}

-- Two values that differ in the order of members with different keys only, at any depth.
mutual
  pub data Reordered : Json → Json → Type 0 where
    as_is : (v : Json) → Reordered v v
    in_items : (xs ys : Items) → ReorderedItems xs ys → Reordered (arr xs) (arr ys)
    in_fields : (fs gs : Fields) → ReorderedFields fs gs → Reordered (obj fs) (obj gs)

  pub data ReorderedItems : Items → Items → Type 0 where
    no_items : ReorderedItems nil nil
    each_item :
        (v w : Json) (xs ys : Items)
        → Reordered v w
        → ReorderedItems xs ys
        → ReorderedItems (cons v xs) (cons w ys)

  pub data ReorderedFields : Fields → Fields → Type 0 where
    no_fields : ReorderedFields end end
    each_field :
        (k : Text) (v w : Json) (fs gs : Fields)
        → Reordered v w
        → ReorderedFields fs gs
        → ReorderedFields (field k v fs) (field k w gs)
    exchange :
        (j k : Text) (v w : Json) (fs : Fields)
        → j ≢ k
        → ReorderedFields (field j v (field k w fs)) (field k w (field j v fs))
    after_that :
        (fs gs hs : Fields) → ReorderedFields fs gs → ReorderedFields gs hs → ReorderedFields fs hs

insert_member_comm :
    (a b : Member) (ms : List Member)
    → a.0 ≢ b.0
    → insert_member a (insert_member b ms) ≡ insert_member b (insert_member a ms)
unfolding insert_member
insert_member_comm a b [] ne =
    ground (arith, text_lt_asym (a.0) (b.0), text_lt_total (a.0) (b.0) ne)
insert_member_comm a b (n ∷ ms) ne = ground (
  arith,
  text_lt_asym (a.0) (b.0),
  text_lt_total (a.0) (b.0) ne,
  text_lt_split (n.0) (a.0) (b.0),
  text_lt_split (n.0) (b.0) (a.0),
  insert_member_comm a b ms ne,
)

-- The members of an object in their order.
abbrev sorted : Option (List Member) → Option (List Member)
sorted none = none
sorted (some ms) = some (sort_members ms)

in_braces-sorted : (o o' : Option (List Member)) → sorted o ≡ sorted o' → in_braces o ≡ in_braces o'
in_braces-sorted none none h = refl
in_braces-sorted none (some ms) h = cc
in_braces-sorted (some ms) none h = cc
in_braces-sorted (some ms) (some ns) h = cc

sorted-and_member :
    (k : Text) (t : Option Text) (o o' : Option (List Member))
    → sorted o ≡ sorted o'
    → sorted (and_member k t o) ≡ sorted (and_member k t o')
unfolding sort_members
sorted-and_member k none o o' h = refl
sorted-and_member k (some t) none none h = refl
sorted-and_member k (some t) none (some ms) h = cc
sorted-and_member k (some t) (some ms) none h = cc
sorted-and_member k (some t) (some ms) (some ns) h = ground (arith, h)

sorted-exchange :
    (j k : Text) (t u : Option Text) (o : Option (List Member))
    → j ≢ k
    → sorted (and_member j t (and_member k u o)) ≡ sorted (and_member k u (and_member j t o))
unfolding sort_members
sorted-exchange j k none none o ne = refl
sorted-exchange j k none (some u) none ne = refl
sorted-exchange j k none (some u) (some ms) ne = refl
sorted-exchange j k (some t) none o ne = refl
sorted-exchange j k (some t) (some u) none ne = refl
sorted-exchange j k (some t) (some u) (some ms) ne =
    ap some (insert_member_comm (j, t) (k, u) (sort_members ms) ne)

mutual
  unfolding bounded_canonical_json canonical_items canonical_fields

  canonical-Reordered :
      {v w : Json} (r : Reordered v w) (depth : ℕ)
      → bounded_canonical_json v depth ≡ bounded_canonical_json w depth
  canonical-Reordered (as_is v) depth = refl
  canonical-Reordered (in_items xs ys r) depth = rw (items-Reordered r (suc depth)) refl
  canonical-Reordered (in_fields fs gs r) depth =
      ap (λ t. if ltb max_nested_depth depth then none else t)
        (in_braces-sorted (canonical_fields fs (suc depth)) (canonical_fields gs (suc depth))
          (fields-Reordered r (suc depth)))

  items-Reordered :
      {xs ys : Items} (r : ReorderedItems xs ys) (depth : ℕ)
      → canonical_items xs depth ≡ canonical_items ys depth
  items-Reordered no_items depth = refl
  items-Reordered (each_item v w xs ys r rs) depth =
      rw (canonical-Reordered r depth, items-Reordered rs depth) refl

  fields-Reordered :
      {fs gs : Fields} (r : ReorderedFields fs gs) (depth : ℕ)
      → sorted (canonical_fields fs depth) ≡ sorted (canonical_fields gs depth)
  fields-Reordered no_fields depth = refl
  fields-Reordered (each_field k v w fs gs r rs) depth = rw (canonical-Reordered r depth) (
      sorted-and_member k (bounded_canonical_json w depth) (canonical_fields fs depth)
        (canonical_fields gs depth) (fields-Reordered rs depth))
  fields-Reordered (exchange j k v w fs ne) depth =
      sorted-exchange j k (bounded_canonical_json v depth) (bounded_canonical_json w depth)
        (canonical_fields fs depth) ne
  fields-Reordered (after_that fs gs hs r s) depth =
      fields-Reordered r depth ∙ fields-Reordered s depth

-- Values that differ in the order of their objects' members only, at any depth, have the same
-- canonical text, or neither has one.
pub bounded_canonical_json-Reordered :
    (v w : Json) (depth : ℕ)
    → Reordered v w
    → bounded_canonical_json v depth ≡ bounded_canonical_json w depth
bounded_canonical_json-Reordered v w depth r = canonical-Reordered r depth
