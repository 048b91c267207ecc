-- ===== src/Base/Json.antt =====
-- Values of parsed JSON, as the language's parser makes them. A number stands as the text that the
-- language prints for it, a text as its code units, and an object as its members in their order.
use wats.Base.{ℕ, suc, ◌+◌, Bool, true, false}
use wats.Base.Text.{Text}

mutual
  pub data Json : Type 0 where
    null : Json
    bool : Bool → Json
    num : Text → Json
    str : Text → Json
    arr : Items → Json
    obj : Fields → Json

  pub data Items : Type 0 where
    nil : Items
    cons : Json → Items → Items

  pub data Fields : Type 0 where
    end : Fields
    field : Text → Json → Fields → Fields

-- `value !== null && typeof value === "object"`
abbrev pub is_object : Json → Bool
is_object (arr xs) = true
is_object (obj fs) = true
is_object v = false

-- The count of the values in a value, itself included.
unfoldable mutual
  pub size : Json → ℕ
  size (arr xs) = suc (size_items xs)
  size (obj fs) = suc (size_fields fs)
  size null = 1
  size (bool b) = 1
  size (num t) = 1
  size (str t) = 1

  pub size_items : Items → ℕ
  size_items nil = 0
  size_items (cons v xs) = size v + size_items xs

  pub size_fields : Fields → ℕ
  size_fields end = 0
  size_fields (field k v fs) = size v + size_fields fs
