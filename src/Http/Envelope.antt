-- ===== src/Http/Envelope.antt =====
-- packages/http/src/adapters/webhookAdapter.ts, `isBoundedEnvelope`: the walk, over a stack of its
-- own, that bounds the nesting of a parsed body.
pub mod Bounded
mod Tests
use wats.Base.{
  ℕ, zero, suc, Bool, true, false, Option, none, some, List, [], ◌∷◌, ltb, if◌then◌else◌,
}
use wats.Base.Json.{Json, arr, obj, Items, nil, cons, Fields, end, field, is_object, size}

-- `MAX_ENVELOPE_DEPTH`
abbrev pub max_envelope_depth : ℕ
max_envelope_depth = 128

-- The stack, its top at the head.
abbrev pub Stack : Type 0
Stack = List (Json × ℕ)

abbrev pub push : Json → ℕ → Stack → Stack
push v depth stack = if is_object v then (v, depth) ∷ stack else stack

-- `for (const child of Object.values(value))`
pub push_items : Items → ℕ → Stack → Stack
push_items nil depth stack = stack
push_items (cons v xs) depth stack = push_items xs depth (push v depth stack)

pub push_fields : Fields → ℕ → Stack → Stack
push_fields end depth stack = stack
push_fields (field k v fs) depth stack = push_fields fs depth (push v depth stack)

pub push_children : Json → ℕ → Stack → Stack
push_children (arr xs) depth stack = push_items xs depth stack
push_children (obj fs) depth stack = push_fields fs depth stack
push_children v depth stack = stack

-- The `while` loop, on fuel; `none` says that the fuel runs out.
pub walk : ℕ → ℕ → Stack → Option Bool
walk limit zero stack = none
walk limit (suc fuel) [] = some true
walk limit (suc fuel) ((v, depth) ∷ stack) =
    let skip = walk limit fuel stack in
    let deeper = walk limit fuel (push_children v (suc depth) stack) in
    if is_object v then (if ltb limit depth then some false else deeper) else skip

-- A round for each value, and one at the end.
pub is_bounded_envelope : Json → Option Bool
is_bounded_envelope root = walk max_envelope_depth (suc (size root)) ((root, 0) ∷ [])
