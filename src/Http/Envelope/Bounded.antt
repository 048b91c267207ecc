-- ===== src/Http/Envelope/Bounded.antt =====
-- The walk ends, and finds exactly the values whose nesting is within the limit.
use wats.Base.{
  ℕ, zero, suc, ◌+◌, ◌≤◌, ◌<◌, ◌≡◌, refl, Bool, true, ◌&&◌, some, [], ◌∷◌, arith, leb, ◌∙◌, ap,
}
use wats.Base.Json.{
  Json, null, bool, num, str, arr, obj, Items, nil, cons, Fields, end, field, size, size_items,
  size_fields,
}
use wats.Http.Envelope.{
  max_envelope_depth, Stack, push, push_items, push_fields, push_children, walk,
  is_bounded_envelope,
}

-- Every array and object of a value that stands at a depth is at most as deep as the limit.
unfoldable mutual
  pub within : ℕ → Json → ℕ → Bool
  within limit (arr xs) depth = leb depth limit && within_items limit xs (suc depth)
  within limit (obj fs) depth = leb depth limit && within_fields limit fs (suc depth)
  within limit null depth = true
  within limit (bool b) depth = true
  within limit (num t) depth = true
  within limit (str t) depth = true

  pub within_items : ℕ → Items → ℕ → Bool
  within_items limit nil depth = true
  within_items limit (cons v xs) depth = within limit v depth && within_items limit xs depth

  pub within_fields : ℕ → Fields → ℕ → Bool
  within_fields limit end depth = true
  within_fields limit (field k v fs) depth = within limit v depth && within_fields limit fs depth

-- What the walk is to find of a stack, and the rounds that it may take.
within_stack : ℕ → Stack → Bool
within_stack limit [] = true
within_stack limit ((v, depth) ∷ stack) = within limit v depth && within_stack limit stack

stack_size : Stack → ℕ
stack_size [] = 0
stack_size ((v, depth) ∷ stack) = size v + stack_size stack

within_stack-push :
    (limit : ℕ) (v : Json) (depth : ℕ) (stack : Stack)
    → within_stack limit (push v depth stack) ≡ (within limit v depth && within_stack limit stack)
unfolding within_stack within
within_stack-push limit (arr xs) depth stack = refl
within_stack-push limit v depth stack = ground arith

within_stack-push_items :
    (limit : ℕ) (xs : Items) (depth : ℕ) (stack : Stack)
    → within_stack limit (push_items xs depth stack)
      ≡ (within_items limit xs depth && within_stack limit stack)
unfolding push_items within_items
within_stack-push_items limit nil depth stack = refl
within_stack-push_items limit (cons v xs) depth stack = ground (
  arith,
  within_stack-push_items limit xs depth (push v depth stack),
  within_stack-push limit v depth stack,
)

within_stack-push_fields :
    (limit : ℕ) (fs : Fields) (depth : ℕ) (stack : Stack)
    → within_stack limit (push_fields fs depth stack)
      ≡ (within_fields limit fs depth && within_stack limit stack)
unfolding push_fields within_fields
within_stack-push_fields limit end depth stack = refl
within_stack-push_fields limit (field k v fs) depth stack = ground (
  arith,
  within_stack-push_fields limit fs depth (push v depth stack),
  within_stack-push limit v depth stack,
)

stack_size-push :
    (v : Json) (depth : ℕ) (stack : Stack)
    → stack_size (push v depth stack) ≤ size v + stack_size stack
unfolding stack_size size
stack_size-push (arr xs) depth stack = omega arith
stack_size-push v depth stack = omega arith

stack_size-push_items :
    (xs : Items) (depth : ℕ) (stack : Stack)
    → stack_size (push_items xs depth stack) ≤ size_items xs + stack_size stack
unfolding push_items size_items
stack_size-push_items nil depth stack = omega arith
stack_size-push_items (cons v xs) depth stack =
    omega
      (arith, stack_size-push_items xs depth (push v depth stack), stack_size-push v depth stack)

stack_size-push_fields :
    (fs : Fields) (depth : ℕ) (stack : Stack)
    → stack_size (push_fields fs depth stack) ≤ size_fields fs + stack_size stack
unfolding push_fields size_fields
stack_size-push_fields end depth stack = omega arith
stack_size-push_fields (field k v fs) depth stack =
    omega
      (arith, stack_size-push_fields fs depth (push v depth stack), stack_size-push v depth stack)

walk-within :
    (limit fuel : ℕ) (stack : Stack)
    → stack_size stack < fuel
    → walk limit fuel stack ≡ some (within_stack limit stack)
unfolding walk within_stack stack_size push_children within size
walk-within limit zero stack h = absurd (omega arith)
walk-within limit (suc fuel) [] h = refl
walk-within limit (suc fuel) ((arr xs, depth) ∷ stack) h = ground (
  arith,
  walk-within limit fuel (push_items xs (suc depth) stack),
  stack_size-push_items xs (suc depth) stack,
  within_stack-push_items limit xs (suc depth) stack,
)
walk-within limit (suc fuel) ((obj fs, depth) ∷ stack) h = ground (
  arith,
  walk-within limit fuel (push_fields fs (suc depth) stack),
  stack_size-push_fields fs (suc depth) stack,
  within_stack-push_fields limit fs (suc depth) stack,
)
walk-within limit (suc fuel) ((v, depth) ∷ stack) h = ground (arith, walk-within limit fuel stack)

root_fits : (root : Json) → stack_size ((root, 0) ∷ []) < suc (size root)
unfolding stack_size
root_fits root = omega arith

root_within : (limit : ℕ) (root : Json) → within_stack limit ((root, 0) ∷ []) ≡ within limit root 0
unfolding within_stack
root_within limit root = ground arith

-- The walk over an explicit stack ends on every parsed body, whatever its size, and answers what the
-- recursive definition says: whether every array and every object stands at a depth of at most 128.
pub is_bounded_envelope-within : (root : Json) → is_bounded_envelope root ≡ some (within 128 root 0)
unfolding is_bounded_envelope
is_bounded_envelope-within root =
    walk-within max_envelope_depth (suc (size root)) ((root, 0) ∷ []) (root_fits root)
    ∙ ap some (root_within max_envelope_depth root)
