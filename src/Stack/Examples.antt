-- ===== src/Stack/Examples.antt =====
-- Tests of the stack: room for one item, and a second push that doubles it.
use immutable_cache_pecl.Prelude.{ℕ, ◌^◌, ◌<◌, ◌≡◌, refl, [], ◌∷◌, some, length, arith}
use immutable_cache_pecl.Stack.{Stack, create, push, pop, top}
use immutable_cache_pecl.Stack.Order.{Holds, create-Holds, push-Holds, pop-Holds}

abbrev no_items : Stack ℕ
no_items = create 0 1

abbrev one_item : Stack ℕ
one_item = push 0 no_items 5

abbrev two_items : Stack ℕ
two_items = push 0 one_item 6

-- 2^61 pointers need 2^64 bytes
create_wraps : length (create {A = ℕ} 0 (2 ^ 61)).items ≡ 0
unfolding create
create_wraps = refl

capacity-two_items : two_items.capacity ≡ 2
unfolding push create
capacity-two_items = refl

small_empty : no_items.size < 2 ^ 60
unfolding create
small_empty = omega arith

small_one : one_item.size < 2 ^ 60
unfolding push create
small_one = omega arith

one_item-Holds : Holds 0 one_item (5 ∷ [])
one_item-Holds = push-Holds 0 no_items [] 5 (create-Holds 0 1 (omega arith)) small_empty

push-Holds_example : Holds 0 two_items (6 ∷ 5 ∷ [])
push-Holds_example = push-Holds 0 one_item (5 ∷ []) 6 one_item-Holds small_one

pop-Holds_example :
    (stack' : Stack ℕ) × (pop 0 one_item ≡ some (5, stack'))
    × (top 0 one_item ≡ some 5)
    × Holds 0 stack' []
pop-Holds_example = pop-Holds 0 one_item 5 [] one_item-Holds
