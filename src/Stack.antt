-- ===== src/Stack.antt =====
-- immutable_cache_stack.c: a stack of pointers in an array that doubles when it is full. `A` is the
-- type of a pointer, `items` is the array `data`. What `emalloc` and `erealloc` leave in memory that
-- was not written is `junk`. A write behind the array, which C leaves undefined, is lost, and a read
-- there gives `junk`.
use immutable_cache_pecl.Prelude.{
  ℕ, ◌+◌, ◌-◌, ◌*◌, ◌/◌, ◌%◌, ◌^◌, Bool, List, [], ◌∷◌, ◌++◌, Option, none, some, length, get_or,
  set, take, replicate, ltb, ◌==◌, if◌then◌else◌,
}
pub mod Order
pub mod Pushed
mod Examples

pub record Stack (A : Type 0) : Type 0 where
  pub items : List A
  pub capacity : ℕ
  pub size : ℕ

-- the cells in `sizeof(void*) * capacity` bytes, a number that wraps around
abbrev pub cells_of : ℕ → ℕ
cells_of capacity = 8 * capacity % 2 ^ 64 / 8

-- `erealloc`: the array with `n` cells, in which the old ones keep what they hold
abbrev pub realloc : {A : Type 0} → A → List A → ℕ → List A
realloc junk xs n = take n xs ++ replicate (n - length xs) junk

module _ {A : Type 0} (junk : A) where
  unfoldable pub create : ℕ → Stack A
  create size_hint =
      let capacity = if ltb 0 size_hint then size_hint else 10 in
      record { items = replicate (cells_of capacity) junk; capacity = capacity; size = 0 }

  unfoldable pub clear : Stack A → Stack A
  clear stack = record stack { size = 0 }

  unfoldable pub push : Stack A → A → Stack A
  push stack item =
      let grown =
        if stack.size == stack.capacity
        then (let capacity = stack.capacity * 2 % 2 ^ 64 in
            record stack {
              items = realloc junk stack.items (cells_of capacity);
              capacity = capacity;
            })
        else stack in
      record grown { items = set grown.items grown.size item; size = grown.size + 1 }

  -- a push for each item, one after the other
  unfoldable pub pushes : Stack A → List A → Stack A
  pushes stack [] = stack
  pushes stack (item ∷ items) = pushes (push stack item) items

  -- `none` where the assertion fails, and also in what follows
  unfoldable pub pop : Stack A → Option (A × Stack A)
  pop stack =
      if stack.size == 0
      then none
      else some (get_or stack.items (stack.size - 1) junk, record stack { size = stack.size - 1 })

  unfoldable pub top : Stack A → Option A
  top stack = if stack.size == 0 then none else some (get_or stack.items (stack.size - 1) junk)

  unfoldable pub get : Stack A → ℕ → Option A
  get stack n = if ltb n stack.size then some (get_or stack.items n junk) else none
