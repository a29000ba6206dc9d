-- ===== src/Stack/Order.antt =====
-- The stack against a list whose first item is the one that was pushed last.
use immutable_cache_pecl.Prelude.{
  ℕ, zero, suc, ◌+◌, ◌-◌, ◌*◌, ◌%◌, ◌^◌, ◌<◌, ◌≤◌, ◌≡◌, refl, ap, ◌∙◌, false, List, [], ◌∷◌, ◌++◌,
  some, arith, length, take_all, length-append, length-set, length-replicate, get_or, get_or-set,
  set, replicate, ltb, ◌==◌, if◌then◌else◌, Bool-cases, ==_refl, inl, inr,
}
use immutable_cache_pecl.Stack.{Stack, cells_of, realloc, create, push, pop, top}

module _ {A : Type 0} (junk : A) where
  -- the cells below `n`, the last one first
  abbrev pub Below : List A → ℕ → List A → Type 0
  Below memory n [] = n ≡ 0
  Below memory n (x ∷ xs) = (0 < n) × (get_or memory (n - 1) junk ≡ x) × Below memory (n - 1) xs

  -- the stack holds these items
  pub record Holds (stack : Stack A) (items : List A) : Type 0 where
    pub room : length stack.items ≡ stack.capacity
    pub positive : 0 < stack.capacity
    pub bounded : stack.size ≤ stack.capacity
    pub cells : Below stack.items stack.size items

  get_or-append :
      (xs ys : List A) (i : ℕ) → i < length xs → get_or (xs ++ ys) i junk ≡ get_or xs i junk
  get_or-append [] ys i h = absurd (omega arith)
  get_or-append (x ∷ xs) ys zero h = refl
  get_or-append (x ∷ xs) ys (suc i) h = get_or-append xs ys i (omega arith)

  -- items see only the cells below them
  Below-frame :
      (memory memory' : List A) (n : ℕ) (items : List A)
      → ((i : ℕ) → i < n → get_or memory' i junk ≡ get_or memory i junk)
      → Below memory n items
      → Below memory' n items
  Below-frame memory memory' n [] same b = b
  Below-frame memory memory' n (x ∷ xs) same b = (
    b.0,
    same (n - 1) (omega arith) ∙ b.1,
    Below-frame memory memory' (n - 1) xs (λ i l. same i (omega arith)) b.2,
  )

  -- below 2^61 the number of bytes does not wrap around
  cells_of_small : (capacity : ℕ) → capacity < 2 ^ 61 → cells_of capacity ≡ capacity
  cells_of_small capacity small = omega arith

  pub create-Holds : (size_hint : ℕ) → size_hint < 2 ^ 61 → Holds (create junk size_hint) []
  unfolding create
  create-Holds size_hint small =
      let capacity = if ltb 0 size_hint then size_hint else 10 in
      record {
        room = length-replicate (cells_of capacity) junk ∙ cells_of_small capacity (ground arith);
        positive = ground arith;
        bounded = omega arith;
        cells = refl;
      }

  -- writing the next cell
  put-Holds :
      (stack : Stack A) (items : List A) (item : A)
      → Holds stack items
      → stack.size < stack.capacity
      → Holds
          (record stack { items = set stack.items stack.size item; size = stack.size + 1 })
          (item ∷ items)
  put-Holds stack items item h free =
      let one_less : stack.size + 1 - 1 ≡ stack.size = omega arith in
      let h_room : stack.size < length stack.items = omega (arith, h.room) in
      let kept : Below (set stack.items stack.size item) stack.size items =
        Below-frame stack.items (set stack.items stack.size item) stack.size items
          (λ i l. ground (arith, get_or-set stack.items stack.size i item junk)) h.cells in
      record {
        room = length-set stack.items stack.size item ∙ h.room;
        positive = h.positive;
        bounded = omega arith;
        cells =
            (omega arith, rw (one_less, get_or-set, h_room, ==_refl stack.size), rw one_less kept);
      }

  grow-Holds :
      (stack : Stack A) (items : List A) (capacity : ℕ)
      → Holds stack items
      → stack.capacity ≤ capacity
      → capacity < 2 ^ 61
      → Holds
          (record stack {
            items = realloc junk stack.items (cells_of capacity);
            capacity = capacity;
          })
          items
  grow-Holds stack items capacity h more small =
      let all : realloc junk stack.items (cells_of capacity)
          ≡ stack.items ++ replicate (capacity - length stack.items) junk =
        ap (realloc junk stack.items) (cells_of_small capacity small)
        ∙ ap (λ xs. xs ++ replicate (capacity - length stack.items) junk)
            (take_all capacity stack.items (omega (arith, h.room))) in
      record {
        room =
            ap length all
            ∙ omega (
              arith,
              h.room,
              length-append stack.items (replicate (capacity - length stack.items) junk),
              length-replicate (capacity - length stack.items) junk,
            );
        positive = omega (arith, h.positive);
        bounded = omega (arith, h.bounded);
        cells =
            Below-frame stack.items _ stack.size items
              (λ i l.
                ap (λ xs. get_or xs i junk) all
                ∙ get_or-append stack.items _ i (omega (arith, h.room, h.bounded)))
              h.cells;
      }

  -- A push onto a stack that holds some items, fewer than 2^60, puts the item on top of them, and
  -- makes room for it if need be.
  pub push-Holds :
      (stack : Stack A) (items : List A) (item : A)
      → Holds stack items
      → stack.size < 2 ^ 60
      → Holds (push junk stack item) (item ∷ items)
  unfolding push
  push-Holds stack items item h small = elim (Bool-cases (stack.size == stack.capacity)) [
    | inl full ↦
        let capacity = stack.capacity * 2 % 2 ^ 64 in
        rw (full, push)
          (put-Holds
            (record stack {
              items = realloc junk stack.items (cells_of capacity);
              capacity = capacity;
            })
            items item
            (grow-Holds stack items capacity h (ground (arith, small)) (ground (arith, small)))
            (ground (arith, small, h.positive)))
    | inr room ↦ rw (room, push) (put-Holds stack items item h (ground (arith, h.bounded)))
  ]

  -- A pop and a look at the top of a stack that holds at least one item return the item on top,
  -- and after the pop the stack holds the others.
  pub pop-Holds :
      (stack : Stack A) (item : A) (items : List A)
      → Holds stack (item ∷ items)
      → (stack' : Stack A) × (pop junk stack ≡ some (item, stack'))
        × (top junk stack ≡ some item)
        × Holds stack' items
  unfolding pop top
  pop-Holds stack item items h =
      let some_left : (stack.size == 0) ≡ false = ground (arith, h.cells.0) in
      (
        record stack { size = stack.size - 1 },
        rw (some_left, h.cells.1),
        rw (some_left, h.cells.1),
        record {
          room = h.room;
          positive = h.positive;
          bounded = omega (arith, h.bounded);
          cells = h.cells.2;
        },
      )
