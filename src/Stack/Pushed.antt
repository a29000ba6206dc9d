-- ===== src/Stack/Pushed.antt =====
-- What a stack reads at an index after it was filled.
use immutable_cache_pecl.Prelude.{
  ℕ, zero, suc, ◌+◌, ◌-◌, ◌^◌, ◌<◌, ◌≡◌, refl, sym, ap, ◌∙◌, true, List, [], ◌∷◌, Option, none,
  some, arith, length, get_or, ltb, ◌==◌, Bool-cases, inl, inr,
}
use mathlib.Core.Path.{subst}
use mathlib.Core.Option.{some-injective}
use immutable_cache_pecl.Stack.{Stack, create, push, pushes, get}
use immutable_cache_pecl.Stack.Order.{Below, Holds, create-Holds, push-Holds}

-- the item of a list at an index
abbrev pub nth : {A : Type 0} → List A → ℕ → Option A
nth [] n = none
nth (x ∷ xs) zero = some x
nth (x ∷ xs) (suc n) = nth xs n

module _ {A : Type 0} (junk : A) where
  Below-length :
      (memory : List A) (n : ℕ) (items : List A) → Below junk memory n items → n ≡ length items
  Below-length memory n [] b = b
  Below-length memory n (x ∷ xs) b = omega (arith, b.0, Below-length memory (n - 1) xs b.2)

  -- the same items are in the same cells
  Below-same :
      (memory memory' : List A) (n : ℕ) (items : List A)
      → Below junk memory n items
      → Below junk memory' n items
      → (i : ℕ) → i < n
      → get_or memory i junk ≡ get_or memory' i junk
  Below-same memory memory' n [] b b' i l = absurd (omega arith)
  Below-same memory memory' n (x ∷ xs) b b' i l = elim (Bool-cases (i == n - 1)) [
    | inl last ↦
        let e : i ≡ n - 1 = ground arith in
        ap (λ k. get_or memory k junk) e ∙ b.1 ∙ sym (ap (λ k. get_or memory' k junk) e ∙ b'.1)
    | inr before ↦ Below-same memory memory' (n - 1) xs b.2 b'.2 i (ground arith)
  ]

  size-push : (stack : Stack A) (item : A) → (push junk stack item).size ≡ stack.size + 1
  unfolding push
  size-push stack item = ground arith

  -- a push leaves the cells below, and writes the next one
  push-below :
      (stack : Stack A) (items : List A) (item : A)
      → Holds junk stack items
      → stack.size < 2 ^ 60
      → (i : ℕ) → i < stack.size
      → get_or (push junk stack item).items i junk ≡ get_or stack.items i junk
  push-below stack items item h small i l =
      let h' = push-Holds junk stack items item h small in
      let less : (push junk stack item).size - 1 ≡ stack.size =
        omega (arith, size-push stack item) in
      sym (
        Below-same stack.items (push junk stack item).items stack.size items h.cells
          (subst (λ n. Below junk (push junk stack item).items n items) less h'.cells.2) i l)

  push-at :
      (stack : Stack A) (items : List A) (item : A)
      → Holds junk stack items
      → stack.size < 2 ^ 60
      → get_or (push junk stack item).items stack.size junk ≡ item
  push-at stack items item h small =
      let h' = push-Holds junk stack items item h small in
      let less : (push junk stack item).size - 1 ≡ stack.size =
        omega (arith, size-push stack item) in
      subst (λ n. get_or (push junk stack item).items n junk ≡ item) less h'.cells.1

  size-pushes :
      (stack : Stack A) (xs : List A) → (pushes junk stack xs).size ≡ stack.size + length xs
  unfolding pushes
  size-pushes stack [] = omega arith
  size-pushes stack (x ∷ xs) = omega (arith, size-pushes (push junk stack x) xs, size-push stack x)

  pushes-below :
      (stack : Stack A) (items xs : List A)
      → Holds junk stack items
      → stack.size + length xs < 2 ^ 60
      → (i : ℕ) → i < stack.size
      → get_or (pushes junk stack xs).items i junk ≡ get_or stack.items i junk
  unfolding pushes
  pushes-below stack items [] h small i l = refl
  pushes-below stack items (x ∷ xs) h small i l =
      let n = size-push stack x in
      pushes-below (push junk stack x) (x ∷ items) xs
        (push-Holds junk stack items x h (omega arith)) (omega arith) i (omega arith)
      ∙ push-below stack items x h (omega arith) i l

  pushes-at :
      (stack : Stack A) (items xs : List A) (i : ℕ) (x : A)
      → Holds junk stack items
      → stack.size + length xs < 2 ^ 60
      → nth xs i ≡ some x
      → get_or (pushes junk stack xs).items (stack.size + i) junk ≡ x
  unfolding pushes
  pushes-at stack items [] i x h small there = cc
  pushes-at stack items (y ∷ ys) zero x h small there =
      let n = size-push stack y in
      let e : stack.size + 0 ≡ stack.size = omega arith in
      ap (λ k. get_or (pushes junk (push junk stack y) ys).items k junk) e
      ∙ pushes-below (push junk stack y) (y ∷ items) ys
          (push-Holds junk stack items y h (omega arith)) (omega arith) stack.size (omega arith)
      ∙ push-at stack items y h (omega arith)
      ∙ some-injective y x there
  pushes-at stack items (y ∷ ys) (suc i) x h small there =
      let n = size-push stack y in
      let e : stack.size + suc i ≡ (push junk stack y).size + i = omega arith in
      ap (λ k. get_or (pushes junk (push junk stack y) ys).items k junk) e
      ∙ pushes-at (push junk stack y) (y ∷ items) ys i x
          (push-Holds junk stack items y h (omega arith)) (omega arith) there

  nth-below : (xs : List A) (i : ℕ) (x : A) → nth xs i ≡ some x → i < length xs
  nth-below [] i x there = cc
  nth-below (y ∷ ys) zero x there = omega arith
  nth-below (y ∷ ys) (suc i) x there = omega (arith, nth-below ys i x there)

  -- a new stack that gets some items reads them by their index
  pub get-pushes :
      (size_hint : ℕ) (xs : List A) (i : ℕ) (x : A)
      → size_hint < 2 ^ 61
      → length xs < 2 ^ 60
      → nth xs i ≡ some x
      → get junk (pushes junk (create junk size_hint) xs) i ≡ some x
  unfolding get create
  get-pushes size_hint xs i x small few there =
      let stack = create junk size_hint in
      let inside : ltb i (pushes junk stack xs).size ≡ true =
        ground (arith, size-pushes stack xs, nth-below xs i x there) in
      let e : i ≡ stack.size + i = omega arith in
      rw (inside, get)
        (ap (λ k. some (get_or (pushes junk stack xs).items k junk)) e
          ∙ ap some
              (pushes-at stack [] xs i x (create-Holds junk size_hint small) (omega arith) there))
