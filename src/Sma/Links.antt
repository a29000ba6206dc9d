-- ===== src/Sma/Links.antt =====
-- The free list: a doubly linked list through two maps, `fn` for `fnext` and `fp` for `fprev`.
use mathlib.Core.List.{append-nil}
use immutable_cache_pecl.Prelude.{
  ℕ, ◌≡◌, ◌∙◌, true, false, List, [], ◌∷◌, ◌++◌, arith, ==_iff, ==_refl, ==_symm,
}
use immutable_cache_pecl.Sma.Blocks.{write}
use immutable_cache_pecl.Sma.Distinct.{
  has, Distinct, has-append, has-append_false, apart, separate, Distinct-append,
}

-- from `p` the links lead through `xs` to `q`, and back
abbrev pub Linked : (ℕ → ℕ) → (ℕ → ℕ) → ℕ → List ℕ → ℕ → Type 0
Linked fn fp p [] q = (fn p ≡ q) × (fp q ≡ p)
Linked fn fp p (x ∷ xs) q = (fn p ≡ x) × (fp x ≡ p) × Linked fn fp x xs q

module _ (fn fp : ℕ → ℕ) where
  pub Linked-split :
      (p : ℕ) (xs : List ℕ) (m : ℕ) (ys : List ℕ) (q : ℕ)
      → Linked fn fp p (xs ++ m ∷ ys) q
      → Linked fn fp p xs m × Linked fn fp m ys q
  Linked-split p [] m ys q l = ((l.0, l.1), l.2)
  Linked-split p (x ∷ xs) m ys q l =
      let (front, back) = Linked-split x xs m ys q l.2 in ((l.0, l.1, front), back)

  pub Linked-join :
      (p : ℕ) (xs : List ℕ) (m : ℕ) (ys : List ℕ) (q : ℕ)
      → Linked fn fp p xs m
      → Linked fn fp m ys q
      → Linked fn fp p (xs ++ m ∷ ys) q
  Linked-join p [] m ys q l r = (l.0, l.1, r)
  Linked-join p (x ∷ xs) m ys q l r = (l.0, l.1, Linked-join x xs m ys q l.2 r)

  -- the last link leads back into the list
  pub back_has : (p : ℕ) (xs : List ℕ) (q : ℕ) → Linked fn fp p xs q → has (fp q) (p ∷ xs) ≡ true
  back_has p [] q l = ground (arith, ==_refl p)
  back_has p (x ∷ xs) q l = ground (arith, back_has x xs q l.2)

  pub next-back : (p : ℕ) (xs : List ℕ) (q : ℕ) → Linked fn fp p xs q → fn (fp q) ≡ q
  next-back p [] q l = rw l.1 l.0
  next-back p (x ∷ xs) q l = next-back x xs q l.2

  -- writes off the list do not matter
  pub Linked-frame :
      (fn' fp' : ℕ → ℕ) (p : ℕ) (xs : List ℕ) (q : ℕ)
      → ((a : ℕ) → has a (p ∷ xs) ≡ true → fn' a ≡ fn a)
      → ((a : ℕ) → has a (xs ++ q ∷ []) ≡ true → fp' a ≡ fp a)
      → Linked fn fp p xs q
      → Linked fn' fp' p xs q
  Linked-frame fn' fp' p [] q sn sp l =
      (sn p (ground (arith, ==_refl p)) ∙ l.0, sp q (ground (arith, ==_refl q)) ∙ l.1)
  Linked-frame fn' fp' p (x ∷ xs) q sn sp l = (
    sn p (ground (arith, ==_refl p)) ∙ l.0,
    sp x (ground (arith, ==_refl x)) ∙ l.1,
    Linked-frame fn' fp' x xs q (λ a i. sn a (ground arith)) (λ a i. sp a (ground arith)) l.2,
  )

  -- the list ends at `r` in place of `q`
  pub Linked-end :
      (p : ℕ) (xs : List ℕ) (q r : ℕ)
      → Distinct (p ∷ xs)
      → has r xs ≡ false
      → Linked fn fp p xs q
      → Linked (write fn (fp q) r) (write fp r (fp q)) p xs r
  Linked-end p [] q r d out l = (ground (arith, ==_refl p), ground (arith, ==_refl r))
  Linked-end p (x ∷ xs) q r d out l =
      let back = back_has x xs q l.2 in
      (ground (arith, ==_iff p (fp q)), ground arith, Linked-end x xs q r d.1 (ground arith) l.2)

  -- the list begins at `y` in place of `x`
  pub Linked-begin :
      (x y : ℕ) (xs : List ℕ) (q : ℕ)
      → has y xs ≡ false
      → Distinct (xs ++ q ∷ [])
      → Linked fn fp x xs q
      → Linked (write fn y (fn x)) (write fp (fn x) y) y xs q
  Linked-begin x y [] q out d l = (ground (arith, ==_refl y), ground (arith, ==_refl q))
  Linked-begin x y (z ∷ zs) q out d l = (
    ground (arith, ==_refl y),
    ground (arith, ==_refl z),
    Linked-frame (write fn y (fn x)) (write fp (fn x) y) z zs q
        (λ a i. rw (apart a y (z ∷ zs) i out)) (λ a i. rw (l.0, apart a z (zs ++ q ∷ []) i d.0))
        l.2,
  )

-- the first link leads on into the list
pub front_has :
    (fn fp : ℕ → ℕ) (p : ℕ) (xs : List ℕ) (q : ℕ)
    → Linked fn fp p xs q
    → has (fn p) (xs ++ q ∷ []) ≡ true
front_has fn fp p [] q l = rw l.0 (ground (arith, ==_refl q))
front_has fn fp p (x ∷ xs) q l = rw l.0 (ground (arith, ==_refl x))

module _ (fn fp : ℕ → ℕ) (p : ℕ) (front : List ℕ) (q x : ℕ) where
  -- `x` leaves the list
  pub Linked-remove :
      (back : List ℕ)
      → Distinct ((p ∷ front) ++ (x ∷ (back ++ q ∷ [])))
      → Linked fn fp p (front ++ x ∷ back) q
      → Linked (write fn (fp x) (fn x)) (write fp (fn x) (fp x)) p (front ++ back) q
  Linked-remove [] d l =
      let (dp, dx, sep) = Distinct-append (p ∷ front) (x ∷ q ∷ []) d in
      let (l₁, l₂) = Linked-split fn fp p front x [] q l in
      let out = separate (p ∷ front) (x ∷ q ∷ []) sep q (ground (arith, ==_refl q)) in
      rw (append-nil, l₂.0) (Linked-end fn fp p front x q dp (ground arith) l₁)
  Linked-remove (b ∷ bs) d l =
      let (dp, dx, sep) = Distinct-append (p ∷ front) (x ∷ b ∷ (bs ++ q ∷ [])) d in
      let (l₁, l₂) = Linked-split fn fp p front x (b ∷ bs) q l in
      let back = sep (fp x) (back_has fn fp p front x l₁) in
      let out = separate (p ∷ front) (x ∷ b ∷ (bs ++ q ∷ [])) sep b (ground (arith, ==_refl b)) in
      rw l₂.0 (
        Linked-join _ _ p front b bs q (Linked-end fn fp p front x b dp (ground arith) l₁) (
          Linked-frame fn fp _ _ b bs q
            (λ a i. rw (apart a (fp x) (b ∷ bs) i (ground (arith, has-append (fp x) bs (q ∷ [])))))
            (λ a i. rw (apart a b (bs ++ q ∷ []) i dx.1.0)) l₂.2))

  -- `y`, which is new, takes the place of `x`
  pub Linked-replace :
      (y : ℕ) (back : List ℕ)
      → Distinct ((p ∷ front) ++ (x ∷ (back ++ q ∷ [])))
      → has y ((p ∷ front) ++ (x ∷ (back ++ q ∷ []))) ≡ false
      → Linked fn fp p (front ++ x ∷ back) q
      → Linked
          (write (write fn y (fn x)) (fp x) y)
          (write (write fp y (fp x)) (fn x) y)
          p
          (front ++ y ∷ back)
          q
  Linked-replace y back d new l =
      let rest = x ∷ (back ++ q ∷ []) in
      let (dp, dx, sep) = Distinct-append (p ∷ front) rest d in
      let (l₁, l₂) = Linked-split fn fp p front x back q l in
      let before = back_has fn fp p front x l₁ in
      let ahead = front_has fn fp x back q l₂ in
      let tail = back ++ q ∷ [] in
      let after : has (fp x) (x ∷ tail) ≡ false = sep (fp x) before in
      let behind = separate (p ∷ front) rest sep (fn x) (ground arith) in
      let (newp, newr) = has-append_false y (p ∷ front) rest new in
      let newt : has y tail ≡ false = ground arith in
      let f_y : has (fn x) (front ++ y ∷ []) ≡ false =
        ground (arith, has-append (fn x) front (y ∷ []), apart (fn x) y tail ahead newt) in
      let b_y : has (fp x) (y ∷ back) ≡ false =
        ground (arith, has-append (fp x) back (q ∷ []), apart (fp x) y (p ∷ front) before newp) in
      Linked-join _ _ p front y back q
        (Linked-frame (write fn (fp x) y) (write fp y (fp x)) _ _ p front y
          (λ a i. rw (apart a y (p ∷ front) i newp))
          (λ a i. rw (apart a (fn x) (front ++ y ∷ []) i f_y))
          (Linked-end fn fp p front x y dp (ground arith) l₁))
        (Linked-frame (write fn y (fn x)) (write fp (fn x) y) _ _ y back q
          (λ a i. rw (apart a (fp x) (y ∷ back) i b_y)) (λ a i. rw (apart a y tail i newt))
          (Linked-begin fn fp x y back q (ground (arith, has-append y back (q ∷ []))) dx.1 l₂))

-- `c`, which is new, is put in front
pub Linked-push :
    (fn fp : ℕ → ℕ) (p : ℕ) (xs : List ℕ) (q c : ℕ)
    → Distinct (p ∷ (xs ++ q ∷ []))
    → has c (p ∷ (xs ++ q ∷ [])) ≡ false
    → Linked fn fp p xs q
    → Linked (write (write fn c (fn p)) p c) (write (write fp c p) (fn p) c) p (c ∷ xs) q
Linked-push fn fp p xs q c d new l =
    let tail = xs ++ q ∷ [] in
    let ahead = front_has fn fp p xs q l in
    let newt : has c tail ≡ false = ground arith in
    (
      rw (==_refl p),
      rw (==_symm c (fn p), apart (fn p) c tail ahead newt, ==_refl c),
      Linked-frame (write fn c (fn p)) (write fp (fn p) c) _ _ c xs q
          (λ a i. rw (apart a p (c ∷ xs) i (ground (arith, has-append p xs (q ∷ []), ==_symm p c))))
          (λ a i. rw (apart a c tail i newt))
          (Linked-begin fn fp p c xs q (ground (arith, has-append c xs (q ∷ []))) d.1 l),
    )
