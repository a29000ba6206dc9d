-- ===== src/Serializers/Registry.antt =====
-- Registering a serializer, and finding it.
use immutable_cache_pecl.Prelude.{
  ℕ, zero, suc, ◌≡◌, refl, sym, ap, ◌∙◌, true, false, List, [], ◌∷◌, Option, none, some, replicate,
  same, inl, inr, Bool-cases, arith, if_true, if_false, if◌then◌else◌,
}
use mathlib.Core.Path.{subst}
use immutable_cache_pecl.Serializers.{
  Serializer, default_name, is_named, clear_next, put_serializer, register_serializer,
  find_serializer, no_serializers,
}

not_both : ¬ (true ≡ false)
not_both e = ground arith

module _ {R : Type 0} where
  -- no entry has a name, and the entries with names come first
  abbrev pub Unnamed : List (Serializer R) → Type 0
  Unnamed [] = Unit {0}
  Unnamed (s ∷ ss) = (s.name ≡ none) × Unnamed ss

  abbrev pub IsPacked : List (Serializer R) → Type 0
  IsPacked [] = Unit {0}
  IsPacked (s ∷ ss) = elim (s.name) [ none ↦ Unnamed ss | some name ↦ IsPacked ss ]

  abbrev pub or_else : Option R → Option R → Option R
  or_else none o = o
  or_else (some r) o = some r

  find-Unnamed :
      (wanted : List ℕ) (ss : List (Serializer R)) → Unnamed ss → find_serializer wanted ss ≡ none
  unfolding find_serializer
  find-Unnamed wanted [] u = refl
  find-Unnamed wanted (s ∷ ss) (e, u) =
      if_false (is_named wanted s.name) _ _ (ap (is_named wanted) e) ∙ find-Unnamed wanted ss u

  Unnamed-clear_next : (ss : List (Serializer R)) → Unnamed ss → Unnamed (clear_next ss)
  Unnamed-clear_next [] u = tt
  Unnamed-clear_next (s ∷ ss) (e, u) = (refl, u)

  Unnamed-IsPacked : (ss : List (Serializer R)) → Unnamed ss → IsPacked ss
  Unnamed-IsPacked [] u = tt
  Unnamed-IsPacked (s ∷ ss) (e, u) =
      subst (λ n. elim n as (λ _. Type 0) [ none ↦ Unnamed ss | some name ↦ IsPacked ss ]) (sym e) u

  -- What is found under a name after a registration: what was found before, and else the new one.
  abbrev pub Registered : List ℕ → R → List (Serializer R) → List (Serializer R) → Type 0
  Registered name functions table table' =
      IsPacked table'
      × ((wanted : List ℕ)
          → find_serializer wanted table'
            ≡ or_else (find_serializer wanted table)
                (if same name wanted then some functions else none))

  put-Registered_cons :
      (name : List ℕ) (functions : R) (n : Option (List ℕ)) (g : R) (ss : List (Serializer R))
      → (IsPacked ss
          → (put_serializer name functions ss).0 ≡ true
          → Registered name functions ss (put_serializer name functions ss).1)
      → IsPacked (record { name = n; functions = g } ∷ ss)
      → (put_serializer name functions (record { name = n; functions = g } ∷ ss)).0 ≡ true
      → Registered name functions
          (record { name = n; functions = g } ∷ ss)
          (put_serializer name functions (record { name = n; functions = g } ∷ ss)).1
  unfolding find_serializer
  put-Registered_cons name functions none g ss ih packed done = (
    Unnamed-IsPacked (clear_next ss) (Unnamed-clear_next ss packed),
    λ wanted.
        let gone = find-Unnamed wanted (clear_next ss) (Unnamed-clear_next ss packed) in
        let before = find-Unnamed wanted ss packed in
        ap (λ o. if same name wanted then some functions else o) gone
        ∙ ap (λ o. or_else o (if same name wanted then some functions else none)) (sym before),
  )
  put-Registered_cons name functions (some taken) g ss ih packed done =
      let (packed', found) = ih packed done in
      (
        packed',
        λ wanted. elim (Bool-cases (same taken wanted)) [
          | inl it ↦ rw it refl
          | inr other ↦ rw other (found wanted)
        ],
      )

  put-Registered :
      (name : List ℕ) (functions : R) (table : List (Serializer R))
      → IsPacked table
      → (put_serializer name functions table).0 ≡ true
      → Registered name functions table (put_serializer name functions table).1
  put-Registered name functions [] packed done = absurd (ground arith)
  put-Registered name functions (s ∷ ss) packed done =
      put-Registered_cons name functions s.name s.functions ss (put-Registered name functions ss)
        packed done

  refused :
      (name : List ℕ) (functions : R) (table : List (Serializer R))
      → same name default_name ≡ true
      → register_serializer name functions table ≡ (false, table)
  unfolding register_serializer
  refused name functions table reserved = if_true (same name default_name) _ _ reserved

  -- If the entries with names come first in the table and a registration is accepted, they come
  -- first afterwards, and a search finds under every name what it found before, and where it
  -- found nothing, the new functions under the new name.
  pub register_serializer-Registered :
      (name : List ℕ) (functions : R) (table : List (Serializer R))
      → IsPacked table
      → (register_serializer name functions table).0 ≡ true
      → Registered name functions table (register_serializer name functions table).1
  unfolding register_serializer
  register_serializer-Registered name functions table packed done =
      elim (Bool-cases (same name default_name)) [
        | inl reserved ↦
            absurd (not_both (sym done ∙ ap (λ q. q.0) (refused name functions table reserved)))
        | inr free ↦
            let same_as =
              if_false (same name default_name) (false, table) (put_serializer name functions table)
                free in
            subst (λ q. Registered name functions table q.1) (sym same_as)
              (put-Registered name functions table packed (sym (ap (λ q. q.0) same_as) ∙ done))
      ]

  Unnamed-replicate :
      (zeros : R) (n : ℕ) → Unnamed (replicate n (record { name = none; functions = zeros }))
  Unnamed-replicate zeros zero = tt
  Unnamed-replicate zeros (suc n) = (refl, Unnamed-replicate zeros n)

  pub no_serializers-IsPacked : (zeros : R) → IsPacked (no_serializers zeros)
  no_serializers-IsPacked zeros = Unnamed-replicate zeros 15
