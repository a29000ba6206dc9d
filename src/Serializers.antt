-- ===== src/Serializers.antt =====
-- immutable_cache.c and php_immutable_cache.c: the table of serializers. `R` stands for the two functions and the configuration
-- of a serializer; a name is absent where it is NULL.
use immutable_cache_pecl.Prelude.{
  ℕ, zero, suc, Bool, true, false, List, [], ◌∷◌, Option, none, some, replicate, same, ◌==◌,
  if◌then◌else◌,
}
pub mod Registry
mod Examples

pub record Serializer (R : Type 0) : Type 0 where
  pub name : Option (List ℕ)
  pub functions : R

abbrev pub max_serializers : ℕ
max_serializers = 16

-- `"default"`
abbrev pub default_name : List ℕ
default_name = b'd' ∷ b'e' ∷ b'f' ∷ b'a' ∷ b'u' ∷ b'l' ∷ b't' ∷ []

abbrev pub is_named : List ℕ → Option (List ℕ) → Bool
is_named wanted none = false
is_named wanted (some name) = same name wanted

module _ {R : Type 0} where
  -- the entry behind the new one gets no name
  abbrev pub clear_next : List (Serializer R) → List (Serializer R)
  clear_next [] = []
  clear_next (s ∷ ss) = record s { name = none } ∷ ss

  -- the loop of `_immutable_cache_register_serializer`
  abbrev pub put_serializer : List ℕ → R → List (Serializer R) → Bool × List (Serializer R)
  put_serializer name functions [] = (false, [])
  put_serializer name functions (s ∷ ss) =
      let (done, rest) = put_serializer name functions ss in
      elim (s.name) [
        | none ↦ (true, record { name = some name; functions = functions } ∷ clear_next ss)
        | some taken ↦ (done, s ∷ rest)
      ]

  -- `_immutable_cache_register_serializer`
  unfoldable pub register_serializer : List ℕ → R → List (Serializer R) → Bool × List (Serializer R)
  register_serializer name functions table =
      if same name default_name then (false, table) else put_serializer name functions table

  -- `immutable_cache_find_serializer`, less its warning
  unfoldable pub find_serializer : List ℕ → List (Serializer R) → Option R
  find_serializer wanted [] = none
  find_serializer wanted (s ∷ ss) =
      if is_named wanted s.name then some s.functions else find_serializer wanted ss

  -- The loop of `immutable_cache_get_supported_serializer_names`, up to the first entry without a
  -- name. It has no other bound; here it ends with the table.
  abbrev pub names_of : List (Serializer R) → List (List ℕ)
  names_of [] = []
  names_of (s ∷ ss) = elim (s.name) [ none ↦ [] | some name ↦ name ∷ names_of ss ]

  -- the table before anything is registered
  abbrev pub no_serializers : R → List (Serializer R)
  no_serializers zeros = replicate max_serializers (record { name = none; functions = zeros })
