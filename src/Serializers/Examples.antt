-- ===== src/Serializers/Examples.antt =====
-- Tests of the registry, and the theorems applied.
use immutable_cache_pecl.Prelude.{ℕ, ◌≡◌, refl, true, List, [], ◌∷◌, some}
use immutable_cache_pecl.Serializers.{
  Serializer, no_serializers, register_serializer, find_serializer, names_of,
}
use immutable_cache_pecl.Serializers.Registry.{
  Registered, no_serializers-IsPacked, register_serializer-Registered,
}

-- `"php"` and `"ig"`, which get the functions 1 and 2
abbrev php_name : List ℕ
php_name = b'p' ∷ b'h' ∷ b'p' ∷ []

abbrev ig_name : List ℕ
ig_name = b'i' ∷ b'g' ∷ []

abbrev table : List (Serializer ℕ)
table = (register_serializer php_name 1 (no_serializers 0)).1

register_twice_test : names_of (register_serializer ig_name 2 table).1 ≡ php_name ∷ ig_name ∷ []
unfolding register_serializer
register_twice_test = refl

find_test : find_serializer ig_name (register_serializer ig_name 2 table).1 ≡ some 2
unfolding find_serializer register_serializer
find_test = refl

registered : (register_serializer {R = ℕ} ig_name 2 (no_serializers 0)).0 ≡ true
unfolding register_serializer
registered = refl

register_serializer-Registered_example :
    Registered {R = ℕ} ig_name 2
      (no_serializers 0)
      (register_serializer {R = ℕ} ig_name 2 (no_serializers 0)).1
register_serializer-Registered_example =
    register_serializer-Registered ig_name 2 (no_serializers 0) (no_serializers-IsPacked {R = ℕ} 0)
      registered
