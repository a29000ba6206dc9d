-- ===== src/Persist/Examples.antt =====
-- Tests of persisting, and the theorems applied.
use immutable_cache_pecl.Prelude.{
  ℕ, ◌+◌, ◌*◌, ◌/◌, ◌%◌, ◌^◌, ◌≡◌, refl, sym, Bool, false, [], ◌∷◌, Option, none, some, length,
  ◌==◌, if◌then◌else◌, arith,
}
use immutable_cache_pecl.Cache.Entry.{ZendString, Entry}
use immutable_cache_pecl.Persist.Value.{
  Head, Zval, undef, scalar, string, packed, hashed, object, resource, no_elem, elem, Buckets,
  no_bucket, keyed, indexed, Plain, text, number, entries, Items, no_item, text_key, int_key, plain,
}
use immutable_cache_pecl.Persist.Memo.{pointer_to_hash_key}
use immutable_cache_pecl.Persist.Calc.{
  Php, Calc, calc, calc_zval, calc_str, calc_early, calc_serialize, calc_memoize,
}
use immutable_cache_pecl.Persist.Copy.{
  Shared, value, copy_zval, copy_cstr, get_or_copy_zstr, get_already_allocated,
  add_already_allocated,
}
use immutable_cache_pecl.Persist.Entries.{prepare, persist_copy, persist, copy_value, start}
use immutable_cache_pecl.Persist.Contents.{Coherent}
use immutable_cache_pecl.Persist.Reach.{persist_copy_end}
use immutable_cache_pecl.Persist.Refusals.{resource_outside, persist-Refused}
use immutable_cache_pecl.Persist.Tables.{not_both}
use immutable_cache_pecl.Persist.Sealed.{Alone}
use immutable_cache_pecl.Persist.Frozen.{IsImmutable, persist-IsImmutable}
use immutable_cache_pecl.Persist.Roundtrip.{unpersist-persist, Back}

abbrev head : ℕ → Head
head n = record { table_mask = 0; num_elements = n; next_free = 0; internal_pointer = 0 }

-- one serializer beside PHP's own, both of which turn every value into the same string
abbrev php : Php ℕ
php = record {
  aligned = λ n. (n + 7) / 8 * 8;
  str_size = λ n. n + 25;
  sizeof_table = 56;
  sizeof_entry = 72;
  used_size = λ h n. n * 32 + 8;
  packed_used_size = λ h n. n * 16 + 8;
  min_mask = 4294967294;
  invalid_idx = 4294967295;
  hash = λ s. length s + 1;
  serialize = λ s z. some (79 ∷ 58 ∷ []);
  unserialize = λ s z. some (object 8);
  empty_array = packed 64 (head 0) no_elem;
  null = scalar 1;
}

abbrev nowhere : ℕ → Bool
nowhere ptr = false

abbrev name : ZendString
name = record { ptr = 640; h = 0; val = 107 ∷ [] }

abbrev word : ZendString
word = record { ptr = 720; h = 0; val = 97 ∷ 98 ∷ [] }

-- an array that holds a string twice, and its own key; one slot is not in use
abbrev slots : Buckets
slots =
    keyed word (string word)
      (indexed 7 undef (indexed 9 (string name) (indexed 12 (scalar 5) no_bucket)))

abbrev shape : Items
shape =
    text_key word.val (text word.val) (int_key 9 (text name.val) (int_key 12 (number 5) no_item))

abbrev entry_of : Zval → Entry Zval
entry_of z = record { addr = 0; key = name; val = z; nhits = 0; ctime = 5; atime = 5; mem_size = 0 }

abbrev orig : Entry Zval
orig = entry_of (hashed 1600 (head 3) slots)

-- a bump allocator
abbrev malloc : ℕ → ℕ → ℕ × ℕ
malloc sma size = (sma, sma + size)

abbrev size_of : Option Calc → ℕ
size_of none = 0
size_of (some c) = c.size

-- the entry, the key, the table, the slots and one more string
prepare_test : size_of (prepare php none nowhere orig) ≡ 72 + 32 + 56 + 136 + 32
unfolding prepare calc calc_zval calc_early calc_str calc_memoize
prepare_test = refl

-- an object is in the array, which is therefore serialized
serialized_test :
    size_of (prepare php none nowhere (entry_of (packed 800 (head 1) (elem (object 96) no_elem))))
    ≡ 72 + 32 + 32
unfolding prepare calc calc_zval calc_early calc_str calc_memoize calc_serialize
serialized_test = refl

abbrev ctxt : Calc
ctxt = record {
  size = 328;
  already_counted =
      some (pointer_to_hash_key 720 ∷ pointer_to_hash_key 1600 ∷ pointer_to_hash_key 640 ∷ []);
  use_serialization = false;
  serialized_str = none;
}

ready : prepare php none nowhere orig ≡ some ctxt
unfolding prepare calc calc_zval calc_early calc_str calc_memoize
ready = refl

persist_copy_end_example :
    (persist_copy php none nowhere ctxt orig (start php none nowhere 4096 orig false)).1.alloc_cur
      % 2 ^ 64
    ≡ (4096 + 328) % 2 ^ 64
persist_copy_end_example = persist_copy_end php none nowhere 4096 orig ctxt ready

-- what the addresses lead to
abbrev at : ℕ → Plain
at k = if k == 80 then text name.val else if k == 90 then text word.val else entries shape

orig-Coherent : Coherent at orig.val
unfolding Coherent plain pointer_to_hash_key
orig-Coherent = (refl, λ e. absurd (omega (arith, e)), (refl, refl, (tt, (refl, (tt, tt)))))

key_text : text name.val ≡ at (pointer_to_hash_key name.ptr)
unfolding pointer_to_hash_key
key_text = refl

empty_plain : plain php.empty_array ≡ entries no_item
unfolding plain
empty_plain = refl

abbrev new_name : ZendString
new_name = record { ptr = 4168; h = 2; val = name.val }

abbrev new_word : ZendString
new_word = record { ptr = 4392; h = 3; val = word.val }

abbrev stored : Entry Shared
stored = record {
  addr = 4096;
  key = new_name;
  val = value (
      hashed 4200
        (record { table_mask = 0; num_elements = 3; next_free = 13; internal_pointer = 0 })
        (keyed new_word (string new_word)
          (indexed 7 undef (indexed 9 (string new_name) (indexed 12 (scalar 5) no_bucket)))));
  nhits = 0;
  ctime = 5;
  atime = 5;
  mem_size = 328;
}

stored-eq : (persist php none nowhere malloc 4096 orig).0 ≡ some stored
unfolding persist prepare calc calc_zval calc_early calc_str calc_memoize persist_copy copy_value
    copy_zval copy_cstr get_or_copy_zstr get_already_allocated add_already_allocated
stored-eq = refl

unpersist-persist_example :
    (stored.key.val ≡ orig.key.val) × Back php none nowhere orig.val stored.val
unpersist-persist_example =
    unpersist-persist php none nowhere at empty_plain malloc 4096 orig stored tt orig-Coherent
      key_text stored-eq

persist-Refused_example :
    persist php none nowhere malloc 4096 (entry_of (resource 96)) ≡ (none, 4096)
persist-Refused_example =
    persist-Refused php none nowhere malloc 4096 (entry_of (resource 96))
      (resource_outside 96 refl refl)

orig-Alone : Alone at orig.val
unfolding Alone
orig-Alone = (tt, (tt, (tt, (tt, tt))))

persist-IsImmutable_example : IsImmutable stored.val
persist-IsImmutable_example =
    persist-IsImmutable php none nowhere at (λ ptr e. absurd (not_both (sym e))) malloc 4096 orig
      stored orig-Coherent orig-Alone key_text stored-eq
