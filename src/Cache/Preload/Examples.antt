-- ===== src/Cache/Preload/Examples.antt =====
-- Tests of the preload: a directory `/d` with the files `a.data` and `b.txt`, over memory for two entries.
use immutable_cache_pecl.Prelude.{ℕ, ◌≤◌, true, false, List, [], ◌∷◌, some, ◌≡◌, refl}
use immutable_cache_pecl.Cache.Entry.{Entry}
use immutable_cache_pecl.Cache.Preload.{Files, dot_data, key_of}

-- each file holds the byte 53, which stands for 5
abbrev files : Files ℕ
files = record {
  exists = λ path. true;
  contents = λ path. 53 ∷ [];
  unserialize = λ bytes. some 5;
  uninitialized = 0;
  is_undef = λ v. false;
  string_init = λ k. record { ptr = 0; h = 0; val = k };
}

-- so many entries as the number that is the state
abbrev Room : ℕ → ℕ → Type 0
Room k s = k ≤ s

abbrev names : List (List ℕ)
names = (97 ∷ dot_data) ∷ (98 ∷ 46 ∷ 116 ∷ 120 ∷ 116 ∷ []) ∷ []

key_of_file : key_of (47 ∷ 100 ∷ 47 ∷ 97 ∷ dot_data) ≡ some (97 ∷ [])
unfolding key_of
key_of_file = refl
