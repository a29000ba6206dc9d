-- ===== src/Cache/Preload.antt =====
-- `immutable_cache_cache_preload` of immutable_cache_cache.c: the files `*.data` of a directory are
-- stored, each under its name without the extension. Texts are their bytes before the final NUL.
use immutable_cache_pecl.Prelude.{
  ℕ, zero, suc, ◌+◌, Bool, true, false, ◌||◌, not, List, [], ◌∷◌, ◌++◌, Option, none, some, ◌==◌,
  take, same, if◌then◌else◌,
}
use immutable_cache_pecl.Cache.Entry.{ZendString}
use immutable_cache_pecl.Cache.Locks.{Grant}
use immutable_cache_pecl.Cache.State.{World, Shm}
use immutable_cache_pecl.Cache.Operations.{store}
pub mod FileNames
pub mod Stored
pub mod Loaded
mod Examples

-- what is copied into a buffer of MAXPATHLEN = 4096 bytes, but for the final NUL
abbrev pub max_text : ℕ
max_text = 4095

abbrev pub slash : ℕ
slash = 47

abbrev pub dot : ℕ
dot = 46

-- `.data`
abbrev pub dot_data : List ℕ
dot_data = dot ∷ 100 ∷ 97 ∷ 116 ∷ 97 ∷ []

-- `strrchr`: the text from the last `c` on
unfoldable pub strrchr : ℕ → List ℕ → Option (List ℕ)
strrchr c [] = none
strrchr c (x ∷ xs) = elim (strrchr c xs) [
  | some rest ↦ some rest
  | none ↦ if x == c then some (x ∷ xs) else none
]

-- `p = strrchr(key, c)` and `p[0] = '\0'`: the text before the last `c`
unfoldable pub cut : ℕ → List ℕ → Option (List ℕ)
cut c [] = none
cut c (x ∷ xs) = elim (cut c xs) [
  | some front ↦ some (x ∷ front)
  | none ↦ if x == c then some [] else none
]

-- What lies outside: whether a file can be asked for, its bytes (a file that can be asked for can be
-- read), PHP's unserializer, the value `EG(uninitialized_zval)`, the test for IS_UNDEF, and
-- `zend_string_init`.
pub record Files (V : Type 0) : Type 0 where
  pub exists : List ℕ → Bool
  pub contents : List ℕ → List ℕ
  pub unserialize : List ℕ → Option V
  pub uninitialized : V
  pub is_undef : V → Bool
  pub string_init : List ℕ → ZendString

-- `data_unserialize`
unfoldable pub data_unserialize : {V : Type 0} → Files V → List ℕ → V
data_unserialize files filename =
    if files.exists filename
    then (elim (files.contents filename) [
      | [] ↦ files.uninitialized
      | b ∷ bytes ↦ elim (files.unserialize (b ∷ bytes)) [ some v ↦ v | none ↦ files.uninitialized ]
    ])
    else files.uninitialized

-- the test `p[1]`, and the key from what stands there
unfoldable pub key_of_name : List ℕ → Option (List ℕ)
unfolding cut
key_of_name [] = none
key_of_name (x ∷ name) = cut dot (take max_text (x ∷ name))

unfoldable pub behind : List ℕ → List ℕ
behind [] = []
behind (x ∷ rest) = rest

-- The key that `immutable_cache_load_data` makes of a path.
unfoldable pub key_of : List ℕ → Option (List ℕ)
unfolding strrchr key_of_name behind
key_of data_file = elim (strrchr slash data_file) [ none ↦ none | some p ↦ key_of_name (behind p) ]

-- The extension is `.data`.
unfoldable pub is_data_file : List ℕ → Bool
unfolding strrchr
is_data_file name = elim (strrchr dot name) [ none ↦ false | some p ↦ same p dot_data ]

-- `snprintf(file, MAXPATHLEN, "%s%c%s", path, DEFAULT_SLASH, name)`
unfoldable pub file_of : List ℕ → List ℕ → List ℕ
file_of path name = take max_text (path ++ slash ∷ name)

module _ {V R W S : Type 0} (shm : Shm V R W S) (grant : Grant) (files : Files V) where
  -- `immutable_cache_load_data` at the time `t`
  unfoldable pub load_data : World R W S → List ℕ → ℕ → Bool × World R W S
  load_data w data_file t = elim (key_of data_file) [
    | none ↦ (false, w)
    | some key ↦
        let value = data_unserialize files data_file in
        if files.is_undef value
        then (true, w)
        else (true, (store shm grant w (files.string_init key) value t).1)
  ]

  -- the loop over the names that `php_scandir` gives; the `i`-th is stored at the time `time i`
  unfoldable pub preload_from :
      World R W S → List ℕ → (ℕ → ℕ) → ℕ → List (List ℕ) → Bool × World R W S
  preload_from w path time i [] = (false, w)
  preload_from w path time i (name ∷ names) =
      let skip = preload_from w path time (i + 1) names in
      if is_data_file name
      then (let (loaded, w₁) = load_data w (file_of path name) (time i) in
          let (result, w₂) = preload_from w₁ path time (i + 1) names in (loaded || result, w₂))
      else skip

  -- `immutable_cache_cache_preload`, of a directory whose list is `names`, or of none
  unfoldable pub preload :
      World R W S → List ℕ → (ℕ → ℕ) → Option (List (List ℕ)) → Bool × World R W S
  preload w path time none = (false, w)
  preload w path time (some names) = preload_from w path time 0 names
