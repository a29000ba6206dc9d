-- ===== src/Cache/Preload/FileNames.antt =====
-- The key of a data file is its name without the extension.
use immutable_cache_pecl.Prelude.{
  ℕ, ◌+◌, ◌≤◌, ◌≡◌, refl, ap, ◌∙◌, true, false, List, [], ◌∷◌, ◌++◌, none, some, length,
  length-append, take, take_all, arith, ==_refl, ==_symm,
}
use immutable_cache_pecl.Sma.Distinct.{has, has-append}
use immutable_cache_pecl.Cache.Preload.{
  strrchr, cut, max_text, slash, dot, dot_data, key_of_name, key_of, is_data_file, file_of,
}

strrchr-none : (c : ℕ) (xs : List ℕ) → has c xs ≡ false → strrchr c xs ≡ none
unfolding strrchr
strrchr-none c [] out = refl
strrchr-none c (x ∷ xs) out = ground (arith, strrchr-none c xs, ==_symm c x)

strrchr-append :
    (c : ℕ) (xs ys : List ℕ) → has c ys ≡ false → strrchr c (xs ++ c ∷ ys) ≡ some (c ∷ ys)
unfolding strrchr
strrchr-append c [] ys out = rw (strrchr, strrchr-none c ys out, ==_refl c)
strrchr-append c (x ∷ xs) ys out = rw (strrchr, strrchr-append c xs ys out)

cut-none : (c : ℕ) (xs : List ℕ) → has c xs ≡ false → cut c xs ≡ none
unfolding cut
cut-none c [] out = refl
cut-none c (x ∷ xs) out = ground (arith, cut-none c xs, ==_symm c x)

cut-append : (c : ℕ) (xs ys : List ℕ) → has c ys ≡ false → cut c (xs ++ c ∷ ys) ≡ some xs
unfolding cut
cut-append c [] ys out = rw (cut, cut-none c ys out, ==_refl c)
cut-append c (x ∷ xs) ys out = rw (cut, cut-append c xs ys out)

pub is_data_file_lem : (base : List ℕ) → is_data_file (base ++ dot_data) ≡ true
unfolding is_data_file
is_data_file_lem base = rw (is_data_file, strrchr-append dot base (100 ∷ 97 ∷ 116 ∷ 97 ∷ []) refl)

key_of_name_steps :
    (x : ℕ) (name : List ℕ) → key_of_name (x ∷ name) ≡ cut dot (take max_text (x ∷ name))
unfolding key_of_name
key_of_name_steps x name = refl

key_of_name_lem :
    (base : List ℕ) → length base + 5 ≤ max_text → key_of_name (base ++ dot_data) ≡ some base
unfolding key_of_name
key_of_name_lem [] short = refl
key_of_name_lem (x ∷ base) short =
    key_of_name_steps x (base ++ dot_data)
    ∙ ap (cut dot)
        (take_all max_text (x ∷ (base ++ dot_data)) (omega (arith, length-append base dot_data)))
    ∙ cut-append dot (x ∷ base) (100 ∷ 97 ∷ 116 ∷ 97 ∷ []) refl

key_of_steps :
    (data_file rest : List ℕ)
    → strrchr slash data_file ≡ some (slash ∷ rest)
    → key_of data_file ≡ key_of_name rest
unfolding key_of
key_of_steps data_file rest e = rw (key_of, e)

file_of_short :
    (path name : List ℕ)
    → length path + length name + 1 ≤ max_text
    → file_of path name ≡ path ++ slash ∷ name
unfolding file_of
file_of_short path name short =
    take_all max_text (path ++ slash ∷ name) (omega (arith, length-append path (slash ∷ name)))

pub key_of-file_of :
    (path base : List ℕ)
    → has slash base ≡ false
    → length path + length base + 6 ≤ max_text
    → key_of (file_of path (base ++ dot_data)) ≡ some base
key_of-file_of path base out short =
    let name = base ++ dot_data in
    let size = length-append base dot_data in
    let clean : has slash name ≡ false = ground (arith, has-append slash base dot_data) in
    ap key_of (file_of_short path name (omega arith))
    ∙ key_of_steps (path ++ slash ∷ name) name (strrchr-append slash path name clean)
    ∙ key_of_name_lem base (omega arith)
