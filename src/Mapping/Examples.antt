-- ===== src/Mapping/Examples.antt =====
-- Tests of the mapping, over a system that gives the descriptor 3, maps at 4096, and does not remove
-- names of more than 64 bytes.
use immutable_cache_pecl.Prelude.{
  ℕ, suc, ◌≡◌, refl, ap, ◌∙◌, true, false, List, [], ◌∷◌, none, some, length, ◌==◌, if◌then◌else◌,
  ==_refl, arith, leb, Bool, Bool-cases, inl, inr, same, same_refl,
}
use mathlib.Core.Path.{subst}
use mathlib.Core.Option.{some-injective}
use immutable_cache_pecl.Prelude.Int.{pos}
use immutable_cache_pecl.Sma.Blocks.{Blocks}
use immutable_cache_pecl.Sma.Heap.{no_segment}
use immutable_cache_pecl.Sma.Setup.{State, on_update_shm_segments}
use immutable_cache_pecl.Mapping.{
  Os, done, six, map_file, map_segment, map_segments, reset_mask, sma_init_mapped,
}
use immutable_cache_pecl.Mapping.Resources.{Resources, IsOs, Left, map_segments-Left}
use immutable_cache_pecl.Mapping.Masks.{is_template, IsStrict, IsFatal, sma_init_mapped-IsFatal}

-- `trouble` is whether a name could not be removed.
record System : Type 0 where
  open_files : List ℕ
  names : List (List ℕ)
  trouble : Bool

abbrev without_fd : ℕ → List ℕ → List ℕ
without_fd fd [] = []
without_fd fd (d ∷ ds) = if d == fd then ds else d ∷ without_fd fd ds

abbrev without_name : List ℕ → List (List ℕ) → List (List ℕ)
without_name name [] = []
without_name name (f ∷ fs) = if same f name then fs else f ∷ without_name name fs

-- `X` becomes `a`
abbrev renamed : List ℕ → List ℕ
renamed [] = []
renamed (x ∷ xs) = (if x == b'X' then b'a' else x) ∷ renamed xs

length-renamed : (xs : List ℕ) → length (renamed xs) ≡ length xs
length-renamed [] = refl
length-renamed (x ∷ xs) = ap suc (length-renamed xs)

abbrev os : Os System
os = record {
  mkstemp = λ s mask.
      if is_template mask
      then (
        some (3, renamed mask),
        record s { open_files = 3 ∷ s.open_files; names = renamed mask ∷ s.names },
      )
      else (none, s);
  ftruncate = λ s fd size. (true, s);
  mmap = λ s size fd. (some 4096, s);
  close = λ s fd. (true, record s { open_files = without_fd fd s.open_files });
  unlink = λ s name.
      if leb (length name) 64
      then (true, record s { names = without_name name s.names })
      else (false, record s { trouble = true });
}

abbrev resources : Resources System
resources = record {
  descriptors = λ s. s.open_files;
  files = λ s. s.names;
  failed = λ s. s.trouble;
}

os-IsOs : IsOs os resources
os-IsOs = record {
  refused = λ s mask e. ground arith;
  created = λ s mask fd name e. ground arith;
  truncated = λ s fd size. (refl, refl, refl);
  mapped = λ s size fd. (refl, refl, refl);
  close_noted = λ s fd. ground arith;
  closed = λ s fd ds done e. (ap (without_fd fd) e ∙ rw (==_refl fd) refl, refl);
  unlink_noted = λ s name. ground arith;
  unlinked = λ s name fs done e. elim (Bool-cases (leb (length name) 64)) [
    | inl short ↦ (rw short (ap (without_name name) e ∙ rw (same_refl name) refl), rw short refl)
    | inr long ↦ absurd (ground (arith, done))
  ];
}

os-IsStrict : IsStrict os
os-IsStrict = record {
  invalid = λ s mask e. rw e refl;
  in_place = λ s mask fd name e. ground (arith, length-renamed mask);
}

abbrev system : System
system = record { open_files = []; names = []; trouble = false }

-- `/tmp/XXXXXX`
abbrev mask : List ℕ
mask = b'/' ∷ b't' ∷ b'm' ∷ b'p' ∷ b'/' ∷ six

-- two segments and that of the locks, each from a mask of its own
three_test :
    map_segments os 2 2097152 3 0 (some mask) system
    ≡ done
        (record { shmaddr = 4096; size = 2097152 }
          ∷ record { shmaddr = 4096; size = 2097152 }
          ∷ record { shmaddr = 4096; size = 65536 }
          ∷ [])
        (some mask)
        system
unfolding map_segments map_segment map_file reset_mask
three_test = refl

map_segments-Left_example :
    Left os resources os-IsOs 2 2097152 3 0 system
      (map_segments os 2 2097152 3 0 (some mask) system)
map_segments-Left_example = map_segments-Left os resources os-IsOs 2 2097152 3 0 (some mask) system

abbrev blocks : Blocks
blocks = record { size = λ a. 3; prev_size = λ a. 4; fnext = λ a. 5; fprev = λ a. 6 }

abbrev unset : State
unset = record {
  initialized = false;
  sma = record { size = 0; last = 0; segs = []; shmaddr = λ i. 0 };
  lock_segment = no_segment;
}

fresh :
    (fd : ℕ) (name : List ℕ)
    → (os.mkstemp system mask).0 ≡ some (fd, name)
    → is_template name ≡ false
fresh fd name e = subst (λ q. is_template q.1 ≡ false) (some-injective _ (fd, name) e) refl

sma_init_mapped-IsFatal_example : IsFatal (
    sma_init_mapped os
      (λ i. blocks)
      unset
      (on_update_shm_segments (pos 1))
      2097152
      (some mask)
      system)
sma_init_mapped-IsFatal_example =
    sma_init_mapped-IsFatal os os-IsStrict (λ i. blocks) unset (pos 1) 2097152 b'/'
      (b't' ∷ b'm' ∷ b'p' ∷ b'/' ∷ six) system refl fresh
