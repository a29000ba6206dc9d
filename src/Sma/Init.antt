-- ===== src/Sma/Init.antt =====
-- `immutable_cache_sma_init`, for one segment: the body of the loop after the memory is mapped.
-- The memory holds anything (`b`) when it starts. The locks are part of the cache's model.
use mathlib.Core.Path.{subst}
use immutable_cache_pecl.Prelude.{
  ℕ, ◌+◌, ◌-◌, ◌^◌, ◌≤◌, ◌<◌, ◌≡◌, refl, sym, true, false, [], ◌∷◌, arith, ◌==◌, ==_refl,
}
use immutable_cache_pecl.Sma.Words.{add64, sub64, block_size, header_size}
use immutable_cache_pecl.Sma.Blocks.{Blocks, Segment, write, first, start, last_of}
use immutable_cache_pecl.Sma.Tiles.{cell}
use immutable_cache_pecl.Sma.Invariant.{IsSegment}

-- the assignment of all four fields of the block at `o`
abbrev pub put : Blocks → ℕ → (size fnext fprev prev_size : ℕ) → Blocks
put b o size fnext fprev prev_size = record {
  size = write b.size o size;
  prev_size = write b.prev_size o prev_size;
  fnext = write b.fnext o fnext;
  fprev = write b.fprev o fprev;
}

unfoldable pub init_segment : Blocks → ℕ → Segment
init_segment b segment_size =
    let avail = sub64 (sub64 (sub64 segment_size header_size) block_size) block_size in
    let b₁ = put b first 0 (header_size + block_size) 0 0 in
    let empty = b₁.fnext first in
    let size = sub64 avail block_size in
    let b₂ = put b₁ empty size (add64 empty size) header_size 0 in
    let last = b₂.fnext empty in
    record { segsize = segment_size; avail = avail; blocks = put b₂ last 0 0 empty (b₂.size empty) }

module _ (b : Blocks) (size : ℕ) (room : header_size + 128 ≤ size) (small : size < 2 ^ 63) where
  -- the size of the one free block
  abbrev free_size : ℕ
  free_size = size - header_size - 96

  abbrev last : ℕ
  last = last_of size

  abbrev fresh : Segment
  fresh = record {
    segsize = size;
    avail = free_size + block_size;
    blocks =
        put (put (put b first 0 start 0 0) start free_size last header_size 0) last 0 0 start
          free_size;
  }

  fresh-IsSegment : IsSegment fresh (cell free_size true ∷ []) (start ∷ [])
  fresh-IsSegment =
      let apart : (start == last) ≡ false = ground (arith, room) in
      let apart' : (first == last) ≡ false = ground (arith, room) in
      record {
        tiles = (
          record {
            size = rw apart;
            room = omega (arith, room);
            prev = rw apart;
            apart = λ f. refl;
            used = λ f. cc;
          },
          tt,
        );
        ends = omega (arith, room);
        tail_size = rw (==_refl last);
        tail_prev = rw (==_refl last);
        tail_next = rw (==_refl last);
        linked = (rw apart', rw apart, (rw apart, rw (==_refl last)));
        distinct = (refl, tt);
        members = λ a. refl;
        count = refl;
        avail = omega arith;
        small = small;
      }

  -- Whatever the memory held, a new segment of at least the header and 128 bytes and less than
  -- 2^63 bytes satisfies the invariant with one free block.
  pub init_segment-IsSegment :
      IsSegment (init_segment b size) (cell free_size true ∷ []) (start ∷ [])
  unfolding init_segment
  init_segment-IsSegment =
      let e : sub64 (sub64 (sub64 size header_size) block_size) block_size
          ≡ free_size + block_size =
        omega (arith, room, small) in
      let f : sub64 (free_size + block_size) block_size ≡ free_size = omega (arith, room, small) in
      let g : add64 start free_size ≡ last = omega (arith, room, small) in
      let same : init_segment b size ≡ fresh = rw (e, f, g) in
      subst (λ seg. IsSegment seg (cell free_size true ∷ []) (start ∷ [])) (sym same)
        fresh-IsSegment
