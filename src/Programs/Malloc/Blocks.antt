-- ===== src/Programs/Malloc/Blocks.antt =====
-- The blocks that the allocator of programs gives: they are aligned and do not overlap.
use blesk_os.Common.{
  ℕ, ◌+◌, ◌-◌, ◌*◌, ◌%◌, ◌^◌, ◌≤◌, ◌<◌, ◌≡◌, refl, ◌∙◌, ◌⊎◌, inl, inr, ◌==◌, ltb, arith, Bool-cases,
  add32, sub32, bit_and, bit_and_mask, next_multiple, four_divides, suc, subst, ltb→lt, ltb→ge,
}
use blesk_os.Programs.Malloc.{Bleskalloc, rounded, take, malloc, aligned_malloc}
use native.Mathlib.Nat.{mod-lt, one-le-pow, pow-suc}

-- The pointer is at a multiple of four, and the free space, which is behind it, does not overflow.
pub record IsBleskalloc (s : Bleskalloc) : Type 0 where
  pub aligned : s.ptr % 4 ≡ 0
  pub whole : s.free_size % 4 ≡ 0
  pub positive : 0 < s.ptr
  pub fits : s.ptr + s.free_size < 2 ^ 32

-- A block of `size` bytes in the free space, and the allocator behind it, with the same end.
pub record Given (s : Bleskalloc) (size pointer : ℕ) (s' : Bleskalloc) : Type 0 where
  pub low : s.ptr ≤ pointer
  pub high : pointer + size ≤ s'.ptr
  pub aligned : pointer % 4 ≡ 0
  pub same_end : s'.ptr + s'.free_size ≡ s.ptr + s.free_size
  pub valid : IsBleskalloc s'

take-Given :
    (size : ℕ) (s : Bleskalloc)
    → IsBleskalloc s
    → size < 2 ^ 32 - 3
    → let r = take (rounded size) s in
      Given s size r.0 r.1 ⊎ ((r.0 ≡ 0) × (r.1 ≡ s) × (s.free_size < size))
take-Given size s w small = elim (Bool-cases (ltb s.free_size (rounded size))) [
  | inl short ↦ rw short (inr (refl, refl, omega (arith, ltb→lt _ _ short, w.whole)))
  | inr enough ↦
      let fits : rounded size ≤ s.free_size = ltb→ge _ _ enough in
      rw enough (
        inl (record {
          low = omega arith;
          high = omega (arith, w.fits, fits);
          aligned = w.aligned;
          same_end = omega (arith, w.fits, fits);
          valid = record {
            aligned = omega (arith, w.aligned, w.fits, fits);
            whole = omega (arith, w.whole, w.fits, fits);
            positive = omega (arith, w.positive, w.fits, fits);
            fits = omega (arith, w.fits, fits);
          };
        }))
]

-- On a working allocator, a request that does not overflow when it is rounded: it gives a block at a
-- multiple of four, in front of all later ones, or NULL when fewer bytes are free.
malloc-Given :
    (size : ℕ) (s : Bleskalloc)
    → IsBleskalloc s
    → size < 2 ^ 32 - 3
    → Given s size (malloc size s).0 (malloc size s).1
      ⊎ (((malloc size s).0 ≡ 0) × ((malloc size s).1 ≡ s) × (s.free_size < size))
unfolding malloc
malloc-Given size s w small = take-Given size s w small

-- What a request at an alignment comes to: a block at a multiple of it, or NULL with the same end of
-- the free space.
abbrev pub AlignedBlock : ℕ → ℕ → Bleskalloc → ℕ × Bleskalloc → Type 0
AlignedBlock d size s r =
    ((r.0 % d ≡ 0) × Given s size r.0 r.1)
    ⊎ ((r.0 ≡ 0) × IsBleskalloc r.1 × (r.1.ptr + r.1.free_size ≡ s.ptr + s.free_size))

-- From a pointer on that is a multiple of the alignment already.
take-AlignedBlock :
    (d size : ℕ) (s s1 : Bleskalloc)
    → IsBleskalloc s1
    → s1.ptr % d ≡ 0
    → s.ptr ≤ s1.ptr
    → s1.ptr + s1.free_size ≡ s.ptr + s.free_size
    → size < 2 ^ 32 - 3
    → AlignedBlock d size s (take (rounded size) s1)
take-AlignedBlock d size s s1 w on up end small =
    elim (Bool-cases (ltb s1.free_size (rounded size))) [
      | inl short ↦ rw short (inr (refl, w, end))
      | inr enough ↦ elim (take-Given size s1 w small) [
        | inl given ↦
            let g = rw enough at given in
            rw enough (
              inl (
                on,
                record {
                  low = up;
                  high = g.high;
                  aligned = g.aligned;
                  same_end = g.same_end ∙ end;
                  valid = g.valid;
                },
              ))
        | inr (null, same, less) ↦ rw enough (absurd (omega (arith, rw enough at null, w.positive)))
      ]
    ]

-- On a working allocator, a request as above at an alignment to a power of two, from 4 on: it gives such
-- a block at a multiple of the alignment, or NULL; then the free space may be shorter, by what was
-- left out for the alignment, but it has the same end.
pub aligned_malloc-AlignedBlock :
    (k size : ℕ) (s : Bleskalloc)
    → IsBleskalloc s
    → 2 + k < 32
    → size < 2 ^ 32 - 3
    → AlignedBlock (2 ^ suc (suc k)) size s (aligned_malloc (2 ^ suc (suc k)) size s)
unfolding aligned_malloc
aligned_malloc-AlignedBlock k size s w narrow small =
    let d = 2 ^ suc (suc k) in
    let positive : 0 < d = one-le-pow (suc (suc k)) 2 (omega arith) in
    let four : d ≡ 4 * 2 ^ k = omega (arith, pow-suc 2 (suc k), pow-suc 2 k) in
    let below = mod-lt s.ptr positive in
    let mask : bit_and s.ptr (d - 1) ≡ s.ptr % d = bit_and_mask (suc (suc k)) s.ptr in
    let next = next_multiple d s.ptr positive in
    let bytes = d - s.ptr % d in
    rw mask (elim (Bool-cases (bytes == d)) [
      | inl there ↦
          let on : s.ptr % d ≡ 0 = ground (arith, below) in
          rw there (take-AlignedBlock d size s s w on (omega arith) refl small)
      | inr away ↦ elim (Bool-cases (ltb s.free_size bytes)) [
        | inl short ↦ rw (away, short) (inr (refl, w, refl))
        | inr enough ↦
            let fits : bytes ≤ s.free_size = ltb→ge _ _ enough in
            let up : add32 s.ptr bytes ≡ s.ptr + bytes = omega (arith, w.fits, fits) in
            let left : sub32 s.free_size bytes ≡ s.free_size - bytes =
              omega (arith, w.fits, fits) in
            let even =
              four_divides (2 ^ k) (s.ptr + bytes)
                (subst (λ m. (s.ptr + bytes) % m ≡ 0) four next) in
            rw (away, enough, up, left)
              (take-AlignedBlock d size s
                (record { ptr = s.ptr + bytes; free_size = s.free_size - bytes })
                (record {
                  aligned = even;
                  whole = omega (arith, even, w.aligned, w.whole, fits);
                  positive = omega (arith, w.positive);
                  fits = omega (arith, w.fits, fits);
                })
                next (omega arith) (omega (arith, fits)) small)
      ]
    ])
