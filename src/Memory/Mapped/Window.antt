-- ===== src/Memory/Mapped/Window.antt =====
-- What the allocators map: windows of whole pages that do not overlap.
use blesk_os.Common.{
  ℕ, ◌+◌, ◌-◌, ◌%◌, ◌^◌, ◌≤◌, ◌<◌, ◌≡◌, refl, ◌⊎◌, inl, inr, true, false, ◌||◌, ◌∷◌, ◌==◌, ltb,
  arith, Bool-cases, add32, sub32, ltb→lt, ltb→ge,
}
use blesk_os.Memory.Pages.{page_mask, page_offset, page_round}
use blesk_os.Memory.Mapped.{
  allocate_pages, map_phy_pages, Temporary, temp_phy_alloc, Permanent, perm_alloc, perm_phy_alloc,
  perm_start,
}

-- A window of `total` bytes at `base` shows `size` bytes at a physical address from `pointer` on.
pub record Shows (base total pointer phy_start size : ℕ) : Type 0 where
  pub low : base ≤ pointer
  pub high : pointer + size ≤ base + total
  pub at : pointer - base + page_mask phy_start ≡ phy_start
  pub pages : (base % 0x1000 ≡ 0) × (total % 0x1000 ≡ 0)

-- The temporary allocator works: it has a page to start with, and its space does not overflow.
pub record IsTemporary (t : Temporary) : Type 0 where
  pub aligned : t.base % 0x1000 ≡ 0
  pub some_base : 0 < t.base
  pub fits : t.base + t.free_size < 2 ^ 32

-- What a request for a window comes to in the temporary allocator: one at the start of the free
-- space, which it is cut from, or NULL if the space is too short.
abbrev pub TemporaryOutcome : ℕ → ℕ → Temporary → Type 0
TemporaryOutcome phy_start size t =
    let total = page_round (size + page_offset phy_start) in
    let r = temp_phy_alloc phy_start size t in
    ((r.1.calls ≡ map_phy_pages t.base (page_mask phy_start) total ∷ t.calls)
      × Shows t.base total r.0 phy_start size
      × IsTemporary r.1
      × (r.1.base ≡ t.base + total)
      × (r.1.base + r.1.free_size ≡ t.base + t.free_size))
    ⊎ ((r.0 ≡ 0) × (r.1 ≡ t) × (t.free_size < total))

-- On a working temporary allocator, a request for some bytes of physical memory, which are not so many
-- that their number overflows, comes to such a window or to NULL.
temp_phy_alloc-TemporaryOutcome :
    (phy_start size : ℕ) (t : Temporary)
    → IsTemporary t
    → 0 < size
    → size < 2 ^ 32 - 0x2000
    → TemporaryOutcome phy_start size t
unfolding temp_phy_alloc
temp_phy_alloc-TemporaryOutcome phy_start size t w some_bytes small =
    let offset = page_offset phy_start in
    let total = page_round (size + offset) in
    let here : add32 size offset ≡ size + offset = omega arith in
    let based : (t.base == 0) ≡ false = ground (arith, w.some_base) in
    elim (Bool-cases (ltb t.free_size total)) [
      | inl short ↦
          let full : (t.free_size == 0) || ltb t.free_size total ≡ true = ground arith in
          rw (here, based, full) (inr (refl, refl, ltb→lt _ _ short))
      | inr enough ↦
          let fits : total ≤ t.free_size = ltb→ge _ _ enough in
          let free : (t.free_size == 0) || ltb t.free_size total ≡ false = ground arith in
          let pointer : add32 t.base offset ≡ t.base + offset = omega (arith, w.fits, fits) in
          let base : add32 t.base total ≡ t.base + total = omega (arith, w.fits, fits) in
          let left : sub32 t.free_size total ≡ t.free_size - total = omega (arith, w.fits, fits) in
          rw (here, based, free, pointer, base, left)
            (inl (
              refl,
              record {
                low = omega arith;
                high = omega arith;
                at = omega arith;
                pages = (w.aligned, omega arith);
              },
              record {
                aligned = omega (arith, w.aligned);
                some_base = omega (arith, w.some_base);
                fits = omega (arith, w.fits, fits);
              },
              refl,
              omega (arith, fits),
            ))
    ]

-- The permanent allocator works: it has come down to a page that is not below its space.
pub record IsPermanent (p : Permanent) : Type 0 where
  pub aligned : p.base % 0x1000 ≡ 0
  pub above : perm_start ≤ p.base
  pub word : p.base < 2 ^ 32

-- What a request for a window comes to in the permanent allocator: one that ends where the last one
-- starts, or NULL if the space down to its end is too short.
abbrev pub PermanentOutcome : ℕ → ℕ → Permanent → Type 0
PermanentOutcome phy_start size p =
    let total = page_round (size + page_offset phy_start) in
    let r = perm_phy_alloc phy_start size p in
    IsPermanent r.1
    × (((r.1.calls ≡ map_phy_pages r.1.base (page_mask phy_start) total ∷ p.calls)
          × Shows r.1.base total r.0 phy_start size
          × (r.1.base + total ≡ p.base))
        ⊎ ((r.0 ≡ 0) × (r.1.calls ≡ p.calls) × (r.1.base ≡ p.base) × (p.base < perm_start + total)))

-- On a working permanent allocator, a request for some bytes, fewer than as above, comes to whole
-- pages with at least as many bytes, which end where the last allocation starts, or to NULL, and the
-- allocator goes on working.
perm_alloc-pages :
    (size : ℕ) (p : Permanent)
    → IsPermanent p
    → 0 < size
    → size < perm_start - 0x2000
    → let total = page_round size in
      let r = perm_alloc size p in
      IsPermanent r.1
      × (((r.1.calls ≡ allocate_pages r.0 total ∷ p.calls)
            × (r.0 + total ≡ p.base)
            × (size ≤ total)
            × (r.1.base ≡ r.0))
          ⊎ ((r.0 ≡ 0)
              × (r.1.calls ≡ p.calls)
              × (r.1.base ≡ p.base)
              × (p.base < perm_start + total)))
unfolding perm_alloc
perm_alloc-pages size p w some_bytes small =
    let total = page_round size in
    let base : sub32 p.base total ≡ p.base - total = omega (arith, w.above, w.word) in
    rw base (elim (Bool-cases (ltb (p.base - total) perm_start)) [
      | inl short ↦ rw short (
        record { aligned = w.aligned; above = w.above; word = w.word },
        inr (refl, refl, refl, omega (arith, ltb→lt _ _ short)),
      )
      | inr enough ↦
          let fits : perm_start ≤ p.base - total = ltb→ge _ _ enough in
          rw enough (
            record {
              aligned = omega (arith, w.aligned, w.above);
              above = fits;
              word = omega (arith, w.word);
            },
            inl (refl, omega (arith, w.above), omega arith, refl),
          )
    ])
