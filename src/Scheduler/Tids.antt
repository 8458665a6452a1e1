-- ===== src/Scheduler/Tids.antt =====
-- The numbers of kernel threads: `get_unique_kernel_tid` of kernel/hardware/devices/cpu/scheduler.c.
use blesk_os.Common.{
  ℕ, zero, suc, ◌+◌, ◌*◌, ◌^◌, ◌<◌, ◌≤◌, Bool, true, false, List, [], ◌∷◌, length, get_or, set,
  if◌then◌else◌, add32, sub32, mul32, ◌≡◌, refl, sym, ◌∙◌, ap, subst, ◌≢◌, ◌⊎◌, inl, inr, arith,
  Bool-cases,
}
use blesk_os.Scheduler.Kernel.{release_unique_kernel_tid}

abbrev pub max_threads_per_processor : ℕ
max_threads_per_processor = 4096

-- The loop over the entries of a processor, from an index and for some entries, with the map afterwards.
unfoldable pub find_tid : ℕ → ℕ → ℕ → List Bool → ℕ × List Bool
find_tid zero i offset map = (0, map)
find_tid (suc n) i offset map =
    let rest = find_tid n (i + 1) offset map in
    if get_or map (offset + i) true then rest else (add32 (offset + i) 1, set map (offset + i) true)

unfoldable pub get_unique_kernel_tid : ℕ → List Bool → ℕ × List Bool
get_unique_kernel_tid processor map =
    find_tid max_threads_per_processor 0 (mul32 processor max_threads_per_processor) map

-- All entries are taken and nothing changes.
pub record NoTid (first n : ℕ) (map : List Bool) (result : ℕ × List Bool) : Type 0 where
  pub no_tid : result.0 ≡ 0
  pub same_map : result.1 ≡ map
  pub all_taken : (j : ℕ) → j < n → get_or map (first + j) true ≡ true

-- The first entry that is free is taken, and its number is given.
pub record GivenTid (first n : ℕ) (map : List Bool) (result : ℕ × List Bool) : Type 0 where
  pub entry : ℕ
  pub in_range : entry < n
  pub tid : result.0 ≡ first + entry + 1
  pub was_free : get_or map (first + entry) true ≡ false
  pub taken_before : (j : ℕ) → j < entry → get_or map (first + j) true ≡ true
  pub new_map : result.1 ≡ set map (first + entry) true

zero_or_suc : (j : ℕ) → (j ≡ 0) ⊎ ((k : ℕ) × (j ≡ k + 1))
zero_or_suc zero = inl refl
zero_or_suc (suc k) = inr (k, omega arith)

find_tid-outcome :
    (n i offset : ℕ) (map : List Bool)
    → offset + i + n < 2 ^ 32
    → NoTid (offset + i) n map (find_tid n i offset map)
      ⊎ GivenTid (offset + i) n map (find_tid n i offset map)
unfolding find_tid
find_tid-outcome zero i offset map b =
    inl (record { no_tid = refl; same_map = refl; all_taken = λ j h. absurd (omega arith) })
find_tid-outcome (suc n) i offset map b =
    let start_entry : offset + i + 0 ≡ offset + i = omega arith in
    elim (Bool-cases (get_or map (offset + i) true)) [
      | inr free ↦ inr (record {
        entry = 0;
        in_range = omega arith;
        tid = rw (find_tid, free) (ground arith);
        was_free = ap (λ x. get_or map x true) start_entry ∙ free;
        taken_before = λ j h. absurd (omega arith);
        new_map = rw (find_tid, free) (ap (λ x. set map x true) (sym start_entry));
      })
      | inl taken ↦
          let shift : (offset + i) + 1 ≡ offset + (i + 1) = omega arith in
          let first_taken : (j : ℕ)
              → get_or map (offset + (i + 1) + j) true ≡ get_or map (offset + i + (j + 1)) true =
            (λ j. ap (λ x. get_or map x true) (omega arith)) in
          elim (find_tid-outcome n (i + 1) offset map (omega arith)) [
            | inl none_left ↦ inl (record {
              no_tid = rw (find_tid, taken) none_left.no_tid;
              same_map = rw (find_tid, taken) none_left.same_map;
              all_taken = λ j h. (elim (zero_or_suc j) [
                | inl start ↦ rw start (ap (λ x. get_or map x true) start_entry ∙ taken)
                | inr later ↦ rw (later.1) (
                    sym (first_taken (later.0))
                    ∙ none_left.all_taken (later.0) (omega (arith, h, later.1)))
              ]);
            })
            | inr given ↦ inr (record {
              entry = given.entry + 1;
              in_range = omega (arith, given.in_range);
              tid = rw (find_tid, taken) (given.tid ∙ omega arith);
              was_free = sym (first_taken given.entry) ∙ given.was_free;
              taken_before = λ j h. (elim (zero_or_suc j) [
                | inl start ↦ rw start (ap (λ x. get_or map x true) start_entry ∙ taken)
                | inr later ↦ rw (later.1) (
                    sym (first_taken (later.0))
                    ∙ given.taken_before (later.0) (omega (arith, h, later.1)))
              ]);
              new_map =
                  rw (find_tid, taken) (given.new_map ∙ ap (λ x. set map x true) (omega arith));
            })
          ]
    ]

-- The entries of a processor lie in the map, which has less than `2 ^ 32` entries.
abbrev pub HasEntries : ℕ → List Bool → Type 0
HasEntries processor map =
    ((processor + 1) * max_threads_per_processor ≤ length map) × (length map < 2 ^ 32)

-- A new kernel thread gets the first free number of its processor, which is not 0; the number 0 comes
-- exactly when all are taken, and then the map is as before.
pub get_unique_kernel_tid-outcome :
    (processor : ℕ) (map : List Bool)
    → HasEntries processor map
    → let first = processor * max_threads_per_processor in
      NoTid first max_threads_per_processor map (get_unique_kernel_tid processor map)
      ⊎ GivenTid first max_threads_per_processor map (get_unique_kernel_tid processor map)
unfolding get_unique_kernel_tid
get_unique_kernel_tid-outcome processor map h =
    let offset : mul32 processor max_threads_per_processor ≡ processor * max_threads_per_processor =
      ground (arith, h.0, h.1) in
    let done =
      find_tid-outcome max_threads_per_processor 0 (mul32 processor max_threads_per_processor) map
        (ground (arith, h.0, h.1, offset)) in
    let whole : mul32 processor max_threads_per_processor + 0
        ≡ processor * max_threads_per_processor =
      omega (arith, offset) in
    elim done [
      | inl a ↦ inl (
          subst
            (λ x. NoTid x max_threads_per_processor map (
              find_tid max_threads_per_processor 0 (mul32 processor max_threads_per_processor) map))
            whole a)
      | inr a ↦ inr (
          subst
            (λ x. GivenTid x max_threads_per_processor map (
              find_tid max_threads_per_processor 0 (mul32 processor max_threads_per_processor) map))
            whole a)
    ]

set-set_back :
    (map : List Bool) (i : ℕ) → get_or map i true ≡ false → set (set map i true) i false ≡ map
set-set_back [] i e = absurd (ground arith)
set-set_back (b ∷ map) zero e = ap (λ x. x ∷ map) (sym e)
set-set_back (b ∷ map) (suc i) e = ap (λ x. b ∷ x) (set-set_back map i e)

-- A number that a processor with entries in the map was given and that is released again leaves the
-- map as it was.
pub release_unique_kernel_tid-back :
    (processor : ℕ) (map : List Bool)
    → HasEntries processor map
    → (get_unique_kernel_tid processor map).0 ≢ 0
    → let given = get_unique_kernel_tid processor map in
      release_unique_kernel_tid (given.0) (given.1) ≡ map
release_unique_kernel_tid-back processor map h some_tid =
    elim (get_unique_kernel_tid-outcome processor map h) [
      | inl none_left ↦ absurd (some_tid none_left.no_tid)
      | inr g ↦
          let place : sub32 (processor * max_threads_per_processor + g.entry + 1) 1
              ≡ processor * max_threads_per_processor + g.entry =
            ground (arith, h.0, h.1, g.in_range) in
          rw (g.tid, g.new_map, place)
            (set-set_back map (processor * max_threads_per_processor + g.entry) g.was_free)
    ]
