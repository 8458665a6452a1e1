-- ===== src/Memory/Heap/Insert.antt =====
-- An entry that is put into the free space behind another one.
use blesk_os.Common.{
  ap, sym, ◌∙◌, ltb, ◌⊎◌, ℕ, ◌+◌, ◌≤◌, ◌<◌, ◌≡◌, ◌≢◌, Bool, true, not, ◌&&◌, ◌==◌, if◌then◌else◌,
  arith, Bool-cases, inl, inr, refl,
}
use blesk_os.Memory.Heap.{Heap, node_size, link}
use blesk_os.Memory.Heap.Valid.{IsList, limit, limit-bound, Repaged}

-- The set of entries with one more.
abbrev pub with_entry : (ℕ → Bool) → ℕ → ℕ → Bool
with_entry live new a = if a == new then true else live a

-- `h'` has the entry from `new` to `stop` behind `before`, and else what `h` has.
pub record Inserted (h h' : Heap) (before new stop : ℕ) : Type 0 where
  pub first : h'.first_entry ≡ h.first_entry
  pub memory_end : h'.memory_end ≡ h.memory_end
  pub ends : (i : ℕ) → (h'.entry i).end ≡ (if i == new then stop else (h.entry i).end)
  pub nexts :
      (i : ℕ)
      → (h'.entry i).next ≡ (
          if i == new then (h.entry before).next else if i == before then new else (h.entry i).next)
  pub prevs :
      (i : ℕ)
      → (h'.entry i).prev ≡ (
          if i == new
          then before
          else if not ((h.entry before).next == 0) && (i == (h.entry before).next)
          then new
          else (h.entry i).prev)

-- `link` puts an entry behind another one.
pub link-Inserted :
    (h : Heap) (before new stop : ℕ)
    → Inserted h
        (record h {
          entry =
              link new (record { end = stop; prev = before; next = (h.entry before).next }) h.entry;
        })
        before
        new
        stop
link-Inserted h before new stop = record {
  first = refl;
  memory_end = refl;
  ends = λ i. ground arith;
  nexts = λ i. ground arith;
  prevs = λ i. ground arith;
}

pub Inserted-Repaged :
    (h h' h'' : Heap) (before new stop : ℕ)
    → Inserted h h' before new stop
    → Repaged h' h''
    → Inserted h h'' before new stop
Inserted-Repaged h h' h'' before new stop s r = record {
  first = r.first ∙ s.first;
  memory_end = r.memory_end ∙ s.memory_end;
  ends = λ i. ap (λ f. (f i).end) r.entry ∙ s.ends i;
  nexts = λ i. ap (λ f. (f i).next) r.entry ∙ s.nexts i;
  prevs = λ i. ap (λ f. (f i).prev) r.entry ∙ s.prevs i;
}

-- The place of the new entry: in the space behind `before`.
pub record Fits (live : ℕ → Bool) (h : Heap) (before new stop : ℕ) : Type 0 where
  pub list : IsList live h
  pub live_before : live before ≡ true
  pub above : (h.entry before).end ≤ new
  pub long : new + node_size ≤ stop
  pub under : stop ≤ limit h before

-- No entry stands in the new one's place, and each other entry is at one of its sides.
pub around :
    (live : ℕ → Bool) (h : Heap) (before new stop a : ℕ)
    → Fits live h before new stop
    → live a ≡ true
    → ((a ≤ before) × ((h.entry a).end ≤ new))
      ⊎ (((h.entry before).next ≢ 0) × (before < a) × (stop ≤ a) × ((h.entry before).next ≤ a))
around live h before new stop a f k = elim (Bool-cases (ltb before a)) [
  | inl higher ↦
      let least = f.list.next_least before a f.live_before k (ground arith) in
      inr (least.0, ground arith, ground (arith, f.under, least.0, least.1), least.1)
  | inr lower ↦ inl (
    ground arith,
    elim (Bool-cases (a == before)) [
      | inl same ↦ ground (arith, f.above)
      | inr other ↦
          let low = f.list.apart a before k f.live_before (ground arith) in
          omega (arith, low, f.list.room before f.live_before, f.above)
    ],
  )
]

-- Where the new entry starts there is none.
pub fresh :
    (live : ℕ → Bool) (h : Heap) (before new stop a : ℕ)
    → Fits live h before new stop
    → live a ≡ true
    → a ≢ new
fresh live h before new stop a f k =
    ground (arith, around live h before new stop a f k, f.list.room a k, f.long)

module _ (live : ℕ → Bool) (h h' : Heap) (before new stop : ℕ) (f : Fits live h before new stop)
    (s : Inserted h h' before new stop) where
  inserted-lowest : (a : ℕ) → with_entry live new a ≡ true → h'.first_entry ≤ a
  inserted-lowest a k =
      let low = f.list.lowest before f.live_before in
      let room = f.list.room before f.live_before in
      ground (arith, s.first, f.list.lowest a, low, room, f.above)

  inserted-room : (a : ℕ) → with_entry live new a ≡ true → a + node_size ≤ (h'.entry a).end
  inserted-room a k = ground (arith, s.ends a, f.long, f.list.room a)

  inserted-bound : (a : ℕ) → with_entry live new a ≡ true → (h'.entry a).end ≤ h'.memory_end
  inserted-bound a k =
      let under = limit-bound live h before f.list f.live_before in
      ground (arith, s.ends a, s.memory_end, f.list.bound a, f.under, under)

  inserted-apart :
      (a b : ℕ)
      → with_entry live new a ≡ true
      → with_entry live new b ≡ true
      → a < b
      → (h'.entry a).end ≤ b
  inserted-apart a b k m lt = ground (
    arith,
    s.ends a,
    around live h before new stop a f,
    around live h before new stop b f,
    f.list.apart a b,
    f.list.room b,
    f.long,
  )

  inserted-next_least :
      (a b : ℕ)
      → with_entry live new a ≡ true
      → with_entry live new b ≡ true
      → a < b
      → ((h'.entry a).next ≢ 0) × ((h'.entry a).next ≤ b)
  inserted-next_least a b k m lt = ground (
    arith,
    s.nexts a,
    around live h before new stop a f,
    around live h before new stop b f,
    f.list.next_least a b,
    f.list.next_least a before,
    f.long,
    f.above,
    f.list.room before,
    f.live_before,
  )

  inserted-next_live :
      (a : ℕ)
      → with_entry live new a ≡ true
      → (h'.entry a).next ≢ 0
      → (with_entry live new (h'.entry a).next ≡ true)
        × (a < (h'.entry a).next)
        × ((h'.entry (h'.entry a).next).prev ≡ a)
  inserted-next_live a k n = elim (Bool-cases (a == new)) [
    | inl here ↦
        let next : (h'.entry a).next ≡ (h.entry before).next = ground (arith, s.nexts a) in
        let up = f.list.next_live before f.live_before (ground arith) in
        let beyond = fresh live h before new stop (h.entry before).next f up.0 in
        let high = around live h before new stop (h.entry before).next f up.0 in
        rw next (
          ground arith,
          ground (arith, high, up.1, f.long),
          ground (arith, s.prevs (h.entry before).next),
        )
    | inr other ↦ elim (Bool-cases (a == before)) [
      | inl behind ↦
          let next : (h'.entry a).next ≡ new = ground (arith, s.nexts a) in
          rw next (
            ground arith,
            ground (arith, f.above, f.list.room before f.live_before),
            ground (arith, s.prevs new),
          )
      | inr apart ↦
          let old : live a ≡ true = rw other at k in
          let next : (h'.entry a).next ≡ (h.entry a).next = ground (arith, s.nexts a) in
          let up = f.list.next_live a old (ground arith) in
          let beyond = fresh live h before new stop (h.entry a).next f up.0 in
          let unshared : (h.entry a).next ≢ (h.entry before).next = λ e. ground (
            arith,
            up.1,
            f.list.next_live before f.live_before,
            f.list.next_least a before old f.live_before,
            f.list.next_least before a f.live_before old,
          ) in
          rw next (ground arith, up.1, ground (arith, s.prevs (h.entry a).next))
    ]
  ]

  inserted-prev_live :
      (a : ℕ)
      → with_entry live new a ≡ true
      → a ≢ h'.first_entry
      → (with_entry live new (h'.entry a).prev ≡ true) × ((h'.entry (h'.entry a).prev).next ≡ a)
  inserted-prev_live a k n = elim (Bool-cases (a == new)) [
    | inl here ↦
        let prev : (h'.entry a).prev ≡ before = ground (arith, s.prevs a) in
        let other : before ≢ new = fresh live h before new stop before f f.live_before in
        rw prev (ground (arith, f.live_before), ground (arith, s.nexts before))
    | inr other ↦
        let old : live a ≡ true = rw other at k in
        let back = f.list.prev_live a old (ground (arith, s.first)) in
        let apart = fresh live h before new stop (h.entry a).prev f back.0 in
        elim (Bool-cases (a == (h.entry before).next)) [
          | inl behind ↦
              let positive : 0 < a = ground (arith, f.list.positive, f.list.lowest a old) in
              let prev : (h'.entry a).prev ≡ new = ground (arith, s.prevs a) in
              rw prev (ground arith, ground (arith, s.nexts new))
          | inr elsewhere ↦
              let prev : (h'.entry a).prev ≡ (h.entry a).prev = ground (arith, s.prevs a) in
              let unshared : (h.entry a).prev ≢ before = λ e.
                let same : (h.entry before).next ≡ a =
                  ap (λ p. (h.entry p).next) (sym e) ∙ back.1 in
                absurd (ground arith) in
              rw prev (ground (arith, back.0), ground (arith, s.nexts (h.entry a).prev, back.1))
        ]
  ]

  -- An entry put into the space behind another one leaves the list well formed.
  pub Inserted-IsList : IsList (with_entry live new) h'
  Inserted-IsList =
      let l = f.list in
      record {
        small = rw s.memory_end l.small;
        first = ground (arith, s.first, l.first);
        positive = ground (arith, s.first, l.positive);
        lowest = inserted-lowest;
        room = inserted-room;
        bound = inserted-bound;
        apart = inserted-apart;
        next_live = inserted-next_live;
        next_least = inserted-next_least;
        prev_live = inserted-prev_live;
      }
