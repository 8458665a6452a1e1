-- ===== src/Memory/Heap/Realloc/InPlace.antt =====
-- An allocation that changes its length where it is.
use blesk_os.Common.{ℕ, ◌≡◌, Bool, ◌==◌, if◌then◌else◌}
use blesk_os.Memory.Heap.{Heap}
use blesk_os.Memory.Heap.Valid.{IsHeap}

-- A heap in which the entry at `a` ends at `stop` and every other entry is as before.
record Resized (live : ℕ → Bool) (h : Heap) (a stop : ℕ) (h' : Heap) : Type 0 where
  valid : IsHeap live h'
  ends : (i : ℕ) → (h'.entry i).end ≡ (if i == a then stop else (h.entry i).end)
