-- ===== src/Scheduler/Create/Stacks.antt =====
-- What a new kernel thread finds on its stack, and where it is put.
use blesk_os.Common.{
  ℕ, zero, suc, ◌+◌, ◌*◌, ◌^◌, ◌<◌, ◌≤◌, true, false, List, [], ◌∷◌, length, get_or, ◌==◌, add32,
  sub32, ◌≡◌, ◌≢◌, refl, ◌∙◌, ap, ◌⊎◌, inl, inr, arith,
}
use blesk_os.Scheduler.Create.{
  Stack, put_word, push_word, push_arguments, kernel_stack_size, interrupt_stack_size,
  interrupt_frame, new_stack,
}

-- The arguments lie in order from the pointer on, up to where it was; nothing else changes.
record Pushed (arguments : List ℕ) (before after : Stack) : Type 0 where
  pointer : after.pointer + 4 * length arguments ≡ before.pointer
  values :
      (i : ℕ) → i < length arguments → after.words (after.pointer + 4 * i) ≡ get_or arguments i 0
  others : (b : ℕ) → (b < after.pointer) ⊎ (before.pointer ≤ b) → after.words b ≡ before.words b

put_word-here : (a v b : ℕ) (words : ℕ → ℕ) → b ≡ a → put_word a v words b ≡ v
put_word-here a v b words e = (let same : (b == a) ≡ true = ground (arith, e) in rw same refl)

put_word-other : (a v b : ℕ) (words : ℕ → ℕ) → b ≢ a → put_word a v words b ≡ words b
put_word-other a v b words h = (let apart : (b == a) ≡ false = ground (arith, h) in rw apart refl)

push_word-values :
    (x : ℕ) (arguments : List ℕ) (t : Stack)
    → sub32 t.pointer 4 + 4 ≡ t.pointer
    → ((i : ℕ) → i < length arguments → t.words (t.pointer + 4 * i) ≡ get_or arguments i 0)
    → (i : ℕ) → i < suc (length arguments)
    → (push_word x t).words (sub32 t.pointer 4 + 4 * i) ≡ get_or (x ∷ arguments) i 0
push_word-values x arguments t below h zero l =
    put_word-here (sub32 t.pointer 4) x (sub32 t.pointer 4 + 4 * 0) t.words (omega arith)
push_word-values x arguments t below h (suc i) l =
    let up : sub32 t.pointer 4 + 4 * suc i ≡ t.pointer + 4 * i = omega (arith, below) in
    put_word-other (sub32 t.pointer 4) x (sub32 t.pointer 4 + 4 * suc i) t.words
      (λ e. absurd (omega (arith, e)))
    ∙ ap t.words up
    ∙ h i (omega (arith, l))

push_arguments-Pushed :
    (arguments : List ℕ) (s : Stack)
    → 4 * length arguments ≤ s.pointer
    → s.pointer < 2 ^ 32
    → Pushed arguments s (push_arguments arguments s)
push_arguments-Pushed [] s h b = record {
  pointer = omega arith;
  values = λ i l. absurd (omega arith);
  others = λ b o. refl;
}
push_arguments-Pushed (x ∷ arguments) s h b =
    let t : Stack = push_arguments arguments s in
    let rest = push_arguments-Pushed arguments s (omega (arith, h)) b in
    let below : sub32 t.pointer 4 + 4 ≡ t.pointer = ground (arith, rest.pointer, h, b) in
    record {
      pointer = omega (arith, below, rest.pointer);
      values = push_word-values x arguments t below rest.values;
      others = λ c o. (elim o [
        | inl under ↦
            put_word-other (sub32 t.pointer 4) x c t.words (λ e. absurd (omega (arith, e, under)))
            ∙ rest.others c (inl (omega (arith, under, below)))
        | inr over ↦
            put_word-other (sub32 t.pointer 4) x c t.words
              (λ e. absurd (omega (arith, e, over, below, rest.pointer)))
            ∙ rest.others c (inr over)
      ]);
    }

-- The stack of a thread that starts with `function`: the frame that the return from the interrupt reads,
-- the address that `function` returns to, and its arguments in order, up to the end of the block.
pub record IsThreadStack (close function top : ℕ) (arguments : List ℕ) (before : ℕ → ℕ) (s : Stack)
    : Type 0 where
  pub pointer : s.pointer + interrupt_stack_size + 4 + 4 * length arguments ≡ top
  pub eip : s.words (s.pointer + 56) ≡ function
  pub cs : s.words (s.pointer + 60) ≡ 0x08
  pub eflags : s.words (s.pointer + 64) ≡ 0x202
  pub return_address : s.words (s.pointer + interrupt_stack_size) ≡ close
  pub values :
      (i : ℕ)
      → i < length arguments
      → s.words (s.pointer + interrupt_stack_size + 4 + 4 * i) ≡ get_or arguments i 0
  pub others : (b : ℕ) → (b < s.pointer) ⊎ (top ≤ b) → s.words b ≡ before b

-- The frame is written below the pointer.
frame-other :
    (function b : ℕ) (s : Stack)
    → interrupt_stack_size ≤ s.pointer
    → s.pointer < 2 ^ 32
    → (b + interrupt_stack_size < s.pointer) ⊎ (s.pointer ≤ b)
    → (interrupt_frame function s).words b ≡ s.words b
unfolding interrupt_frame
frame-other function b s h l o = ground (arith, o)

frame-pointer :
    (function : ℕ) (s : Stack)
    → interrupt_stack_size ≤ s.pointer
    → s.pointer < 2 ^ 32
    → (interrupt_frame function s).pointer + interrupt_stack_size ≡ s.pointer
unfolding interrupt_frame
frame-pointer function s h l = ground arith

frame-fields :
    (function : ℕ) (s : Stack)
    → interrupt_stack_size ≤ s.pointer
    → s.pointer < 2 ^ 32
    → let f = interrupt_frame function s in
      (f.words (f.pointer + 56) ≡ function)
      × (f.words (f.pointer + 60) ≡ 0x08)
      × (f.words (f.pointer + 64) ≡ 0x202)
unfolding interrupt_frame
frame-fields function s h l = (ground arith, ground arith, ground arith)

-- On a stack that is big enough for its arguments, a new thread starts its function with the frame, the
-- return address and the arguments in place, and no word outside the block is written.
pub new_stack-IsThreadStack :
    (close kernel_stack function : ℕ) (arguments : List ℕ) (words : ℕ → ℕ)
    → kernel_stack + kernel_stack_size < 2 ^ 32
    → 4 * length arguments + 4 + interrupt_stack_size ≤ kernel_stack_size
    → IsThreadStack close function
        (kernel_stack + kernel_stack_size)
        arguments
        words
        (new_stack close kernel_stack function arguments words)
unfolding new_stack
new_stack-IsThreadStack close kernel_stack function arguments words fits enough =
    let top : Stack = record { pointer = add32 kernel_stack kernel_stack_size; words = words } in
    let at_top : top.pointer ≡ kernel_stack + kernel_stack_size = ground (arith, fits) in
    let pushed =
      push_arguments-Pushed arguments top (omega (arith, at_top, enough))
        (omega (arith, at_top, fits)) in
    let t : Stack = push_arguments arguments top in
    let c : Stack = push_word close t in
    let down : c.pointer + 4 ≡ t.pointer = ground (arith, pushed.pointer, at_top, enough, fits) in
    let room : interrupt_stack_size ≤ c.pointer =
      omega (arith, down, pushed.pointer, at_top, enough) in
    let below : c.pointer < 2 ^ 32 = omega (arith, down, pushed.pointer, at_top, fits) in
    let f : Stack = interrupt_frame function c in
    let place = frame-pointer function c room below in
    let fields = frame-fields function c room below in
    record {
      pointer = omega (arith, place, down, pushed.pointer, at_top);
      eip = fields.0;
      cs = fields.1;
      eflags = fields.2;
      return_address =
          frame-other function (f.pointer + interrupt_stack_size) c room below
            (inr (omega (arith, place)))
          ∙ put_word-here c.pointer close (f.pointer + interrupt_stack_size) t.words
              (omega (arith, place));
      values = λ i l.
          (let spot : f.pointer + interrupt_stack_size + 4 + 4 * i ≡ t.pointer + 4 * i =
              omega (arith, place, down) in
            frame-other function (f.pointer + interrupt_stack_size + 4 + 4 * i) c room below
              (inr (omega (arith, place)))
            ∙ put_word-other c.pointer close (f.pointer + interrupt_stack_size + 4 + 4 * i) t.words
                (λ e. absurd (omega (arith, e, place)))
            ∙ ap t.words spot
            ∙ pushed.values i l);
      others = λ b o. (elim o [
        | inl under ↦
            frame-other function b c room below (inl (omega (arith, under, place)))
            ∙ put_word-other c.pointer close b t.words
                (λ e. absurd (omega (arith, e, under, place)))
            ∙ pushed.others b (inl (omega (arith, under, place, down)))
        | inr over ↦
            frame-other function b c room below
              (inr (omega (arith, over, down, pushed.pointer, at_top)))
            ∙ put_word-other c.pointer close b t.words
                (λ e. absurd (omega (arith, e, over, down, pushed.pointer, at_top)))
            ∙ pushed.others b (inr (omega (arith, over, at_top)))
      ]);
    }
