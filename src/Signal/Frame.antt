-- ===== src/Signal/Frame.antt =====
-- The frame that a signal's handler runs on, and the return from it.
use Prim.Native.Nat.{bit_and}
use osc_riscv.Base.{
  ℕ, zero, suc, ◌+◌, ◌-◌, ◌*◌, ◌/◌, ◌%◌, ◌^◌, ◌<◌, ◌≤◌, ◌≡◌, ◌⊎◌, refl, ◌∙◌, inl, inr, arith, ◌==◌,
  update, Bool-cases, ==_refl, eq_of_==,
}
use osc_riscv.Base.Bits.{and_round}
use osc_riscv.Regs
use osc_riscv.Regs.{PtRegs, pt_regs_words}
use osc_riscv.Sched.{Kernel, get_current}
use osc_riscv.Signal.{
  User, set_up_frame, sys_sigreturn, copy_to_user, sigframe_size, not64, sig_bit,
}

-- Copying changes no word below the first or behind the last …
copy_to_user-out :
    (n i to : ℕ) (from : ℕ → ℕ) (u : User) (a : ℕ)
    → (a < to + 8 * i) ⊎ (to + 8 * (i + n) ≤ a)
    → copy_to_user n i to from u a ≡ u a
unfolding copy_to_user
copy_to_user-out zero i to from u a o = refl
copy_to_user-out (suc n) i to from u a o =
    ground
      (arith, copy_to_user-out n (i + 1) to from (update u (to + 8 * i) (from i)) a (ground arith))

-- … and the word `j` becomes that of the structure.
copy_to_user-in :
    (n i to : ℕ) (from : ℕ → ℕ) (u : User) (j : ℕ)
    → i ≤ j
    → j < i + n
    → copy_to_user n i to from u (to + 8 * j) ≡ from j
unfolding copy_to_user
copy_to_user-in zero i to from u j lo hi = absurd (omega arith)
copy_to_user-in (suc n) i to from u j lo hi = elim (Bool-cases (i == j)) [
  | inl e ↦ rw (← eq_of_== i j e) (
      ground (
        arith,
        copy_to_user-out n (i + 1) to from (update u (to + 8 * i) (from i)) (to + 8 * i)
            (inl (omega arith)),
      ))
  | inr ne ↦
      copy_to_user-in n (i + 1) to from (update u (to + 8 * i) (from i)) j (ground arith)
        (ground arith)
]

abbrev pub HasFrame : PtRegs → Type 0
HasFrame regs = (sigframe_size ≤ regs Regs.sp) × (regs Regs.sp < 2 ^ 64)

module _ (sigreturn sig : ℕ) (regs : PtRegs) (u : User) (k k' : Kernel) (room : HasFrame regs) where
  -- The address of the frame, below the user's stack.
  abbrev frame : ℕ
  frame = regs Regs.sp - sigframe_size

  frame_at : (regs Regs.sp + 2 ^ 64 - sigframe_size) % 2 ^ 64 ≡ frame
  frame_at = omega arith

  frame_words :
      (j : ℕ)
      → j < pt_regs_words
      → (set_up_frame sigreturn sig regs u k).1 (frame + 8 + 8 * j) ≡ regs j
  unfolding set_up_frame
  frame_words j lt = rw frame_at (
      copy_to_user-in pt_regs_words 0 (frame + 8) regs
        (update u frame (u frame / 2 ^ 32 * 2 ^ 32 + sig)) j (omega arith) (omega arith))

  frame_signo : sig < 2 ^ 32 → (set_up_frame sigreturn sig regs u k).1 frame % 2 ^ 32 ≡ sig
  unfolding set_up_frame
  frame_signo lt =
      let u1 = update u frame (u frame / 2 ^ 32 * 2 ^ 32 + sig) in
      let kept : copy_to_user pt_regs_words 0 (frame + 8) regs u1 frame ≡ u1 frame =
        copy_to_user-out pt_regs_words 0 (frame + 8) regs u1 frame (inl (omega arith)) in
      rw (frame_at, kept, ==_refl frame) (omega arith)

  -- The handler is entered on a stack that is aligned to 16 bytes.
  handler_sp : (set_up_frame sigreturn sig regs u k).0 Regs.sp ≡ frame / 16 * 16
  unfolding set_up_frame
  handler_sp = rw frame_at (and_round 4 60 frame (omega arith))

  -- The registers and the memory at the entry to the handler.
  abbrev pub back : PtRegs × User
  back = set_up_frame sigreturn sig regs u k

  -- The memory still holds the frame's words: the signal's number and the saved registers.
  abbrev pub HoldsFrame : User → Type 0
  HoldsFrame u' =
      (u' frame ≡ back.1 frame)
      × ((j : ℕ) → j < pt_regs_words → u' (frame + 8 + 8 * j) ≡ back.1 (frame + 8 + 8 * j))

  -- A handler that comes to `sys_sigreturn` with the stack pointer it was entered with and the frame's
  -- words as they were, whatever the other registers and the rest of the memory: where the stack pointer
  -- of the interrupted program lies 8 above a multiple of 16, the frame is aligned, and `sys_sigreturn`
  -- gives every register of that program back, and unblocks the signal.
  pub sys_sigreturn-restores :
      (regs' : PtRegs) (u' : User)
      → regs' Regs.sp ≡ back.0 Regs.sp
      → HoldsFrame u'
      → regs Regs.sp % 16 ≡ 8
      → sig < 2 ^ 32
      → ((j : ℕ) → j < pt_regs_words → (sys_sigreturn regs' u' k').1 j ≡ regs j)
        × (((sys_sigreturn regs' u' k').2.task (get_current k')).blocked
            ≡ bit_and (k'.task (get_current k')).blocked (not64 (sig_bit sig)))
  unfolding sys_sigreturn
  sys_sigreturn-restores regs' u' stack held aligned lt =
      let at : regs' Regs.sp ≡ frame = stack ∙ handler_sp ∙ omega arith in
      (
        λ j lt'. rw at (held.1 j lt' ∙ frame_words j lt'),
        rw (at, held.0, frame_signo lt, ==_refl (get_current k')),
      )

  -- Under the same conditions on the handler, where the stack pointer of the interrupted program is a
  -- multiple of 16, the handler's stack pointer lies 8 below the frame: each register that
  -- `sys_sigreturn` gives back is the one before it.
  pub sys_sigreturn-shifted :
      (regs' : PtRegs) (u' : User)
      → regs' Regs.sp ≡ back.0 Regs.sp
      → HoldsFrame u'
      → regs Regs.sp % 16 ≡ 0
      → (j : ℕ) → suc j < pt_regs_words
      → (sys_sigreturn regs' u' k').1 (suc j) ≡ regs j
  unfolding sys_sigreturn
  sys_sigreturn-shifted regs' u' stack held aligned j lt =
      let at : regs' Regs.sp ≡ frame - 8 = stack ∙ handler_sp ∙ omega arith in
      let word : frame - 8 + 8 + 8 * suc j ≡ frame + 8 + 8 * j = omega arith in
      rw (at, word) (held.1 j (omega arith) ∙ frame_words j (omega arith))
