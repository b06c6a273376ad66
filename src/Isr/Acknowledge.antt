-- ===== src/Isr/Acknowledge.antt =====
-- How the handlers of sys/isr.c acknowledge an interrupt.
use sbunix_public.Base.{
  ℕ, suc, ◌<◌, ◌≤◌, ◌≡◌, ◌≢◌, arith, refl, ok, ◌>>=◌, ltb, ◌==◌, ◌&&◌, if◌then◌else◌, List, [], ◌∷◌,
  Bool, true, false, ne→==, le→leb, lt→leb_false, Bool-cases, inl, inr,
}
use sbunix_public.Keyboard.{Keyboard, keyboard_interrupt}
use sbunix_public.Isr.{
  Action, Registers, print_string, print_message, read_line, exec_ls, page_fault, halt, outb,
  syscall_handler, fault_handler, irq_handler, send,
}

-- The number of acknowledgements to the first controller, and whether the handler stops for good.
abbrev pub acknowledgements : List Action → ℕ
acknowledgements [] = 0
acknowledgements (outb port value ∷ rest) =
    let more = acknowledgements rest in if (port == 0x20) && (value == 0x20) then suc more else more
acknowledgements (print_string a ∷ rest) = acknowledgements rest
acknowledgements (print_message ∷ rest) = acknowledgements rest
acknowledgements (read_line a ∷ rest) = acknowledgements rest
acknowledgements (exec_ls ∷ rest) = acknowledgements rest
acknowledgements (page_fault ∷ rest) = acknowledgements rest
acknowledgements (halt ∷ rest) = acknowledgements rest

abbrev pub halts : List Action → Bool
halts [] = false
halts (halt ∷ rest) = true
halts (outb port value ∷ rest) = halts rest
halts (print_string a ∷ rest) = halts rest
halts (print_message ∷ rest) = halts rest
halts (read_line a ∷ rest) = halts rest
halts (exec_ls ∷ rest) = halts rest
halts (page_fault ∷ rest) = halts rest

-- Every system call, known or not, is acknowledged exactly once and goes on. An exception is
-- acknowledged once where the handler goes on, which is for a page fault and for numbers from 32 on;
-- for every other exception it stops without an acknowledgement.
pub handlers_acknowledge :
    (is_ls : ℕ → Bool) (r : Registers)
    → (acknowledgements (syscall_handler is_ls r) ≡ 1)
      × (halts (syscall_handler is_ls r) ≡ false)
      × (halts (fault_handler r) ≡ (if r.int_no == 14 then false else ltb r.int_no 32))
      × (acknowledgements (fault_handler r) ≡ (if halts (fault_handler r) then 0 else 1))
unfolding syscall_handler fault_handler
handlers_acknowledge is_ls r = (ground arith, ground arith, ground arith, ground arith)

-- A device interrupt is acknowledged at the first controller at the end, and one of the second
-- controller there too, before. The keyboard's is handled by the keyboard in between.
pub irq_handler_acknowledges :
    (key : ℕ) (r : Registers) (s : Keyboard)
    → (r.int_no < 40
        → r.int_no ≢ 33
        → irq_handler key r s ≡ ok (record s { outs = (0x20, 0x20) ∷ s.outs }))
      × (40 ≤ r.int_no
          → irq_handler key r s ≡ ok (record s { outs = (0x20, 0x20) ∷ (0xa0, 0x20) ∷ s.outs }))
      × (r.int_no ≡ 33
          → irq_handler key r s
            ≡ (keyboard_interrupt key s >>= λ t. ok (record t { outs = (0x20, 0x20) ∷ t.outs })))
unfolding irq_handler send
irq_handler_acknowledges key r s = (
  λ small ne. elim (Bool-cases (r.int_no == 32)) [
    | inl e ↦ rw (lt→leb_false 40 r.int_no small, e) refl
    | inr e ↦ rw (lt→leb_false 40 r.int_no small, e, ne→== r.int_no 33 ne) refl
  ],
  λ large.
      rw
        (le→leb 40 r.int_no large, ne→== r.int_no 32 (omega arith), ne→== r.int_no 33 (omega arith))
        refl,
  λ e. rw e refl,
)
