-- ===== src/Isr/Tests.antt =====
-- The handlers at interrupt 44, at exception 13 and at system call 3.
use sbunix_public.Base.{◌≡◌, ◌≢◌, ◌<◌, ◌≤◌, ok, ◌>>=◌, ◌∷◌, [], true, false, if◌then◌else◌}
use sbunix_public.Keyboard.{Keyboard, keyboard_interrupt}
use sbunix_public.Isr.{Registers, syscall_handler, fault_handler, irq_handler}
use sbunix_public.Isr.Acknowledge.{
  acknowledgements, halts, handlers_acknowledge, irq_handler_acknowledges,
}

abbrev registers : Registers
registers = record { rax = 3; rdi = 0x40_0000; int_no = 13 }

abbrev mouse : Registers
mouse = record { rax = 0; rdi = 0; int_no = 44 }

abbrev idle_keyboard : Keyboard
idle_keyboard = record {
  keyboard_flag = 0;
  key_count = 0;
  buffer = λ _. 0;
  printed = [];
  outs = [];
}

handlers_acknowledge_example :
    (acknowledgements (syscall_handler (λ _. true) registers) ≡ 1)
    × (halts (syscall_handler (λ _. true) registers) ≡ false)
    × (halts (fault_handler registers) ≡ true)
    × (acknowledgements (fault_handler registers)
        ≡ (if halts (fault_handler registers) then 0 else 1))
handlers_acknowledge_example = handlers_acknowledge (λ _. true) registers

irq_handler_acknowledges_example :
    (mouse.int_no < 40
      → mouse.int_no ≢ 33
      → irq_handler 0x1e mouse idle_keyboard
        ≡ ok (record idle_keyboard { outs = (0x20, 0x20) ∷ [] }))
    × (40 ≤ mouse.int_no
        → irq_handler 0x1e mouse idle_keyboard
          ≡ ok (record idle_keyboard { outs = (0x20, 0x20) ∷ (0xa0, 0x20) ∷ [] }))
    × (mouse.int_no ≡ 33
        → irq_handler 0x1e mouse idle_keyboard ≡ (
            keyboard_interrupt 0x1e idle_keyboard >>= λ t.
            ok (record t { outs = (0x20, 0x20) ∷ t.outs })))
irq_handler_acknowledges_example = irq_handler_acknowledges 0x1e mouse idle_keyboard
