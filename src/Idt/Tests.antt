-- ===== src/Idt/Tests.antt =====
-- A descriptor table with entry points from 0x20_0000 on.
use sbunix_public.Base.{ℕ, ◌+◌, ◌*◌, ◌%◌, ◌<◌, ◌≤◌, ◌≡◌, ◌≢◌, ◌∷◌, [], arith}
use sbunix_public.Idt.{Idt, empty_gate, idt_install, init_idt}
use sbunix_public.Idt.Gates.{IsGate, init_idt_lem}

abbrev entry : ℕ → ℕ
entry j = 0x20_0000 + j % 32 * 16

abbrev start : Idt
start = record { idt = λ _. empty_gate; limit = 0; base = 0; loaded = []; outs = [] }

abbrev installed : Idt
installed = init_idt entry 0x20_1000 (idt_install entry 0x10_0000 start)

init_idt_example :
    ((j : ℕ) → j < 32 → IsGate (installed.idt j) 0x8e (entry j))
    × ((j : ℕ) → j < 16 → IsGate (installed.idt (32 + j)) 0x8e (entry j))
    × IsGate (installed.idt 128) 0xee 0x20_1000
    × ((i : ℕ) → 48 ≤ i → i ≢ 128 → installed.idt i ≡ empty_gate)
    × (installed.loaded ≡ (4096, 0x10_0000) ∷ [])
init_idt_example =
    init_idt_lem entry entry 0x20_1000 0x10_0000 start (λ j. omega arith) (λ j. omega arith)
      (omega arith)
