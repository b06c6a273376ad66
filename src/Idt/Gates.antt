-- ===== src/Idt/Gates.antt =====
-- What the processor finds in the descriptor table of sys/idt.c.
use sbunix_public.Base.{
  inr, ==_iff, ne→==, ◌∙◌, inl, Bool-cases, ◌≤◌, ◌⊎◌, eq→==, ◌≢◌, ℕ, zero, suc, ◌+◌, ◌*◌, ◌/◌, ◌^◌,
  ◌<◌, ◌≡◌, ◌∷◌, arith, ◌==◌, refl,
}
use sbunix_public.Base.Bits.{bit_and-ones}
use sbunix_public.Idt.{Gate, Idt, idt_set_gate, set_gates, empty_gate, idt_install, init_idt}

-- The address that an interrupt through a gate goes to.
abbrev pub target : Gate → ℕ
target g = g.low_offset + g.mid_offset * 2 ^ 16 + g.high_offset * 2 ^ 32

-- An interrupt gate of the kernel's code segment, for the type byte and the address given.
pub record IsGate (g : Gate) (type address : ℕ) : Type 0 where
  pub goes : target g ≡ address
  pub segment : g.selector ≡ 0x08
  pub stack : g.ist ≡ 0
  pub kind : g.type ≡ type
  pub rest : g.zero_word ≡ 0

-- The gate that a call sets, and those that it leaves.
idt_set_gate-IsGate :
    (index address type i : ℕ) (idt : ℕ → Gate)
    → address < 2 ^ 64
    → type < 256
    → i ≡ index
    → IsGate (idt_set_gate index address 0x08 0 type 0 1 idt i) type address
unfolding idt_set_gate
idt_set_gate-IsGate index address type i idt h t at =
    let low = bit_and-ones 16 address in
    let mid = bit_and-ones 16 (address / 2 ^ 16) in
    let high = bit_and-ones 32 (address / 2 ^ 32) in
    rw (eq→== i index at) (record {
      goes = omega (arith, low, mid, high);
      segment = refl;
      stack = refl;
      kind = omega arith;
      rest = refl;
    })

idt_set_gate_other :
    (index address type i : ℕ) (idt : ℕ → Gate)
    → i ≢ index
    → idt_set_gate index address 0x08 0 type 0 1 idt i ≡ idt i
unfolding idt_set_gate
idt_set_gate_other index address type i idt ne = rw (ne→== i index ne) refl

module _ (handler : ℕ → ℕ) (first : ℕ) (idt : ℕ → Gate) where
  set_gates-IsGate :
      (count k : ℕ)
      → ((j : ℕ) → handler j < 2 ^ 64)
      → k < count
      → IsGate (set_gates handler first count idt (first + k)) 0x8e (handler k)
  unfolding set_gates
  set_gates-IsGate zero k fits h = absurd (omega arith)
  set_gates-IsGate (suc count) k fits h =
      let before = set_gates handler first count idt in
      elim (Bool-cases (k == count)) [
        | inl e ↦
            let at : k ≡ count = (==_iff k count).0 e in
            rw at (
              idt_set_gate-IsGate (first + count) (handler count) 0x8e (first + count) before
                (fits count) (omega arith) refl)
        | inr n ↦
            let ne : k ≢ count = ground arith in
            rw
              (idt_set_gate_other (first + count) (handler count) 0x8e (first + k) before
                (omega arith))
              (set_gates-IsGate count k fits (omega arith))
      ]

  set_gates_other :
      (count i : ℕ)
      → (i < first) ⊎ (first + count ≤ i)
      → set_gates handler first count idt i ≡ idt i
  unfolding set_gates
  set_gates_other zero i h = refl
  set_gates_other (suc count) i h =
      idt_set_gate_other (first + count) (handler count) 0x8e i (set_gates handler first count idt)
        (omega arith)
      ∙ set_gates_other count i (omega arith)

-- After `idt_install` and `init_idt` the exceptions 0 to 31, the device interrupts 32 to 47 and the
-- system call 128 each go to their entry point in the kernel's code segment, whatever 64-bit
-- addresses these have. Only the gate of the system call may be used from user mode (its type byte is
-- 0xee and not 0x8e), and every other gate is not present. The table register holds the table.
pub init_idt_lem :
    (isr irq : ℕ → ℕ) (irq128 address : ℕ) (s : Idt)
    → ((j : ℕ) → isr j < 2 ^ 64)
    → ((j : ℕ) → irq j < 2 ^ 64)
    → irq128 < 2 ^ 64
    → (let t = init_idt irq irq128 (idt_install isr address s) in
        ((j : ℕ) → j < 32 → IsGate (t.idt j) 0x8e (isr j))
        × ((j : ℕ) → j < 16 → IsGate (t.idt (32 + j)) 0x8e (irq j))
        × IsGate (t.idt 128) 0xee irq128
        × ((i : ℕ) → 48 ≤ i → i ≢ 128 → t.idt i ≡ empty_gate)
        × (t.loaded ≡ (4096, address) ∷ s.loaded))
unfolding init_idt idt_install
init_idt_lem isr irq irq128 address s fits fits' fit =
    let exceptions = set_gates isr 0 32 (λ _. empty_gate) in
    let devices = set_gates irq 32 16 exceptions in
    (
      λ j h.
          let e : 0 + j ≡ j = omega arith in
          rw
            (
              idt_set_gate_other 128 irq128 0xee j devices (omega arith),
              set_gates_other irq 32 exceptions 16 j (inl h),
            )
            (coe 0 1 (x. IsGate (set_gates isr 0 32 (λ _. empty_gate) (e x)) 0x8e (isr j))
              (set_gates-IsGate isr 0 (λ _. empty_gate) 32 j fits h)),
      λ j h.
          rw (idt_set_gate_other 128 irq128 0xee (32 + j) devices (omega arith))
            (set_gates-IsGate irq 32 exceptions 16 j fits' h),
      idt_set_gate-IsGate 128 irq128 0xee 128 devices fit (omega arith) refl,
      λ i h ne.
          idt_set_gate_other 128 irq128 0xee i devices ne
          ∙ set_gates_other irq 32 exceptions 16 i (inr h)
          ∙ set_gates_other isr 0 (λ _. empty_gate) 32 i (inr (omega arith)),
      refl,
    )
