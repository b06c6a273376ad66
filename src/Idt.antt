-- ===== src/Idt.antt =====
-- The interrupt descriptor table of sys/idt.c and include/sys/idt.h. The entry points of the
-- interrupts are assembly: `isr` and `irq` are their addresses, by number.
pub mod Gates
mod Tests
use Prim.Native.Nat.{bit_and}
use sbunix_public.Base.{
  ℕ, zero, suc, ◌+◌, ◌*◌, ◌/◌, ◌%◌, ◌^◌, ◌==◌, if◌then◌else◌, List, [], ◌∷◌, ◌++◌,
}

-- struct idt_t
pub record Gate : Type 0 where
  pub low_offset : ℕ
  pub selector : ℕ
  pub ist : ℕ
  pub type : ℕ
  pub mid_offset : ℕ
  pub high_offset : ℕ
  pub zero_word : ℕ

-- The 256 gates, the table register (none before it is loaded), and the port writes in their order.
pub record Idt : Type 0 where
  pub idt : ℕ → Gate
  pub limit : ℕ
  pub base : ℕ
  pub loaded : List (ℕ × ℕ)
  pub outs : List (ℕ × ℕ)

pub idt_set_gate : (index offset selector ist type dpl p : ℕ) → (ℕ → Gate) → ℕ → Gate
idt_set_gate index offset selector ist type dpl p idt i =
    if i == index
    then record {
      low_offset = bit_and offset 0xffff;
      selector = selector % 2 ^ 16;
      ist = ist % 2 ^ 8;
      type = type % 2 ^ 8;
      mid_offset = bit_and (offset / 2 ^ 16) 0xffff;
      high_offset = bit_and (offset / 2 ^ 32) 0xffff_ffff;
      zero_word = 0;
    }
    else idt i

-- The calls of `idt_set_gate` for `count` vectors from `first` on, the last one outermost.
pub set_gates : (ℕ → ℕ) → (first count : ℕ) → (ℕ → Gate) → ℕ → Gate
set_gates handler first zero idt = idt
set_gates handler first (suc count) idt =
    idt_set_gate (first + count) (handler count) 0x08 0 0x8e 0 1 (set_gates handler first count idt)

abbrev pub empty_gate : Gate
empty_gate = record {
  low_offset = 0;
  selector = 0;
  ist = 0;
  type = 0;
  mid_offset = 0;
  high_offset = 0;
  zero_word = 0;
}

-- sizeof(struct idt_t) * 256
abbrev pub idt_size : ℕ
idt_size = 16 * 256

-- The table stands at `address`; all of its bytes are cleared first.
pub idt_install : (isr : ℕ → ℕ) → (address : ℕ) → Idt → Idt
idt_install isr address s = record s {
  limit = idt_size;
  base = address;
  idt = set_gates isr 0 32 (λ _. empty_gate);
  loaded = (idt_size, address) ∷ s.loaded;
}

abbrev pub remap : List (ℕ × ℕ)
remap =
    (0x20, 0x11)
    ∷ (0xa0, 0x11)
    ∷ (0x21, 0x20)
    ∷ (0xa1, 0x28)
    ∷ (0x21, 0x04)
    ∷ (0xa1, 0x02)
    ∷ (0x21, 0x01)
    ∷ (0xa1, 0x01)
    ∷ (0x21, 0x0)
    ∷ (0xa1, 0x0)
    ∷ []

pub init_idt : (irq : ℕ → ℕ) → (irq128 : ℕ) → Idt → Idt
init_idt irq irq128 s = record s {
  idt = idt_set_gate 128 irq128 0x08 0 0xee 0 1 (set_gates irq 32 16 s.idt);
  outs = s.outs ++ remap;
}
