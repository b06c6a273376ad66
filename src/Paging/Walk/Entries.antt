-- ===== src/Paging/Walk/Entries.antt =====
-- Entries that refer to tables, and where the recursive slot shows them.
use Prim.Native.Nat.{bit_or}
use sbunix_public.Base.{
  ℕ, ◌+◌, ◌*◌, ◌/◌, ◌%◌, ◌^◌, ◌<◌, ◌≡◌, ◌≢◌, arith, ap, ◌∙◌, Option, some, refl,
}
use sbunix_public.Base.Bits.{bit_or-add}
use sbunix_public.Memory.{Memory, store}
use sbunix_public.Paging.Address.{is_valid_page}
use sbunix_public.Paging.Address.Laws.{is_valid_page_iff}
use sbunix_public.Paging.Walk.{pml4_rec_addr, pdpe_rec_addr, pgd_rec_addr, pte_rec_addr}
use sbunix_public.Paging.Walk.Mmu.{
  pml4_index, pdpe_index, pgd_index, pte_index, frame, IsEntry, IsX86,
}
use sbunix_public.Paging.Walk.Recursive.{
  pml4_rec_addr_lem, pdpe_rec_addr_lem, pgd_rec_addr_lem, pte_rec_addr_lem,
}

-- The word at `a` is an entry for page `t`.
pub record Refers (m : Memory) (a t : ℕ) : Type 0 where
  pub entry : IsEntry (m a)
  pub to : frame (m a) ≡ t

-- A page that an entry can refer to.
pub record IsTable (t : ℕ) : Type 0 where
  pub aligned : t % 4096 ≡ 0
  pub size : t < 2 ^ 52

-- The flags of an entry: present and writable, and below the bits of the address.
pub record IsFlags (flags : ℕ) : Type 0 where
  pub valid : flags % 4 ≡ 3
  pub low : flags < 128

pub Refers-valid : (m : Memory) (a t : ℕ) → Refers m a t → is_valid_page (m a) ≡ 1
Refers-valid m a t r = (is_valid_page_iff (m a)).1 r.entry.flags

pub Refers-store_self :
    (m : Memory) (a t flags : ℕ)
    → IsTable t
    → IsFlags flags
    → Refers (store m a (bit_or t flags)) a t
unfolding store
Refers-store_self m a t flags h f =
    let e : t / 4096 * 2 ^ 12 ≡ t = omega (arith, h.aligned) in
    let sum : bit_or t flags ≡ t + flags =
      rw e at (bit_or-add 12 (t / 4096) flags (omega (arith, f.low))) in
    let word : store m a (bit_or t flags) a ≡ t + flags = ground arith in
    record {
      entry = record {
        flags = omega (arith, word, h.aligned, f.valid);
        size = omega (arith, word, h.aligned, h.size, f.low);
        small = omega (arith, word, h.aligned, f.low);
      };
      to = omega (arith, word, h.aligned, f.low);
    }

pub Refers-store_ne : (m : Memory) (a b t x : ℕ) → a ≢ b → Refers m a t → Refers (store m b x) a t
unfolding store
Refers-store_ne m a b t x ne r =
    let same : store m b x a ≡ m a = ground arith in
    record { entry = rw same r.entry; to = rw same r.to }

module _ (translate : Memory → ℕ → ℕ → Option ℕ) (x86 : IsX86 translate) where
  -- The law of the processor, for entries that are known by what they refer to.
  pub translate-Refers :
      (m : Memory) (cr3 w t3 t2 t1 page : ℕ)
      → Refers m (cr3 + 8 * pml4_index w) t3
      → Refers m (t3 + 8 * pdpe_index w) t2
      → Refers m (t2 + 8 * pgd_index w) t1
      → Refers m (t1 + 8 * pte_index w) page
      → translate m cr3 w ≡ some (page + w % 4096)
  translate-Refers m cr3 w t3 t2 t1 page r4 r3 r2 r1 =
      let a3 : frame (m (cr3 + 8 * pml4_index w)) ≡ t3 = r4.to in
      let a2 : frame (m (t3 + 8 * pdpe_index w)) ≡ t2 = r3.to in
      let a1 : frame (m (t2 + 8 * pgd_index w)) ≡ t1 = r2.to in
      x86 m cr3 w (m (cr3 + 8 * pml4_index w)) (m (t3 + 8 * pdpe_index w))
        (m (t2 + 8 * pgd_index w)) (m (t1 + 8 * pte_index w)) refl r4.entry
        (ap (λ (t : ℕ). m (t + 8 * pdpe_index w)) a3) r3.entry
        (ap (λ (t : ℕ). m (t + 8 * pgd_index w)) a2) r2.entry
        (ap (λ (t : ℕ). m (t + 8 * pte_index w)) a1) r1.entry
      ∙ ap (λ (t : ℕ). some (t + w % 4096)) r1.to

  module _ (m : Memory) (cr3 : ℕ) (self : Refers m (cr3 + 8 * 510) cr3) (v : ℕ) where
    moved : {a b t : ℕ} → a ≡ b → Refers m a t → Refers m b t
    moved e r = record { entry = rw e at r.entry; to = rw e at r.to }

    -- Each recursive address leads to the entry of its table.
    pub translate-pml4_rec_addr : translate m cr3 (pml4_rec_addr v) ≡ some (cr3 + 8 * pml4_index v)
    translate-pml4_rec_addr =
        let w = pml4_rec_addr v in
        translate-Refers m cr3 w cr3 cr3 cr3 cr3 (moved (omega (arith, pml4_rec_addr_lem v)) self)
          (moved (omega (arith, pml4_rec_addr_lem v)) self)
          (moved (omega (arith, pml4_rec_addr_lem v)) self)
          (moved (omega (arith, pml4_rec_addr_lem v)) self)
        ∙ ap some (omega (arith, pml4_rec_addr_lem v))

    pub translate-pdpe_rec_addr :
        (t3 : ℕ)
        → Refers m (cr3 + 8 * pml4_index v) t3
        → translate m cr3 (pdpe_rec_addr v) ≡ some (t3 + 8 * pdpe_index v)
    translate-pdpe_rec_addr t3 r4 =
        let w = pdpe_rec_addr v in
        translate-Refers m cr3 w cr3 cr3 cr3 t3 (moved (omega (arith, pdpe_rec_addr_lem v)) self)
          (moved (omega (arith, pdpe_rec_addr_lem v)) self)
          (moved (omega (arith, pdpe_rec_addr_lem v)) self)
          (moved (omega (arith, pdpe_rec_addr_lem v)) r4)
        ∙ ap some (omega (arith, pdpe_rec_addr_lem v))

    pub translate-pgd_rec_addr :
        (t3 t2 : ℕ)
        → Refers m (cr3 + 8 * pml4_index v) t3
        → Refers m (t3 + 8 * pdpe_index v) t2
        → translate m cr3 (pgd_rec_addr v) ≡ some (t2 + 8 * pgd_index v)
    translate-pgd_rec_addr t3 t2 r4 r3 =
        let w = pgd_rec_addr v in
        translate-Refers m cr3 w cr3 cr3 t3 t2 (moved (omega (arith, pgd_rec_addr_lem v)) self)
          (moved (omega (arith, pgd_rec_addr_lem v)) self)
          (moved (omega (arith, pgd_rec_addr_lem v)) r4)
          (moved (omega (arith, pgd_rec_addr_lem v)) r3)
        ∙ ap some (omega (arith, pgd_rec_addr_lem v))

    pub translate-pte_rec_addr :
        (t3 t2 t1 : ℕ)
        → Refers m (cr3 + 8 * pml4_index v) t3
        → Refers m (t3 + 8 * pdpe_index v) t2
        → Refers m (t2 + 8 * pgd_index v) t1
        → translate m cr3 (pte_rec_addr v) ≡ some (t1 + 8 * pte_index v)
    translate-pte_rec_addr t3 t2 t1 r4 r3 r2 =
        let w = pte_rec_addr v in
        translate-Refers m cr3 w cr3 t3 t2 t1 (moved (omega (arith, pte_rec_addr_lem v)) self)
          (moved (omega (arith, pte_rec_addr_lem v)) r4)
          (moved (omega (arith, pte_rec_addr_lem v)) r3)
          (moved (omega (arith, pte_rec_addr_lem v)) r2)
        ∙ ap some (omega (arith, pte_rec_addr_lem v))
