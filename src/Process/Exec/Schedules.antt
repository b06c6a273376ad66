-- ===== src/Process/Exec/Schedules.antt =====
-- What `exec_new_binary` of sys/task.c does with a file, and without one.
use sbunix_public.Base.{
  ==_iff, Bool-cases, ℕ, ◌<◌, ◌≡◌, ◌≢◌, refl, sym, ◌∙◌, ◌==◌, if◌then◌else◌, ok, fault, List, inl,
  inr,
}
use mathlib.Core.Bool.{false≢true}
use sbunix_public.Schedule.Queue.{Queue}
use sbunix_public.Elf.{read_ehdr, phdr_at, pt_load, validate_elf_header}
use sbunix_public.Elf.Tables.{check_elf_loadable_lem}
use sbunix_public.Tarfs.{get_elf}
use sbunix_public.Process.{Paging, World}
use sbunix_public.Process.Areas.{area as one_area}
use sbunix_public.Process.Exec.{seen, exec_new_binary}

module _ {S : Type 0} (paging : Paging S) where
  -- `exec_new_binary` answers 0 and changes nothing when the archive has no such file, and it faults
  -- when the file has no segment of type PT_LOAD.
  pub exec_new_binary_refuses :
      (irq0 fuel strings start last elf p v : ℕ) (filename : List ℕ) (w : World S)
      → get_elf fuel strings (seen paging w) start last filename ≡ ok p
      → (p ≢ 0 → validate_elf_header fuel elf p (seen paging w) ≡ ok v)
      → (p ≢ 0
          → (j : ℕ) → j < (read_ehdr (seen paging w) p).e_phnum
          → (phdr_at (seen paging w) p j).p_type ≢ pt_load)
      → exec_new_binary paging irq0 fuel strings start last elf filename w
        ≡ (if p == 0 then ok (0, w) else fault)
  unfolding exec_new_binary
  exec_new_binary_refuses irq0 fuel strings start last elf p v filename w found valid no_load =
      elim (Bool-cases (p == 0)) [
        | inl e ↦ rw (found, e) refl
        | inr e ↦
            let live = λ (q : p ≡ 0). false≢true (sym e ∙ (==_iff p 0).1 q) in
            let ok_header = valid live in
            elim (check_elf_loadable_lem (seen paging w) p) [
              | inl (j, lt, load, _) ↦ absurd (no_load live j lt load)
              | inr (_, not_loadable) ↦ rw (found, e, ok_header, not_loadable) refl
            ]
      ]
