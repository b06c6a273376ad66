-- ===== src/Isr.antt =====
-- The handlers of sys/isr.c that the interrupt stubs call: `syscall_handler`, `fault_handler` and
-- `irq_handler`. What they have others do is a list of actions, in their order.
pub mod Acknowledge
mod Tests
use sbunix_public.Base.{
  ℕ, ◌+◌, Run, ok, ◌>>=◌, ltb, leb, ◌==◌, if◌then◌else◌, List, [], ◌∷◌, ◌++◌, Bool,
}
use sbunix_public.Keyboard.{Keyboard, keyboard_interrupt}

-- The fields of `registers` that the handlers read.
pub record Registers : Type 0 where
  pub rax : ℕ
  pub rdi : ℕ
  pub int_no : ℕ

pub data Action : Type 0 where
  -- `kprintf("%s", address)`
  print_string : ℕ → Action
  -- `kprintf` of a message of the handler
  print_message : Action
  -- `getstring(address)`
  read_line : ℕ → Action
  -- `exec_new_binary("bin/ls")`
  exec_ls : Action
  page_fault : Action
  -- `for (;;);`
  halt : Action
  outb : ℕ → ℕ → Action

abbrev pub acknowledge : Action
acknowledge = outb 0x20 0x20

-- `is_ls` says whether the string at an address is "ls".
pub syscall_handler : (is_ls : ℕ → Bool) → Registers → List Action
syscall_handler is_ls r =
    let syscall_no = r.rax in
    let work =
      if syscall_no == 1
      then print_string r.rdi ∷ []
      else (if syscall_no == 2
          then read_line r.rdi ∷ []
          else (if syscall_no == 3
              then print_message ∷ (if is_ls r.rdi then exec_ls ∷ [] else [])
              else (if syscall_no == 5 then print_message ∷ [] else []))) in
    work ++ (acknowledge ∷ [])

-- Nothing follows a halt. For interrupt 13 the address in CR2 is printed too.
pub fault_handler : Registers → List Action
fault_handler r =
    let stop =
      if r.int_no == 13
      then print_message ∷ print_message ∷ print_message ∷ halt ∷ []
      else print_message ∷ print_message ∷ halt ∷ [] in
    print_message
    ∷ (if r.int_no == 14
        then page_fault ∷ acknowledge ∷ []
        else (if ltb r.int_no 32 then stop else acknowledge ∷ []))

-- The port writes of the handler stand with those of the keyboard, the last first; `key` is what the
-- keyboard's port holds.
pub send : (port value : ℕ) → Keyboard → Keyboard
send port value s = record s { outs = (port, value) ∷ s.outs }

pub irq_handler : (key : ℕ) → Registers → Keyboard → Run Keyboard
irq_handler key r s =
    let slave = if leb 40 r.int_no then send 0xa0 0x20 s else s in
    if r.int_no == 32
    then ok (send 0x20 0x20 s)
    else ((if r.int_no == 33 then keyboard_interrupt key slave else ok slave) >>= λ t.
        ok (send 0x20 0x20 t))
