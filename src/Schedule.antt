-- ===== src/Schedule.antt =====
-- The processes of include/sys/task.h, the queues of sys/schedule.c and the timer of sys/isr.c.
-- Process structures stand in a store, by address; a queue is threaded through their `next` fields,
-- so a process can be reached from the queue and from the globals at once. The walk to the end of
-- a queue takes fuel.
pub mod Queue
pub mod Old
pub mod Ready
pub mod Timer
pub mod Fair
mod Tests
use sbunix_public.Base.{
  ℕ, zero, suc, ◌+◌, ◌-◌, ◌*◌, ◌/◌, ◌%◌, ◌^◌, Run, ok, fault, out_of_fuel, ◌>>=◌, ◌==◌,
  if◌then◌else◌, List, [], ◌∷◌,
}
use sbunix_public.Memory.{Memory, store, add64}

pub data RunState : Type 0 where
  running sleeping zombie idle : RunState

pub data ProcessType : Type 0 where
  user kernel : ProcessType

-- `kstack` is the array of 512 words at the start of the structure.
pub record Pcb : Type 0 where
  pub kstack : Memory
  pub pstack : ℕ
  pub pid : ℕ
  pub rsp : ℕ
  pub cr3 : ℕ
  pub mm : ℕ
  pub state : RunState
  pub exit_status : ℕ
  pub next : ℕ
  pub e_entry : ℕ
  pub time_remaining : ℕ
  pub process_type : ProcessType

abbrev pub Store : Type 0
Store = ℕ → Pcb

unfoldable pub write : Store → ℕ → Pcb → Store
write f a c b = if b == a then c else f b

-- The globals of schedule.h and isr.h, the registers that a switch loads, and the port writes, the
-- last one first. 0 is NULL.
pub record Sched : Type 0 where
  pub pcb : Store
  pub ready_processes : ℕ
  pub sleeping_processes : ℕ
  pub idle_process : ℕ
  pub currently_running_process : ℕ
  pub pid_count : ℕ
  pub timer_ticks : ℕ
  pub first_schedule : ℕ
  pub rsp : ℕ
  pub cr3 : ℕ
  pub tss_rsp0 : ℕ
  pub outs : List (ℕ × ℕ)

pub scheduler_init : Sched → Sched
scheduler_init s = record s {
  ready_processes = 0;
  sleeping_processes = 0;
  idle_process = 0;
  currently_running_process = 0;
  pid_count = 0;
}

-- `p->next = q`
pub set_next : Store → ℕ → ℕ → Store
unfolding write
set_next f p q = write f p (record (f p) { next = q })

-- `while (temp->next != NULL) temp = temp->next;`
pub last_process : ℕ → Store → ℕ → Run ℕ
last_process zero f temp = out_of_fuel
last_process (suc fuel) f temp =
    let rest = last_process fuel f (f temp).next in if (f temp).next == 0 then ok temp else rest

-- `process` behind the queue at `head`, with the new head.
pub append_process : ℕ → Store → ℕ → ℕ → Run (Store × ℕ)
append_process fuel f head process =
    if head == 0
    then ok (set_next f process 0, process)
    else (last_process fuel f head >>= λ temp.
        ok (set_next (set_next f temp process) process 0, head))

pub add_ready_process : ℕ → ℕ → Sched → Run Sched
add_ready_process fuel process s =
    append_process fuel s.pcb s.ready_processes process >>= λ (f, head).
    ok (record s { pcb = f; ready_processes = head })

pub add_sleeping_process : ℕ → ℕ → Sched → Run Sched
add_sleeping_process fuel process s =
    append_process fuel s.pcb s.sleeping_processes process >>= λ (f, head).
    ok (record s { pcb = f; sleeping_processes = head })

-- `&process->kstack[i]`
abbrev pub kstack_at : ℕ → ℕ → ℕ
kstack_at process i = process + 8 * i

-- The words that `iretq` takes from the top of a process's own stack, and the return address of the
-- interrupt stub below the fifteen registers.
pub frame : ℕ → (ss rsp cs rip resume : ℕ) → Pcb → Pcb
unfolding store
frame process ss rsp cs rip resume p = record p {
  kstack =
      store
        (store (store (store (store (store p.kstack 511 ss) 510 rsp) 509 0x20_0202) 508 cs) 507 rip)
        (507 - 16) resume;
  rsp = kstack_at process (507 - 17);
}

module _ (irq0 : ℕ) where
  pub schedule_idle_process : ℕ → ℕ → Sched → Sched
  schedule_idle_process process function_pointer s =
      let p =
        frame process 0x10 (kstack_at process 511) 0x08 function_pointer (add64 irq0 0x1b)
          (s.pcb process) in
      record s {
        pcb =
            write s.pcb process
              (record p { process_type = kernel; state = idle; pid = s.pid_count });
        pid_count = add64 s.pid_count 1;
        idle_process = process;
      }

  pub schedule_ready_process : ℕ → ℕ → ℕ → Sched → Run Sched
  schedule_ready_process fuel process function_pointer s =
      let p =
        frame process 0x23 (kstack_at process 511) 0x2b function_pointer (add64 irq0 0x20)
          (s.pcb process) in
      add_ready_process fuel process (record s {
        pcb =
            write s.pcb process
              (record p { process_type = user; state = running; pid = s.pid_count });
        pid_count = add64 s.pid_count 1;
      })

  pub schedule_user_process : ℕ → ℕ → Sched → Run Sched
  schedule_user_process fuel process s =
      let old = s.pcb process in
      let p = frame process 0x23 old.pstack 0x2b old.e_entry (add64 irq0 0x20) old in
      add_ready_process fuel process (record s {
        pcb =
            write s.pcb process
              (record p { process_type = user; state = running; pid = s.pid_count });
        pid_count = add64 s.pid_count 1;
      })

-- sys/isr.c

pub get_next_ready_process : Sched → ℕ × Sched
get_next_ready_process s =
    let temp = s.ready_processes in
    if temp == 0 then (0, s) else (temp, record s { ready_processes = (s.pcb temp).next })

-- The process goes behind the queue when its time is up, and in front of it before.
pub schedule_old_process : ℕ → ℕ → Sched → Run Sched
unfolding write
schedule_old_process fuel process s =
    let p = s.pcb process in
    let time = if p.time_remaining == 0 then 0 else p.time_remaining - 1 in
    let f = write s.pcb process (record p { time_remaining = 3; next = 0 }) in
    let g = write s.pcb process (record p { time_remaining = time; next = s.ready_processes }) in
    if time == 0
    then (if s.ready_processes == 0
        then ok (record s { pcb = f; ready_processes = process })
        else (last_process fuel f s.ready_processes >>= λ temp.
            ok (record s { pcb = set_next f temp process })))
    else ok (record s { pcb = g; ready_processes = process })

-- `cr3` and `rsp` of the process, and the kernel stack of a user process.
pub load_process : ℕ → Sched → Sched
load_process process s =
    let p = s.pcb process in
    let t = record s { currently_running_process = process; cr3 = p.cr3; rsp = p.rsp } in
    elim p.process_type [ user ↦ record t { tss_rsp0 = kstack_at process 511 } | kernel ↦ t ]

-- The running process, with the stack pointer that it had, goes back into the queue.
pub put_back : ℕ → Sched → Run Sched
unfolding write
put_back fuel s =
    let current = s.currently_running_process in
    if current == 0
    then ok s
    else schedule_old_process fuel current
        (record s { pcb = write s.pcb current (record (s.pcb current) { rsp = s.rsp }) })

-- The idle process, without its stack pointer for interrupts.
pub run_idle : Sched → Run Sched
run_idle s =
    let p = s.pcb s.idle_process in
    let t = record s { currently_running_process = s.idle_process; cr3 = p.cr3; rsp = p.rsp } in
    if s.idle_process == 0 then fault else ok t

switch : ℕ → Sched → Run Sched
unfolding load_process put_back run_idle write
switch fuel s =
    if s.first_schedule == 1
    then run_idle (record s { first_schedule = 0 })
    else (let (process, t) = get_next_ready_process s in
        if process == 0
        then (put_back fuel t >>= λ u.
            let p = u.pcb u.idle_process in
            run_idle
              (record u { pcb = write u.pcb u.idle_process (record p { time_remaining = 3 }) }))
        else (put_back fuel t >>= λ u. ok (load_process process u)))

-- The timer counts down from a 16-bit divisor, whose bytes are written one after the other; the
-- division by 0 is a fault.
pub timer_phase : ℕ → Sched → Run Sched
timer_phase frequency s =
    let divisor = 1193180 / frequency in
    if frequency == 0
    then fault
    else ok (record s {
      outs = (0x40, divisor / 256 % 256) ∷ (0x40, divisor % 256) ∷ (0x43, 0x36) ∷ s.outs;
      timer_ticks = 0;
      first_schedule = 1;
    })

-- `outb(0x20, 0x20)`
reset_signal : Sched → Sched
reset_signal s = record s { outs = (0x20, 0x20) ∷ s.outs }

pub generate_timer : ℕ → Sched → Run Sched
unfolding switch reset_signal
generate_timer fuel s =
    let ticks = s.timer_ticks + 1 in
    if ticks == 180
    then (switch fuel (record s { timer_ticks = 0 }) >>= λ t. ok (reset_signal t))
    else ok (reset_signal (record s { timer_ticks = ticks }))
