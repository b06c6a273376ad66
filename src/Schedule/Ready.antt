-- ===== src/Schedule/Ready.antt =====
-- sys/schedule.c: a process made ready stands at the end of the queue, with the stack that an
-- interrupt return takes it up from.
use sbunix_public.Base.{
  ◌∙◌, ap, ℕ, ◌+◌, ◌*◌, ◌<◌, ◌≡◌, ◌≢◌, refl, false, ok, List, [], ◌∷◌, ◌++◌, length,
}
use sbunix_public.Memory.{add64}
use sbunix_public.Schedule.{
  schedule_ready_process, write, schedule_user_process, Pcb, Store, Sched, frame, running, user,
  add_ready_process, add_sleeping_process,
}
use sbunix_public.Schedule.Queue.{
  write_ne, write_self, Queue-write, has, Distinct, Queue, contents, append_process_lem,
}

module _ (s : Sched) (xs : List ℕ) (fuel process : ℕ) where
  -- `add_ready_process` puts a process that is not in the ready queue at its end: the walk finds the
  -- end with more rounds than there are processes, only the head of the queue and `next` fields are
  -- written, and the queue then is the old one with the process behind.
  pub add_ready_process_append :
      Queue s.pcb s.ready_processes xs
      → Distinct xs
      → has process xs ≡ false
      → process ≢ 0
      → length xs < fuel
      → (g : Store) × (head : ℕ) × (add_ready_process fuel process s
          ≡ ok (record s { pcb = g; ready_processes = head }))
        × Queue g head (xs ++ (process ∷ []))
        × ((a : ℕ) → contents (g a) ≡ contents (s.pcb a))
  unfolding add_ready_process
  add_ready_process_append h d out ne enough =
      let (g, head, run, q, same) =
        append_process_lem xs fuel s.pcb s.ready_processes process h d out ne enough in
      (g, head, rw run, q, same)

  -- `add_sleeping_process` does the same with the sleeping queue.
  pub add_sleeping_process_append :
      Queue s.pcb s.sleeping_processes xs
      → Distinct xs
      → has process xs ≡ false
      → process ≢ 0
      → length xs < fuel
      → (g : Store) × (head : ℕ) × (add_sleeping_process fuel process s
          ≡ ok (record s { pcb = g; sleeping_processes = head }))
        × Queue g head (xs ++ (process ∷ []))
        × ((a : ℕ) → contents (g a) ≡ contents (s.pcb a))
  unfolding add_sleeping_process
  add_sleeping_process_append h d out ne enough =
      let (g, head, run, q, same) =
        append_process_lem xs fuel s.pcb s.sleeping_processes process h d out ne enough in
      (g, head, rw run, q, same)

-- The words that the interrupt stub and `iretq` take from the kernel stack of a process.
pub record IsFrame (process ss rsp cs rip resume : ℕ) (p : Pcb) : Type 0 where
  pub ss_at : p.kstack 511 ≡ ss
  pub rsp_at : p.kstack 510 ≡ rsp
  pub flags_at : p.kstack 509 ≡ 0x20_0202
  pub cs_at : p.kstack 508 ≡ cs
  pub rip_at : p.kstack 507 ≡ rip
  pub resume_at : p.kstack 491 ≡ resume
  pub stack : p.rsp ≡ process + 8 * 490

frame-IsFrame :
    (process ss rsp cs rip resume : ℕ) (p : Pcb)
    → IsFrame process ss rsp cs rip resume (frame process ss rsp cs rip resume p)
unfolding frame
frame-IsFrame process ss rsp cs rip resume p = record {
  ss_at = refl;
  rsp_at = refl;
  flags_at = refl;
  cs_at = refl;
  rip_at = refl;
  resume_at = refl;
  stack = refl;
}

-- A process made ready: number, state, kind and stack, and its place at the end of the queue.
pub record IsScheduled (s : Sched) (xs : List ℕ) (process rsp rip resume : ℕ) (t : Sched)
    : Type 0 where
  pub queue : Queue t.pcb t.ready_processes (xs ++ (process ∷ []))
  pub stack : IsFrame process 0x23 rsp 0x2b rip resume (t.pcb process)
  pub pid : (t.pcb process).pid ≡ s.pid_count
  pub running : (t.pcb process).state ≡ running
  pub user : (t.pcb process).process_type ≡ user
  pub count : t.pid_count ≡ add64 s.pid_count 1
  pub others : (a : ℕ) → a ≢ process → contents (t.pcb a) ≡ contents (s.pcb a)

-- What a process is before it is put into the queue: framed and numbered.
abbrev numbered : Sched → ℕ → Pcb → Sched
numbered s process p = record s {
  pcb = write s.pcb process (record p { process_type = user; state = running; pid = s.pid_count });
  pid_count = add64 s.pid_count 1;
}

IsFrame-contents :
    (process ss rsp cs rip resume : ℕ) (p q : Pcb)
    → contents p ≡ contents q
    → IsFrame process ss rsp cs rip resume q
    → IsFrame process ss rsp cs rip resume p
IsFrame-contents process ss rsp cs rip resume p q e f =
    let kept : p.kstack ≡ q.kstack = ap (λ (c : Pcb). c.kstack) e in
    let sp : p.rsp ≡ q.rsp = ap (λ (c : Pcb). c.rsp) e in
    record {
      ss_at = rw kept f.ss_at;
      rsp_at = rw kept f.rsp_at;
      flags_at = rw kept f.flags_at;
      cs_at = rw kept f.cs_at;
      rip_at = rw kept f.rip_at;
      resume_at = rw kept f.resume_at;
      stack = rw sp f.stack;
    }

module _ (s : Sched) (xs : List ℕ) (fuel process : ℕ) (h : Queue s.pcb s.ready_processes xs)
    (d : Distinct xs) (out : has process xs ≡ false) (ne : process ≢ 0)
    (enough : length xs < fuel) where
  numbered-IsScheduled :
      (rsp rip resume : ℕ) (p : Pcb)
      → IsFrame process 0x23 rsp 0x2b rip resume p
      → (t : Sched) × (add_ready_process fuel process (numbered s process p) ≡ ok t)
        × IsScheduled s xs process rsp rip resume t
  numbered-IsScheduled rsp rip resume p f =
      let c = record p { process_type = user; state = running; pid = s.pid_count } in
      let q = Queue-write xs s.pcb s.ready_processes process c out h in
      let (g, head, run, queue, same) =
        add_ready_process_append (numbered s process p) xs fuel process q d out ne enough in
      let own : contents (g process) ≡ contents c =
        same process ∙ ap contents (write_self s.pcb process c) in
      (
        record (numbered s process p) { pcb = g; ready_processes = head },
        run,
        record {
          queue = queue;
          stack = IsFrame-contents process 0x23 rsp 0x2b rip resume (g process) c own (record {
            ss_at = f.ss_at;
            rsp_at = f.rsp_at;
            flags_at = f.flags_at;
            cs_at = f.cs_at;
            rip_at = f.rip_at;
            resume_at = f.resume_at;
            stack = f.stack;
          });
          pid = ap (λ (r : Pcb). r.pid) own;
          running = ap (λ (r : Pcb). r.state) own;
          user = ap (λ (r : Pcb). r.process_type) own;
          count = refl;
          others = λ a n. same a ∙ ap contents (write_ne s.pcb process a c n);
        },
      )

-- `schedule_user_process` and `schedule_ready_process` number the process with `pid_count`, count
-- it, and put it at the end of the ready queue as a running user process. Its kernel stack returns
-- to user mode: for the first at the entry point of the program, on the stack of the process, and for
-- the second at the given function, on the top of the kernel stack itself. No other process changes
-- but in its `next` field.
pub schedule_process_lem :
    (irq0 : ℕ) (s : Sched) (xs : List ℕ) (fuel process function_pointer : ℕ)
    → Queue s.pcb s.ready_processes xs
    → Distinct xs
    → has process xs ≡ false
    → process ≢ 0
    → length xs < fuel
    → ((t : Sched) × (schedule_user_process irq0 fuel process s ≡ ok t)
        × IsScheduled s xs process
            (s.pcb process).pstack
            (s.pcb process).e_entry
            (add64 irq0 0x20)
            t)
      × ((t : Sched) × (schedule_ready_process irq0 fuel process function_pointer s ≡ ok t)
          × IsScheduled s xs process (process + 8 * 511) function_pointer (add64 irq0 0x20) t)
unfolding schedule_user_process schedule_ready_process
schedule_process_lem irq0 s xs fuel process function_pointer h d out ne enough =
    let old = s.pcb process in
    let resume = add64 irq0 0x20 in
    let top = process + 8 * 511 in
    (
      numbered-IsScheduled s xs fuel process h d out ne enough old.pstack old.e_entry resume
          (frame process 0x23 old.pstack 0x2b old.e_entry resume old)
          (frame-IsFrame process 0x23 old.pstack 0x2b old.e_entry resume old),
      numbered-IsScheduled s xs fuel process h d out ne enough top function_pointer resume
          (frame process 0x23 top 0x2b function_pointer resume old)
          (frame-IsFrame process 0x23 top 0x2b function_pointer resume old),
    )
