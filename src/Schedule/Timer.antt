-- ===== src/Schedule/Timer.antt =====
-- `generate_timer` of sys/isr.c: the switch at every 180th tick.
use sbunix_public.Base.{
  ==_iff, ◌⊎◌, ℕ, ◌<◌, ◌≡◌, ◌≢◌, arith, refl, ap, sym, ◌∙◌, false, ◌||◌, ok, ◌==◌, leb, List, [],
  ◌∷◌, ◌++◌, length, eq→==, ne→==, Bool-cases, inl, inr,
}
use mathlib.Core.Bool.{false≢true}
use sbunix_public.Schedule.{
  ProcessType, Pcb, Store, Sched, write, switch, put_back, load_process, run_idle, generate_timer,
  user, kernel, reset_signal, get_next_ready_process,
}
use sbunix_public.Schedule.Queue.{
  has, Distinct, Queue, Queue-write, contents, write_self, write_ne, Distinct-append,
}
use sbunix_public.Schedule.Old.{requeued, schedule_old_process_lem, time_left, Queue-same}

has-append : (a : ℕ) (xs ys : List ℕ) → has a (xs ++ ys) ≡ (has a xs || has a ys)
has-append a [] ys = refl
has-append a (x ∷ xs) ys = ground (arith, has-append a xs ys)

requeued-Distinct :
    (p : Pcb) (q : ℕ) (xs : List ℕ) → Distinct xs → has q xs ≡ false → Distinct (requeued p q xs)
requeued-Distinct p q xs d out = elim (Bool-cases (leb p.time_remaining 1)) [
  | inl e ↦ rw e (Distinct-append xs q d out)
  | inr e ↦ rw e (out, d)
]

requeued-has :
    (p : Pcb) (q a : ℕ) (xs : List ℕ) → has a xs ≡ false → a ≢ q → has a (requeued p q xs) ≡ false
requeued-has p q a xs out ne = elim (Bool-cases (leb p.time_remaining 1)) [
  | inl e ↦ rw e (ground (arith, has-append a xs (q ∷ [])))
  | inr e ↦ rw e (ground arith)
]

module _ (fuel : ℕ) (s : Sched) where
  -- The running process, saved and put back: the store and the head of the queue after it.
  abbrev pub PutBack : List ℕ → Type 0
  PutBack xs =
      let current = s.currently_running_process in
      let p = s.pcb current in
      (g : Store) × (head : ℕ) × (put_back fuel s
        ≡ ok (record s { pcb = g; ready_processes = head }))
      × Queue g head (requeued p current xs)
      × (contents (g current) ≡ contents (record p { rsp = s.rsp; time_remaining = time_left p }))
      × ((a : ℕ) → a ≢ current → contents (g a) ≡ contents (s.pcb a))

  pub put_back_lem :
      (xs : List ℕ)
      → Queue s.pcb s.ready_processes xs
      → Distinct xs
      → has s.currently_running_process xs ≡ false
      → s.currently_running_process ≢ 0
      → length xs < fuel
      → PutBack xs
  unfolding put_back
  put_back_lem xs h d out ne enough =
      let current = s.currently_running_process in
      let c = record (s.pcb current) { rsp = s.rsp } in
      let f = write s.pcb current c in
      let own : f current ≡ c = write_self s.pcb current c in
      let q = Queue-write xs s.pcb s.ready_processes current c out h in
      let (g, head, run, queue, it, others) =
        schedule_old_process_lem (record s { pcb = f }) fuel current xs q d out ne enough in
      (
        g,
        head,
        rw (ne→== current 0 ne) run,
        coe 0 1 (i. Queue g head (requeued (own i) current xs)) queue,
        it ∙ ap (λ (r : Pcb). contents (record r { time_remaining = time_left r })) own,
        λ a n. others a n ∙ ap contents (write_ne s.pcb current a c n),
      )

ProcessType-cases : (k : ProcessType) → (k ≡ user) ⊎ (k ≡ kernel)
ProcessType-cases user = inl refl
ProcessType-cases kernel = inr refl

-- `load_process` loads two registers, and leaves the processes, the queue and the ports.
load_process_lem :
    (p : ℕ) (u : Sched)
    → ((load_process p u).currently_running_process ≡ p)
      × ((load_process p u).cr3 ≡ (u.pcb p).cr3)
      × ((load_process p u).rsp ≡ (u.pcb p).rsp)
      × ((load_process p u).pcb ≡ u.pcb)
      × ((load_process p u).ready_processes ≡ u.ready_processes)
      × ((load_process p u).timer_ticks ≡ u.timer_ticks)
      × ((load_process p u).first_schedule ≡ u.first_schedule)
      × ((load_process p u).outs ≡ u.outs)
unfolding load_process
load_process_lem p u = elim (ProcessType-cases (u.pcb p).process_type) [
  | inl e ↦ rw (e, load_process) (refl, refl, refl, refl, refl, refl, refl, refl)
  | inr e ↦ rw (e, load_process) (refl, refl, refl, refl, refl, refl, refl, refl)
]

-- What a switch to the head `p` of the ready queue `p ∷ xs` does.
pub record IsSwitched (s : Sched) (p : ℕ) (xs : List ℕ) (t : Sched) : Type 0 where
  pub at : t.currently_running_process ≡ p
  pub cr3 : t.cr3 ≡ (s.pcb p).cr3
  pub rsp : t.rsp ≡ (s.pcb p).rsp
  pub saved : (t.pcb s.currently_running_process).rsp ≡ s.rsp
  pub queue :
      Queue t.pcb t.ready_processes
        (requeued (s.pcb s.currently_running_process) s.currently_running_process xs)
  pub distinct :
      Distinct (requeued (s.pcb s.currently_running_process) s.currently_running_process xs)
  pub apart :
      has p (requeued (s.pcb s.currently_running_process) s.currently_running_process xs) ≡ false
  pub ticks : t.timer_ticks ≡ 0
  pub first : t.first_schedule ≡ s.first_schedule
  pub left :
      (t.pcb s.currently_running_process).time_remaining
      ≡ time_left (s.pcb s.currently_running_process)
  pub others :
      (a : ℕ)
      → a ≢ s.currently_running_process
      → (t.pcb a).time_remaining ≡ (s.pcb a).time_remaining
  pub outs : t.outs ≡ (0x20, 0x20) ∷ s.outs

has-tail : (a x : ℕ) (xs : List ℕ) → has a (x ∷ xs) ≡ false → has a xs ≡ false
has-tail a x xs h = ground arith

switch_head :
    (s : Sched) (fuel : ℕ) (xs : List ℕ)
    → s.timer_ticks ≡ 179
    → s.first_schedule ≢ 1
    → s.ready_processes ≢ 0
    → Distinct (s.ready_processes ∷ xs)
    → has s.currently_running_process (s.ready_processes ∷ xs) ≡ false
    → PutBack fuel
        (record s { timer_ticks = 0; ready_processes = (s.pcb s.ready_processes).next })
        xs
    → (t : Sched) × (generate_timer fuel s ≡ ok t) × IsSwitched s s.ready_processes xs t
unfolding generate_timer switch get_next_ready_process reset_signal
switch_head s fuel xs ticks first ne (dp, d) out (g, head, run, q, own, others) =
    let p = s.ready_processes in
    let current = s.currently_running_process in
    let u = record s { timer_ticks = 0; ready_processes = (s.pcb s.ready_processes).next } in
    let apart : p ≢ current = ground arith in
    let v = record u { pcb = g; ready_processes = head } in
    let (to, cr3, rsp, pcb, ready, tick, first', outs) = load_process_lem p v in
    let it = others p apart in
    (
      reset_signal (load_process p v),
      rw (ticks, ne→== s.first_schedule 1 first, ne→== p 0 ne, run, ne→== p 0 ne) refl,
      record {
        at = to;
        cr3 = cr3 ∙ ap (λ (r : Pcb). r.cr3) it;
        rsp = rsp ∙ ap (λ (r : Pcb). r.rsp) it;
        saved = ap (λ (f : Store). (f current).rsp) pcb ∙ ap (λ (r : Pcb). r.rsp) own;
        queue = rw (pcb, ready) q;
        distinct = requeued-Distinct (s.pcb current) current xs d (ground arith);
        apart = requeued-has (s.pcb current) current p xs dp apart;
        ticks = tick;
        first = first';
        left =
            ap (λ (f : Store). (f current).time_remaining) pcb
            ∙ ap (λ (r : Pcb). r.time_remaining) own;
        others = λ a n.
            ap (λ (f : Store). (f a).time_remaining) pcb
            ∙ ap (λ (r : Pcb). r.time_remaining) (others a n);
        outs = ap (λ (l : List (ℕ × ℕ)). (0x20, 0x20) ∷ l) outs;
      },
    )

-- At the 180th tick, with a process running that is not in the ready queue and distinct processes in
-- the queue, the timer saves the stack pointer, makes the head of the queue the running process, with
-- its address space and its saved stack pointer, and puts the old one back as `schedule_old_process`
-- does, with the time that it has left. The running process again is not in the queue, whose
-- processes again are distinct, the time of no other process changes, and the interrupt is
-- acknowledged. The walk ends with more rounds than the queue has processes.
pub generate_timer_switch :
    (s : Sched) (fuel p : ℕ) (xs : List ℕ)
    → s.timer_ticks ≡ 179
    → s.first_schedule ≢ 1
    → Queue s.pcb s.ready_processes (p ∷ xs)
    → Distinct (p ∷ xs)
    → has s.currently_running_process (p ∷ xs) ≡ false
    → s.currently_running_process ≢ 0
    → length xs < fuel
    → (t : Sched) × (generate_timer fuel s ≡ ok t) × IsSwitched s p xs t
generate_timer_switch s fuel p xs ticks first (at, ne, h) d out live enough =
    let r : s.ready_processes ≢ 0 = rw at ne in
    let queue : Queue s.pcb (s.pcb s.ready_processes).next xs = rw at h in
    let u = record s { timer_ticks = 0; ready_processes = (s.pcb s.ready_processes).next } in
    let back =
      put_back_lem fuel u xs queue d.1 (has-tail s.currently_running_process p xs out) live
        enough in
    let (t, run, it) = switch_head s fuel xs ticks first r (rw at d) (rw at out) back in
    (t, run, coe 0 1 (i. IsSwitched s (at i) xs t) it)

requeued-empty : (p : Pcb) (q : ℕ) → requeued p q [] ≡ q ∷ []
requeued-empty p q = elim (Bool-cases (leb p.time_remaining 1)) [
  | inl e ↦ rw e refl
  | inr e ↦ rw e refl
]

next-write_time :
    (f : Store) (i a : ℕ) → (write f i (record (f i) { time_remaining = 3 }) a).next ≡ (f a).next
next-write_time f i a = elim (Bool-cases (a == i)) [
  | inl e ↦
      let at : a ≡ i = (==_iff a i).0 e in
      rw at (ap (λ (r : Pcb). r.next) (write_self f i (record (f i) { time_remaining = 3 })))
  | inr n ↦
      ap (λ (r : Pcb). r.next)
        (write_ne f i a (record (f i) { time_remaining = 3 })
          (λ e. false≢true (sym n ∙ (==_iff a i).1 e)))
]

PutBack-cr3 :
    (fuel : ℕ) (s : Sched) (xs : List ℕ) (back : PutBack fuel s xs) (a : ℕ)
    → (back.0 a).cr3 ≡ (s.pcb a).cr3
PutBack-cr3 fuel s xs (g, head, run, q, own, others) a =
    elim (Bool-cases (a == s.currently_running_process)) [
      | inl e ↦ rw ((==_iff a s.currently_running_process).0 e) (ap (λ (r : Pcb). r.cr3) own)
      | inr n ↦
          ap (λ (r : Pcb). r.cr3)
            (others a (λ e. false≢true (sym n ∙ (==_iff a s.currently_running_process).1 e)))
    ]

idle_after :
    (s : Sched) (fuel : ℕ)
    → s.timer_ticks ≡ 179
    → s.first_schedule ≢ 1
    → s.ready_processes ≡ 0
    → s.idle_process ≢ 0
    → PutBack fuel (record s { timer_ticks = 0 }) []
    → (t : Sched) × (generate_timer fuel s ≡ ok t)
      × (t.currently_running_process ≡ s.idle_process)
      × Queue t.pcb t.ready_processes (s.currently_running_process ∷ [])
      × ((t.pcb s.idle_process).time_remaining ≡ 3)
      × (t.cr3 ≡ (s.pcb s.idle_process).cr3)
unfolding generate_timer switch get_next_ready_process reset_signal run_idle
idle_after s fuel ticks first empty idle back =
    let (g, head, run, q, own, others) = back in
    let current = s.currently_running_process in
    let u = record s { timer_ticks = 0 } in
    let c = record (g s.idle_process) { time_remaining = 3 } in
    let t = record u { pcb = write g s.idle_process c; ready_processes = head } in
    let alone : Queue g head (current ∷ []) =
      coe 0 1 (i. Queue g head (requeued-empty (s.pcb current) current i)) q in
    let own = write_self g s.idle_process c in
    (
      reset_signal (record t {
        currently_running_process = s.idle_process;
        cr3 = (t.pcb s.idle_process).cr3;
        rsp = (t.pcb s.idle_process).rsp;
      }),
      rw
          (
            ticks,
            ne→== s.first_schedule 1 first,
            eq→== s.ready_processes 0 empty,
            run,
            ne→== s.idle_process 0 idle,
          )
          refl,
      refl,
      Queue-same (current ∷ []) g t.pcb head (next-write_time g s.idle_process) alone,
      ap (λ (r : Pcb). r.time_remaining) own,
      ap (λ (r : Pcb). r.cr3) own ∙ PutBack-cr3 fuel u [] back s.idle_process,
    )

-- With an empty ready queue and an idle process, the 180th tick puts the process that ran into the queue, alone, and runs
-- the idle process. This holds whatever process ran: when it was the idle process itself, the idle
-- process runs and stands in the ready queue at once.
pub generate_timer_idle :
    (s : Sched) (fuel : ℕ)
    → s.timer_ticks ≡ 179
    → s.first_schedule ≢ 1
    → s.ready_processes ≡ 0
    → s.currently_running_process ≢ 0
    → s.idle_process ≢ 0
    → 0 < fuel
    → (t : Sched) × (generate_timer fuel s ≡ ok t)
      × (t.currently_running_process ≡ s.idle_process)
      × Queue t.pcb t.ready_processes (s.currently_running_process ∷ [])
      × ((t.pcb s.idle_process).time_remaining ≡ 3)
      × (t.cr3 ≡ (s.pcb s.idle_process).cr3)
generate_timer_idle s fuel ticks first empty live idle enough =
    idle_after s fuel ticks first empty idle
      (put_back_lem fuel (record s { timer_ticks = 0 }) [] empty tt refl live enough)
