-- ===== src/Schedule/Old.antt =====
-- `schedule_old_process` of sys/isr.c: where the process that ran before goes.
use sbunix_public.Base.{
  ==_iff, ℕ, ◌-◌, ◌<◌, ◌≡◌, ◌≢◌, inl, inr, arith, refl, ap, sym, ◌∙◌, true, false, ok, ◌==◌,
  if◌then◌else◌, leb, List, [], ◌∷◌, ◌++◌, length, eq→==, ne→==, Bool-cases,
}
use sbunix_public.Schedule.{Pcb, Store, Sched, write, set_next, schedule_old_process}
use sbunix_public.Schedule.Queue.{
  next-set_next_twice, has, Distinct, Queue, Queue-write, Queue-append, contents, last,
  last_process_lem, next-set_next, has-ne, contents-set_next, write_self, write_ne, has-last,
}

-- What is left of a process's time, and the queue with the process in it.
abbrev pub time_left : Pcb → ℕ
time_left p = if leb p.time_remaining 1 then 3 else p.time_remaining - 1

abbrev pub requeued : Pcb → ℕ → List ℕ → List ℕ
requeued p process xs = if leb p.time_remaining 1 then xs ++ (process ∷ []) else process ∷ xs

-- A queue depends on the `next` fields alone.
pub Queue-same :
    (xs : List ℕ) (f g : Store) (p : ℕ)
    → ((a : ℕ) → (g a).next ≡ (f a).next)
    → Queue f p xs
    → Queue g p xs
Queue-same [] f g p same h = h
Queue-same (x ∷ xs) f g p same (e, n, h) = (e, n, rw (same x) (Queue-same xs f g (f x).next same h))

-- A second write of NULL to the last `next` changes nothing.
next-set_next_null :
    (f : Store) (l q : ℕ)
    → (f q).next ≡ 0
    → q ≢ l
    → (a : ℕ) → (set_next f l q a).next ≡ (set_next (set_next f l q) q 0 a).next
next-set_next_null f l q own apart a = elim (Bool-cases (a == q)) [
  | inl e ↦
      let at : a ≡ q = (==_iff a q).0 e in
      rw
        (
          next-set_next_twice f l q a,
          next-set_next f l q a,
          e,
          ne→== a l (λ z. apart (sym at ∙ z)),
          at,
          own,
        )
        refl
  | inr n ↦ rw (next-set_next_twice f l q a, next-set_next f l q a, n) refl
]

module _ (s : Sched) (fuel process : ℕ) where
  -- The result: only the store and the head of the queue change.
  abbrev pub Requeues : List ℕ → Type 0
  Requeues xs =
      (g : Store) × (head : ℕ) × (schedule_old_process fuel process s
        ≡ ok (record s { pcb = g; ready_processes = head }))
      × Queue g head (requeued (s.pcb process) process xs)
      × (contents (g process)
          ≡ contents (record (s.pcb process) { time_remaining = time_left (s.pcb process) }))
      × ((a : ℕ) → a ≢ process → contents (g a) ≡ contents (s.pcb a))

  spent :
      (xs : List ℕ)
      → Queue s.pcb s.ready_processes xs
      → Distinct xs
      → has process xs ≡ false
      → process ≢ 0
      → length xs < fuel
      → leb (s.pcb process).time_remaining 1 ≡ true
      → Requeues xs
  unfolding schedule_old_process
  spent [] h d out ne enough t =
      let p = s.pcb process in
      let c = record p { time_remaining = 3; next = 0 } in
      let f = write s.pcb process c in
      let z : (if p.time_remaining == 0 then 0 else p.time_remaining - 1) ≡ 0 = ground arith in
      (
        f,
        process,
        rw (z, eq→== s.ready_processes 0 h),
        rw t (refl, ne, ap (λ (r : Pcb). r.next) (write_self s.pcb process c)),
        rw t (ap contents (write_self s.pcb process c)),
        λ a n. ap contents (write_ne s.pcb process a c n),
      )
  spent (x ∷ xs) h d out ne enough t =
      let p = s.pcb process in
      let c = record p { time_remaining = 3; next = 0 } in
      let f = write s.pcb process c in
      let l = last x xs in
      let z : (if p.time_remaining == 0 then 0 else p.time_remaining - 1) ≡ 0 = ground arith in
      let q = Queue-write (x ∷ xs) s.pcb s.ready_processes process c out h in
      let own : (f process).next ≡ 0 = ap (λ (r : Pcb). r.next) (write_self s.pcb process c) in
      let apart : process ≢ l = has-ne process l (x ∷ xs) out (has-last x xs) in
      let same = next-set_next_null f l process own apart in
      (
        set_next f l process,
        s.ready_processes,
        rw (
          z,
          ne→== s.ready_processes 0 (ground arith),
          last_process_lem xs fuel f s.ready_processes x q (omega arith),
        ),
        rw t (
            Queue-same (x ∷ (xs ++ (process ∷ []))) (set_next (set_next f l process) process 0)
              (set_next f l process) s.ready_processes same
              (Queue-append xs f s.ready_processes x process q d out ne)),
        rw t (contents-set_next f l process process ∙ ap contents (write_self s.pcb process c)),
        λ a n. contents-set_next f l process a ∙ ap contents (write_ne s.pcb process a c n),
      )

  unspent :
      (xs : List ℕ)
      → Queue s.pcb s.ready_processes xs
      → has process xs ≡ false
      → process ≢ 0
      → leb (s.pcb process).time_remaining 1 ≡ false
      → Requeues xs
  unfolding schedule_old_process
  unspent xs h out ne t =
      let p = s.pcb process in
      let c = record p { time_remaining = p.time_remaining - 1; next = s.ready_processes } in
      let g = write s.pcb process c in
      let z : ((if p.time_remaining == 0 then 0 else p.time_remaining - 1) == 0) ≡ false =
        ground arith in
      let y : (p.time_remaining == 0) ≡ false = ground arith in
      let own = write_self s.pcb process c in
      let to : (g process).next ≡ s.ready_processes = ap (λ (r : Pcb). r.next) own in
      (
        g,
        process,
        rw (y, ne→== (p.time_remaining - 1) 0 (ground arith)),
        rw t (refl, ne, rw to (Queue-write xs s.pcb s.ready_processes process c out h)),
        rw t (ap contents own),
        λ a n. ap contents (write_ne s.pcb process a c n),
      )

  -- `schedule_old_process` puts a process that is not in the ready queue back into it. When its time
  -- is at an end (one tick or none is left) it goes to the end of the queue with three new ticks, and
  -- before that to the front with one tick less. Nothing changes but the store and the head of the
  -- queue, and in the store nothing but this process's time and `next` fields.
  pub schedule_old_process_lem :
      (xs : List ℕ)
      → Queue s.pcb s.ready_processes xs
      → Distinct xs
      → has process xs ≡ false
      → process ≢ 0
      → length xs < fuel
      → Requeues xs
  schedule_old_process_lem xs h d out ne enough =
      elim (Bool-cases (leb (s.pcb process).time_remaining 1)) [
        | inl t ↦ spent xs h d out ne enough t
        | inr t ↦ unspent xs h out ne t
      ]
