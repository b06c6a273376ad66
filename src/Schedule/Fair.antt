-- ===== src/Schedule/Fair.antt =====
-- The timer of sys/isr.c over many interrupts: every process in the ready queue gets its turn.
use sbunix_public.Base.{
  ℕ, zero, suc, ◌+◌, ◌-◌, ◌≤◌, ◌<◌, ◌≡◌, ◌≢◌, arith, refl, ap, sym, ◌∙◌, false, Run, ok, ◌>>=◌, leb,
  List, [], ◌∷◌, ◌++◌, length, length-append, ne→==, Bool-cases, inl, inr,
}
use sbunix_public.Schedule.{Store, Sched, generate_timer, reset_signal}
use sbunix_public.Schedule.Queue.{has, Distinct, Queue}
use sbunix_public.Schedule.Old.{requeued, time_left}
use sbunix_public.Schedule.Timer.{generate_timer_switch}

-- `n` timer interrupts, one behind the other, and `n` slices of 180 of them.
pub run_ticks : (n fuel : ℕ) → Sched → Run Sched
run_ticks zero fuel s = ok s
run_ticks (suc n) fuel s = generate_timer fuel s >>= λ t. run_ticks n fuel t

pub run_slices : (n fuel : ℕ) → Sched → Run Sched
run_slices zero fuel s = ok s
run_slices (suc n) fuel s = run_ticks 180 fuel s >>= λ t. run_slices n fuel t

-- The beginning of a slice: `c` runs, and the ready queue is `xs`.
pub record IsSliceStart (s : Sched) (c : ℕ) (xs : List ℕ) : Type 0 where
  pub ticks : s.timer_ticks ≡ 0
  pub first : s.first_schedule ≢ 1
  pub current : s.currently_running_process ≡ c
  pub live : c ≢ 0
  pub queue : Queue s.pcb s.ready_processes xs
  pub distinct : Distinct xs
  pub apart : has c xs ≡ false

-- The times behind a slice of `c`.
record IsSliced (s t : Sched) (c : ℕ) : Type 0 where
  left : (t.pcb c).time_remaining ≡ time_left (s.pcb c)
  others : (a : ℕ) → a ≢ c → (t.pcb a).time_remaining ≡ (s.pcb a).time_remaining

count_tick :
    (fuel : ℕ) (s : Sched)
    → s.timer_ticks + 1 ≢ 180
    → generate_timer fuel s ≡ ok (reset_signal (record s { timer_ticks = s.timer_ticks + 1 }))
unfolding generate_timer
count_tick fuel s ne = rw (ne→== (s.timer_ticks + 1) 180 ne) refl

-- The ticks up to the switch only count.
ticks_run :
    (n fuel : ℕ) (s : Sched) (p : ℕ) (xs : List ℕ)
    → s.timer_ticks + n ≡ 179
    → s.first_schedule ≢ 1
    → Queue s.pcb s.ready_processes (p ∷ xs)
    → Distinct (p ∷ xs)
    → has s.currently_running_process (p ∷ xs) ≡ false
    → s.currently_running_process ≢ 0
    → length xs < fuel
    → (t : Sched) × (run_ticks (suc n) fuel s ≡ ok t)
      × IsSliceStart t p
          (requeued (s.pcb s.currently_running_process) s.currently_running_process xs)
      × IsSliced s t s.currently_running_process
unfolding run_ticks reset_signal
ticks_run zero fuel s p xs ticks first queue distinct apart live enough =
    let (t, run, sw) =
      generate_timer_switch s fuel p xs (omega arith) first queue distinct apart live enough in
    (
      t,
      rw run refl,
      record {
        ticks = sw.ticks;
        first = λ e. first (sym sw.first ∙ e);
        current = sw.at;
        live = queue.1;
        queue = sw.queue;
        distinct = sw.distinct;
        apart = sw.apart;
      },
      record { left = sw.left; others = sw.others },
    )
ticks_run (suc n) fuel s p xs ticks first queue distinct apart live enough =
    let s' = reset_signal (record s { timer_ticks = s.timer_ticks + 1 }) in
    let (t, run, is, times) =
      ticks_run n fuel s' p xs (omega arith) first queue distinct apart live enough in
    (
      t,
      rw (count_tick fuel s (omega arith)) run,
      is,
      record { left = times.left; others = times.others },
    )

-- One slice.
slice_run :
    (fuel : ℕ) (s : Sched) (c p : ℕ) (xs : List ℕ)
    → IsSliceStart s c (p ∷ xs)
    → length xs < fuel
    → (t : Sched) × (run_ticks 180 fuel s ≡ ok t)
      × IsSliceStart t p (requeued (s.pcb c) c xs)
      × IsSliced s t c
slice_run fuel s c p xs is enough =
    let apart : has s.currently_running_process (p ∷ xs) ≡ false =
      ap (λ (x : ℕ). has x (p ∷ xs)) is.current ∙ is.apart in
    let live : s.currently_running_process ≢ 0 = λ e. is.live (sym is.current ∙ e) in
    coe 0 1
      (i.
        (t : Sched) × (run_ticks 180 fuel s ≡ ok t)
        × IsSliceStart t p (requeued (s.pcb (is.current i)) (is.current i) xs)
        × IsSliced s t (is.current i))
      (ticks_run 179 fuel s p xs (omega (arith, is.ticks)) is.first is.queue is.distinct apart live
        enough)

-- How long the processes of a list can keep the others waiting.
pub weight : Store → List ℕ → ℕ
weight f [] = 0
weight f (x ∷ xs) = (f x).time_remaining + 1 + weight f xs

weight_same :
    (f g : Store) (c : ℕ) (xs : List ℕ)
    → ((a : ℕ) → a ≢ c → (g a).time_remaining ≡ (f a).time_remaining)
    → has c xs ≡ false
    → weight g xs ≡ weight f xs
unfolding weight
weight_same f g c [] others out = refl
weight_same f g c (x ∷ xs) others out =
    let ne : x ≢ c = ground arith in
    let rest = weight_same f g c xs others (ground arith) in omega (arith, others x ne, rest)

append_assoc :
    (xs : List ℕ) (y : ℕ) (ys zs : List ℕ) → (xs ++ (y ∷ ys)) ++ zs ≡ xs ++ (y ∷ (ys ++ zs))
append_assoc [] y ys zs = refl
append_assoc (x ∷ xs) y ys zs = ap (λ (t : List ℕ). x ∷ t) (append_assoc xs y ys zs)

has-ahead : (c : ℕ) (ahead rest : List ℕ) → has c (ahead ++ rest) ≡ false → has c ahead ≡ false
has-ahead c [] rest h = refl
has-ahead c (x ∷ ahead) rest h =
    let later : has c (ahead ++ rest) ≡ false = ground arith in
    ground (arith, has-ahead c ahead rest later)

-- What a process that waits has reached within `bound` slices.
abbrev pub IsServed : (fuel bound : ℕ) → Sched → ℕ → Type 0
IsServed fuel bound s y =
    (n : ℕ) × (t : Sched) × (n ≤ bound)
    × (run_slices n fuel s ≡ ok t)
    × (t.currently_running_process ≡ y)

IsServed-later :
    (fuel bound : ℕ) (s t : Sched) (y : ℕ)
    → run_ticks 180 fuel s ≡ ok t
    → IsServed fuel bound t y
    → IsServed fuel (suc bound) s y
unfolding run_slices
IsServed-later fuel bound s t y run (n, u, le, run', at) = (suc n, u, omega arith, rw run run', at)

-- Behind a slice, the processes in front of `y` weigh less.
progress :
    (fuel bound : ℕ) (s t : Sched) (c p : ℕ) (ahead : List ℕ) (y : ℕ) (behind : List ℕ)
    → has c (p ∷ (ahead ++ (y ∷ behind))) ≡ false
    → weight s.pcb (c ∷ p ∷ ahead) ≤ suc bound
    → length (p ∷ (ahead ++ (y ∷ behind))) ≤ fuel
    → IsSliceStart t p (requeued (s.pcb c) c (ahead ++ (y ∷ behind)))
    → IsSliced s t c
    → (ahead' : List ℕ) × (behind' : List ℕ) × IsSliceStart t p (ahead' ++ (y ∷ behind'))
      × (weight t.pcb (p ∷ ahead') ≤ bound)
      × (length (ahead' ++ (y ∷ behind')) ≤ fuel)
unfolding weight
progress fuel bound s t c p ahead y behind out heavy enough is times =
    let xs = ahead ++ (y ∷ behind) in
    let away : has c xs ≡ false = ground arith in
    let ne : p ≢ c = ground arith in
    let head : (t.pcb p).time_remaining ≡ (s.pcb p).time_remaining = times.others p ne in
    let rest = weight_same s.pcb t.pcb c ahead times.others (has-ahead c ahead (y ∷ behind) away) in
    elim (Bool-cases (leb (s.pcb c).time_remaining 1)) [
      | inl q ↦
          let queue : requeued (s.pcb c) c xs ≡ ahead ++ (y ∷ (behind ++ (c ∷ []))) =
            rw q (append_assoc ahead y behind (c ∷ [])) in
          (
            ahead,
            behind ++ (c ∷ []),
            coe 0 1 (i. IsSliceStart t p (queue i)) is,
            omega (arith, head, rest),
            omega (
              arith,
              length-append ahead (y ∷ behind),
              length-append ahead (y ∷ (behind ++ (c ∷ []))),
              length-append behind (c ∷ []),
            ),
          )
      | inr q ↦
          let queue : requeued (s.pcb c) c xs ≡ (c ∷ ahead) ++ (y ∷ behind) = rw q refl in
          let left : time_left (s.pcb c) ≡ (s.pcb c).time_remaining - 1 = rw q refl in
          let more : 1 < (s.pcb c).time_remaining = ground arith in
          (
            c ∷ ahead,
            behind,
            coe 0 1 (i. IsSliceStart t p (queue i)) is,
            omega (arith, head, rest, left, times.left, more),
            omega arith,
          )
    ]

served :
    (bound fuel : ℕ) (s : Sched) (c : ℕ) (ahead : List ℕ) (y : ℕ) (behind : List ℕ)
    → IsSliceStart s c (ahead ++ (y ∷ behind))
    → weight s.pcb (c ∷ ahead) ≤ bound
    → length (ahead ++ (y ∷ behind)) ≤ fuel
    → IsServed fuel bound s y
unfolding weight run_slices
served zero fuel s c ahead y behind is heavy enough = absurd (omega arith)
served (suc bound) fuel s c [] y behind is heavy enough =
    let (t, run, is', times) = slice_run fuel s c y behind is (omega arith) in
    (1, t, omega arith, rw run refl, is'.current)
served (suc bound) fuel s c (p ∷ ahead) y behind is heavy enough =
    let (t, run, is', times) = slice_run fuel s c p (ahead ++ (y ∷ behind)) is (omega arith) in
    let (ahead', behind', later, lighter, short) =
      progress fuel bound s t c p ahead y behind is.apart heavy enough is' times in
    IsServed-later fuel bound s t y run (served bound fuel t p ahead' y behind' later lighter short)

-- When the processes of the ready queue are distinct, the running process is not among them and the
-- first switch is over, none of them starves as long as only the timer changes the queue. From the
-- beginning of a slice on, a process with the processes `ahead` in front of it is the running
-- process after at most as many slices of 180 timer interrupts as the running process and those
-- ahead have time left, and one more for each.
pub no_starvation :
    (fuel : ℕ) (s : Sched) (c : ℕ) (ahead : List ℕ) (y : ℕ) (behind : List ℕ)
    → IsSliceStart s c (ahead ++ (y ∷ behind))
    → length (ahead ++ (y ∷ behind)) ≤ fuel
    → IsServed fuel (weight s.pcb (c ∷ ahead)) s y
no_starvation fuel s c ahead y behind is enough =
    served (weight s.pcb (c ∷ ahead)) fuel s c ahead y behind is (omega arith) enough
