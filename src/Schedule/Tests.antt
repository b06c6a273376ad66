-- ===== src/Schedule/Tests.antt =====
-- Runs of the scheduler on three processes.
use sbunix_public.Base.{
  ◌/◌, ◌^◌, ◌%◌, ◌+◌, ◌*◌, ℕ, ◌≡◌, arith, refl, ok, [], ◌∷◌, ◌==◌, if◌then◌else◌,
}
use sbunix_public.Schedule.{
  timer_phase, Pcb, Store, Sched, user, running, add_sleeping_process, schedule_user_process,
  schedule_ready_process, generate_timer,
}
use sbunix_public.Schedule.Queue.{Distinct, Queue, contents}
use sbunix_public.Schedule.Ready.{add_sleeping_process_append, schedule_process_lem, IsScheduled}
use sbunix_public.Schedule.Timer.{generate_timer_switch, generate_timer_idle, IsSwitched}
use sbunix_public.Schedule.Fair.{IsServed, weight, no_starvation}

abbrev process : ℕ → ℕ → Pcb
process next time = record {
  kstack = λ i. 0;
  pstack = 0x40_0000;
  pid = 1;
  rsp = 0x9000;
  cr3 = 0x10_0000;
  mm = 0;
  state = running;
  exit_status = 0;
  next = next;
  e_entry = 0x40_1000;
  time_remaining = time;
  process_type = user;
}

-- 4096 and 8192 stand in the ready queue, 12288 runs, 16384 idles.
abbrev processes : Store
processes a =
    if a == 4096
    then process 8192 3
    else (if a == 8192 then process 0 2 else (if a == 12288 then process 0 1 else process 0 3))

abbrev machine : ℕ → ℕ → Sched
machine ready current = record {
  pcb = processes;
  ready_processes = ready;
  sleeping_processes = ready;
  idle_process = 16384;
  currently_running_process = current;
  pid_count = 3;
  timer_ticks = 179;
  first_schedule = 0;
  rsp = 0x7000;
  cr3 = 0x10_0000;
  tss_rsp0 = 0;
  outs = [];
}

abbrev two : Sched
two = machine 4096 12288

two-Queue : Queue processes 4096 (4096 ∷ 8192 ∷ [])
two-Queue = (refl, ground arith, (refl, ground arith, refl))

two-Distinct : Distinct (4096 ∷ 8192 ∷ [])
two-Distinct = (refl, (refl, tt))

sleeping_behind_two :
    (g : Store) × (head : ℕ) × (add_sleeping_process 3 12288 two
      ≡ ok (record two { pcb = g; sleeping_processes = head }))
    × Queue g head (4096 ∷ 8192 ∷ 12288 ∷ [])
    × ((a : ℕ) → contents (g a) ≡ contents (processes a))
sleeping_behind_two =
    add_sleeping_process_append two (4096 ∷ 8192 ∷ []) 3 12288 two-Queue two-Distinct refl
      (ground arith) (omega arith)

schedule_process_example :
    ((t : Sched) × (schedule_user_process 0x20_0000 3 12288 two ≡ ok t)
      × IsScheduled two (4096 ∷ 8192 ∷ []) 12288 0x40_0000 0x40_1000 0x20_0020 t)
    × ((t : Sched) × (schedule_ready_process 0x20_0000 3 12288 0x20_4000 two ≡ ok t)
        × IsScheduled two (4096 ∷ 8192 ∷ []) 12288 16376 0x20_4000 0x20_0020 t)
schedule_process_example =
    schedule_process_lem 0x20_0000 two (4096 ∷ 8192 ∷ []) 3 12288 0x20_4000 two-Queue two-Distinct
      refl (ground arith) (omega arith)

generate_timer_switch_example :
    (t : Sched) × (generate_timer 2 two ≡ ok t) × IsSwitched two 4096 (8192 ∷ []) t
generate_timer_switch_example =
    generate_timer_switch two 2 4096 (8192 ∷ []) refl (ground arith) two-Queue two-Distinct refl
      (ground arith) (omega arith)

abbrev idling : Sched
idling = machine 0 16384

-- The idle process runs, and stands in the ready queue.
generate_timer_idle_example :
    (t : Sched) × (generate_timer 1 idling ≡ ok t)
    × (t.currently_running_process ≡ 16384)
    × Queue t.pcb t.ready_processes (16384 ∷ [])
    × ((t.pcb 16384).time_remaining ≡ 3)
    × (t.cr3 ≡ 0x10_0000)
generate_timer_idle_example =
    generate_timer_idle idling 1 refl (ground arith) refl (ground arith) (omega arith) (omega arith)

-- 8192 waits behind 4096, at the beginning of a slice of 12288.
no_starvation_example :
    IsServed 2 (weight processes (12288 ∷ 4096 ∷ [])) (record two { timer_ticks = 0 }) 8192
no_starvation_example =
    no_starvation 2 (record two { timer_ticks = 0 }) 12288 (4096 ∷ []) 8192 []
      (record {
        ticks = refl;
        first = omega arith;
        current = refl;
        live = omega arith;
        queue = two-Queue;
        distinct = two-Distinct;
        apart = refl;
      })
      (omega arith)

-- What `start` asks for, a frequency of 2, needs a divisor of 596590, of which 16 bits are written.
phase_two :
    timer_phase 2 two
    ≡ ok (record two {
      outs = (0x40, 26) ∷ (0x40, 110) ∷ (0x43, 0x36) ∷ two.outs;
      timer_ticks = 0;
      first_schedule = 1;
    })
unfolding timer_phase
phase_two = refl

divisor_cut : (26 * 256 + 110 ≡ 596590 % 2 ^ 16) × (1193180 / (596590 % 2 ^ 16) ≡ 176)
divisor_cut = (refl, refl)
