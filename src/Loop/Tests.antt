-- ===== src/Loop/Tests.antt =====
-- A loop of three workers for a few steps, and a loop with one, for the theorems of the siblings.
use memxy.Prelude.{
  ℕ, ◌≤◌, ◌<◌, ◌≡◌, refl, inr, false, List, [], ◌∷◌, ◌++◌, length, arith, put, total,
}
use memxy.Loop.{work, ready, waiting, polling, returned, nothing, turn, serve, next_event, submit}
use memxy.Loop.Steps.{
  disarmed, Armed, disarm, System, quiet, one, Step, take, poll, submits, start, Reach, here, later,
  new_core,
}
use memxy.Loop.Weights.{active}
use memxy.Loop.Places.{Inv}
use memxy.Loop.Invariant.{Reach-Inv, one_handler}
use memxy.Loop.Service.{
  rounds, map_outs, map_tasks, polled_by_other, rounds-serve, lone_thread_never_writes,
}
use memxy.Loop.Wakeups.{no_lost_wakeup}

-- Thread 0 polls, and threads 1 and 2 wait.
abbrev first : System
first = record (start (ready work) 9) {
  core = record new_core { pollable = false };
  pc = put (λ _. ready work) 0 (polling work);
}

abbrev second : System
second = record first { pc = put first.pc 1 (waiting work) }

abbrev third : System
third = record second { pc = put second.pc 2 (waiting work) }

-- Task 5 is submitted, and thread 1 is woken.
abbrev fourth : System
fourth = record third {
  core = record third.core { tasks = 5 ∷ [] };
  pc = put third.pc 1 (ready work);
}

first_step : Step 3 9 (start (ready work) 9) first
unfolding turn next_event
first_step = take 0 work nothing first.pc (omega arith) refl (quiet refl refl) refl

second_step : Step 3 9 first second
unfolding turn serve
second_step = take 1 work nothing second.pc (omega arith) refl (quiet refl refl) refl

third_step : Step 3 9 second third
unfolding turn serve
third_step = take 2 work nothing third.pc (omega arith) refl (quiet refl refl) refl

fourth_step : Step 3 9 third fourth
unfolding submit
fourth_step = submits 5 fourth.pc (one 1 work (omega arith) refl refl) refl

fourth-Reach : Reach 3 9 (ready work) fourth
fourth-Reach =
    later (later (later (later (here refl) first_step) second_step) third_step) fourth_step

Reach-Inv_example : Inv 3 fourth
Reach-Inv_example = Reach-Inv work (omega arith) fourth-Reach

no_lost_wakeup_example : (j : ℕ) × (j < 3) × (1 ≤ active (fourth.pc j))
unfolding total
no_lost_wakeup_example = no_lost_wakeup 2 fourth-Reach refl (omega arith) refl (inr (omega arith))

-- The port of `out` has an event, and thread 0 has it in its hands.
abbrev fifth : System
fifth = record fourth {
  pc = put fourth.pc 0 (returned work 9 []);
  interest = disarm (9 ∷ []) fourth.interest;
}

few-Armed : Armed fourth.interest (9 ∷ [])
few-Armed fd = ground arith

fifth_step : Step 3 9 fourth fifth
fifth_step = poll 0 work 9 [] (omega arith) refl few-Armed refl

one_handler_example : (◌≡◌ {A = ℕ} 0 0) × (fifth.interest 9 ≡ disarmed)
one_handler_example =
    one_handler work 0 0 9 (later fourth-Reach fifth_step) (omega arith) (omega arith) (omega arith)
      (omega arith)

-- A single worker polls.
abbrev alone : System
alone = record (start (ready work) 9) {
  core = record new_core { pollable = false };
  pc = put (λ _. ready work) 0 (polling work);
}

alone_step : Step 1 9 (start (ready work) 9) alone
unfolding turn next_event
alone_step = take 0 work nothing alone.pc (omega arith) refl (quiet refl refl) refl

lone_thread_never_writes_example : alone.core.written ≡ []
lone_thread_never_writes_example = lone_thread_never_writes work (later (here refl) alone_step)

abbrev writables : List ℕ
writables = 3 ∷ []

abbrev two_tasks : List ℕ
two_tasks = 5 ∷ 6 ∷ []

rounds-serve_example :
    (rounds (length (writables ++ two_tasks)) 9 (polled_by_other [] writables two_tasks [] []) ≡ (
      map_outs writables ++ map_tasks two_tasks,
      polled_by_other [] [] [] ([] ++ two_tasks) ([] ++ writables),
    ))
    × ((turn 9 nothing work (polled_by_other [] [] [] ([] ++ two_tasks) ([] ++ writables))).pc
        ≡ waiting work)
rounds-serve_example = rounds-serve 9 [] writables two_tasks [] []
