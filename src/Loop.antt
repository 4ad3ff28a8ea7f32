-- ===== src/Loop.antt =====
-- The event loop of src/mpsrc/wavy_base.cc and wavy_core.h: the state that coreimpl guards by its
-- mutex, what one thread does while it holds the mutex, and the steps of all threads in any order.
-- Descriptors and tasks are numbers.
pub mod Steps
pub mod Weights
pub mod Places
pub mod Invariant
pub mod Progress
pub mod Wakeups
pub mod Service
mod Tests
use memxy.Prelude.{
  ℕ, zero, suc, ◌+◌, ◌≤◌, ◌<◌, ◌≡◌, ◌≢◌, Bool, true, false, not, Option, none, some, List, [], ◌∷◌,
  ◌++◌, length, ltb, ◌==◌, if◌then◌else◌, put,
}

-- Who called: `operator()`, the loop of a worker, or `step_next`.
pub data Mode : Type 0 where
  work once : Mode

-- Where a thread stands. Outside the mutex: in m_cond.wait, in m_port.wait, back from it with events
-- but not yet in the mutex, in a task, in `out::write_event`, in a handler, or about to reactivate
-- the port of `out`. `failed_poll` and `failed_out` are threads that a system_error has ended.
pub data Pc : Type 0 where
  ready waiting polling : Mode → Pc
  returned : Mode → ℕ → List ℕ → Pc
  running writing handling shooting : Mode → ℕ → Pc
  idle stopped failed_poll : Pc
  failed_out : ℕ → Pc

-- A thread that is done with one round: a worker is back at `retry`, `step_next` has returned.
abbrev pub back : Mode → Pc
back work = ready work
back once = idle

-- `coreimpl`: m_backlog from m_off to m_num, the queue of `out`, m_task_queue and the two flags; and
-- the tasks begun and the descriptors written so far.
pub record Core : Type 0 where
  pub backlog : List ℕ
  pub outs : List ℕ
  pub tasks : List ℕ
  pub pollable : Bool
  pub ended : Bool
  pub begun : List ℕ
  pub written : List ℕ

-- What a thread leaves when it gives up the mutex: the state, where it stands, and whether it has
-- called m_cond.signal.
pub record Turn : Type 0 where
  pub core : Core
  pub pc : Pc
  pub signal : Bool

-- What m_port.wait of `out` returns without waiting.
pub data Answer : Type 0 where
  writable : List ℕ → Answer
  nothing broken : Answer

-- MP_WAVY_TASK_QUEUE_LIMIT
abbrev pub task_queue_limit : ℕ
task_queue_limit = 16

abbrev pub is_empty : List ℕ → Bool
is_empty [] = true
is_empty (x ∷ xs) = false

-- `do_task` up to the unlock; it is called on a queue that is not empty.
pub do_task : Mode → List ℕ → Core → Turn
do_task m [] c = record { core = c; pc = back m; signal = false }
do_task m (t ∷ ts) c = record {
  core = record c { tasks = ts; begun = c.begun ++ (t ∷ []) };
  pc = running m t;
  signal = not (is_empty ts);
}

-- `do_out` up to the unlock, likewise.
pub do_out : Mode → List ℕ → Core → Turn
do_out m [] c = record { core = c; pc = back m; signal = false }
do_out m (e ∷ es) c = record {
  core = record c { outs = es; written = c.written ++ (e ∷ []) };
  pc = writing m e;
  signal = false;
}

-- While another thread polls: the queue of `out`, then the tasks, then the condition variable.
pub serve : Mode → Core → Turn
serve m c =
    if not (is_empty c.outs)
    then do_out m c.outs c
    else if not (is_empty c.tasks)
    then do_task m c.tasks c
    else record { core = c; pc = waiting m; signal = false }

-- `out::poll_event`, called for the event `e`.
pub poll_event : Answer → Mode → ℕ → Core → Core × Pc
poll_event (writable es) m e c = (record c { outs = c.outs ++ es }, shooting m e)
poll_event nothing m e c = (c, shooting m e)
poll_event broken m e c = (c, failed_out e)

-- The event that is taken from the backlog; `out` is the descriptor of m_out.
pub on_event : ℕ → Answer → Mode → ℕ → Bool → Core → Turn
on_event out a m e sig c =
    if e == out
    then (let (c', p) = poll_event a m e c in record { core = c'; pc = p; signal = sig })
    else record { core = c; pc = handling m e; signal = sig }

-- The end of the round: an event of the backlog, or, if there is none, the poll.
pub next_event : ℕ → Answer → Mode → List ℕ → Core → Turn
next_event out a m [] c = record {
  core = record c { pollable = false };
  pc = polling m;
  signal = false;
}
next_event out a m (e ∷ es) c = on_event out a m e false (record c { backlog = es })

-- From the lock to the unlock in `operator()`, and in `step_next`.
pub turn : ℕ → Answer → Mode → Core → Turn
turn out a work c =
    if c.ended
    then record { core = c; pc = stopped; signal = false }
    else if not c.pollable
    then serve work c
    else if ltb task_queue_limit (length c.tasks)
    then do_task work c.tasks c
    else next_event out a work c.backlog c
turn out a once c =
    if c.ended
    then record { core = c; pc = idle; signal = false }
    else if not c.pollable
    then serve once c
    else if not (is_empty c.tasks)
    then do_task once c.tasks c
    else next_event out a once c.backlog c

-- From the relock behind m_port.wait, which returned the events `e ∷ es`, to the unlock.
pub relock : ℕ → Answer → Mode → ℕ → List ℕ → Core → Turn
relock out a m e es c = on_event out a m e true (record c { backlog = es; pollable = true })

-- m_port.wait returned no event, or was interrupted.
pub timeout : Mode → Core → Core × Pc
timeout work c = if c.ended then (record c { pollable = true }, stopped) else (c, polling work)
timeout once c = (record c { pollable = true }, idle)

-- `submit_impl`, which signals.
pub submit : ℕ → Core → Core
submit t c = record c { tasks = c.tasks ++ (t ∷ []) }

-- `end`
pub end : Core → Core
end c = record c { ended = true }
