-- ===== src/Loop/Steps.antt =====
-- The steps of the threads of src/mpsrc/wavy_base.cc, of the port that they poll, and of the callers.
use memxy.Prelude.{
  ℕ, ◌+◌, ◌≤◌, ◌<◌, ◌≡◌, Bool, true, false, List, [], ◌∷◌, ◌==◌, if◌then◌else◌, put,
}
use memxy.Loop.{
  Mode, once, Pc, ready, waiting, polling, returned, running, writing, handling, shooting, idle,
  failed_poll, back, Core, Answer, turn, relock, timeout, submit, end,
}

-- The port's one-shot registration of a descriptor: an event that is returned disarms it.
pub data Interest : Type 0 where
  absent armed disarmed : Interest

-- The threads, by number, over one `coreimpl` and its port.
pub record System : Type 0 where
  pub core : Core
  pub pc : ℕ → Pc
  pub interest : ℕ → Interest

abbrev pub waits : Pc → ℕ
waits (waiting m) = 1
waits p = 0

-- m_cond.signal wakes one of the `n` threads, if one waits: it takes the mutex again, or returns.
pub data Wake (n : ℕ) (pc : ℕ → Pc) (sig : Bool) (pc' : ℕ → Pc) : Type 0 where
  quiet : sig ≡ false → pc' ≡ pc → Wake n pc sig pc'
  nobody : ((j : ℕ) → j < n → waits (pc j) ≡ 0) → pc' ≡ pc → Wake n pc sig pc'
  one : (j : ℕ) (m : Mode) → j < n → pc j ≡ waiting m → pc' ≡ put pc j (back m) → Wake n pc sig pc'

abbrev pub count : ℕ → List ℕ → ℕ
count fd [] = 0
count fd (e ∷ es) = let rest = count fd es in if e == fd then 1 + rest else rest

-- The events that the port may return: descriptors that are armed, each once.
abbrev pub is_armed : Interest → ℕ
is_armed armed = 1
is_armed i = 0

abbrev pub Armed : (ℕ → Interest) → List ℕ → Type 0
Armed f es = (fd : ℕ) → count fd es ≤ is_armed (f fd)

-- They are disarmed.
abbrev pub disarm : List ℕ → (ℕ → Interest) → ℕ → Interest
disarm es f fd = if count fd es == 0 then f fd else disarmed

-- `out` is the descriptor of m_out. A system call of the threads that fails otherwise than by
-- throwing has no effect here.
pub data Step (n out : ℕ) (s s' : System) : Type 0 where
  -- A thread takes the mutex at `retry_task`, or at the head of `step_next`.
  take :
      (i : ℕ) (m : Mode) (a : Answer) (pc' : ℕ → Pc)
      → i < n
      → s.pc i ≡ ready m
      → Wake n (put s.pc i (turn out a m s.core).pc) (turn out a m s.core).signal pc'
      → s' ≡ record s { core = (turn out a m s.core).core; pc = pc' }
      → Step n out s s'
  -- m_port.wait returns.
  poll :
      (i : ℕ) (m : Mode) (e : ℕ) (es : List ℕ)
      → i < n
      → s.pc i ≡ polling m
      → Armed s.interest (e ∷ es)
      → s' ≡ record s { pc = put s.pc i (returned m e es); interest = disarm (e ∷ es) s.interest }
      → Step n out s s'
  expire :
      (i : ℕ) (m : Mode)
      → i < n
      → s.pc i ≡ polling m
      → s' ≡ record s { core = (timeout m s.core).0; pc = put s.pc i (timeout m s.core).1 }
      → Step n out s s'
  poll_fails :
      (i : ℕ) (m : Mode)
      → i < n
      → s.pc i ≡ polling m
      → s' ≡ record s { pc = put s.pc i failed_poll }
      → Step n out s s'
  resume :
      (i : ℕ) (m : Mode) (e : ℕ) (es : List ℕ) (a : Answer) (pc' : ℕ → Pc)
      → i < n
      → s.pc i ≡ returned m e es
      → Wake n (put s.pc i (relock out a m e es s.core).pc) (relock out a m e es s.core).signal pc'
      → s' ≡ record s { core = (relock out a m e es s.core).core; pc = pc' }
      → Step n out s s'
  -- A task ends, or throws; `out::write_event` ends.
  ran :
      (i : ℕ) (m : Mode) (t : ℕ)
      → i < n
      → s.pc i ≡ running m t
      → s' ≡ record s { pc = put s.pc i (back m) }
      → Step n out s s'
  wrote :
      (i : ℕ) (m : Mode) (e : ℕ)
      → i < n
      → s.pc i ≡ writing m e
      → s' ≡ record s { pc = put s.pc i (back m) }
      → Step n out s s'
  -- A handler returns true, and is reactivated; or returns false or throws, and is removed.
  continues :
      (i : ℕ) (m : Mode) (e : ℕ)
      → i < n
      → s.pc i ≡ handling m e
      → s' ≡ record s { pc = put s.pc i (back m); interest = put s.interest e armed }
      → Step n out s s'
  finishes :
      (i : ℕ) (m : Mode) (e : ℕ)
      → i < n
      → s.pc i ≡ handling m e
      → s' ≡ record s { pc = put s.pc i (back m); interest = put s.interest e absent }
      → Step n out s s'
  shoot :
      (i : ℕ) (m : Mode) (e : ℕ)
      → i < n
      → s.pc i ≡ shooting m e
      → s' ≡ record s { pc = put s.pc i (back m); interest = put s.interest e armed }
      → Step n out s s'
  -- A waiting thread wakes up, by the broadcast of `end` or for no reason.
  wake :
      (i : ℕ) (m : Mode)
      → i < n
      → s.pc i ≡ waiting m
      → s' ≡ record s { pc = put s.pc i (back m) }
      → Step n out s s'
  -- Calls of `submit`, `end`, `add_handler` and `step_next`.
  submits :
      (t : ℕ) (pc' : ℕ → Pc)
      → Wake n s.pc true pc'
      → s' ≡ record s { core = submit t s.core; pc = pc' }
      → Step n out s s'
  ends : s' ≡ record s { core = end s.core } → Step n out s s'
  adds :
      (fd : ℕ)
      → s.interest fd ≡ absent
      → s' ≡ record s { interest = put s.interest fd armed }
      → Step n out s s'
  calls :
      (i : ℕ)
      → i < n
      → s.pc i ≡ idle
      → s' ≡ record s { pc = put s.pc i (ready once) }
      → Step n out s s'

-- `coreimpl` before its threads run; only m_out is registered.
abbrev pub new_core : Core
new_core = record {
  backlog = [];
  outs = [];
  tasks = [];
  pollable = true;
  ended = false;
  begun = [];
  written = [];
}

-- All threads are workers, or are idle and will call `step_next`.
abbrev pub start : Pc → ℕ → System
start p out = record {
  core = new_core;
  pc = λ _. p;
  interest = λ fd. if fd == out then armed else absent;
}

pub data Reach (n out : ℕ) (p : Pc) : System → Type 0 where
  here : {s : System} → s ≡ start p out → Reach n out p s
  later : {r s : System} → Reach n out p r → Step n out r s → Reach n out p s
