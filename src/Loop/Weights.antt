-- ===== src/Loop/Weights.antt =====
-- How many threads stand where, and what a turn and a signal change of it.
use memxy.Prelude.{
  ℕ, ◌+◌, ◌≤◌, ◌≡◌, refl, ◌∙◌, inl, inr, Bool, true, false, not, List, [], ◌∷◌, length, ltb, ◌==◌,
  arith, Bool-cases,
}
use memxy.Loop.{
  task_queue_limit, Mode, work, once, Pc, ready, waiting, polling, returned, running, writing,
  handling, shooting, failed_poll, failed_out, Core, Turn, Answer, writable, nothing, broken,
  is_empty, turn, relock, serve, do_task, do_out, poll_event, on_event, next_event,
}
use memxy.Loop.Steps.{waits, count}

-- Threads that poll, or have failed to.
abbrev pub polls : Pc → ℕ
polls (polling m) = 1
polls (returned m e es) = 1
polls failed_poll = 1
polls p = 0

-- Threads that will take the mutex again without being woken.
abbrev pub active : Pc → ℕ
active (ready m) = 1
active (running m t) = 1
active (writing m e) = 1
active (handling m e) = 1
active (shooting m e) = 1
active p = 0

-- Threads that are no worker, or no more.
abbrev pub visits : Mode → ℕ
visits work = 0
visits once = 1

abbrev pub gone : Pc → ℕ
gone (ready m) = visits m
gone (waiting m) = visits m
gone (polling m) = visits m
gone (returned m e es) = visits m
gone (running m t) = visits m
gone (writing m e) = visits m
gone (handling m e) = visits m
gone (shooting m e) = visits m
gone p = 1

-- How often a thread has the event of a descriptor in its hands.
abbrev pub holds : ℕ → Pc → ℕ
holds fd (returned m e es) = count fd (e ∷ es)
holds fd (handling m e) = count fd (e ∷ [])
holds fd (shooting m e) = count fd (e ∷ [])
holds fd (failed_out e) = count fd (e ∷ [])
holds fd p = 0

abbrev pub unless : Bool → ℕ
unless true = 0
unless false = 1

-- What a turn from the state `c` leaves.
pub record Taken (c : Core) (t : Turn) : Type 0 where
  pub polled : polls t.pc + unless c.pollable ≡ unless t.core.pollable
  pub held : (fd : ℕ) → holds fd t.pc + count fd t.core.backlog ≡ count fd c.backlog
  pub one_place : waits t.pc + active t.pc + polls t.pc ≤ 1
  pub waits_behind : waits t.pc ≡ 1 → c.pollable ≡ false
  pub drained :
      (c.pollable ≡ false → c.backlog ≡ []) → t.core.pollable ≡ false → t.core.backlog ≡ []
  pub waits_empty : waits t.pc ≡ 1 → (t.core.tasks ≡ []) × (t.core.outs ≡ [])

do_task-Taken : (m : Mode) (ts : List ℕ) (c : Core) → Taken c (do_task m ts c)
unfolding do_task
do_task-Taken work [] c = ground arith
do_task-Taken once [] c = ground arith
do_task-Taken m (t ∷ ts) c = ground arith

do_out-Taken : (m : Mode) (es : List ℕ) (c : Core) → Taken c (do_out m es c)
unfolding do_out
do_out-Taken work [] c = ground arith
do_out-Taken once [] c = ground arith
do_out-Taken m (e ∷ es) c = ground arith

is_empty_lem : (xs : List ℕ) → not (is_empty xs) ≡ false → xs ≡ []
is_empty_lem [] h = refl
is_empty_lem (x ∷ xs) h = cc

serve-Taken : (m : Mode) (c : Core) → c.pollable ≡ false → Taken c (serve m c)
unfolding serve
serve-Taken m c p = elim (Bool-cases (not (is_empty c.outs))) [
  | inl more ↦ rw (more) (do_out-Taken m c.outs c)
  | inr no_outs ↦ elim (Bool-cases (not (is_empty c.tasks))) [
    | inl more ↦ rw (no_outs, more) (do_task-Taken m c.tasks c)
    | inr no_tasks ↦
        rw (no_outs, no_tasks)
          (record {
            polled = omega arith;
            held = λ fd. omega arith;
            one_place = omega arith;
            waits_behind = λ _. p;
            drained = λ d q. d q;
            waits_empty = λ _. (is_empty_lem c.tasks no_tasks, is_empty_lem c.outs no_outs);
          })
  ]
]

-- An event from the backlog of the state `c'`.
record OnEvent (e : ℕ) (c' : Core) (t : Turn) : Type 0 where
  same_pollable : t.core.pollable ≡ c'.pollable
  same_backlog : t.core.backlog ≡ c'.backlog
  holds_it : (fd : ℕ) → holds fd t.pc ≡ count fd (e ∷ [])
  no_poll : polls t.pc ≡ 0
  no_wait : waits t.pc ≡ 0
  at_most : active t.pc ≤ 1

on_event-OnEvent :
    (out : ℕ) (a : Answer) (m : Mode) (e : ℕ) (sig : Bool) (c : Core)
    → OnEvent e c (on_event out a m e sig c)
unfolding on_event poll_event
on_event-OnEvent out (writable es) m e sig c = elim (Bool-cases (e == out)) [
  | inl yes_out ↦ rw (yes_out) (ground arith)
  | inr other ↦ rw (other) (ground arith)
]
on_event-OnEvent out nothing m e sig c = elim (Bool-cases (e == out)) [
  | inl yes_out ↦ rw (yes_out) (ground arith)
  | inr other ↦ rw (other) (ground arith)
]
on_event-OnEvent out broken m e sig c = elim (Bool-cases (e == out)) [
  | inl yes_out ↦ rw (yes_out) (ground arith)
  | inr other ↦ rw (other) (ground arith)
]

on_event-signal :
    (out : ℕ) (a : Answer) (m : Mode) (e : ℕ) (sig : Bool) (c : Core)
    → (on_event out a m e sig c).signal ≡ sig
unfolding on_event
on_event-signal out a m e sig c = elim (Bool-cases (e == out)) [
  | inl yes_out ↦ rw (yes_out) refl
  | inr other ↦ rw (other) refl
]

next_event-Taken :
    (out : ℕ) (a : Answer) (m : Mode) (es : List ℕ) (c : Core)
    → c.pollable ≡ true
    → c.backlog ≡ es
    → Taken c (next_event out a m es c)
unfolding next_event
next_event-Taken out a m [] c p b = rw (b) (ground arith)
next_event-Taken out a m (e ∷ es) c p b =
    let o = on_event-OnEvent out a m e false (record c { backlog = es }) in
    record {
      polled = rw (o.no_poll, o.same_pollable) (omega arith);
      held = λ fd. rw (o.holds_it fd, o.same_backlog, b) (ground arith);
      one_place = omega (arith, o.no_poll, o.no_wait, o.at_most);
      waits_behind = λ h. absurd (omega (arith, o.no_wait, h));
      drained = λ d q. absurd (still_open (o.same_pollable ∙ p) q);
      waits_empty = λ h. absurd (omega (arith, o.no_wait, h));
    }
  where
    still_open : {b : Bool} → b ≡ true → b ≡ false → ⊥
    still_open p q = cc

pub turn-Taken : (out : ℕ) (a : Answer) (m : Mode) (c : Core) → Taken c (turn out a m c)
unfolding turn
turn-Taken out a work c = elim (Bool-cases c.ended) [
  | inl e ↦ rw (e) (ground arith)
  | inr e ↦ elim (Bool-cases c.pollable) [
    | inr p ↦ simp (e, p) (serve-Taken work c p)
    | inl p ↦ elim (Bool-cases (ltb task_queue_limit (length c.tasks))) [
      | inl many ↦ simp (e, p, many) (do_task-Taken work c.tasks c)
      | inr few ↦ simp (e, p, few) (next_event-Taken out a work c.backlog c p refl)
    ]
  ]
]
turn-Taken out a once c = elim (Bool-cases c.ended) [
  | inl e ↦ rw (e) (ground arith)
  | inr e ↦ elim (Bool-cases c.pollable) [
    | inr p ↦ simp (e, p) (serve-Taken once c p)
    | inl p ↦ elim (Bool-cases (not (is_empty c.tasks))) [
      | inl some_task ↦ simp (e, p, some_task) (do_task-Taken once c.tasks c)
      | inr none_left ↦ simp (e, p, none_left) (next_event-Taken out a once c.backlog c p refl)
    ]
  ]
]

-- What a thread leaves that came back from the poll with the events `e ∷ es`.
pub record Resumed (e : ℕ) (es : List ℕ) (t : Turn) : Type 0 where
  pub open_again : t.core.pollable ≡ true
  pub signals : t.signal ≡ true
  pub stored : t.core.backlog ≡ es
  pub holds_it : (fd : ℕ) → holds fd t.pc ≡ count fd (e ∷ [])
  pub no_poll : polls t.pc ≡ 0
  pub no_wait : waits t.pc ≡ 0

pub relock-Resumed :
    (out : ℕ) (a : Answer) (m : Mode) (e : ℕ) (es : List ℕ) (c : Core)
    → Resumed e es (relock out a m e es c)
unfolding relock
relock-Resumed out a m e es c =
    let c' : Core = record c { backlog = es; pollable = true } in
    let o = on_event-OnEvent out a m e true c' in
    record {
      open_again = o.same_pollable;
      signals = on_event-signal out a m e true c';
      stored = o.same_backlog;
      holds_it = o.holds_it;
      no_poll = o.no_poll;
      no_wait = o.no_wait;
    }
