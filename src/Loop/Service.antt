-- ===== src/Loop/Service.antt =====
-- What one thread serves: a loop with a single worker, and a worker beside one that polls.
use memxy.Prelude.{
  ℕ, zero, suc, ◌+◌, ◌<◌, ◌≡◌, refl, sym, ap, subst, ◌∙◌, Bool, true, false, List, [], ◌∷◌, ◌++◌,
  length, total, arith, append_assoc, append-nil,
}
use memxy.Loop.{
  Mode, work, Pc, ready, waiting, running, writing, back, Core, Answer, nothing, turn, relock,
  timeout, submit, end, serve, do_task, do_out, poll_event, on_event, next_event,
}
use memxy.Loop.Steps.{
  System, Step, take, poll, expire, poll_fails, resume, ran, wrote, continues, finishes, shoot,
  wake, submits, ends, adds, calls, Reach, here, later,
}
use memxy.Loop.Places.{Inv}
use memxy.Loop.Invariant.{Reach-Inv}
use memxy.Loop.Weights.{polls, unless}

-- A turn while nobody polls writes nothing out.
turn-written :
    (out : ℕ) (a : Answer) (m : Mode) (c : Core)
    → c.pollable ≡ true
    → (turn out a m c).core.written ≡ c.written
unfolding turn do_task next_event on_event poll_event
turn-written out a m c p = ground arith

relock-written :
    (out : ℕ) (a : Answer) (m : Mode) (e : ℕ) (es : List ℕ) (c : Core)
    → (relock out a m e es c).core.written ≡ c.written
unfolding relock on_event poll_event
relock-written out a m e es c = ground arith

timeout-written : (m : Mode) (c : Core) → (timeout m c).0.written ≡ c.written
unfolding timeout
timeout-written m c = ground arith

only_zero : (i : ℕ) → i < 1 → i ≡ 0
only_zero i h = omega arith

-- The only thread that takes the mutex finds that nobody polls.
nobody_polls :
    {s : System} (i : ℕ) (m : Mode) → Inv 1 s → i < 1 → s.pc i ≡ ready m → s.core.pollable ≡ true
unfolding total
nobody_polls {s} i m v lt at = go s.core.pollable v.polled
  where
    none_polls : polls (s.pc 0) ≡ 0
    none_polls = ap polls (subst (λ k. s.pc k ≡ ready m) (only_zero i lt) at)

    go : (b : Bool) → polls (s.pc 0) + 0 ≡ unless b → b ≡ true
    go true h = refl
    go false h = absurd (omega (arith, none_polls, h))

lone_step : {out : ℕ} {s s' : System} → Step 1 out s s' → Inv 1 s → s'.core.written ≡ s.core.written
unfolding submit end
lone_step {out} {s} (take i m a pc' lt at w e) v =
    ap (λ (x : System). x.core.written) e ∙ turn-written out a m s.core (nobody_polls i m v lt at)
lone_step (poll i m e es lt at a eq) v = ap (λ (x : System). x.core.written) eq
lone_step {s = s} (expire i m lt at e) v =
    ap (λ (x : System). x.core.written) e ∙ timeout-written m s.core
lone_step (poll_fails i m lt at e) v = ap (λ (x : System). x.core.written) e
lone_step {out} {s} (resume i m e es a pc' lt at w eq) v =
    ap (λ (x : System). x.core.written) eq ∙ relock-written out a m e es s.core
lone_step (ran i m t lt at e) v = ap (λ (x : System). x.core.written) e
lone_step (wrote i m e lt at eq) v = ap (λ (x : System). x.core.written) eq
lone_step (continues i m e lt at eq) v = ap (λ (x : System). x.core.written) eq
lone_step (finishes i m e lt at eq) v = ap (λ (x : System). x.core.written) eq
lone_step (shoot i m e lt at eq) v = ap (λ (x : System). x.core.written) eq
lone_step (wake i m lt at e) v = ap (λ (x : System). x.core.written) e
lone_step (submits t pc' w e) v = ap (λ (x : System). x.core.written) e
lone_step (ends e) v = ap (λ (x : System). x.core.written) e
lone_step (adds fd free e) v = ap (λ (x : System). x.core.written) e
lone_step (calls i lt at e) v = ap (λ (x : System). x.core.written) e

-- A loop with a single thread never calls `out::write_event`, whatever was polled and submitted: the
-- thread that takes the mutex finds m_pollable set, and the queue of `out` is served only while it
-- is not.
pub lone_thread_never_writes :
    {out : ℕ} (m : Mode) {s : System} → Reach 1 out (back m) s → s.core.written ≡ []
lone_thread_never_writes m (here e) = ap (λ (x : System). x.core.written) e
lone_thread_never_writes m (later r st) =
    lone_step st (Reach-Inv m (omega arith) r) ∙ lone_thread_never_writes m r

-- The rounds of one worker while another thread polls, as long as there is work: the log of what it
-- serves, a write or a task at a time, and the state.
pub data Served : Type 0 where
  wrote_out ran_task : ℕ → Served

pub what : Pc → List Served
what (writing m e) = wrote_out e ∷ []
what (running m t) = ran_task t ∷ []
what p = []

pub rounds : ℕ → ℕ → Core → List Served × Core
rounds zero out c = ([], c)
rounds (suc k) out c =
    let t = turn out nothing work c in let (log, c') = rounds k out t.core in (what t.pc ++ log, c')

pub map_outs : List ℕ → List Served
map_outs [] = []
map_outs (e ∷ es) = wrote_out e ∷ map_outs es

pub map_tasks : List ℕ → List Served
map_tasks [] = []
map_tasks (t ∷ ts) = ran_task t ∷ map_tasks ts

-- A loop in which another thread polls: its backlog, the two queues, and the two logs.
abbrev pub polled_by_other : List ℕ → List ℕ → List ℕ → List ℕ → List ℕ → Core
polled_by_other b es ts g w = record {
  backlog = b;
  outs = es;
  tasks = ts;
  pollable = false;
  ended = false;
  begun = g;
  written = w;
}

rounds-tasks :
    (out : ℕ) (b ts g w : List ℕ)
    → rounds (length ts) out (polled_by_other b [] ts g w)
      ≡ (map_tasks ts, polled_by_other b [] [] (g ++ ts) w)
unfolding rounds turn serve do_task what map_tasks
rounds-tasks out b [] g w = ap (λ r. ([], polled_by_other b [] [] r w)) (sym (append-nil g))
rounds-tasks out b (t ∷ ts) g w =
    rw (rounds-tasks out b ts (g ++ (t ∷ [])) w, append_assoc g (t ∷ []) ts) refl

-- While another thread polls and the loop has not ended, a worker that takes as many turns as there
-- is work queued writes out each descriptor and runs each task, in the order in which they were
-- queued, the descriptors first; and the turn behind waits.
pub rounds-serve :
    (out : ℕ) (b es ts g w : List ℕ)
    → (rounds (length (es ++ ts)) out (polled_by_other b es ts g w)
        ≡ (map_outs es ++ map_tasks ts, polled_by_other b [] [] (g ++ ts) (w ++ es)))
      × ((turn out nothing work (polled_by_other b [] [] (g ++ ts) (w ++ es))).pc ≡ waiting work)
unfolding rounds turn serve do_out what map_outs
rounds-serve out b [] ts g w = (rw (append-nil w) (rounds-tasks out b ts g w), refl)
rounds-serve out b (e ∷ es) ts g w =
    (rw ((rounds-serve out b es ts g (w ++ (e ∷ []))).0, append_assoc w (e ∷ []) es) refl, refl)
