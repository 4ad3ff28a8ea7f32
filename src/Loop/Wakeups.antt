-- ===== src/Loop/Wakeups.antt =====
-- Queued work finds a worker awake in every state that the workers of src/mpsrc/wavy_base.cc reach.
use memxy.Prelude.{
  ℕ, zero, suc, ◌+◌, ◌≤◌, ◌<◌, ◌≡◌, refl, ◌⊎◌, sym, ap, subst, inl, inr, Bool, true, false, List,
  length, ◌==◌, put, total, total-put, le-total, total-const, arith, Bool-cases,
}
use memxy.Loop.{
  serve, do_task, do_out, next_event, on_event, poll_event, Mode, work, once, Pc, ready, waiting,
  polling, returned, running, writing, handling, shooting, failed_poll, back, Core, Turn, Answer,
  turn, relock, timeout, submit, end,
}
use memxy.Loop.Steps.{
  System, waits, Wake, quiet, Step, take, poll, expire, poll_fails, resume, ran, wrote, continues,
  finishes, shoot, wake, submits, ends, adds, calls, Reach, here, later,
}
use memxy.Loop.Weights.{active, gone, visits, turn-Taken, Resumed, relock-Resumed}
use memxy.Loop.Progress.{
  put_self, Covered, Moved, Wake-gone, Wake-Woken, moves, took-Covered, somewhere,
}

turn-gone : (out : ℕ) (a : Answer) (m : Mode) (c : Core) → gone (ready m) ≤ gone (turn out a m c).pc
unfolding turn serve do_task do_out next_event on_event poll_event
turn-gone out a m c = ground arith

relock-gone :
    (out : ℕ) (a : Answer) (m : Mode) (e : ℕ) (es : List ℕ) (c : Core)
    → gone (returned m e es) ≤ gone (relock out a m e es c).pc
unfolding relock on_event poll_event
relock-gone out a m e es c = ground arith

timeout-stays : (m : Mode) (c : Core) → gone (timeout m c).1 ≡ 0 → timeout m c ≡ (c, polling m)
unfolding timeout
timeout-stays m c h = ground arith

-- A thread that moves on, and no less awake.
eased :
    {n : ℕ} {c : Core} {pc pc' : ℕ → Pc} {sig : Bool} (p p' : Pc)
    → Covered n c pc
    → Moved n pc pc' p p' sig
    → active p ≤ active p'
    → waits p' ≤ waits p
    → Covered n c pc'
eased p p' v d more fewer = record {
  two_awake = λ q some_wait.
      omega
        (arith, d.active_now, more, v.two_awake q (omega (arith, d.waiting_now, fewer, some_wait)));
  one_awake = λ q some_wait queued. omega (
    arith,
    d.active_now,
    more,
    v.one_awake q (omega (arith, d.waiting_now, fewer, some_wait)) queued,
  );
}

relocked-Covered :
    {n : ℕ} {pc pc' : ℕ → Pc} (m : Mode) (e : ℕ) (es : List ℕ) (t : Turn)
    → Resumed e es t
    → Moved n pc pc' (returned m e es) t.pc t.signal
    → Covered n t.core pc'
relocked-Covered {n} {pc} {pc'} m e es t k d = record {
  two_awake = λ q some_wait.
      omega (arith, d.active_now, d.stays, somewhere t.pc, k.no_wait, k.no_poll, woke some_wait);
  one_awake = λ q some_wait queued. absurd (clash k.open_again q);
}
  where
    clash : {b : Bool} → b ≡ true → b ≡ false → ⊥
    clash p q = cc

    woke : 0 < total waits n pc' → 1 ≤ d.woken
    woke some_wait = elim (Bool-cases (d.woken == 0)) [
      | inl none_woken ↦ absurd (omega (arith, some_wait, d.reached k.signals (ground arith)))
      | inr some_woken ↦ ground arith
    ]

submitted-Covered :
    {n : ℕ} {c : Core} {pc pc' : ℕ → Pc} (t : ℕ)
    → Covered n c pc
    → Wake n pc true pc'
    → total gone n pc' ≡ 0
    → Covered n (submit t c) pc'
unfolding submit
submitted-Covered {n} {c} {pc} {pc'} t v w g =
    let (woken, k) = Wake-Woken w g in
    record {
      two_awake =
          λ q some_wait. omega (arith, k.more, v.two_awake q (omega (arith, k.fewer, some_wait)));
      one_awake = λ q some_wait queued. elim (Bool-cases (woken == 0)) [
        | inl none_woken ↦ absurd (omega (arith, some_wait, k.fewer, k.reached refl (ground arith)))
        | inr some_woken ↦ ground (arith, k.more)
      ];
    }

-- No thread was gone before a move after which none is.
none_gone :
    {n : ℕ} (pc : ℕ → Pc) {pc' : ℕ → Pc} {sig : Bool} (i : ℕ) (p p' : Pc)
    → i < n
    → pc i ≡ p
    → gone p ≤ gone p'
    → Wake n (put pc i p') sig pc'
    → total gone n pc' ≡ 0
    → total gone n pc ≡ 0
none_gone {n} pc i p p' lt at le w g =
    omega (arith, Wake-gone w, total-put gone n pc i p' lt, ap gone at, le, g)

-- If all threads are workers, the loop is covered.
abbrev pub IsCovered : ℕ → System → Type 0
IsCovered n s = total gone n s.pc ≡ 0 → Covered n s.core s.pc

-- A move that leaves the state as it is.
passed :
    {n : ℕ} (s : System) (i : ℕ) (p p' : Pc)
    → IsCovered n s
    → i < n
    → s.pc i ≡ p
    → gone p ≤ gone p'
    → active p ≤ active p'
    → waits p' ≤ waits p
    → total gone n (put s.pc i p') ≡ 0
    → Covered n s.core (put s.pc i p')
passed {n} s i p p' v lt at le more fewer g =
    let w : Wake n (put s.pc i p') false (put s.pc i p') = quiet refl refl in
    eased p p' (v (none_gone s.pc i p p' lt at le w g)) (moves i p p' lt at w g) more fewer

gone-back : (m : Mode) → visits m ≤ gone (back m)
gone-back work = omega arith
gone-back once = omega arith

active-back : (m : Mode) → gone (back m) ≡ 0 → 1 ≤ active (back m)
active-back work g = omega arith
active-back once g = absurd (omega (arith, g))

waits-back : (m : Mode) → waits (back m) ≡ 0
waits-back work = refl
waits-back once = refl

gone-here :
    {n : ℕ} (pc : ℕ → Pc) (i : ℕ) (p : Pc) → i < n → total gone n (put pc i p) ≡ 0 → gone p ≡ 0
gone-here {n} pc i p lt g =
    omega (arith, le-total gone n (put pc i p) i lt, g, put_self gone pc i p)

-- A thread that is back.
came_back :
    {n : ℕ} (s : System) (i : ℕ) (p : Pc) (m : Mode)
    → IsCovered n s
    → i < n
    → s.pc i ≡ p
    → gone p ≡ visits m
    → active p ≤ 1
    → total gone n (put s.pc i (back m)) ≡ 0
    → Covered n s.core (put s.pc i (back m))
came_back {n} s i p m v lt at mode le g =
    passed s i p (back m) v lt at (omega (arith, mode, gone-back m))
      (omega (arith, le, active-back m (gone-here s.pc i (back m) lt g)))
      (omega (arith, waits-back m)) g

-- A thread that is gone afterwards is no case.
not_gone :
    {n : ℕ} (s : System) {C : Type 0} (i : ℕ) (p : Pc)
    → i < n
    → gone p ≡ 1
    → total gone n (put s.pc i p) ≡ 0
    → C
not_gone {n} s i p lt one_gone g = absurd (omega (arith, one_gone, gone-here s.pc i p lt g))

pub Step-IsCovered : {n out : ℕ} {s s' : System} → Step n out s s' → IsCovered n s → IsCovered n s'
unfolding end
Step-IsCovered {n} {out} {s} (take i m a pc' lt at w e) v =
    let t = turn out a m s.core in
    subst (IsCovered n) (sym e) (λ g.
      took-Covered i m t (v (none_gone s.pc i (ready m) t.pc lt at (turn-gone out a m s.core) w g))
        (turn-Taken out a m s.core) (moves i (ready m) t.pc lt at w g))
Step-IsCovered {n} {out} {s} (poll i m e es lt at a eq) v = subst (IsCovered n) (sym eq) (λ g.
    passed s i (polling m) (returned m e es) v lt at (omega arith) (omega arith) (omega arith) g)
Step-IsCovered {n} {out} {s} (expire i m lt at e) v = subst (IsCovered n) (sym e) (λ g.
    let same = timeout-stays m s.core (gone-here s.pc i (timeout m s.core).1 lt g) in
    subst (λ (x : Core × Pc). Covered n x.0 (put s.pc i x.1)) (sym same)
      (passed s i (polling m) (polling m) v lt at (omega arith) (omega arith) (omega arith)
        (subst (λ (x : Core × Pc). total gone n (put s.pc i x.1) ≡ 0) same g)))
Step-IsCovered {n} {out} {s} (poll_fails i m lt at e) v =
    subst (IsCovered n) (sym e) (λ g. not_gone s i failed_poll lt refl g)
Step-IsCovered {n} {out} {s} (resume i m e es a pc' lt at w eq) v =
    let t = relock out a m e es s.core in
    subst (IsCovered n) (sym eq) (λ g.
      relocked-Covered m e es t (relock-Resumed out a m e es s.core)
        (moves i (returned m e es) t.pc lt at w g))
Step-IsCovered {n} {out} {s} (ran i m t lt at e) v =
    subst (IsCovered n) (sym e) (λ g. came_back s i (running m t) m v lt at refl (omega arith) g)
Step-IsCovered {n} {out} {s} (wrote i m e lt at eq) v =
    subst (IsCovered n) (sym eq) (λ g. came_back s i (writing m e) m v lt at refl (omega arith) g)
Step-IsCovered {n} {out} {s} (continues i m e lt at eq) v =
    subst (IsCovered n) (sym eq) (λ g. came_back s i (handling m e) m v lt at refl (omega arith) g)
Step-IsCovered {n} {out} {s} (finishes i m e lt at eq) v =
    subst (IsCovered n) (sym eq) (λ g. came_back s i (handling m e) m v lt at refl (omega arith) g)
Step-IsCovered {n} {out} {s} (shoot i m e lt at eq) v =
    subst (IsCovered n) (sym eq) (λ g. came_back s i (shooting m e) m v lt at refl (omega arith) g)
Step-IsCovered {n} {out} {s} (wake i m lt at e) v =
    subst (IsCovered n) (sym e) (λ g. came_back s i (waiting m) m v lt at refl (omega arith) g)
Step-IsCovered {n} {out} {s} (submits t pc' w e) v =
    subst (IsCovered n) (sym e) (λ g. submitted-Covered t (v (omega (arith, Wake-gone w, g))) w g)
Step-IsCovered {n} (ends e) v =
    subst (IsCovered n) (sym e)
      (λ g. record { two_awake = (v g).two_awake; one_awake = (v g).one_awake })
Step-IsCovered {n} (adds fd free e) v = subst (IsCovered n) (sym e) v
Step-IsCovered {n} {out} {s} (calls i lt at e) v =
    subst (IsCovered n) (sym e) (λ g. not_gone s i (ready once) lt refl g)

pub Reach-IsCovered : {n out : ℕ} {s : System} → Reach n out (ready work) s → IsCovered n s
Reach-IsCovered {n} {out} (here e) = subst (IsCovered n) (sym e) (λ g. record {
  two_awake =
      λ q some_wait. absurd (omega (arith, some_wait, total-const waits n (ready work) refl));
  one_awake = λ q some_wait queued.
      absurd (omega (arith, some_wait, total-const waits n (ready work) refl));
})
Reach-IsCovered (later r st) = Step-IsCovered st (Reach-IsCovered r)

found : (w : Pc → ℕ) (n : ℕ) (pc : ℕ → Pc) → 1 ≤ total w n pc → (j : ℕ) × (j < n) × (1 ≤ w (pc j))
unfolding total
found w zero pc h = absurd (omega (arith, h))
found w (suc n) pc h = elim (Bool-cases (w (pc n) == 0)) [
  | inl none_here ↦ let (j, lt, at) = found w n pc (ground (arith, h)) in (j, omega (arith, lt), at)
  | inr one_here ↦ (n, omega arith, ground arith)
]

-- In every state that workers reach with none of them gone: while a thread polls and a task or a
-- writable descriptor is queued, or while no thread polls, a waiting worker is not alone: some worker
-- is awake, and will take the mutex without being woken.
pub no_lost_wakeup :
    {n out : ℕ} {s : System} (i : ℕ)
    → Reach n out (ready work) s
    → total gone n s.pc ≡ 0
    → i < n
    → s.pc i ≡ waiting work
    → (s.core.pollable ≡ true) ⊎ (0 < length s.core.outs + length s.core.tasks)
    → (j : ℕ) × (j < n) × (1 ≤ active (s.pc j))
no_lost_wakeup {n} {out} {s} i r g lt at h =
    found active n s.pc (awake h (Bool-cases s.core.pollable))
  where
    v : Covered n s.core s.pc
    v = Reach-IsCovered r g

    some_wait : 0 < total waits n s.pc
    some_wait = omega (arith, le-total waits n s.pc i lt, ap waits at)

    clash : {b : Bool} → b ≡ true → b ≡ false → ⊥
    clash p q = cc

    awake :
        (s.core.pollable ≡ true) ⊎ (0 < length s.core.outs + length s.core.tasks)
        → (s.core.pollable ≡ true) ⊎ (s.core.pollable ≡ false)
        → 1 ≤ total active n s.pc
    awake h (inl q) = omega (arith, v.two_awake q some_wait)
    awake (inl p) (inr q) = absurd (clash p q)
    awake (inr queued) (inr q) = v.one_awake q some_wait queued
