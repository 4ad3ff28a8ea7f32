-- ===== src/Loop/Invariant.antt =====
-- Every step of the threads of src/mpsrc/wavy_base.cc keeps the invariant, and what follows from it.
use memxy.Prelude.{
  ℕ, zero, suc, ◌+◌, ◌≤◌, ◌<◌, ◌≡◌, ◌≢◌, refl, sym, subst, inl, inr, true, false, ◌∷◌, ◌==◌, put,
  total, le-total, total-const, arith, Bool-cases,
}
use memxy.Loop.{
  Mode, work, once, Pc, ready, waiting, polling, returned, running, writing, handling, shooting,
  idle, stopped, failed_poll, back, Core, turn, relock, timeout, submit, end,
}
use memxy.Loop.Steps.{
  Interest, absent, armed, disarmed, System, waits, disarm, Step, take, poll, expire, poll_fails,
  resume, ran, wrote, continues, finishes, shoot, wake, submits, ends, adds, calls, start, Reach,
  here, later,
}
use memxy.Loop.Places.{
  is_disarmed, Inv, Wake-same, Wake-waits, waits-back, polls-back, holds-back, moved, given_back,
  passes, drawn, took, resumed, gave_up,
}
use memxy.Loop.Weights.{polls, holds, turn-Taken, relock-Resumed}

timeout_ended :
    (c : Core) → c.ended ≡ true → timeout work c ≡ (record c { pollable = true }, stopped)
unfolding timeout
timeout_ended c e = ground arith

timeout_goes_on : (c : Core) → c.ended ≡ false → timeout work c ≡ (c, polling work)
unfolding timeout
timeout_goes_on c e = ground arith

timed_out :
    {n : ℕ} {s : System} (i : ℕ) (m : Mode)
    → Inv n s
    → i < n
    → s.pc i ≡ polling m
    → Inv n (record s { core = (timeout m s.core).0; pc = put s.pc i (timeout m s.core).1 })
unfolding timeout
timed_out {n} {s} i work v lt at = elim (Bool-cases s.core.ended) [
  | inl e ↦
      subst (λ (x : Core × Pc). Inv n (record s { core = x.0; pc = put s.pc i x.1 }))
        (sym (timeout_ended s.core e)) (gave_up i work stopped v lt at refl (λ fd. refl))
  | inr e ↦
      subst (λ (x : Core × Pc). Inv n (record s { core = x.0; pc = put s.pc i x.1 }))
        (sym (timeout_goes_on s.core e))
        (passes i (polling work) (polling work) v lt at refl refl (λ fd. refl))
]
timed_out i once v lt at = gave_up i once idle v lt at refl (λ fd. refl)

-- Every step keeps the invariant.
pub Step-Inv : {n out : ℕ} {s s' : System} → Step n out s s' → Inv n s → Inv n s'
unfolding submit end
Step-Inv {n} {out} {s} (take i m a pc' lt at w e) v =
    subst (Inv n) (sym e) (took i m (turn out a m s.core) v lt at (turn-Taken out a m s.core) w)
Step-Inv {n} {out} {s} (poll i m e es lt at a eq) v = subst (Inv n) (sym eq) (
    moved i (polling m) (returned m e es) (disarm (e ∷ es) s.interest) v lt at refl refl
      (λ fd. omega (arith, drawn s.interest (e ∷ es) fd a)))
Step-Inv {n} (expire i m lt at e) v = subst (Inv n) (sym e) (timed_out i m v lt at)
Step-Inv {n} (poll_fails i m lt at e) v =
    subst (Inv n) (sym e) (passes i (polling m) failed_poll v lt at refl refl (λ fd. refl))
Step-Inv {n} {out} {s} (resume i m e es a pc' lt at w eq) v =
    subst (Inv n) (sym eq)
      (resumed i e es m (relock out a m e es s.core) v lt at (relock-Resumed out a m e es s.core) w)
Step-Inv {n} (ran i m t lt at e) v =
    subst (Inv n) (sym e) (
      passes i (running m t) (back m) v lt at (polls-back m) (waits-back m) (λ fd. holds-back fd m))
Step-Inv {n} (wrote i m e lt at eq) v =
    subst (Inv n) (sym eq) (
      passes i (writing m e) (back m) v lt at (polls-back m) (waits-back m) (λ fd. holds-back fd m))
Step-Inv {n} (continues i m e lt at eq) v =
    subst (Inv n) (sym eq) (given_back i e m (handling m e) armed v lt at refl (λ fd. refl) refl)
Step-Inv {n} (finishes i m e lt at eq) v =
    subst (Inv n) (sym eq) (given_back i e m (handling m e) absent v lt at refl (λ fd. refl) refl)
Step-Inv {n} (shoot i m e lt at eq) v =
    subst (Inv n) (sym eq) (given_back i e m (shooting m e) armed v lt at refl (λ fd. refl) refl)
Step-Inv {n} (wake i m lt at e) v =
    subst (Inv n) (sym e)
      (passes i (waiting m) (back m) v lt at (polls-back m) (waits-back m) (λ fd. holds-back fd m))
Step-Inv {n} {out} {s} (submits t pc' w e) v = subst (Inv n) (sym e) (record {
  polled = omega (arith, Wake-same polls (λ m. sym (polls-back m)) w, v.polled);
  placed = λ fd. omega (arith, Wake-same (holds fd) (λ m. sym (holds-back fd m)) w, v.placed fd);
  drained = v.drained;
  awake = omega (arith, Wake-waits w, v.awake);
})
Step-Inv {n} (ends e) v =
    subst (Inv n) (sym e)
      (record { polled = v.polled; placed = v.placed; drained = v.drained; awake = v.awake })
Step-Inv {n} (adds fd free e) v = subst (Inv n) (sym e) (record {
  polled = v.polled;
  placed = λ x. elim (Bool-cases (fd == x)) [
    | inl same ↦ ground (arith, v.placed x, free)
    | inr other ↦ ground (arith, v.placed x)
  ];
  drained = v.drained;
  awake = v.awake;
})
Step-Inv {n} (calls i lt at e) v =
    subst (Inv n) (sym e) (passes i idle (ready once) v lt at refl refl (λ fd. refl))

start-Inv : (n out : ℕ) (m : Mode) → 0 < n → Inv n (start (back m) out)
start-Inv n out m pos = record {
  polled = total-const polls n (back m) (polls-back m);
  placed = λ fd. elim (Bool-cases (fd == out)) [
    | inl same ↦ ground (arith, total-const (holds fd) n (back m) (holds-back fd m))
    | inr other ↦ ground (arith, total-const (holds fd) n (back m) (holds-back fd m))
  ];
  drained = λ q. cc;
  awake = omega (arith, pos, total-const waits n (back m) (waits-back m));
}

-- In every state that `n` threads reach, workers or callers of `step_next`: the threads that poll are
-- none while m_pollable is set and one otherwise, counting one that failed to poll; a descriptor is
-- disarmed in the port exactly when its event is in the backlog or in the hands of a thread, and then
-- in one place only; the backlog is empty while a thread polls; and not all threads wait.
pub Reach-Inv : {n out : ℕ} (m : Mode) {s : System} → 0 < n → Reach n out (back m) s → Inv n s
Reach-Inv {n} {out} m pos (here e) = subst (Inv n) (sym e) (start-Inv n out m pos)
Reach-Inv m pos (later r st) = Step-Inv st (Reach-Inv m pos r)

total-two :
    (w : Pc → ℕ) (n : ℕ) (pc : ℕ → Pc) (i j : ℕ)
    → i < n
    → j < n
    → i ≢ j
    → w (pc i) + w (pc j) ≤ total w n pc
unfolding total
total-two w zero pc i j hi hj ne = absurd (omega arith)
total-two w (suc n) pc i j hi hj ne = elim (Bool-cases (i == n)) [
  | inl last ↦ ground (arith, le-total w n pc j)
  | inr below ↦ elim (Bool-cases (j == n)) [
    | inl last ↦ ground (arith, le-total w n pc i)
    | inr both ↦ ground (arith, total-two w n pc i j)
  ]
]

-- In every state that is reached, two threads never have the event of the same descriptor in their
-- hands, so that a handler never runs in two threads at once; and while one has it, the port will not
-- report the descriptor.
pub one_handler :
    {n out : ℕ} {s : System} (m : Mode) (i j fd : ℕ)
    → Reach n out (back m) s
    → i < n
    → j < n
    → 1 ≤ holds fd (s.pc i)
    → 1 ≤ holds fd (s.pc j)
    → (i ≡ j) × (s.interest fd ≡ disarmed)
one_handler {n} {out} {s} m i j fd r hi hj at_i at_j = (same, off)
  where
    v : Inv n s
    v = Reach-Inv m (omega arith) r

    bound : (x : Interest) → is_disarmed x ≤ 1
    bound x = ground arith

    only : (x : Interest) → 1 ≤ is_disarmed x → x ≡ disarmed
    only x h = ground arith

    off : s.interest fd ≡ disarmed
    off = only (s.interest fd) (omega (arith, le-total (holds fd) n s.pc i hi, v.placed fd))

    same : i ≡ j
    same = elim (Bool-cases (i == j)) [
      | inl e ↦ ground arith
      | inr ne ↦ absurd (
          omega (
            arith,
            total-two (holds fd) n s.pc i j hi hj (ground arith),
            v.placed fd,
            bound (s.interest fd),
          ))
    ]
