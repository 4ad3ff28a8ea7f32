-- ===== src/Loop/Places.antt =====
-- The invariant of the threads of src/mpsrc/wavy_base.cc: who polls, where a descriptor's event is, and
-- that some thread does not wait. The moves that its proof is made of.
use memxy.Prelude.{
  ℕ, zero, suc, ◌+◌, ◌≤◌, ◌<◌, ◌≡◌, refl, sym, ap, inl, inr, Bool, true, false, List, [], ◌∷◌, ◌==◌,
  if◌then◌else◌, put, total, total-put, le-total, arith, Bool-cases,
}
use memxy.Loop.{Mode, work, once, Pc, ready, waiting, polling, returned, back, Turn}
use memxy.Loop.Steps.{
  Interest, absent, armed, disarmed, System, waits, Wake, quiet, nobody, one, count, is_armed,
  Armed, disarm,
}
use memxy.Loop.Weights.{polls, holds, unless, Taken, Resumed}

abbrev pub is_disarmed : Interest → ℕ
is_disarmed disarmed = 1
is_disarmed i = 0

-- A signal does not change a sum that does not tell a waiting thread from one that is back.
pub Wake-same :
    (w : Pc → ℕ) {n : ℕ} {pc pc' : ℕ → Pc} {sig : Bool}
    → ((m : Mode) → w (waiting m) ≡ w (back m))
    → Wake n pc sig pc'
    → total w n pc' ≡ total w n pc
Wake-same w e (quiet off same) = rw (same)
Wake-same w e (nobody none_waits same) = rw (same)
Wake-same w {n} {pc} e (one j m lt at same) =
    rw (same) (omega (arith, total-put w n pc j (back m) lt, e m, ap w at))

pub waits-back : (m : Mode) → waits (back m) ≡ 0
waits-back work = refl
waits-back once = refl

-- It wakes at most one thread.
pub Wake-waits :
    {n : ℕ} {pc pc' : ℕ → Pc} {sig : Bool}
    → Wake n pc sig pc'
    → total waits n pc' ≤ total waits n pc
Wake-waits (quiet off same) = rw (same) (omega arith)
Wake-waits (nobody none_waits same) = rw (same) (omega arith)
Wake-waits {n} {pc} (one j m lt at same) =
    rw (same) (omega (arith, total-put waits n pc j (back m) lt, waits-back m))

-- The polling threads are as many as m_pollable says, a descriptor is disarmed exactly when its
-- event is in the backlog or in a thread's hands, once, and not all threads wait.
pub record Inv (n : ℕ) (s : System) : Type 0 where
  pub polled : total polls n s.pc ≡ unless s.core.pollable
  pub placed :
      (fd : ℕ) → total (holds fd) n s.pc + count fd s.core.backlog ≡ is_disarmed (s.interest fd)
  pub drained : s.core.pollable ≡ false → s.core.backlog ≡ []
  pub awake : total waits n s.pc < n

-- A thread goes from `p` to `p'`, and the port's registrations become `f`.
pub moved :
    {n : ℕ} {s : System} (i : ℕ) (p p' : Pc) (f : ℕ → Interest)
    → Inv n s
    → i < n
    → s.pc i ≡ p
    → polls p' ≡ polls p
    → waits p' ≡ 0
    → ((fd : ℕ) → is_disarmed (f fd) + holds fd p ≡ is_disarmed (s.interest fd) + holds fd p')
    → Inv n (record s { pc = put s.pc i p'; interest = f })
moved {n} {s} i p p' f v lt at pl wa ho = record {
  polled = omega (arith, v.polled, total-put polls n s.pc i p' lt, ap polls at, pl);
  placed = λ fd.
      omega (arith, v.placed fd, total-put (holds fd) n s.pc i p' lt, ap (holds fd) at, ho fd);
  drained = v.drained;
  awake = omega (arith, v.awake, total-put waits n s.pc i p' lt, wa);
}

pub polls-back : (m : Mode) → polls (back m) ≡ 0
polls-back work = refl
polls-back once = refl

pub holds-back : (fd : ℕ) (m : Mode) → holds fd (back m) ≡ 0
holds-back fd work = refl
holds-back fd once = refl

-- A thread that is back, from a place where it held the event `e`, whose registration becomes `x`.
pub given_back :
    {n : ℕ} {s : System} (i e : ℕ) (m : Mode) (p : Pc) (x : Interest)
    → Inv n s
    → i < n
    → s.pc i ≡ p
    → polls p ≡ 0
    → ((fd : ℕ) → holds fd p ≡ count fd (e ∷ []))
    → is_disarmed x ≡ 0
    → Inv n (record s { pc = put s.pc i (back m); interest = put s.interest e x })
given_back {n} {s} i e m p x v lt at pl ho off =
    moved i p (back m) (put s.interest e x) v lt at (omega (arith, pl, polls-back m)) (waits-back m)
      (λ fd. elim (Bool-cases (e == fd)) [
        | inl same ↦ ground (
          arith,
          v.placed fd,
          le-total (holds fd) n s.pc i lt,
          ap (holds fd) at,
          ho fd,
          holds-back fd m,
          off,
        )
        | inr other ↦ ground (arith, ho fd, holds-back fd m)
      ])

-- A thread that leaves a task or a write, or is called or woken.
pub passes :
    {n : ℕ} {s : System} (i : ℕ) (p p' : Pc)
    → Inv n s
    → i < n
    → s.pc i ≡ p
    → polls p' ≡ polls p
    → waits p' ≡ 0
    → ((fd : ℕ) → holds fd p' ≡ holds fd p)
    → Inv n (record s { pc = put s.pc i p' })
passes {n} {s} i p p' v lt at pl wa ho =
    moved i p p' s.interest v lt at pl wa (λ fd. omega (arith, ho fd))

disarm_one :
    (x : Interest) (c : ℕ)
    → c ≤ is_armed x
    → is_disarmed (if c == 0 then x else disarmed) ≡ is_disarmed x + c
disarm_one absent c h = ground arith
disarm_one armed c h = ground arith
disarm_one disarmed c h = ground arith

pub drawn :
    (f : ℕ → Interest) (es : List ℕ) (fd : ℕ)
    → Armed f es
    → is_disarmed (disarm es f fd) ≡ is_disarmed (f fd) + count fd es
drawn f es fd a = disarm_one (f fd) (count fd es) (a fd)

total_apart :
    (w w' : Pc → ℕ) (n : ℕ) (pc : ℕ → Pc)
    → ((p : Pc) → w p + w' p ≤ 1)
    → total w n pc + total w' n pc ≤ n
unfolding total
total_apart w w' zero pc h = omega arith
total_apart w w' (suc n) pc h = omega (arith, h (pc n), total_apart w w' n pc h)

waits_or_polls : (n : ℕ) (pc : ℕ → Pc) → total waits n pc + total polls n pc ≤ n
waits_or_polls n pc = total_apart waits polls n pc (λ p. ground arith)

-- A thread's turn with the mutex.
pub took :
    {n : ℕ} {s : System} (i : ℕ) (m : Mode) (t : Turn) {pc' : ℕ → Pc}
    → Inv n s
    → i < n
    → s.pc i ≡ ready m
    → Taken s.core t
    → Wake n (put s.pc i t.pc) t.signal pc'
    → Inv n (record s { core = t.core; pc = pc' })
took {n} {s} i m t v lt at k w = record {
  polled = omega (
    arith,
    Wake-same polls polls-back' w,
    total-put polls n s.pc i t.pc lt,
    ap polls at,
    k.polled,
    v.polled,
  );
  placed = λ fd. omega (
    arith,
    Wake-same (holds fd) (holds-back' fd) w,
    total-put (holds fd) n s.pc i t.pc lt,
    ap (holds fd) at,
    k.held fd,
    v.placed fd,
  );
  drained = k.drained v.drained;
  awake = elim (Bool-cases (waits t.pc == 0)) [
    | inl awake ↦ ground (arith, Wake-waits w, total-put waits n s.pc i t.pc lt, v.awake)
    | inr asleep ↦ omega (
      arith,
      Wake-waits w,
      waits_or_polls n (put s.pc i t.pc),
      total-put polls n s.pc i t.pc lt,
      ap polls at,
      another asleep,
      v.polled,
    )
  ];
}
  where
    another : (waits t.pc == 0) ≡ false → unless s.core.pollable ≡ 1
    another asleep = rw (k.waits_behind (ground (arith, k.one_place))) refl

    polls-back' : (m : Mode) → polls (waiting m) ≡ polls (back m)
    polls-back' m = sym (polls-back m)

    holds-back' : (fd : ℕ) (m : Mode) → holds fd (waiting m) ≡ holds fd (back m)
    holds-back' fd m = sym (holds-back fd m)

-- A thread's return from the poll into the mutex.
pub resumed :
    {n : ℕ} {s : System} (i e : ℕ) (es : List ℕ) (m : Mode) (t : Turn) {pc' : ℕ → Pc}
    → Inv n s
    → i < n
    → s.pc i ≡ returned m e es
    → Resumed e es t
    → Wake n (put s.pc i t.pc) t.signal pc'
    → Inv n (record s { core = t.core; pc = pc' })
resumed {n} {s} i e es m t v lt at k w =
    let one_polls : polls (s.pc i) ≡ 1 = ap polls at in
    let closed : s.core.pollable ≡ false =
      only_closed s.core.pollable
        (omega (arith, one_polls, le-total polls n s.pc i lt, v.polled)) in
    record {
      polled = rw (k.open_again) (
          omega (
            arith,
            Wake-same polls (λ m. sym (polls-back m)) w,
            total-put polls n s.pc i t.pc lt,
            one_polls,
            k.no_poll,
            v.polled,
            ap unless closed,
          ));
      placed = λ fd. rw (k.stored) (
          omega (
            arith,
            Wake-same (holds fd) (λ m. sym (holds-back fd m)) w,
            total-put (holds fd) n s.pc i t.pc lt,
            ap (holds fd) at,
            k.holds_it fd,
            v.placed fd,
            ap (count fd) (v.drained closed),
            split fd,
          ));
      drained = λ q. absurd (still_open k.open_again q);
      awake = omega (arith, Wake-waits w, total-put waits n s.pc i t.pc lt, k.no_wait, v.awake);
    }
  where
    only_closed : (b : Bool) → 1 ≤ unless b → b ≡ false
    only_closed true h = absurd (omega arith)
    only_closed false h = refl

    still_open : {b : Bool} → b ≡ true → b ≡ false → ⊥
    still_open p q = cc

    split : (fd : ℕ) → count fd (e ∷ es) ≡ count fd (e ∷ []) + count fd es
    split fd = ground arith

-- A polling thread that leaves opens the poll to others.
pub gave_up :
    {n : ℕ} {s : System} (i : ℕ) (m : Mode) (p' : Pc)
    → Inv n s
    → i < n
    → s.pc i ≡ polling m
    → polls p' + waits p' ≡ 0
    → ((fd : ℕ) → holds fd p' ≡ 0)
    → Inv n (record s { core = record s.core { pollable = true }; pc = put s.pc i p' })
gave_up {n} {s} i m p' v lt at off ho = record {
  polled = omega (
    arith,
    total-put polls n s.pc i p' lt,
    ap polls at,
    v.polled,
    unless-le s.core.pollable,
    off,
  );
  placed = λ fd.
      omega (arith, v.placed fd, total-put (holds fd) n s.pc i p' lt, ap (holds fd) at, ho fd);
  drained = λ q. cc;
  awake = omega (arith, v.awake, total-put waits n s.pc i p' lt, off);
}
  where
    unless-le : (b : Bool) → unless b ≤ 1
    unless-le b = ground arith
