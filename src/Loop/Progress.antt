-- ===== src/Loop/Progress.antt =====
-- No wake-up is lost among the workers of src/mpsrc/wavy_base.cc: queued work finds a worker that is
-- awake, although a signal is sent without a look at who waits.
use memxy.Prelude.{
  ℕ, ◌+◌, ◌≤◌, ◌<◌, ◌≡◌, refl, ap, inl, inr, Bool, true, false, List, [], length, ◌==◌, put, total,
  total-put, le-total, total-eq-zero, arith, Bool-cases,
}
use memxy.Loop.{Mode, work, once, Pc, ready, waiting, idle, back, Core, Turn}
use memxy.Loop.Steps.{waits, Wake, quiet, nobody, one}
use memxy.Loop.Weights.{polls, active, gone, unless, Taken}

-- While some thread waits: a loop that can be polled has two workers awake, and a loop that is polled
-- has one, if there is work queued.
pub record Covered (n : ℕ) (c : Core) (pc : ℕ → Pc) : Type 0 where
  pub two_awake : c.pollable ≡ true → 0 < total waits n pc → 2 ≤ total active n pc
  pub one_awake :
      c.pollable ≡ false
      → 0 < total waits n pc
      → 0 < length c.outs + length c.tasks
      → 1 ≤ total active n pc

-- What a signal changes, among workers.
pub record Woken (n : ℕ) (pc pc' : ℕ → Pc) (sig : Bool) (woken : ℕ) : Type 0 where
  pub fewer : total waits n pc' + woken ≡ total waits n pc
  pub more : total active n pc' ≡ total active n pc + woken
  pub reached : sig ≡ true → woken ≡ 0 → total waits n pc ≡ 0

gone-back : (m : Mode) → gone (waiting m) ≤ gone (back m)
gone-back work = omega arith
gone-back once = omega arith

-- Threads that are gone stay so.
pub Wake-gone :
    {n : ℕ} {pc pc' : ℕ → Pc} {sig : Bool} → Wake n pc sig pc' → total gone n pc ≤ total gone n pc'
Wake-gone (quiet off same) = rw (same) (omega arith)
Wake-gone (nobody none_waits same) = rw (same) (omega arith)
Wake-gone {n} {pc} (one j m lt at same) =
    rw (same) (omega (arith, total-put gone n pc j (back m) lt, gone-back m, ap gone at))

pub Wake-Woken :
    {n : ℕ} {pc pc' : ℕ → Pc} {sig : Bool}
    → Wake n pc sig pc'
    → total gone n pc' ≡ 0
    → (woken : ℕ) × Woken n pc pc' sig woken
Wake-Woken {n} {pc} (quiet off same) g = (
  0,
  rw (same)
      (record { fewer = omega arith; more = omega arith; reached = λ on. absurd (clash on off) }),
)
  where
    clash : {b : Bool} → b ≡ true → b ≡ false → ⊥
    clash p q = cc
Wake-Woken {n} {pc} (nobody none_waits same) g = (
  0,
  rw (same) (record {
    fewer = omega arith;
    more = omega arith;
    reached = λ on _. total-eq-zero waits n pc none_waits;
  }),
)
Wake-Woken {n} {pc} (one j work lt at same) g = (
  1,
  rw (same) (record {
    fewer = omega (arith, total-put waits n pc j (back work) lt, ap waits at);
    more = omega (arith, total-put active n pc j (back work) lt, ap active at);
    reached = λ on z. absurd (omega (arith, z));
  }),
)
Wake-Woken {n} {pc} (one j once lt at same) g =
    absurd (omega (arith, le-total gone n (put pc j idle) j lt, ap (total gone n) same, here_gone))
  where
    here_gone : gone (put pc j idle j) ≡ 1
    here_gone = ground arith

pub somewhere : (p : Pc) → 1 ≤ waits p + active p + polls p + gone p
somewhere p = ground arith

pub put_self : {A : Type 0} (w : A → ℕ) (f : ℕ → A) (i : ℕ) (a : A) → w (put f i a i) ≡ w a
put_self w f i a = ground arith

-- A thread is at `p'` now, and `pc'` is what the signal behind it leaves.
pub record Moved (n : ℕ) (pc pc' : ℕ → Pc) (p p' : Pc) (sig : Bool) : Type 0 where
  pub woken : ℕ
  pub waiting_now : total waits n pc' + woken + waits p ≡ total waits n pc + waits p'
  pub active_now : total active n pc' + active p ≡ total active n pc + active p' + woken
  pub was_active : active p ≤ total active n pc
  pub reached : sig ≡ true → woken ≡ 0 → total waits n pc' ≡ 0
  pub stays : gone p' ≡ 0

pub moves :
    {n : ℕ} {pc pc' : ℕ → Pc} {sig : Bool} (i : ℕ) (p p' : Pc)
    → i < n
    → pc i ≡ p
    → Wake n (put pc i p') sig pc'
    → total gone n pc' ≡ 0
    → Moved n pc pc' p p' sig
moves {n} {pc} i p p' lt at w g =
    let (woken, k) = Wake-Woken w g in
    record {
      woken = woken;
      waiting_now = omega (arith, k.fewer, total-put waits n pc i p' lt, ap waits at);
      active_now = omega (arith, k.more, total-put active n pc i p' lt, ap active at);
      was_active = omega (arith, le-total active n pc i lt, ap active at);
      reached = λ on z. omega (arith, k.fewer, k.reached on z);
      stays =
          omega (arith, Wake-gone w, g, le-total gone n (put pc i p') i lt, put_self gone pc i p');
    }

empty-length : (xs : List ℕ) → xs ≡ [] → length xs ≡ 0
empty-length xs e = rw (e) refl

pub took-Covered :
    {n : ℕ} {c : Core} {pc pc' : ℕ → Pc} (i : ℕ) (m : Mode) (t : Turn)
    → Covered n c pc
    → Taken c t
    → Moved n pc pc' (ready m) t.pc t.signal
    → Covered n t.core pc'
took-Covered {n} {c} {pc} {pc'} i m t v k d = record {
  two_awake = λ q some_wait.
      let now_open : unless t.core.pollable ≡ 0 = ap unless q in
      let was_open : c.pollable ≡ true = opens c.pollable (omega (arith, k.polled, now_open)) in
      let no_wait : waits t.pc ≡ 0 = stands was_open in
      omega (
        arith,
        d.waiting_now,
        d.active_now,
        d.stays,
        somewhere t.pc,
        k.polled,
        now_open,
        no_wait,
        v.two_awake was_open (omega (arith, d.waiting_now, no_wait, some_wait)),
      );
  one_awake = λ q some_wait queued. elim (Bool-cases c.pollable) [
    | inl was_open ↦
        let no_wait : waits t.pc ≡ 0 = stands was_open in
        omega (
          arith,
          d.active_now,
          v.two_awake was_open (omega (arith, d.waiting_now, no_wait, some_wait)),
        )
    | inr was_closed ↦ elim (Bool-cases (waits t.pc == 1)) [
      | inl asleep ↦
          let (no_tasks, no_outs) = k.waits_empty (ground arith) in
          absurd (
            omega
              (arith, queued, empty-length t.core.tasks no_tasks, empty-length t.core.outs no_outs))
      | inr awake ↦
          let no_wait : waits t.pc ≡ 0 = ground (arith, k.one_place) in
          omega (
            arith,
            d.active_now,
            d.was_active,
            d.stays,
            somewhere t.pc,
            no_wait,
            k.polled,
            ap unless q,
            ap unless was_closed,
          )
    ]
  ];
}
  where
    opens : (b : Bool) → unless b ≡ 0 → b ≡ true
    opens true h = refl
    opens false h = absurd (omega (arith, h))

    clash : {b : Bool} → b ≡ true → b ≡ false → ⊥
    clash p q = cc

    stands : c.pollable ≡ true → waits t.pc ≡ 0
    stands was_open = elim (Bool-cases (waits t.pc == 1)) [
      | inl asleep ↦ absurd (clash was_open (k.waits_behind (ground arith)))
      | inr awake ↦ ground (arith, k.one_place)
    ]
