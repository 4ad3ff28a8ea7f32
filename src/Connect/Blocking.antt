-- ===== src/Connect/Blocking.antt =====
-- How the task of connect_thread ends, connect_task of src/mpsrc/wavy_connect.cc.
use memxy.Prelude.{
  ℕ, zero, suc, ◌+◌, ◌≤◌, ◌<◌, ◌≡◌, ◌≢◌, refl, sym, ap, ◌∙◌, ◌⊎◌, inl, inr, Option, none, some,
  Bool-cases, List, [], ◌∷◌, ◌==◌, if◌then◌else◌, arith,
}
use memxy.Connect.{
  eintr, einprogress, Answer, got, failed, Polled, ready, expired, broken, Effect, freed, closed,
  called, Kernel, Ending, connected, fails, read_error, wait, attempt, conclude, concluded,
  connect_task,
}

-- The first answer of poll that is no interruption is that of call `i`.
abbrev pub Answers : Kernel → ℕ → Type 0
Answers k i = ((n : ℕ) → n < i → k.poll n ≡ broken eintr) × (k.poll i ≢ broken eintr)

-- What that answer means.
abbrev polled : Polled → Answer → Ending
polled (broken e) a = fails e
polled expired a = fails 0
polled ready a = read_error a

wait_lem :
    (k : Kernel) (i fuel j : ℕ)
    → Answers k i
    → j ≤ i
    → i < j + fuel
    → wait k fuel j ≡ some (polled (k.poll i) k.so_error)
unfolding wait
wait_lem k i zero j h low high = absurd (omega arith)
wait_lem k i (suc fuel) j h low high = elim (Bool-cases (j == i)) [
  | inl here ↦ let e : j ≡ i = ground arith in rw (e) (decided (k.poll i) (h.1))
  | inr before ↦
      let interrupted = h.0 j (ground arith) in
      simp (interrupted, wait) (wait_lem k i fuel (suc j) h (ground arith) (omega arith))
]
  where
    decided :
        (p : Polled)
        → p ≢ broken eintr
        → ◌≡◌
            (elim p [
              | broken e ↦ if e == eintr then wait k fuel (suc i) else some (fails e)
              | expired ↦ some (fails 0)
              | ready ↦ some (read_error k.so_error)
            ])
            (some (polled p k.so_error))
    decided ready h = refl
    decided expired h = refl
    decided (broken e) h = elim (Bool-cases (e == eintr)) [
      | inl same ↦ absurd (h (ap broken (ground arith)))
      | inr other ↦ rw (other) refl
    ]

-- A connection stands: at once, or when poll says that the socket is descriptor and it has no error.
abbrev pub Established : Kernel → ℕ → Type 0
Established k i =
    (k.set_nonblock ≡ none)
    × ((k.connect ≡ none)
        ⊎ ((k.connect ≡ some einprogress) × (k.poll i ≡ ready) × (k.so_error ≡ got 0)))

-- The callback gets the connected socket, which stays connected; or no socket, and the one that was
-- created is closed.
abbrev pub IsAnswer : Kernel → ℕ → List Effect → Type 0
IsAnswer k i es =
    ((fd : ℕ) × (k.socket ≡ got fd) × Established k i × (es ≡ freed ∷ called (some fd) 0 ∷ []))
    ⊎ ((fd e : ℕ) × (k.socket ≡ got fd)
        × ¬ Established k i
        × (es ≡ closed fd ∷ freed ∷ called none e ∷ []))
    ⊎ ((e : ℕ) × (k.socket ≡ failed e) × (es ≡ freed ∷ called none e ∷ []))

abbrev Decides : Kernel → ℕ → Ending → Type 0
Decides k i connected = Established k i
Decides k i (fails e) = ¬ Established k i

refuted :
    (k : Kernel) (i e : ℕ)
    → k.connect ≡ some e
    → (e ≡ einprogress → k.poll i ≡ ready → k.so_error ≡ got 0 → ⊥)
    → ¬ Established k i
refuted k i e c never (nb, inl now) = cc
refuted k i e c never (nb, inr (c', r, z)) = never (some_inj (sym c ∙ c')) r z
  where
    some_inj : {x y : ℕ} → some x ≡ some y → x ≡ y
    some_inj h = cc

attempt_lem :
    (k : Kernel) (i fuel : ℕ)
    → Answers k i
    → i < fuel
    → (o : Ending) × (attempt k fuel ≡ some o) × Decides k i o
unfolding attempt read_error
attempt_lem k i fuel h lt = split k.set_nonblock k.connect refl refl
  where
    clash : {x : Option ℕ} {e : ℕ} → x ≡ some e → x ≡ none → ⊥
    clash p q = cc

    decided :
        (p : Polled) (a : Answer)
        → k.set_nonblock ≡ none
        → k.connect ≡ some einprogress
        → k.poll i ≡ p
        → k.so_error ≡ a
        → Decides k i (polled p a)
    decided (broken e) a nb c p q = refuted k i einprogress c (λ s r z. cc)
    decided expired a nb c p q = refuted k i einprogress c (λ s r z. cc)
    decided ready (failed e) nb c p q = refuted k i einprogress c (λ s r z. cc)
    decided ready (got zero) nb c p q = (nb, inr (c, p, q))
    decided ready (got (suc e)) nb c p q = refuted k i einprogress c (λ s r z. ground arith)

    split :
        (nb c : Option ℕ)
        → k.set_nonblock ≡ nb
        → k.connect ≡ c
        → (o : Ending) × (attempt k fuel ≡ some o) × Decides k i o
    split (some e) c p q =
        let runs : attempt k fuel ≡ some (fails e) = simp (attempt, p) refl in
        (fails e, runs, λ est. clash p est.0)
    split none none p q =
        let runs : attempt k fuel ≡ some connected = simp (attempt, p, q) refl in
        (connected, runs, (p, inl q))
    split none (some e) p q = elim (Bool-cases (e == einprogress)) [
      | inl same ↦
          let runs : attempt k fuel ≡ wait k fuel 0 = simp (attempt, p, q, same) refl in
          (
            polled (k.poll i) k.so_error,
            runs ∙ wait_lem k i fuel 0 h (omega arith) (omega arith),
            decided (k.poll i) k.so_error p (q ∙ ap some (ground arith)) refl refl,
          )
      | inr other ↦
          let runs : attempt k fuel ≡ some (fails e) = simp (attempt, p, q, other) refl in
          (fails e, runs, refuted k i e q (λ s r z. ground arith))
    ]

-- When a call of poll returns otherwise than interrupted, the task ends within the polls up to that
-- call. It has then freed its memory and called back once, at last: with the socket, if a connection
-- stands, and otherwise with none, after it has closed the socket that it had.
pub connect_task-IsAnswer :
    (k : Kernel) (i fuel : ℕ)
    → Answers k i
    → i < fuel
    → (es : List Effect) × (connect_task k fuel ≡ some es) × IsAnswer k i es
unfolding connect_task concluded conclude
connect_task-IsAnswer k i fuel h lt = go k.socket refl (attempt_lem k i fuel h lt)
  where
    go :
        (a : Answer)
        → k.socket ≡ a
        → (o : Ending) × (attempt k fuel ≡ some o) × Decides k i o
        → (es : List Effect) × (connect_task k fuel ≡ some es) × IsAnswer k i es
    go (failed e) p o =
        let runs : connect_task k fuel ≡ some (freed ∷ called none e ∷ []) =
          simp (connect_task, p) refl in
        (_, runs, inr (inr (e, p, refl)))
    go (got fd) p (connected, q, est) =
        let runs : connect_task k fuel ≡ some (freed ∷ called (some fd) 0 ∷ []) =
          simp (connect_task, p, q) refl in
        (_, runs, inl (fd, p, est, refl))
    go (got fd) p (fails e, q, est) =
        let runs : connect_task k fuel ≡ some (closed fd ∷ freed ∷ called none e ∷ []) =
          simp (connect_task, p, q) refl in
        (_, runs, inr (inl (fd, e, p, est, refl)))

-- A connection attempt that is under way when poll times out is reported as a failure with error
-- number 0.
pub connect_task_timeout :
    (k : Kernel) (fd i fuel : ℕ)
    → k.socket ≡ got fd
    → k.set_nonblock ≡ none
    → k.connect ≡ some einprogress
    → Answers k i
    → k.poll i ≡ expired
    → i < fuel
    → connect_task k fuel ≡ some (closed fd ∷ freed ∷ called none 0 ∷ [])
unfolding connect_task attempt concluded conclude
connect_task_timeout k fd i fuel p nb c h t lt =
    let waits = wait_lem k i fuel 0 h (omega arith) (omega arith) in
    let ends : wait k fuel 0 ≡ some (fails 0) = waits ∙ ap (λ x. some (polled x k.so_error)) t in
    simp (connect_task, attempt, p, nb, c, ends) refl
