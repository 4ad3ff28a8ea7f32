-- ===== src/Connect/Tests.antt =====
-- Concrete connection attempts of src/mpsrc/wavy_connect.cc.
use memxy.Prelude.{ℕ, zero, suc, ◌<◌, ◌≡◌, refl, true, none, some, List, [], ◌∷◌, arith}
use memxy.Connect.{
  eintr, einprogress, Answer, got, Polled, ready, expired, broken, Effect, freed, closed, called,
  Kernel, Port, connect_task, wait, attempt, read_error, conclude, concluded,
}
use memxy.Connect.Blocking.{Answers, IsAnswer, connect_task-IsAnswer}

-- poll is interrupted once, and then answers `p`.
abbrev polls : Polled → ℕ → Polled
polls p zero = broken eintr
polls p (suc n) = p

abbrev kernel : Polled → Answer → Kernel
kernel p a = record {
  socket = got 7;
  set_nonblock = none;
  connect = some einprogress;
  poll = polls p;
  so_error = a;
}

abbrev good : Kernel
good = kernel ready (got 0)

abbrev slow : Kernel
slow = kernel expired (got 0)

-- ECONNREFUSED
abbrev refused : Answer
refused = got 111

abbrev port : Port
port = record { register = none; create_timer = true; add_timer = true }

first_poll : (p : Polled) (n : ℕ) → n < 1 → polls p n ≡ broken eintr
first_poll p zero h = refl
first_poll p (suc n) h = absurd (omega arith)

good-Answers : Answers good 1
good-Answers = (first_poll ready, λ h. absurd cc)

slow-Answers : Answers slow 1
slow-Answers = (first_poll expired, λ h. absurd cc)

connects : connect_task good 2 ≡ some (freed ∷ called (some 7) 0 ∷ [])
unfolding connect_task attempt wait read_error concluded conclude
connects = refl

is_refused : connect_task (kernel ready refused) 2 ≡ some (closed 7 ∷ freed ∷ called none 111 ∷ [])
unfolding connect_task attempt wait read_error concluded conclude
is_refused = refl

connect_task-IsAnswer_example :
    (es : List Effect) × (connect_task good 2 ≡ some es) × IsAnswer good 1 es
connect_task-IsAnswer_example = connect_task-IsAnswer good 1 2 good-Answers (omega arith)
