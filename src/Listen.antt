-- ===== src/Listen.antt =====
-- Listening, src/mpsrc/wavy_listen.cc: listen_event and the handler of the listening descriptor. The
-- kernel's answers and what the callback does are parameters; the answers and the effects are those of
-- connecting.
pub mod Accepting
mod Tests
use memxy.Prelude.{
  ℕ, zero, suc, Bool, true, false, ◌||◌, Option, none, some, List, [], ◌∷◌, ◌++◌, ◌==◌,
  if◌then◌else◌,
}
use memxy.Connect.{Answer, got, failed, eintr, Effect, closed, called}

-- EAGAIN of Linux.
abbrev pub eagain : ℕ
eagain = 11

-- How the handler's `read_event` ends: it returns, or an exception of the callback or its own leaves.
pub data Stop : Type 0 where
  would_block callback_failed accept_failed : Stop

-- What `accept` answers to the call of a number, and whether the call of the callback behind it
-- throws.
pub record Door : Type 0 where
  pub accept : ℕ → Answer
  pub throws : ℕ → Bool

-- The callback on an accepted socket, which is closed when the callback throws.
unfoldable pub handled : Bool → ℕ → List Effect
handled threw fd = called (some fd) 0 ∷ (if threw then closed fd ∷ [] else [])

unfoldable pub prefixed : List Effect → Option (Stop × List Effect) → Option (Stop × List Effect)
prefixed es none = none
prefixed es (some (stop, rest)) = some (stop, es ++ rest)

-- `accept` failed.
unfoldable pub on_failure : Bool → ℕ → Stop × List Effect
on_failure threw e =
    if e == eagain || e == eintr
    then (would_block, [])
    else (if threw then callback_failed else accept_failed, called none e ∷ [])

-- The loop of `listen_handler::read_event` from the `i`-th call of `accept` on, with fuel; `none` is a
-- loop that has not ended.
unfoldable pub accept_all : Door → ℕ → ℕ → Option (Stop × List Effect)
accept_all k zero i = none
accept_all k (suc fuel) i =
    let rest = accept_all k fuel (suc i) in
    elim (k.accept i) [
      | got fd ↦ prefixed (handled (k.throws i) fd) rest
      | failed e ↦ some (on_failure (k.throws i) e)
    ]

-- What `core::listen_event` calls: `socket`, and the errno of `setsockopt`, `bind` and `listen`, if
-- they fail; and whether `add_handler` throws.
pub record Setup : Type 0 where
  pub socket : Answer
  pub set_reuse : Option ℕ
  pub bind : Option ℕ
  pub listen : Option ℕ
  pub refuses : Bool

-- The descriptor that is returned, a system_error, or what `add_handler` threw.
pub data Listening : Type 0 where
  listening system_error : ℕ → Listening
  handler_failed : Listening

-- The body of `try`.
unfoldable pub set_up : Setup → ℕ → Listening
set_up k fd = elim k.set_reuse [
  | some e ↦ system_error e
  | none ↦ elim k.bind [
    | some e ↦ system_error e
    | none ↦ elim k.listen [
      | some e ↦ system_error e
      | none ↦ if k.refuses then handler_failed else listening fd
    ]
  ]
]

-- `catch(...)`
unfoldable pub caught : ℕ → Listening → Listening × List Effect
caught fd (listening s) = (listening s, [])
caught fd (system_error e) = (system_error e, closed fd ∷ [])
caught fd handler_failed = (handler_failed, closed fd ∷ [])

-- `core::listen_event`
unfoldable pub listen_event : Setup → Listening × List Effect
listen_event k = elim k.socket [
  | failed e ↦ (system_error e, [])
  | got fd ↦ caught fd (set_up k fd)
]
