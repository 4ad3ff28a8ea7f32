-- ===== src/Connect.antt =====
-- Connecting, src/mpsrc/wavy_connect.cc: the task of connect_thread, connect_event, and the handlers
-- of its descriptor and of its timer. What the kernel answers is a parameter; what the code does to
-- the descriptor, the memory and the caller is the list of its effects, in order.
pub mod Blocking
pub mod Racing
mod Tests
use memxy.Prelude.{
  ℕ, zero, suc, ◌+◌, ◌*◌, ◌/◌, ◌%◌, Bool, true, false, Option, none, some, List, [], ◌∷◌, ◌++◌,
  ◌==◌, if◌then◌else◌,
}

-- errno values of Linux.
abbrev pub eintr : ℕ
eintr = 4

abbrev pub etimedout : ℕ
etimedout = 110

abbrev pub einprogress : ℕ
einprogress = 115

-- What a system call returns: a number, or -1 with errno.
pub data Answer : Type 0 where
  got failed : ℕ → Answer

-- What ::poll returns for the one descriptor.
pub data Polled : Type 0 where
  ready expired : Polled
  broken : ℕ → Polled

-- `free(m)`, `close(fd)`, and the callback with its two arguments, where `none` is -1.
pub data Effect : Type 0 where
  freed : Effect
  closed : ℕ → Effect
  called : Option ℕ → ℕ → Effect

-- The kernel's answers: `socket`, `fcntl` and `connect` (errno, if they fail), `poll` by the number
-- of the call, and `getsockopt` with SO_ERROR.
pub record Kernel : Type 0 where
  pub socket : Answer
  pub set_nonblock : Option ℕ
  pub connect : Option ℕ
  pub poll : ℕ → Polled
  pub so_error : Answer

-- Whether a connection stands; if not, the value of `err`.
pub data Ending : Type 0 where
  connected : Ending
  fails : ℕ → Ending

-- The reading of `getsockopt`'s answer, in the task and in the handler.
pub read_error : Answer → Ending
read_error (failed e) = fails e
read_error (got zero) = connected
read_error (got (suc e)) = fails (suc e)

-- The loop around `poll`. On a timeout the code sets errno and leaves `err` at 0.
pub wait : Kernel → ℕ → ℕ → Option Ending
wait k zero i = none
wait k (suc fuel) i =
    let rest = wait k fuel (suc i) in
    elim (k.poll i) [
      | broken e ↦ if e == eintr then rest else some (fails e)
      | expired ↦ some (fails 0)
      | ready ↦ some (read_error k.so_error)
    ]

-- From the socket's creation to the labels at the end.
pub attempt : Kernel → ℕ → Option Ending
attempt k fuel = elim k.set_nonblock [
  | some e ↦ some (fails e)
  | none ↦ elim k.connect [
    | none ↦ some connected
    | some e ↦ if e == einprogress then wait k fuel 0 else some (fails e)
  ]
]

-- The labels `errno_error`, `specific_error` and `out`.
pub conclude : ℕ → Ending → List Effect
conclude fd connected = freed ∷ called (some fd) 0 ∷ []
conclude fd (fails e) = closed fd ∷ freed ∷ called none e ∷ []

pub concluded : ℕ → Option Ending → Option (List Effect)
concluded fd none = none
concluded fd (some o) = some (conclude fd o)

-- `connect_task::operator()`; `fuel` bounds the calls of `poll`.
pub connect_task : Kernel → ℕ → Option (List Effect)
connect_task k fuel = elim k.socket [
  | failed e ↦ some (freed ∷ called none e ∷ [])
  | got fd ↦ concluded fd (attempt k fuel)
]

-- `connect_handler`, with the effects so far.
pub record Handler : Type 0 where
  pub done : Bool
  pub effects : List Effect

-- The handler's effects once it has won m_done.
pub report : ℕ → Ending → List Effect
report fd connected = called (some fd) 0 ∷ []
report fd (fails e) = closed fd ∷ called none e ∷ []

-- `connect_handler::operator()` on the descriptor's event.
pub on_descriptor : ℕ → Answer → Handler → Handler
on_descriptor fd a h =
    if h.done
    then record h { effects = h.effects ++ (closed fd ∷ []) }
    else record { done = true; effects = h.effects ++ report fd (read_error a) }

-- `connect_handler::timeout`, which connect_timeout_handler calls.
pub on_timeout : Handler → Handler
on_timeout h =
    if h.done
    then h
    else record { done = true; effects = h.effects ++ (called none etimedout ∷ []) }

-- The timer's setting.
pub record Spec : Type 0 where
  pub sec : ℕ
  pub nsec : ℕ

pub timer_spec : ℕ → Spec
timer_spec msec = record { sec = msec / 1000; nsec = msec % 1000 * 1000 * 1000 }

-- What connect_event asks of the port: to register a handler for the descriptor (errno, if it
-- throws), to create a timer and to start it.
pub record Port : Type 0 where
  pub register : Option ℕ
  pub create_timer : Bool
  pub add_timer : Bool

-- What connect_event leaves: the answer, which a task gives, or a handler with its timer, if that
-- could be started.
pub data Begun : Type 0 where
  answered : List Effect → Begun
  pending : ℕ → Option Spec → Begun

-- The block `timeout`, whose exceptions are dropped.
pub start_timer : Port → ℕ → Option Spec
start_timer p msec =
    if p.create_timer then (if p.add_timer then some (timer_spec msec) else none) else none

-- The label `errno_error`.
pub give_up : ℕ → ℕ → Begun
give_up fd e = answered (closed fd ∷ called none e ∷ [])

-- `core::connect_event`; the socket is a blocking one.
pub connect_event : Kernel → Port → ℕ → Begun
connect_event k p msec = elim k.socket [
  | failed e ↦ answered (called none e ∷ [])
  | got fd ↦ elim k.connect [
    | none ↦ answered (called (some fd) 0 ∷ [])
    | some e ↦
        if e == einprogress
        then elim p.register [ some e' ↦ give_up fd e' | none ↦ pending fd (start_timer p msec) ]
        else give_up fd e
  ]
]
