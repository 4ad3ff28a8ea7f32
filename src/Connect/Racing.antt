-- ===== src/Connect/Racing.antt =====
-- connect_event of src/mpsrc/wavy_connect.cc, and the race of the two handlers that it registers: the
-- exchange of m_done orders their calls, so that a run is a list of calls.
use memxy.Prelude.{
  ℕ, ◌+◌, ◌*◌, ◌<◌, ◌≡◌, refl, ap, ◌∙◌, true, false, Option, none, some, List, [], ◌∷◌, ◌++◌,
  length, append-nil, arith,
}
use memxy.Connect.{
  etimedout, einprogress, Answer, got, Effect, freed, closed, called, Kernel, Ending, connected,
  fails, read_error, Handler, report, on_descriptor, on_timeout, Spec, Begun, answered, pending,
}

-- A call of one of the handlers.
pub data Call : Type 0 where
  descriptor : Answer → Call
  timer : Call

pub respond : ℕ → Call → Handler → Handler
respond fd (descriptor a) h = on_descriptor fd a h
respond fd timer h = on_timeout h

pub run : ℕ → List Call → Handler → Handler
run fd [] h = h
run fd (c ∷ cs) h = run fd cs (respond fd c h)

abbrev pub fresh : Handler
fresh = record { done = false; effects = [] }

-- The calls of the callback.
abbrev pub answers : List Effect → List (Option ℕ × ℕ)
answers [] = []
answers (called o e ∷ es) = (o, e) ∷ answers es
answers (closed fd ∷ es) = answers es
answers (freed ∷ es) = answers es

-- How often the socket has left the code's hands: closed, or given to the caller.
abbrev pub settles : List Effect → ℕ
settles [] = 0
settles (called (some fd) e ∷ es) = 1 + settles es
settles (called none e ∷ es) = settles es
settles (closed fd ∷ es) = 1 + settles es
settles (freed ∷ es) = settles es

abbrev pub descriptors : List Call → ℕ
descriptors [] = 0
descriptors (descriptor a ∷ cs) = 1 + descriptors cs
descriptors (timer ∷ cs) = descriptors cs

-- What a call has the callback say, if it is the first.
abbrev pub judge : ℕ → Ending → Option ℕ × ℕ
judge fd connected = (some fd, 0)
judge fd (fails e) = (none, e)

abbrev pub verdict : ℕ → Call → Option ℕ × ℕ
verdict fd (descriptor a) = judge fd (read_error a)
verdict fd timer = (none, etimedout)

answers-append : (xs ys : List Effect) → answers (xs ++ ys) ≡ answers xs ++ answers ys
answers-append [] ys = refl
answers-append (called o e ∷ xs) ys = ap (λ l. (o, e) ∷ l) (answers-append xs ys)
answers-append (closed fd ∷ xs) ys = answers-append xs ys
answers-append (freed ∷ xs) ys = answers-append xs ys

settles-append : (xs ys : List Effect) → settles (xs ++ ys) ≡ settles xs + settles ys
settles-append [] ys = omega arith
settles-append (called (some fd) e ∷ xs) ys = omega (arith, settles-append xs ys)
settles-append (called none e ∷ xs) ys = settles-append xs ys
settles-append (closed fd ∷ xs) ys = omega (arith, settles-append xs ys)
settles-append (freed ∷ xs) ys = settles-append xs ys

-- Once m_done is set, the callback is not called again, and each event of the descriptor closes it.
late :
    (fd : ℕ) (cs : List Call) (es : List Effect)
    → let h = run fd cs (record { done = true; effects = es }) in
      (answers h.effects ≡ answers es) × (settles h.effects ≡ settles es + descriptors cs)
unfolding run respond on_descriptor on_timeout
late fd [] es = (refl, omega arith)
late fd (timer ∷ cs) es = late fd cs es
late fd (descriptor a ∷ cs) es =
    let (same, left) = late fd cs (es ++ (closed fd ∷ [])) in
    (
      same ∙ answers-append es (closed fd ∷ []) ∙ append-nil (answers es),
      omega (arith, left, settles-append es (closed fd ∷ [])),
    )

-- Whichever handler is called first has the callback called, and no other call does; each event of
-- the descriptor closes the socket or hands it over, once.
pub race-settled :
    (fd : ℕ) (c : Call) (cs : List Call)
    → let h = run fd (c ∷ cs) fresh in
      (answers h.effects ≡ verdict fd c ∷ []) × (settles h.effects ≡ descriptors (c ∷ cs))
unfolding run respond on_descriptor on_timeout report
race-settled fd timer cs =
    let (once, left) = late fd cs (called none etimedout ∷ []) in (once, omega (arith, left))
race-settled fd (descriptor a) cs = first (read_error a)
  where
    first :
        (o : Ending)
        → let h = run fd cs (record { done = true; effects = report fd o }) in
          (answers h.effects ≡ judge fd o ∷ []) × (settles h.effects ≡ 1 + descriptors cs)
    first connected = late fd cs (called (some fd) 0 ∷ [])
    first (fails e) = late fd cs (closed fd ∷ called none e ∷ [])

-- What comes of connect_event when the handlers are then called as `cs` says.
pub finish : Begun → List Call → List Effect
finish (answered es) cs = es
finish (pending fd t) cs = (run fd cs fresh).effects

-- The timer runs out after `msec`, and its setting is in the kernel's bounds.
abbrev pub IsTimer : ℕ → Option Spec → Type 0
IsTimer msec none = Unit
IsTimer msec (some t) = (t.sec * 1000000000 + t.nsec ≡ msec * 1000000) × (t.nsec < 1000000000)

-- Answered: the callback is called once, and a socket is closed or handed over. Pending: the first
-- call of a handler, and no other, has the callback called; the socket is closed or handed over as
-- often as the descriptor has an event, so not by the timer.
abbrev pub IsBegun : Kernel → ℕ → Begun → Type 0
IsBegun k msec (answered es) =
    (length (answers es) ≡ 1) × ((fd : ℕ) → k.socket ≡ got fd → settles es ≡ 1)
IsBegun k msec (pending fd t) =
    (k.socket ≡ got fd)
    × (k.connect ≡ some einprogress)
    × IsTimer msec t
    × ((c : Call) (cs : List Call)
        → (answers (finish (pending fd t) (c ∷ cs)) ≡ verdict fd c ∷ [])
          × (settles (finish (pending fd t) (c ∷ cs)) ≡ descriptors (c ∷ cs)))
