-- ===== src/Listen/Accepting.antt =====
-- The handler of the listening descriptor of src/mpsrc/wavy_listen.cc: what becomes of the sockets that
-- it accepts.
use memxy.Prelude.{
  ℕ, zero, suc, ◌+◌, ◌≡◌, ◌<◌, refl, sym, ap, ◌∙◌, Bool, true, false, Bool-cases, ◌⊎◌, inl, inr,
  Option, none, some, List, [], ◌∷◌, ◌++◌, ◌==◌, ◌||◌, if◌then◌else◌, arith,
}
use memxy.Connect.{Answer, got, failed, eintr, Effect, freed, closed, called}
use memxy.Listen.{
  eagain, Stop, would_block, callback_failed, accept_failed, Door, handled, prefixed, on_failure,
  accept_all, Setup, Listening, listening, system_error, handler_failed, set_up, caught,
  listen_event,
}

-- The sockets that the effects hand to the callback, and those that they close.
abbrev pub sockets_called : List Effect → List ℕ
sockets_called [] = []
sockets_called (called (some fd) e ∷ es) = fd ∷ sockets_called es
sockets_called (called none e ∷ es) = sockets_called es
sockets_called (freed ∷ es) = sockets_called es
sockets_called (closed fd ∷ es) = sockets_called es

abbrev pub sockets_closed : List Effect → List ℕ
sockets_closed [] = []
sockets_closed (closed fd ∷ es) = fd ∷ sockets_closed es
sockets_closed (called s e ∷ es) = sockets_closed es
sockets_closed (freed ∷ es) = sockets_closed es

-- The sockets of `n` answers of accept from the `i`-th on, and those of them whose call throws.
abbrev pub accepted : Door → ℕ → ℕ → List ℕ
accepted k i zero = []
accepted k i (suc n) =
    let rest = accepted k (suc i) n in elim (k.accept i) [ got fd ↦ fd ∷ rest | failed e ↦ rest ]

abbrev pub thrown : Door → ℕ → ℕ → List ℕ
thrown k i zero = []
thrown k i (suc n) =
    let rest = thrown k (suc i) n in
    elim (k.accept i) [ got fd ↦ if k.throws i then fd ∷ rest else rest | failed e ↦ rest ]

-- The answers of accept are sockets.
abbrev pub AreSockets : Door → ℕ → ℕ → Type 0
AreSockets k i n = (j : ℕ) → j < n → (fd : ℕ) × (k.accept (i + j) ≡ got fd)

-- How the loop ends on an error of accept: it returns when no connection waits, and otherwise throws
-- what the callback throws, or a system_error.
abbrev pub stops : Bool → ℕ → Stop
stops threw e =
    if e == eagain || e == eintr
    then would_block
    else if threw
    then callback_failed
    else accept_failed

accept_all-got :
    (k : Door) (f i fd : ℕ)
    → k.accept i ≡ got fd
    → accept_all k (suc f) i ≡ prefixed (handled (k.throws i) fd) (accept_all k f (suc i))
unfolding accept_all
accept_all-got k f i fd = ap (λ (a : Answer). elim a [
  | got fd ↦ prefixed (handled (k.throws i) fd) (accept_all k f (suc i))
  | failed e ↦ some (on_failure (k.throws i) e)
])

accept_all-failed :
    (k : Door) (f i e : ℕ)
    → k.accept i ≡ failed e
    → accept_all k (suc f) i ≡ some (on_failure (k.throws i) e)
unfolding accept_all
accept_all-failed k f i e = ap (λ (a : Answer). elim a [
  | got fd ↦ prefixed (handled (k.throws i) fd) (accept_all k f (suc i))
  | failed e ↦ some (on_failure (k.throws i) e)
])

-- The effects on one socket.
called-handled :
    (threw : Bool) (fd : ℕ) (es : List Effect)
    → sockets_called (handled threw fd ++ es) ≡ fd ∷ sockets_called es
unfolding handled
called-handled true fd es = refl
called-handled false fd es = refl

closed-handled :
    (threw : Bool) (fd : ℕ) (es : List Effect)
    → sockets_closed (handled threw fd ++ es)
      ≡ (if threw then fd ∷ sockets_closed es else sockets_closed es)
unfolding handled
closed-handled true fd es = refl
closed-handled false fd es = refl

on_failure_lem :
    (threw : Bool) (e : ℕ)
    → (es : List Effect) × (on_failure threw e ≡ (stops threw e, es))
      × (sockets_called es ≡ [])
      × (sockets_closed es ≡ [])
unfolding on_failure
on_failure_lem threw e = elim (Bool-cases (e == eagain || e == eintr)) [
  | inl waits ↦ ([], rw (waits) refl, refl, refl)
  | inr bad ↦ (called none e ∷ [], rw (bad) refl, refl, refl)
]

-- When `n` calls of accept give sockets and the next one fails, the loop ends: the callback was called
-- on each of these sockets once and in order, the handler closed exactly those whose call threw, and
-- the error decides whether it returns or throws.
pub accept_all-ends :
    (k : Door) (n i e : ℕ)
    → AreSockets k i n
    → k.accept (i + n) ≡ failed e
    → (es : List Effect) × (accept_all k (suc n) i ≡ some (stops (k.throws (i + n)) e, es))
      × (sockets_called es ≡ accepted k i n)
      × (sockets_closed es ≡ thrown k i n)
unfolding prefixed
accept_all-ends k zero i e socks fails =
    let z : i + 0 ≡ i = omega arith in
    let (es, stop, none_called, none_closed) = on_failure_lem (k.throws (i + 0)) e in
    (
      es,
      accept_all-failed k 0 i e (ap k.accept (sym z) ∙ fails)
          ∙ ap (λ j. some (on_failure (k.throws j) e)) (sym z)
          ∙ ap some stop,
      none_called,
      none_closed,
    )
accept_all-ends k (suc n) i e socks fails =
    let (fd, first) = socks 0 (omega arith) in
    let z : i + 0 ≡ i = omega arith in
    let at : k.accept i ≡ got fd = ap k.accept (sym z) ∙ first in
    let last : suc i + n ≡ i + suc n = omega arith in
    let (es, runs, all_called, all_closed) =
      accept_all-ends k n (suc i) e
        (λ j lt.
          let (fd', h) = socks (suc j) (omega arith) in
          let e' : suc i + j ≡ i + suc j = omega arith in (fd', ap k.accept e' ∙ h))
        (ap k.accept last ∙ fails) in
    (
      handled (k.throws i) fd ++ es,
      accept_all-got k (suc n) i fd at
          ∙ ap (prefixed (handled (k.throws i) fd)) runs
          ∙ ap (λ j. some (stops (k.throws j) e, handled (k.throws i) fd ++ es)) last,
      rw (at, accepted) (called-handled (k.throws i) fd es ∙ ap (λ xs. fd ∷ xs) all_called),
      rw (at, thrown)
          (closed-handled (k.throws i) fd es
            ∙ ap (λ xs. if k.throws i then fd ∷ xs else xs) all_closed),
    )

-- The first call behind the socket that fails has the errno `e`.
abbrev pub FailsFirst : Setup → ℕ → Type 0
FailsFirst k e =
    (k.set_reuse ≡ some e)
    ⊎ ((k.set_reuse ≡ none) × ((k.bind ≡ some e) ⊎ ((k.bind ≡ none) × (k.listen ≡ some e))))

-- What listen_event may do: it returns the socket, open, when every call behind it succeeded; or it
-- throws, with the errno of the first call that failed or what add_handler threw, and the socket,
-- if there was one, is closed once.
abbrev pub IsAnswer : Setup → Listening × List Effect → Type 0
IsAnswer k (listening fd, es) =
    (k.socket ≡ got fd)
    × (k.set_reuse ≡ none)
    × (k.bind ≡ none)
    × (k.listen ≡ none)
    × (k.refuses ≡ false)
    × (es ≡ [])
IsAnswer k (system_error e, es) =
    ((k.socket ≡ failed e) × (es ≡ []))
    ⊎ ((fd : ℕ) × (k.socket ≡ got fd) × FailsFirst k e × (es ≡ closed fd ∷ []))
IsAnswer k (handler_failed, es) =
    (k.refuses ≡ true) × ((fd : ℕ) × (k.socket ≡ got fd) × (es ≡ closed fd ∷ []))

set_up-IsAnswer :
    (fd : ℕ) (reuse bind listen : Option ℕ) (refuses : Bool)
    → let k : Setup = record {
      socket = got fd;
      set_reuse = reuse;
      bind = bind;
      listen = listen;
      refuses = refuses;
    } in
      IsAnswer k (caught fd (set_up k fd))
unfolding set_up caught
set_up-IsAnswer fd (some e) bind listen refuses = inr (fd, refl, inl refl, refl)
set_up-IsAnswer fd none (some e) listen refuses = inr (fd, refl, inr (refl, inl refl), refl)
set_up-IsAnswer fd none none (some e) refuses = inr (fd, refl, inr (refl, inr (refl, refl)), refl)
set_up-IsAnswer fd none none none true = (refl, (fd, refl, refl))
set_up-IsAnswer fd none none none false = (refl, refl, refl, refl, refl, refl)

-- listen_event returns an open socket when all calls succeed, and otherwise throws and leaves no
-- socket open.
pub listen_event-IsAnswer : (k : Setup) → IsAnswer k (listen_event k)
unfolding listen_event
listen_event-IsAnswer k = go k.socket k.set_reuse k.bind k.listen k.refuses
  where
    go :
        (socket : Answer) (reuse bind listen : Option ℕ) (refuses : Bool)
        → let k' : Setup = record {
          socket = socket;
          set_reuse = reuse;
          bind = bind;
          listen = listen;
          refuses = refuses;
        } in
          IsAnswer k'
            (elim socket [ failed e ↦ (system_error e, []) | got fd ↦ caught fd (set_up k' fd) ])
    go (failed e) reuse bind listen refuses = inl (refl, refl)
    go (got fd) reuse bind listen refuses = set_up-IsAnswer fd reuse bind listen refuses
