-- ===== src/Listen/Tests.antt =====
-- A listening descriptor that accepts two sockets, of which the second is refused by its callback.
use memxy.Prelude.{ℕ, zero, suc, ◌≡◌, refl, some, List, [], ◌∷◌, ◌==◌, arith}
use memxy.Connect.{Answer, got, failed, Effect, closed, called}
use memxy.Listen.{would_block, Door, accept_all, eagain, prefixed, handled, on_failure}
use memxy.Listen.Accepting.{sockets_called, sockets_closed, AreSockets, accept_all-ends}

abbrev two_sockets : ℕ → Answer
two_sockets zero = got 7
two_sockets (suc zero) = got 8
two_sockets (suc (suc i)) = failed eagain

abbrev door : Door
door = record { accept = two_sockets; throws = λ i. i == 1 }

door_run :
    accept_all door 3 0 ≡ some (would_block, called (some 7) 0 ∷ called (some 8) 0 ∷ closed 8 ∷ [])
unfolding accept_all prefixed handled on_failure
door_run = refl

door-AreSockets : AreSockets door 0 2
door-AreSockets zero lt = (7, refl)
door-AreSockets (suc zero) lt = (8, refl)
door-AreSockets (suc (suc j)) lt = absurd (omega arith)

accept_all-ends_example :
    (es : List Effect) × (accept_all door 3 0 ≡ some (would_block, es))
    × (sockets_called es ≡ 7 ∷ 8 ∷ [])
    × (sockets_closed es ≡ 8 ∷ [])
accept_all-ends_example = accept_all-ends door 2 0 eagain door-AreSockets refl
