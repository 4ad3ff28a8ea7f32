-- ===== src/Control/Session.antt =====
-- A connection of the control gate, src/gate_control.cc, from its first byte on: any number of events
-- of read_event, one after the other.
use memxy.Prelude.{
  ℕ, ◌+◌, ◌^◌, ◌≤◌, ◌≡◌, sym, ap, subst, Option, none, some, List, [], ◌++◌, length, length-take,
  take, take-all, arith,
}
use memxy.Store.{Block, Store, Allocator}
use memxy.StreamBuffer.{StreamBuffer, contents}
use memxy.StreamBuffer.Reserve.{Live}
use memxy.Control.{Fault, Answer, received, finished, reserve_size, read_event}
use memxy.Control.Frames.{frames}
use memxy.Control.Chunks.{frames-append}
use memxy.Control.Events.{bytes_of, IsRead, read_event-IsRead}

-- A read that finds the bytes `bs`.
abbrev pub arriving : List ℕ → ℕ → Answer
arriving bs n = received (take n bs)

module _ {T : Type 0} (process_body : List ℕ → T → Option Fault × T) (A : Allocator) where
  -- Events without an exception that lead from one state of the handler to another, and the bytes that
  -- came in all; each brings at most the reserve size, and the buffer's size stays in range.
  pub data Session (s : StreamBuffer) (m : Store) (t : T)
      : List ℕ → StreamBuffer → Store → T → Type 0 where
    begun : Session s m t [] s m t
    event :
        (xs bs : List ℕ) (s' s'' : StreamBuffer) (m' m'' : Store) (t' t'' : T)
        → Session s m t xs s' m' t'
        → length bs ≤ reserve_size
        → s'.used + reserve_size ≤ 2 ^ 63
        → read_event process_body A (arriving bs) s' m' t' ≡ finished none s'' m'' t''
        → Session s m t (xs ++ bs) s'' m'' t''

  -- The buffer in use, and what its unread bytes are of the bytes that came.
  abbrev pub Parsed : List ℕ → T → StreamBuffer → Store → T → Type 0
  Parsed xs t s' m' t' =
      (b' : Block) × Live s' m' b'
      × ((fuel : ℕ) × (frames process_body fuel xs t ≡ some (none, contents s' b', t')))

  arriving_few : (bs : List ℕ) (n : ℕ) → length (bytes_of (arriving bs n)) ≤ n
  arriving_few bs n = omega (arith, length-take n bs)

  next-Parsed :
      (xs bs : List ℕ) (t t' t'' : T) (s' s'' : StreamBuffer) (m' m'' : Store)
      → Parsed xs t s' m' t'
      → length bs ≤ reserve_size
      → s'.used + reserve_size ≤ 2 ^ 63
      → read_event process_body A (arriving bs) s' m' t' ≡ finished none s'' m'' t''
      → Parsed (xs ++ bs) t s'' m'' t''
  next-Parsed xs bs t t' t'' s' s'' m' m'' (b', l, (f, e)) few room runs =
      let read =
        read_event-IsRead process_body A (arriving bs) s' m' b' t' l room (arriving_few bs) in
      let (n, h, (b'', l', (g, e'))) =
        subst (IsRead process_body A (arriving bs) (contents s' b') t') runs read in
      let all : take n bs ≡ bs = take-all n bs (omega arith) in
      (
        b'',
        l',
        (
          f + g,
          frames-append process_body f g (f + g) xs bs (contents s' b') t t' _ (omega arith) e (
              subst
                (λ y.
                  frames process_body g (contents s' b' ++ y) t'
                  ≡ some (none, contents s'' b'', t''))
                all e'),
        ),
      )

  -- A connection that begins with an empty buffer in use: after any events without an exception, in
  -- which read gives no more bytes than asked for and the buffer's size with the reserve size is at
  -- most 2^63, the handler has processed the frames of all bytes that came, as if they had come at
  -- once, what is behind the last frame is unread, and the buffer is in use.
  pub Session-Parsed :
      (s : StreamBuffer) (m : Store) (t : T) (b : Block)
      → Live s m b
      → contents s b ≡ []
      → {xs : List ℕ} {s' : StreamBuffer} {m' : Store} {t' : T} → Session s m t xs s' m' t'
      → Parsed xs t s' m' t'
  unfolding frames
  Session-Parsed s m t b l e begun = (b, l, (1, ap (λ d. some (none, d, t)) (sym e)))
  Session-Parsed s m t b l e (event xs bs s' s'' m' m'' t' t'' r few room runs) =
      next-Parsed xs bs t t' t'' s' s'' m' m'' (Session-Parsed s m t b l e r) few room runs
