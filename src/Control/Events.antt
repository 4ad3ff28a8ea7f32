-- ===== src/Control/Events.antt =====
-- One event of the control gate's handler, read_event of src/gate_control.cc, over the stream buffer.
use memxy.Prelude.{
  ℕ, zero, suc, ◌+◌, ◌-◌, ◌^◌, ◌≤◌, ◌≡◌, refl, sym, ap, subst, ◌∙◌, false, inl, inr, Bool-cases,
  Option, none, some, List, [], ◌++◌, length, take, drop, ltb, arith,
}
use memxy.Store.{Block, Store, Allocator, Outcome, ok, err, bad_alloc, put_block, ==_self}
use memxy.StreamBuffer.{
  StreamBuffer, data_size, data_used, contents, buffer_capacity, buffer_consumed, reserve_buffer,
}
use memxy.StreamBuffer.Contents.{
  IsValid, length-contents, data_used_lem, buffer_consumed_lem, filled,
}
use memxy.StreamBuffer.Reserve.{Live, Reserved, reserve_buffer-Reserved}
use memxy.Control.{
  Fault, frame_size, on_body, read_frames, Answer, received, end_of_file, interrupted, failed,
  connection_closed, connection_broken, ReadResult, finished, dropped, refused,
  initial_allocation_size, reserve_size, looped, read_buffer, on_read, read_event,
}
use memxy.Control.Frames.{frames, view, read_frames-frames, read_frames_end}

-- The bytes of an answer.
abbrev pub bytes_of : Answer → List ℕ
bytes_of (received bs) = bs
bytes_of end_of_file = []
bytes_of interrupted = []
bytes_of failed = []

module _ {T : Type 0} (process_body : List ℕ → T → Option Fault × T) where
  -- The loop leaves the buffer in its block.
  abbrev Keeps : StreamBuffer → Block → Option (Option Fault × StreamBuffer × T) → Type 0
  Keeps s b none = Unit
  Keeps s b (some (f, u, t)) = IsValid u b × (u.buffer ≡ s.buffer)

  on_body-Keeps :
      (s : StreamBuffer) (b : Block) (r : Option Fault × T)
      (rest : Option (Option Fault × StreamBuffer × T))
      → IsValid s b
      → Keeps s b rest
      → Keeps s b (on_body process_body s r rest)
  unfolding on_body
  on_body-Keeps s b (none, t) rest v k = k
  on_body-Keeps s b (some f, t) rest v k = (v, refl)

  Keeps-used :
      (n : ℕ) (s : StreamBuffer) (b : Block) (o : Option (Option Fault × StreamBuffer × T))
      → Keeps (data_used n s) b o
      → Keeps s b o
  unfolding data_used
  Keeps-used n s b none k = tt
  Keeps-used n s b (some (f, u, t)) k = k

  read_frames-Keeps :
      (fuel : ℕ) (s : StreamBuffer) (b : Block) (t : T)
      → IsValid s b
      → Keeps s b (read_frames process_body fuel s b t)
  unfolding read_frames
  read_frames-Keeps zero s b t v = tt
  read_frames-Keeps (suc fuel) s b t v = elim (Bool-cases (ltb 4 (data_size s))) [
    | inr short ↦ rw (short) (v, refl)
    | inl long ↦ elim (Bool-cases (ltb (data_size s - 4) (frame_size (contents s b)))) [
      | inl part ↦ rw (long, part) (v, refl)
      | inr whole ↦
          let sz = frame_size (contents s b) in
          let r = process_body (take sz (drop 4 (contents s b))) t in
          let (v', e) = data_used_lem (4 + sz) v (ground arith) in
          rw (long, whole)
            (on_body-Keeps s b r _ v
              (Keeps-used (4 + sz) s b _ (read_frames-Keeps fuel (data_used (4 + sz) s) b r.1 v')))
    ]
  ]

  -- What an event leaves, when read answered `a`: the frames are those of the bytes that were unread,
  -- `d`, and the bytes that came.
  abbrev pub Leaves : List ℕ → T → Answer → ReadResult T → Type 0
  Leaves d t (received bs) (finished f s m t') =
      (b : Block) × Live s m b
      × ((fuel : ℕ) × (frames process_body fuel (d ++ bs) t ≡ some (f, contents s b, t')))
  Leaves d t interrupted (finished f s m t') =
      (b : Block) × Live s m b × (f ≡ none) × (contents s b ≡ d) × (t' ≡ t)
  Leaves d t end_of_file (dropped e) = e ≡ connection_closed
  Leaves d t failed (dropped e) = e ≡ connection_broken
  Leaves d t a r = ⊥

  read_buffer-Leaves :
      (d bs : List ℕ) (s : StreamBuffer) (m : Store) (b : Block) (t : T)
      → Live s m b
      → contents s b ≡ d ++ bs
      → Leaves d t (received bs) (read_buffer process_body s m t)
  unfolding read_buffer looped view
  read_buffer-Leaves d bs s m b t l e =
      let size = length-contents l.valid in
      let ends = read_frames_end process_body (data_size s) s b t l.valid (omega (arith, size)) in
      let seen = read_frames-frames process_body (suc (data_size s)) s b t l.valid in
      let o = read_frames process_body (suc (data_size s)) s b t in
      let runs : read_buffer process_body s m t ≡ looped process_body m o =
        rw (read_buffer, l.at) refl in
      subst (Leaves d t (received bs)) (sym runs)
        (settle o (read_frames-Keeps (suc (data_size s)) s b t l.valid) seen ends)
    where
      settle :
          (o : Option (Option Fault × StreamBuffer × T))
          → Keeps s b o
          → view process_body b o ≡ frames process_body (suc (data_size s)) (contents s b) t
          → (x : Option Fault × StreamBuffer × T) × (o ≡ some x)
          → Leaves d t (received bs) (looped process_body m o)
      settle none k seen (x, h) = absurd cc
      settle (some (f, u, t')) (v, same) seen h =
          let at : m.block u.buffer ≡ some b = ap m.block same ∙ l.at in
          (
            b,
            record { at = at; old = omega (arith, l.old, same); valid = v },
            (
              suc (data_size s),
              ap (λ x. frames process_body (suc (data_size s)) x t) (sym e) ∙ sym seen,
            ),
          )

  on_read-Leaves :
      (a : Answer) (s : StreamBuffer) (m : Store) (b : Block) (t : T)
      → Live s m b
      → length (bytes_of a) ≤ buffer_capacity s
      → Leaves (contents s b) t a (on_read process_body a s m t)
  unfolding on_read buffer_consumed
  on_read-Leaves end_of_file s m b t l h = refl
  on_read-Leaves failed s m b t l h = refl
  on_read-Leaves interrupted s m b t l h = (b, l, refl, refl, refl)
  on_read-Leaves (received bs) s m b t l h =
      let (stored, v, more) = buffer_consumed_lem bs m l.valid l.at h in
      let s' = buffer_consumed (length bs) s in
      let m' = put_block m s.buffer (filled bs s b) in
      let runs : on_read process_body (received bs) s m t ≡ read_buffer process_body s' m' t =
        rw (on_read, stored) refl in
      subst (Leaves (contents s b) t (received bs)) (sym runs)
        (read_buffer-Leaves (contents s b) bs s' m' (filled bs s b) t (live v) more)
    where
      live :
          IsValid (buffer_consumed (length bs) s) (filled bs s b)
          → Live
              (buffer_consumed (length bs) s)
              (put_block m s.buffer (filled bs s b))
              (filled bs s b)
      live v = record { at = rw (==_self s.buffer) refl; old = l.old; valid = v }

  -- How an event ends: as read answered for the capacity that was there, at least the reserve size;
  -- or with bad_alloc, when the allocator refused a block.
  abbrev pub IsRead : Allocator → (ℕ → Answer) → List ℕ → T → ReadResult T → Type 0
  IsRead A read d t (refused e) =
      (e ≡ bad_alloc) × ((n : ℕ) × (reserve_size ≤ n) × (A.grants n ≡ false))
  IsRead A read d t (finished f s m t') =
      (n : ℕ) × (reserve_size ≤ n) × Leaves d t (read n) (finished f s m t')
  IsRead A read d t (dropped e) = (n : ℕ) × (reserve_size ≤ n) × Leaves d t (read n) (dropped e)

  IsRead-Leaves :
      (A : Allocator) (read : ℕ → Answer) (d : List ℕ) (t : T) (n : ℕ) (r : ReadResult T)
      → reserve_size ≤ n
      → Leaves d t (read n) r
      → IsRead A read d t r
  IsRead-Leaves A read d t n (finished f s m t') h k = (n, h, k)
  IsRead-Leaves A read d t n (dropped e) h k = (n, h, k)
  IsRead-Leaves A read d t n (refused e) h k = absurd (never (read n) k)
    where
      never : (a : Answer) → Leaves d t a (refused e) → ⊥
      never (received bs) k = k
      never end_of_file k = k
      never interrupted k = k
      never failed k = k

  Reserved-IsRead :
      (A : Allocator) (read : ℕ → Answer) (s : StreamBuffer) (b : Block) (t : T)
      (o : Outcome (StreamBuffer × Store))
      → ((n : ℕ) → length (bytes_of (read n)) ≤ n)
      → Reserved A reserve_size s b o
      → IsRead A read (contents s b) t (elim o [
        | err e ↦ refused e
        | ok (s', m') ↦ on_read process_body (read (buffer_capacity s')) s' m' t
      ])
  unfolding buffer_capacity
  Reserved-IsRead A read s b t (err e) fits r = r
  Reserved-IsRead A read s b t (ok (s', m')) fits (b', k) =
      IsRead-Leaves A read (contents s b) t (buffer_capacity s') _ k.room (
        subst
          (λ d.
            Leaves d t (read (buffer_capacity s'))
              (on_read process_body (read (buffer_capacity s')) s' m' t))
          k.same
          (on_read-Leaves (read (buffer_capacity s')) s' m' b' t k.live
            (fits (buffer_capacity s'))))

  -- On a buffer in use, whose size with the reserve size is at most 2^63, when read gives no more
  -- bytes than asked for, read_event returns or throws: bytes that came are read as frames behind
  -- those that were unread, with the result of the frames of all these bytes together, and the
  -- bytes that they leave stay in a buffer in use; an interrupted read changes nothing; the end of
  -- the file and other errors end the connection; and bad_alloc is thrown only when the allocator
  -- refused a block.
  pub read_event-IsRead :
      (A : Allocator) (read : ℕ → Answer) (s : StreamBuffer) (m : Store) (b : Block) (t : T)
      → Live s m b
      → s.used + reserve_size ≤ 2 ^ 63
      → ((n : ℕ) → length (bytes_of (read n)) ≤ n)
      → IsRead A read (contents s b) t (read_event process_body A read s m t)
  unfolding read_event
  read_event-IsRead A read s m b t l room fits =
      Reserved-IsRead A read s b t (reserve_buffer A reserve_size initial_allocation_size s m) fits
        (reserve_buffer-Reserved A reserve_size initial_allocation_size s m b l room)
