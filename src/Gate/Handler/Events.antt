-- ===== src/Gate/Handler/Events.antt =====
-- One event of the handler of src/gate_memtext.cc, over the stream buffer and the parser.
use memxy.Prelude.{
  ℕ, zero, suc, ◌+◌, ◌^◌, ◌≤◌, ◌<◌, ◌≡◌, refl, sym, ap, subst, ◌∙◌, ◌⊎◌, inl, inr, true, false,
  List, [], ◌∷◌, ◌++◌, length, length-append, drop, ltb, if◌then◌else◌, arith,
}
use memxy.Store.{◌>>=◌, Block, Store, Allocator, Outcome, ok, err, bad_alloc, put_block, ==_self}
use memxy.StreamBuffer.{
  StreamBuffer, create, data_size, data_used, contents, buffer_capacity, buffer_consumed,
  reserve_buffer,
}
use memxy.StreamBuffer.Contents.{
  IsValid, length-contents, data_used_lem, buffer_consumed_lem, filled,
}
use memxy.StreamBuffer.Reserve.{Live, Reserved, reserve_buffer-Reserved, Fresh, create-Fresh}
use memxy.Memtext.{Parser, init}
use memxy.Memtext.Machine.{
  Callbacks, Executed, executed, parse_error, out_of_bounds, is_done, execute,
}
use memxy.Memtext.Marks.{InBounds}
use memxy.Memtext.Chunks.{Settles, Overruns, execute-Settles, done-InBounds}
use memxy.Control.{
  Answer, received, end_of_file, interrupted, failed, connection_closed, connection_broken,
}
use memxy.Gate.Handler.{
  Handler, handler, ReadResult, returned, dropped, bad_request, undefined, refused,
  initial_allocation_size, reserve_size, parse, consumed, parse_all, parse_buffer, on_read,
  read_event,
}

-- A handler between events: its buffer is in use, the parser has read what is unread, and its marks
-- are in these bytes.
pub record Waits (h : Handler) (m : Store) (b : Block) : Type 0 where
  pub live : Live h.buffer m b
  pub read_all : h.off ≡ length (contents h.buffer b)
  pub marks : InBounds h.off h.parser

-- The handler waits with the bytes `d` and the parser `c`.
abbrev pub WaitsWith : Handler → Store → List ℕ → Parser → Type 0
WaitsWith h m d c = (b : Block) × Waits h m b × (contents h.buffer b ≡ d) × (h.parser ≡ c)

drop_all : (n : ℕ) (xs : List ℕ) → n ≡ length xs → drop n xs ≡ []
drop_all zero [] e = refl
drop_all zero (x ∷ xs) e = absurd (omega (arith, e))
drop_all (suc n) [] e = refl
drop_all (suc n) (x ∷ xs) e = drop_all n xs (omega (arith, e))

data_used-Live :
    (n : ℕ) {s : StreamBuffer} {m : Store} {b : Block}
    → Live s m b
    → IsValid (data_used n s) b
    → Live (data_used n s) m b
unfolding data_used
data_used-Live n l v = record { at = l.at; old = l.old; valid = v }

-- A new handler waits where a command may begin, with nothing unread.
abbrev pub Accepted : Allocator → Outcome (Handler × Store) → Type 0
Accepted A (ok (h, m)) = (b : Block) × Waits h m b × (contents h.buffer b ≡ []) × (h.parser ≡ init)
Accepted A (err e) = (e ≡ bad_alloc) × (A.grants initial_allocation_size ≡ false)

-- A new handler waits where a command may begin, with nothing unread; the only failure is bad_alloc,
-- when the allocator refuses the buffer.
pub handler-Accepted : (A : Allocator) (m : Store) → Accepted A (handler A m)
unfolding handler init
handler-Accepted A m =
    accepted (create A initial_allocation_size m) (create-Fresh A initial_allocation_size m)
  where
    accepted :
        (o : Outcome (StreamBuffer × Store))
        → Fresh A initial_allocation_size o
        → Accepted A (do (s, m') ← o; ok (record { buffer = s; parser = init; off = 0 }, m'))
    accepted (ok (s, m')) (b, l, empty) =
        (b, record { live = l; read_all = sym (ap length empty); marks = tt }, empty, refl)
    accepted (err e) h = h

module _ {U : Type 0} (cb : Callbacks U) where
  -- What an event leaves, when the parser had this result on the unread bytes `d`: they are dropped
  -- at the end of a command and kept in the midst of one.
  abbrev pub Follows : Type 0 → List ℕ → Executed U → ReadResult U → Type 0
  Follows V d (executed true off c u) (returned h m u') = WaitsWith h m [] c × (u' ≡ u)
  Follows V d (executed false off c u) (returned h m u') = WaitsWith h m d c × (u' ≡ u)
  Follows V d (parse_error u) (bad_request u') = u' ≡ u
  Follows V d out_of_bounds undefined = V
  Follows V d x r = ⊥

  -- What comes of one run of the parser over the bytes `d`: it writes out of bounds only at the 257th
  -- key of a get.
  abbrev pub Reads : List ℕ → ℕ → Parser → U → ReadResult U → Type 0
  Reads d off c u r = Follows (Overruns cb d off c u) d (execute cb d off c u) r

  -- The parser at the end of a command and of the bytes.
  ends :
      (V : Type 0) (fuel : ℕ) (h : Handler) (b : Block) (m : Store) (off : ℕ) (c : Parser) (u : U)
      → Live h.buffer m b
      → off ≡ length (contents h.buffer b)
      → is_done c.cs ≡ true
      → let h' = consumed cb off c h in
        Follows V
          (contents h.buffer b)
          (executed true off c u)
          (if ltb 0 (data_size h'.buffer) then parse_all cb fuel h' b m u else returned h' m u)
  unfolding consumed
  ends V fuel h b m off c u l at f =
      let s' = data_used off h.buffer in
      let (v, e) = data_used_lem off l.valid (omega (arith, length-contents l.valid)) in
      let none_left : contents s' b ≡ [] = e ∙ drop_all off (contents h.buffer b) at in
      let empty : length (contents s' b) ≡ 0 = ap length none_left in
      let over : ltb 0 (data_size s') ≡ false = ground (arith, length-contents v, empty) in
      rw (over) (
        (
          b,
          record {
            live = data_used-Live off l v;
            read_all = sym empty;
            marks = done-InBounds 0 c f;
          },
          none_left,
          refl,
        ),
        refl,
      )

  parse_all-Follows :
      (fuel : ℕ) (h : Handler) (b : Block) (m : Store) (u : U)
      → Live h.buffer m b
      → h.off < length (contents h.buffer b)
      → InBounds h.off h.parser
      → Reads (contents h.buffer b) h.off h.parser u (parse_all cb (suc fuel) h b m u)
  unfolding parse_all parse
  parse_all-Follows fuel h b m u l lt v =
      go (execute cb (contents h.buffer b) h.off h.parser u)
        (execute-Settles cb (contents h.buffer b) h.off h.parser u lt v)
    where
      V : Type 0
      V = Overruns cb (contents h.buffer b) h.off h.parser u

      go :
          (x : Executed U)
          → Settles cb V (contents h.buffer b) x
          → Follows V (contents h.buffer b) x (elim x [
            | executed final off c u' ↦ elim final [
              | false ↦ returned (record h { parser = c; off = off }) m u'
              | true ↦
                  let h' = consumed cb off c h in
                  let rest = parse_all cb fuel h' b m u' in
                  if ltb 0 (data_size h'.buffer) then rest else returned h' m u'
            ]
            | parse_error u' ↦ bad_request u'
            | out_of_bounds ↦ undefined
          ])
      go (executed false off c u') (at, w, f) =
          ((b, record { live = l; read_all = at; marks = w }, refl, refl), refl)
      go (executed true off c u') (at, w, f) = ends V fuel h b m off c u' l at (sym f)
      go (parse_error u') w = refl
      go out_of_bounds w = w

  -- What an event leaves, when the bytes `d` were unread and read answered `a`.
  abbrev pub Leaves : List ℕ → ℕ → Parser → U → Answer → ReadResult U → Type 0
  Leaves d off c u (received bs) r = Reads (d ++ bs) off c u r
  Leaves d off c u interrupted (returned h m u') = WaitsWith h m d c × (u' ≡ u)
  Leaves d off c u end_of_file (dropped e) = e ≡ connection_closed
  Leaves d off c u failed (dropped e) = e ≡ connection_broken
  Leaves d off c u a r = ⊥

  -- An answer to a request for `n` bytes.
  abbrev pub IsAnswer : ℕ → Answer → Type 0
  IsAnswer n (received bs) = (0 < length bs) × (length bs ≤ n)
  IsAnswer n a = Unit

  parse_buffer-Follows :
      (d : List ℕ) (h : Handler) (b : Block) (m : Store) (u : U)
      → Live h.buffer m b
      → contents h.buffer b ≡ d
      → h.off < length d
      → InBounds h.off h.parser
      → Reads d h.off h.parser u (parse_buffer cb h m u)
  unfolding parse parse_buffer parse_all
  parse_buffer-Follows d h b m u l e lt v =
      let runs : parse_buffer cb h m u ≡ parse_all cb (suc (data_size h.buffer)) h b m u =
        rw (parse_buffer, l.at) refl in
      subst (λ d'. Reads d' h.off h.parser u (parse_buffer cb h m u)) e
        (subst (Reads (contents h.buffer b) h.off h.parser u) (sym runs)
          (parse_all-Follows (data_size h.buffer) h b m u l (omega (arith, lt, ap length e)) v))

  on_read-Leaves :
      (a : Answer) (h : Handler) (m : Store) (b : Block) (u : U)
      → Waits h m b
      → IsAnswer (buffer_capacity h.buffer) a
      → Leaves (contents h.buffer b) h.off h.parser u a (on_read cb a h m u)
  unfolding on_read buffer_consumed
  on_read-Leaves end_of_file h m b u w i = refl
  on_read-Leaves failed h m b u w i = refl
  on_read-Leaves interrupted h m b u w i = ((b, w, refl, refl), refl)
  on_read-Leaves (received bs) h m b u w (some_bytes, fits) =
      let s = h.buffer in
      let (stored, v, more) = buffer_consumed_lem bs m w.live.valid w.live.at fits in
      let h' : Handler = record h { buffer = buffer_consumed (length bs) s } in
      let m' = put_block m s.buffer (filled bs s b) in
      let runs : on_read cb (received bs) h m u ≡ parse_buffer cb h' m' u =
        rw (on_read, stored) refl in
      subst (Leaves (contents s b) h.off h.parser u (received bs)) (sym runs) (
        parse_buffer-Follows (contents s b ++ bs) h' (filled bs s b) m' u (live v) more
          (omega (arith, w.read_all, length-append (contents s b) bs)) w.marks)
    where
      live :
          IsValid (buffer_consumed (length bs) h.buffer) (filled bs h.buffer b)
          → Live
              (buffer_consumed (length bs) h.buffer)
              (put_block m h.buffer.buffer (filled bs h.buffer b))
              (filled bs h.buffer b)
      live v = record { at = rw (==_self h.buffer.buffer) refl; old = w.live.old; valid = v }

  -- How an event ends: as read answered for the capacity that was there, at least the reserve size;
  -- or with bad_alloc, when the allocator refused a block.
  abbrev pub IsRead : Allocator → (ℕ → Answer) → List ℕ → ℕ → Parser → U → ReadResult U → Type 0
  IsRead A read d off c u r =
      ((n : ℕ) × (reserve_size ≤ n) × Leaves d off c u (read n) r)
      ⊎ ((r ≡ refused bad_alloc) × ((n : ℕ) × (reserve_size ≤ n) × (A.grants n ≡ false)))

  Reserved-IsRead :
      (A : Allocator) (read : ℕ → Answer) (h : Handler) (m : Store) (b : Block) (u : U)
      (o : Outcome (StreamBuffer × Store))
      → Waits h m b
      → ((n : ℕ) → IsAnswer n (read n))
      → Reserved A reserve_size h.buffer b o
      → IsRead A read (contents h.buffer b) h.off h.parser u (elim o [
        | err e ↦ refused e
        | ok (s, m') ↦ on_read cb (read (buffer_capacity s)) (record h { buffer = s }) m' u
      ])
  unfolding buffer_capacity
  Reserved-IsRead A read h m b u (err e) w fits (is_bad, room) = inr (ap refused is_bad, room)
  Reserved-IsRead A read h m b u (ok (s, m')) w fits (b', k) =
      let h' : Handler = record h { buffer = s } in
      let w' : Waits h' m' b' = record {
        live = k.live;
        read_all = w.read_all ∙ ap length (sym k.same);
        marks = w.marks;
      } in
      inl (
        buffer_capacity s,
        k.room,
        subst
            (λ d.
              Leaves d h.off h.parser u (read (buffer_capacity s))
                (on_read cb (read (buffer_capacity s)) h' m' u))
            k.same
            (on_read-Leaves (read (buffer_capacity s)) h' m' b' u w' (fits (buffer_capacity s))),
      )

  -- When a handler waits, its buffer's size with the reserve size is at most 2^63, and read gives
  -- no more bytes than asked for: read_event returns or throws, unless the bytes begin the 257th
  -- key of a get, at which the parser writes out of bounds. Bytes that came are read by one run of
  -- the parser over the unread bytes and them, from its offset: at the end of a command all bytes
  -- are dropped, in the midst of one all are kept, and the handler waits again; when the parser is
  -- in error, it throws. An interrupted read changes nothing; the end of the file and other errors
  -- end the connection; and bad_alloc is thrown only when the allocator refused a block.
  pub read_event-Waits :
      (A : Allocator) (read : ℕ → Answer) (h : Handler) (m : Store) (b : Block) (u : U)
      → Waits h m b
      → h.buffer.used + reserve_size ≤ 2 ^ 63
      → ((n : ℕ) → IsAnswer n (read n))
      → IsRead A read (contents h.buffer b) h.off h.parser u (read_event cb A read h m u)
  unfolding read_event
  read_event-Waits A read h m b u w room fits =
      Reserved-IsRead A read h m b u
        (reserve_buffer A reserve_size initial_allocation_size h.buffer m) w fits
        (reserve_buffer-Reserved A reserve_size initial_allocation_size h.buffer m b w.live room)
