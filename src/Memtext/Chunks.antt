-- ===== src/Memtext/Chunks.antt =====
-- memtext_execute of src/memproto/memtext.rl does not read behind the bytes that it has been given, so
-- that it does not matter how reads cut the stream.
use memxy.Prelude.{
  ℕ, zero, suc, ◌+◌, ◌-◌, ◌≤◌, ◌<◌, ◌≡◌, refl, sym, ap, ap₂, subst, ◌∙◌, true, false, Option, none,
  some, List, [], ◌∷◌, ◌++◌, length, length-append, length-drop, get_or, take, drop, take-append_le,
  drop-append, drop-append_le, ltb, ◌==◌, if◌then◌else◌, arith,
}
use memxy.Memtext.{
  Class, retrieval, storage, cas, delete, numeric, Field, State, start, done, word, key_first,
  in_key, next_key_first, first, zero_read, digits_read, storage_option, delete_option, space,
  noreply_letters, line_end, in_data, data_end, data_line_end, Parser, is_digit, field, set_integer,
  retrieval_request, slice, keys_from, request,
}
use memxy.Memtext.Machine.{
  Callbacks, Step, next, refused, undefined, Executed, executed, parse_error, out_of_bounds, after,
  converted, number_end, call, finish, newline, step_in, is_done, run, execute,
}
use memxy.Memtext.Bounds.{step_in-Keeps}
use memxy.Memtext.Marks.{KeysIn, Marks, InBounds, Keeps, IsFull}

slice-append :
    (d e : List ℕ) (pos len : ℕ) → pos + len ≤ length d → slice (d ++ e) pos len ≡ slice d pos len
slice-append d e pos len h =
    ap (take len) (drop-append_le pos d e (omega arith))
    ∙ take-append_le len (drop pos d) e (omega (arith, length-drop pos d))

get_or-append : (d e : List ℕ) (i x : ℕ) → i < length d → get_or (d ++ e) i x ≡ get_or d i x
get_or-append [] e i x h = absurd (omega arith)
get_or-append (y ∷ d) e zero x h = refl
get_or-append (y ∷ d) e (suc i) x h = get_or-append d e i x (omega arith)

set_integer-append :
    (d e : List ℕ) (p : ℕ) (f : Field) (c : Parser)
    → field f c ≤ p
    → p < length d
    → set_integer (d ++ e) p f c ≡ set_integer d p f c
unfolding set_integer
set_integer-append d e p f c h lt =
    rw
      (
        get_or-append d e (field f c) 0 (omega arith),
        slice-append d e (field f c) (p - field f c) (omega arith),
      )
      refl

keys_from-append :
    (d e : List ℕ) (c : Parser) (i n : ℕ)
    → KeysIn (i + n) (length d) c
    → keys_from (d ++ e) c i n ≡ keys_from d c i n
unfolding keys_from
keys_from-append d e c i zero v = refl
keys_from-append d e c i (suc n) v =
    ap₂ (λ x xs. x ∷ xs) (slice-append d e (c.key_pos i) (c.key_len i) (v i (omega arith)))
      (keys_from-append d e c (suc i) n (λ j lt. v j (omega arith)))

abbrev HasData : Class → Type 0
HasData storage = Unit
HasData cas = Unit
HasData k = ⊥

-- A request is made of bytes that were read.
request-append :
    (d e : List ℕ) (k : Class) (c : Parser)
    → KeysIn (c.keys + 1) (length d) c
    → (HasData k → c.data_pos + c.data_len ≤ length d)
    → request (d ++ e) k c ≡ request d k c
unfolding request
request-append d e retrieval c v w =
    ap retrieval_request (keys_from-append d e c 0 (c.keys + 1) (λ j lt. v j (omega arith)))
request-append d e storage c v w =
    rw
      (
        slice-append d e (c.key_pos 0) (c.key_len 0) (v 0 (omega arith)),
        slice-append d e c.data_pos c.data_len (w tt),
      )
      refl
request-append d e cas c v w =
    rw
      (
        slice-append d e (c.key_pos 0) (c.key_len 0) (v 0 (omega arith)),
        slice-append d e c.data_pos c.data_len (w tt),
      )
      refl
request-append d e delete c v w =
    rw (slice-append d e (c.key_pos 0) (c.key_len 0) (v 0 (omega arith))) refl
request-append d e numeric c v w =
    rw (slice-append d e (c.key_pos 0) (c.key_len 0) (v 0 (omega arith))) refl

module _ {U : Type 0} (cb : Callbacks U) where
  finish-append :
      (d e : List ℕ) (k : Class) (c : Parser) (u : U)
      → KeysIn (c.keys + 1) (length d) c
      → (HasData k → c.data_pos + c.data_len ≤ length d)
      → finish cb (d ++ e) k c u ≡ finish cb d k c u
  unfolding finish
  finish-append d e retrieval c u v w =
      ap (λ r. call cb r (record c { keys = c.keys + 1 }) u) (request-append d e retrieval c v w)
  finish-append d e storage c u v w = ap (λ r. call cb r c u) (request-append d e storage c v w)
  finish-append d e cas c u v w = ap (λ r. call cb r c u) (request-append d e cas c v w)
  finish-append d e delete c u v w = ap (λ r. call cb r c u) (request-append d e delete c v w)
  finish-append d e numeric c u v w = ap (λ r. call cb r c u) (request-append d e numeric c v w)

  newline-append :
      (d e : List ℕ) (p : ℕ) (k : Class) (c : Parser) (u : U)
      → KeysIn (c.keys + 1) (length d) c
      → newline cb (d ++ e) p k c u ≡ newline cb d p k c u
  unfolding newline
  newline-append d e p storage c u v = refl
  newline-append d e p cas c u v = refl
  newline-append d e p retrieval c u v = finish-append d e retrieval c u v (λ h. absurd h)
  newline-append d e p delete c u v = finish-append d e delete c u v (λ h. absurd h)
  newline-append d e p numeric c u v = finish-append d e numeric c u v (λ h. absurd h)

  number_end-append :
      (d e : List ℕ) (p b : ℕ) (f : Field) (k : Class) (c : Parser) (u : U)
      → field f c ≤ p
      → p < length d
      → number_end cb (d ++ e) p b f k c u ≡ number_end cb d p b f k c u
  unfolding number_end
  number_end-append d e p b f k c u h lt =
      ap
        (λ (o : Option Parser). elim (after f k b) [
          | none ↦ refused u
          | some st ↦ converted cb st o u
        ])
        (set_integer-append d e p f c h lt)

  within :
      (d : List ℕ) (p : ℕ) (c : Parser)
      → p < length d
      → KeysIn (c.keys + 1) p c
      → KeysIn (c.keys + 1) (length d) c
  within d p c lt v i h = omega (arith, v i h)

  -- What a byte does depends on no byte behind it.
  step_in-append :
      (st : State) (d e : List ℕ) (p b : ℕ) (c : Parser) (u : U)
      → Marks st p c
      → p < length d
      → step_in cb st (d ++ e) p b c u ≡ step_in cb st d p b c u
  unfolding step_in
  step_in-append (zero_read f k) d e p b c u (v, h) lt = number_end-append d e p b f k c u h lt
  step_in-append (digits_read f k) d e p b c u (v, h) lt =
      ap (λ x. if is_digit b then next c u else x) (number_end-append d e p b f k c u h lt)
  step_in-append (line_end k) d e p b c u v lt =
      ap (λ x. if b == b'\n' then x else refused u) (newline-append d e p k c u (within d p c lt v))
  step_in-append (data_line_end k) d e p b c u (v, h) lt =
      ap (λ x. if b == b'\n' then x else refused u)
        (finish-append d e k c u (within d p c lt v) (λ x. omega (arith, h)))
  step_in-append st d e p b c u v lt = refl

  -- The machine at the end of `d`, and what comes of all bytes when `e` follows.
  abbrev Stops : List ℕ → List ℕ → Executed U → Executed U → Type 0
  Stops d e (executed final off c u) all =
      (off ≡ length d)
      × InBounds (length d) c
      × (final ≡ is_done c.cs)
      × (all ≡ run cb (d ++ e) (length d) e c u)
  Stops d e (parse_error u) all = all ≡ parse_error u
  Stops d e out_of_bounds all = all ≡ out_of_bounds

  run-Stops :
      (d e : List ℕ) (p : ℕ) (bs : List ℕ) (c : Parser) (u : U)
      → p + length bs ≡ length d
      → InBounds p c
      → Stops d e (run cb d p bs c u) (run cb (d ++ e) p (bs ++ e) c u)
  unfolding run
  run-Stops d e p [] c u h v =
      let at : p ≡ length d = omega (arith, h) in
      (at, subst (λ q. InBounds q c) at v, refl, ap (λ q. run cb (d ++ e) q e c u) at)
  run-Stops d e p (b ∷ bs) c u h v =
      subst
        (λ s. Stops d e (run cb d p (b ∷ bs) c u) (elim s [
          | next c' u' ↦ run cb (d ++ e) (p + 1) (bs ++ e) c' u'
          | refused u' ↦ parse_error u'
          | undefined ↦ out_of_bounds
        ]))
        (sym (step_in-append c.cs d e p b c u v (omega (arith, h))))
        (go (step_in cb c.cs d p b c u) (step_in-Keeps cb c.cs d p b c u refl v)
          (λ c' u' w. run-Stops d e (p + 1) bs c' u' (omega (arith, h)) w))
    where
      go :
          (s : Step U)
          → Keeps (IsFull c) (p + 1) s
          → ((c' : Parser) (u' : U)
              → InBounds (p + 1) c'
              → Stops d e (run cb d (p + 1) bs c' u') (run cb (d ++ e) (p + 1) (bs ++ e) c' u'))
          → Stops d e
              (elim s [
                | next c' u' ↦ run cb d (p + 1) bs c' u'
                | refused u' ↦ parse_error u'
                | undefined ↦ out_of_bounds
              ])
              (elim s [
                | next c' u' ↦ run cb (d ++ e) (p + 1) (bs ++ e) c' u'
                | refused u' ↦ parse_error u'
                | undefined ↦ out_of_bounds
              ])
      go (next c' u') w k = k c' u' w
      go (refused u') w k = refl
      go undefined w k = refl

  -- Execution of more bytes in one call, or in two.
  abbrev pub Resumes : List ℕ → List ℕ → Executed U → Executed U → Type 0
  Resumes d e (executed final off c u) all =
      (off ≡ length d) × InBounds off c × (all ≡ execute cb (d ++ e) off c u)
  Resumes d e (parse_error u) all = all ≡ parse_error u
  Resumes d e out_of_bounds all = all ≡ out_of_bounds

  -- From an offset in the bytes `d`, with marks in bounds: a call on `d` stops at the end of `d`, with
  -- marks in bounds, and when the bytes `e` have come, calling again from there has the result of one
  -- call on all of them; or the call on `d` is in error, and then so is the call on all of them.
  pub execute-Resumes :
      (d e : List ℕ) (off : ℕ) (c : Parser) (u : U)
      → off < length d
      → 0 < length e
      → InBounds off c
      → Resumes d e (execute cb d off c u) (execute cb (d ++ e) off c u)
  unfolding execute
  execute-Resumes d e off c u lt more v =
      let inside : ltb off (length d) ≡ true = ground arith in
      let inside' : ltb off (length (d ++ e)) ≡ true = ground (arith, length-append d e) in
      let size : off + length (drop off d) ≡ length d = omega (arith, length-drop off d) in
      rw (inside, inside', drop-append_le off d e (omega arith))
        (resumes (run cb d off (drop off d) c u) _ (run-Stops d e off (drop off d) c u size v))
    where
      resumes : (x y : Executed U) → Stops d e x y → Resumes d e x y
      resumes (executed final off' c' u') y (at, w, f, r) =
          let inside : ltb (length d) (length (d ++ e)) ≡ true =
            ground (arith, length-append d e) in
          let call : execute cb (d ++ e) (length d) c' u' ≡ run cb (d ++ e) (length d) e c' u' =
            rw (inside, drop-append (length d) d e refl) refl in
          (
            at,
            subst (λ q. InBounds q c') (sym at) w,
            r ∙ sym call ∙ ap (λ q. execute cb (d ++ e) q c' u') (sym at),
          )
      resumes (parse_error u') y h = h
      resumes out_of_bounds y h = h

  -- The machine reads some of the bytes, and then begins the 257th key of a get.
  abbrev RunsOver : List ℕ → ℕ → List ℕ → Parser → U → Type 0
  RunsOver d p bs c u =
      (n : ℕ) × (q : ℕ) × (c' : Parser) × (u' : U) × (run cb d p (take n bs) c u
        ≡ executed false q c' u')
      × IsFull c'

  run-RunsOver :
      (d : List ℕ) (p : ℕ) (bs : List ℕ) (c : Parser) (u : U)
      → InBounds p c
      → run cb d p bs c u ≡ out_of_bounds
      → RunsOver d p bs c u
  unfolding run
  run-RunsOver d p [] c u v e = absurd cc
  run-RunsOver d p (b ∷ bs) c u v e =
      go (step_in cb c.cs d p b c u) refl (step_in-Keeps cb c.cs d p b c u refl v)
        (λ c' u' w e'. run-RunsOver d (p + 1) bs c' u' w e') e
    where
      go :
          (s : Step U)
          → step_in cb c.cs d p b c u ≡ s
          → Keeps (IsFull c) (p + 1) s
          → ((c' : Parser) (u' : U)
              → InBounds (p + 1) c'
              → run cb d (p + 1) bs c' u' ≡ out_of_bounds
              → RunsOver d (p + 1) bs c' u')
          → elim s [
            | next c' u' ↦ run cb d (p + 1) bs c' u'
            | refused u' ↦ parse_error u'
            | undefined ↦ out_of_bounds
          ]
            ≡ out_of_bounds
          → RunsOver d p (b ∷ bs) c u
      go (next c' u') at w k e' =
          let (n, q, c'', u'', runs, full) = k c' u' w e' in
          (
            suc n,
            q,
            c'',
            u'',
            ap
                  (λ (s : Step U). elim s [
                    | next c' u' ↦ run cb d (p + 1) (take n bs) c' u'
                    | refused u' ↦ parse_error u'
                    | undefined ↦ out_of_bounds
                  ])
                  at
                ∙ runs,
            full,
          )
      go (refused u') at w k e' = absurd cc
      go undefined at w k e' = (0, p, c, u, ap (λ st. executed (is_done st) p c u) w.0, w)

  abbrev pub Overruns : List ℕ → ℕ → Parser → U → Type 0
  Overruns d off c u = RunsOver d off (drop off d) c u

  -- A call that is not in error goes to the end of the bytes, leaves marks in bounds, and tells
  -- whether a command has ended there; only what `V` says makes it write out of bounds.
  abbrev pub Settles : Type 0 → List ℕ → Executed U → Type 0
  Settles V d (executed final off c u) = (off ≡ length d) × InBounds off c × (final ≡ is_done c.cs)
  Settles V d (parse_error u) = Unit
  Settles V d out_of_bounds = V

  pub execute-Settles :
      (d : List ℕ) (off : ℕ) (c : Parser) (u : U)
      → off < length d
      → InBounds off c
      → Settles (Overruns d off c u) d (execute cb d off c u)
  unfolding execute
  execute-Settles d off c u lt v =
      let inside : ltb off (length d) ≡ true = ground arith in
      let size : off + length (drop off d) ≡ length d = omega (arith, length-drop off d) in
      rw (inside) (
        settles (run cb d off (drop off d) c u) _ refl (run-Stops d [] off (drop off d) c u size v))
    where
      settles :
          (x y : Executed U)
          → run cb d off (drop off d) c u ≡ x
          → Stops d [] x y
          → Settles (Overruns d off c u) d x
      settles (executed final off' c' u') y e (at, w, f, r) =
          (at, subst (λ q. InBounds q c') (sym at) w, f)
      settles (parse_error u') y e h = tt
      settles out_of_bounds y e h = run-RunsOver d off (drop off d) c u v e

-- Behind a command no mark is used.
pub done-InBounds : (p : ℕ) (c : Parser) → is_done c.cs ≡ true → InBounds p c
done-InBounds p c = go c.cs
  where
    go : (st : State) → is_done st ≡ true → Marks st p c
    go start e = tt
    go done e = tt
    go (word w) e = absurd cc
    go (key_first k) e = absurd cc
    go (in_key k) e = absurd cc
    go next_key_first e = absurd cc
    go (first f k) e = absurd cc
    go (zero_read f k) e = absurd cc
    go (digits_read f k) e = absurd cc
    go storage_option e = absurd cc
    go delete_option e = absurd cc
    go space e = absurd cc
    go (noreply_letters i k) e = absurd cc
    go (line_end k) e = absurd cc
    go (in_data k) e = absurd cc
    go (data_end k) e = absurd cc
    go (data_line_end k) e = absurd cc
