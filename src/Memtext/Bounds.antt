-- ===== src/Memtext/Bounds.antt =====
-- The marks of the parser of src/memproto/memtext.rl: every position that it keeps and will read lies
-- in the bytes read so far.
use memxy.Prelude.{
  ℕ, ◌+◌, ◌≤◌, ◌≡◌, refl, sym, subst, inl, inr, Bool, true, false, Bool-cases, Option, none, some,
  List, get_or, ltb, ◌==◌, ◌&&◌, if◌then◌else◌, if_lem, arith,
}
use memxy.StreamBuffer.{sub_size}
use memxy.Memtext.{
  Class, retrieval, storage, cas, delete, numeric, Field, exptime_field, State, start, done, word,
  key_first, in_key, next_key_first, first, zero_read, digits_read, storage_option, delete_option,
  space, noreply_letters, line_end, in_data, data_end, data_line_end, Parser, Request, Command,
  is_key_byte, is_digit, may_be_zero, reset, assign, field, set_integer, mark_key, set_key,
  data_start, max_multi_get,
}
use memxy.Memtext.Machine.{
  Callbacks, refused, begins, keyword, keywords, class, after, after_key, key_may_end, goto, letter,
  name_end, marked, incr_key, first_digit, converted, number_end, call, finish, newline, data_byte,
  noreply_end, step_in, noreply_word,
}
use memxy.Memtext.Marks.{
  KeysIn, Marks, Keeps, IsFull, KeysIn-le, assign-KeysIn, field_cs, field-assign-le, later,
  set_key-KeysIn, Converts, set_integer-Converts, Plain, after-Plain,
}

module _ {U : Type 0} (V : Type 0) (cb : Callbacks U) where
  letter-Keeps :
      (w : List ℕ) (p : ℕ) (c : Parser) (u : U) → c.keys ≡ 0 → Keeps V p (letter cb w c u)
  unfolding letter
  letter-Keeps w p c u z = if_lem (Keeps V p) (begins w keywords) (named (keyword w keywords)) tt
    where
      named :
          (o : Option Command)
          → Keeps V p (elim o [
            | none ↦ goto cb (word w) c u
            | some command ↦ goto cb (word w) (record c { command = command }) u
          ])
      named none = z
      named (some command) = z

  name_end-Keeps :
      (w : List ℕ) (p : ℕ) (c : Parser) (u : U) → c.keys ≡ 0 → Keeps V p (name_end cb w c u)
  unfolding name_end
  name_end-Keeps w p c u z = named (keyword w keywords)
    where
      named :
          (o : Option Command)
          → Keeps V p
              (elim o [ none ↦ refused u | some command ↦ goto cb (key_first (class command)) c u ])
      named none = tt
      named (some command) = z

  -- A key that begins at `p`, behind the keys before it.
  marked-Keeps :
      (k : Class) (p : ℕ) (c : Parser) (u : U)
      → KeysIn c.keys p c
      → (256 ≤ c.keys → V)
      → Keeps V (p + 1) (marked cb k (mark_key p c) u)
  unfolding marked mark_key
  marked-Keeps k p c u v over = elim (Bool-cases (ltb c.keys max_multi_get)) [
    | inl room ↦ rw (room) (
      λ i lt.
          let other : (c.keys == i) ≡ false = ground arith in rw (other) (omega (arith, v i lt)),
      let same : (c.keys == c.keys) ≡ true = ground arith in rw (same) (omega arith),
    )
    | inr full ↦ rw (full) (over (ground arith))
  ]

  incr_key-Keeps :
      (p : ℕ) (c : Parser) (u : U)
      → KeysIn (c.keys + 1) p c
      → (c.keys ≡ 255 → V)
      → Keeps V (p + 1) (incr_key cb p c u)
  unfolding incr_key
  incr_key-Keeps p c u v over = elim (Bool-cases (ltb max_multi_get (c.keys + 1))) [
    | inl many ↦ rw (many) tt
    | inr few ↦
        rw (few)
          (marked-Keeps retrieval p (record c { keys = c.keys + 1 }) u v (λ h. over (ground arith)))
  ]

  first_digit-Keeps :
      (p b : ℕ) (f : Field) (k : Class) (c : Parser) (u : U)
      → KeysIn (c.keys + 1) p c
      → Keeps V (p + 1) (first_digit cb p b f k c u)
  unfolding first_digit
  first_digit-Keeps p b f k c u v =
      let keys = KeysIn-le _ p (p + 1) (assign f p c) (omega arith) (assign-KeysIn f p p c v) in
      if_lem (Keeps V (p + 1)) (b == b'0')
        (if_lem (Keeps V (p + 1)) (may_be_zero f) (keys, mark (zero_read f k)) tt)
        (if_lem (Keeps V (p + 1)) (is_digit b) (keys, mark (digits_read f k)) tt)
    where
      mark : (st : State) → field f (record (assign f p c) { cs = st }) ≤ p + 1
      mark st = omega (arith, field-assign-le f p c, field_cs f st (assign f p c))

  number_end-Keeps :
      (d : List ℕ) (p b : ℕ) (f : Field) (k : Class) (c : Parser) (u : U)
      → KeysIn (c.keys + 1) p c
      → Keeps V (p + 1) (number_end cb d p b f k c u)
  unfolding number_end converted
  number_end-Keeps d p b f k c u v = go (after f k b) (after-Plain f k b)
    where
      settle :
          (st : State)
          → Plain (some st)
          → (o : Option Parser) → Converts p o
          → Keeps V (p + 1) (converted cb st o u)
      settle st plain none w = tt
      settle st plain (some c') w = plain (p + 1) (record c' { cs = st }) (later p c' w)

      go :
          (o : Option State)
          → Plain o
          → Keeps V
              (p + 1)
              (elim o [ none ↦ refused u | some st ↦ converted cb st (set_integer d p f c) u ])
      go none plain = tt
      go (some st) plain = settle st plain (set_integer d p f c) (set_integer-Converts d p f c v)

  call-Keeps : (r : Request) (p : ℕ) (c : Parser) (u : U) → Keeps V p (call cb r c u)
  unfolding call
  call-Keeps r p c u = go (cb c.command)
    where
      go :
          (o : Option (Request → U → Bool × U))
          → Keeps V p (elim o [
            | none ↦ refused u
            | some callback ↦
                let (ok, u') = callback r u in if ok then goto cb done c u' else refused u'
          ])
      go none = tt
      go (some callback) = if_lem (Keeps V p) (callback r u).0 tt tt

  finish-Keeps :
      (d : List ℕ) (k : Class) (p : ℕ) (c : Parser) (u : U) → Keeps V p (finish cb d k c u)
  unfolding finish
  finish-Keeps d retrieval p c u = call-Keeps _ p _ u
  finish-Keeps d storage p c u = call-Keeps _ p c u
  finish-Keeps d cas p c u = call-Keeps _ p c u
  finish-Keeps d delete p c u = call-Keeps _ p c u
  finish-Keeps d numeric p c u = call-Keeps _ p c u

  newline-Keeps :
      (d : List ℕ) (k : Class) (p : ℕ) (c : Parser) (u : U)
      → KeysIn (c.keys + 1) (p + 1) c
      → Keeps V (p + 1) (newline cb d p k c u)
  unfolding newline data_start
  newline-Keeps d storage p c u v = (v, omega arith)
  newline-Keeps d cas p c u v = (v, omega arith)
  newline-Keeps d retrieval p c u v = finish-Keeps d retrieval (p + 1) c u
  newline-Keeps d delete p c u v = finish-Keeps d delete (p + 1) c u
  newline-Keeps d numeric p c u v = finish-Keeps d numeric (p + 1) c u

  after_key-Keeps :
      (k : Class) (p : ℕ) (c : Parser) (u : U)
      → KeysIn (c.keys + 1) p c
      → Keeps V p (goto cb (after_key k) c u)
  unfolding after_key
  after_key-Keeps retrieval p c u v = v
  after_key-Keeps storage p c u v = v
  after_key-Keeps cas p c u v = v
  after_key-Keeps delete p c u v = v
  after_key-Keeps numeric p c u v = v

  data_byte-Keeps :
      (p : ℕ) (k : Class) (c : Parser) (u : U)
      → c.cs ≡ in_data k
      → KeysIn (c.keys + 1) (p + 1) c
      → c.data_pos ≤ p
      → Keeps V (p + 1) (data_byte cb p k c u)
  unfolding data_byte
  data_byte-Keeps p k c u at v h =
      if_lem (Keeps V (p + 1)) (sub_size c.data_count 1 == 0) (v, omega arith)
        (subst (λ st. Marks st (p + 1) (record c { data_count = sub_size c.data_count 1 })) (sym at)
          (v, omega arith))

  noreply_end-Keeps :
      (k : Class) (b p : ℕ) (c : Parser) (u : U)
      → KeysIn (c.keys + 1) (p + 1) c
      → Keeps V (p + 1) (noreply_end cb k b c u)
  unfolding noreply_end
  noreply_end-Keeps storage b p c u v =
      if_lem (Keeps V (p + 1)) (b == b'\r') v (if_lem (Keeps V (p + 1)) (b == b' ') v tt)
  noreply_end-Keeps retrieval b p c u v = if_lem (Keeps V (p + 1)) (b == b'\r') v tt
  noreply_end-Keeps cas b p c u v = if_lem (Keeps V (p + 1)) (b == b'\r') v tt
  noreply_end-Keeps delete b p c u v = if_lem (Keeps V (p + 1)) (b == b'\r') v tt
  noreply_end-Keeps numeric b p c u v = if_lem (Keeps V (p + 1)) (b == b'\r') v tt

  step_in_lem :
      (st : State) (d : List ℕ) (p b : ℕ) (c : Parser) (u : U)
      → c.cs ≡ st
      → Marks st p c
      → (IsFull c → V)
      → Keeps V (p + 1) (step_in cb st d p b c u)
  unfolding step_in reset
  step_in_lem start d p b c u at v over = letter-Keeps _ (p + 1) _ u refl
  step_in_lem done d p b c u at v over = letter-Keeps _ (p + 1) _ u refl
  step_in_lem (word w) d p b c u at v over =
      if_lem (Keeps V (p + 1)) (b == b' ') (name_end-Keeps w (p + 1) c u v)
        (letter-Keeps _ (p + 1) c u v)
  step_in_lem (key_first k) d p b c u at v over =
      if_lem (Keeps V (p + 1)) (is_key_byte b)
        (marked-Keeps k p c u (λ i lt. absurd (omega (arith, v, lt)))
          (λ many. absurd (omega (arith, v, many))))
        tt
  step_in_lem (in_key k) d p b c u at (v, h) over =
      if_lem (Keeps V (p + 1)) (is_key_byte b)
        (subst (λ st. Marks st (p + 1) c) (sym at)
          (KeysIn-le _ p (p + 1) c (omega arith) v, omega arith))
        (if_lem (Keeps V (p + 1)) (b == b' ')
          (after_key-Keeps k (p + 1) (set_key p c) u (set_key-KeysIn p c v h))
          (if_lem (Keeps V (p + 1)) (b == b'\r' && key_may_end k) (set_key-KeysIn p c v h) tt))
  step_in_lem next_key_first d p b c u at v over =
      if_lem (Keeps V (p + 1)) (is_key_byte b) (incr_key-Keeps p c u v (λ full. over (at, full)))
        (if_lem (Keeps V (p + 1)) (b == b'\r') (later p c v) tt)
  step_in_lem (first f k) d p b c u at v over = first_digit-Keeps p b f k c u v
  step_in_lem (zero_read f k) d p b c u at (v, h) over = number_end-Keeps d p b f k c u v
  step_in_lem (digits_read f k) d p b c u at (v, h) over =
      if_lem (Keeps V (p + 1)) (is_digit b)
        (subst (λ st. Marks st (p + 1) c) (sym at) (later p c v, omega arith))
        (number_end-Keeps d p b f k c u v)
  step_in_lem storage_option d p b c u at v over =
      if_lem (Keeps V (p + 1)) (b == b'n') (later p c v)
        (if_lem (Keeps V (p + 1)) (b == b'\r') (later p c v) tt)
  step_in_lem delete_option d p b c u at v over =
      if_lem (Keeps V (p + 1)) (b == b'n') (later p c v)
        (first_digit-Keeps p b exptime_field delete c u v)
  step_in_lem space d p b c u at v over = if_lem (Keeps V (p + 1)) (b == b'\r') (later p c v) tt
  step_in_lem (noreply_letters i k) d p b c u at v over =
      if_lem (Keeps V (p + 1)) (ltb i 7)
        (if_lem (Keeps V (p + 1)) (b == get_or noreply_word i 0) (later p c v) tt)
        (noreply_end-Keeps k b p (record c { noreply = true }) u (later p c v))
  step_in_lem (line_end k) d p b c u at v over =
      if_lem (Keeps V (p + 1)) (b == b'\n') (newline-Keeps d k p c u (later p c v)) tt
  step_in_lem (in_data k) d p b c u at (v, h) over = data_byte-Keeps p k c u at (later p c v) h
  step_in_lem (data_end k) d p b c u at (v, h) over =
      if_lem (Keeps V (p + 1)) (b == b'\r') (later p c v, omega arith) tt
  step_in_lem (data_line_end k) d p b c u at (v, h) over =
      if_lem (Keeps V (p + 1)) (b == b'\n') (finish-Keeps d k (p + 1) c u) tt

-- The byte at `p` leaves every mark that the next state will use in the bytes read, or is refused; or
-- it begins the 257th key of a get, the only byte that writes a mark behind the arrays.
pub step_in-Keeps :
    {U : Type 0} (cb : Callbacks U) (st : State) (d : List ℕ) (p b : ℕ) (c : Parser) (u : U)
    → c.cs ≡ st
    → Marks st p c
    → Keeps (IsFull c) (p + 1) (step_in cb st d p b c u)
step_in-Keeps cb st d p b c u at v = step_in_lem (IsFull c) cb st d p b c u at v (λ full. full)
