-- ===== src/Memtext/Pieces.antt =====
-- The machine of src/memproto/memtext.rl on one piece of a command at a time, with any bytes behind.
use memxy.Prelude.{
  ℕ, ◌+◌, ◌≤◌, ◌<◌, ◌≡◌, ◌≢◌, refl, ap, subst, ◌∙◌, inl, inr, true, false, Option, none, some, List,
  [], ◌∷◌, ◌++◌, length, drop, All, ltb, ◌==◌, put, arith,
}
use memxy.Memtext.{
  Command, cmd_get, cmd_gets, cmd_set, cmd_add, cmd_replace, cmd_append, cmd_prepend, cmd_cas,
  cmd_delete, cmd_incr, cmd_decr, Class, Field, State, start, done, key_first, in_key, first,
  zero_read, digits_read, Parser, is_key_byte, is_digit, may_be_zero, reset, assign, decimal,
  set_integer, mark_key,
}
use memxy.Memtext.Machine.{
  Callbacks, next, refused, undefined, parse_error, out_of_bounds, begins, keyword, class, after,
  letter, name_end, marked, first_digit, converted, number_end, step_in, run,
}
use memxy.Memtext.Texts.{name, IsKey, IsNumeral, Fits, Allows, allowed_zero}
use memxy.Memtext.Numerals.{
  assign_cs, settle, field_mark, zero_value, set_integer_zero, set_integer_digits,
}

-- A command may begin in the first state and behind another command.
pub data Ready : State → Type 0 where
  at_start : Ready start
  behind : Ready done

module _ {U : Type 0} (cb : Callbacks U) (d : List ℕ) where
  pub moved :
      (p q : ℕ) (bs : List ℕ) (c : Parser) (u : U) → p ≡ q → run cb d p bs c u ≡ run cb d q bs c u
  moved p q bs c u e = ap (λ x. run cb d x bs c u) e

  -- One byte, by what it does.
  pub run-call :
      (st : State) (p b : ℕ) (bs : List ℕ) (c c' : Parser) (u u' : U)
      → step_in cb st d p b (record c { cs = st }) u ≡ next c' u'
      → run cb d p (b ∷ bs) (record c { cs = st }) u ≡ run cb d (p + 1) bs c' u'
  unfolding run
  run-call st p b bs c c' u u' e =
      ap
        (λ s. elim s [
          | next c' u' ↦ run cb d (p + 1) bs c' u'
          | refused u' ↦ parse_error u'
          | undefined ↦ out_of_bounds
        ])
        e

  pub run-next :
      (st : State) (p b : ℕ) (bs : List ℕ) (c c' : Parser) (u : U)
      → step_in cb st d p b (record c { cs = st }) u ≡ next c' u
      → run cb d p (b ∷ bs) (record c { cs = st }) u ≡ run cb d (p + 1) bs c' u
  run-next st p b bs c c' u e = run-call st p b bs c c' u u e

  -- The name of a command with the space behind it, read where a command may begin.
  name_start :
      (command : Command) (p : ℕ) (rest : List ℕ) (c : Parser) (u : U)
      → run cb d p (name command ++ (b' ' ∷ rest)) (record c { cs = start }) u
        ≡ run cb d
            (p + (length (name command) + 1))
            rest
            (record (reset c) { command = command; cs = key_first (class command) })
            u
  unfolding run step_in letter name_end begins keyword reset
  name_start cmd_get p rest c u = moved (p + 1 + 1 + 1 + 1) (p + 4) rest _ u (omega arith)
  name_start cmd_gets p rest c u = moved (p + 1 + 1 + 1 + 1 + 1) (p + 5) rest _ u (omega arith)
  name_start cmd_set p rest c u = moved (p + 1 + 1 + 1 + 1) (p + 4) rest _ u (omega arith)
  name_start cmd_add p rest c u = moved (p + 1 + 1 + 1 + 1) (p + 4) rest _ u (omega arith)
  name_start cmd_replace p rest c u =
      moved (p + 1 + 1 + 1 + 1 + 1 + 1 + 1 + 1) (p + 8) rest _ u (omega arith)
  name_start cmd_append p rest c u =
      moved (p + 1 + 1 + 1 + 1 + 1 + 1 + 1) (p + 7) rest _ u (omega arith)
  name_start cmd_prepend p rest c u =
      moved (p + 1 + 1 + 1 + 1 + 1 + 1 + 1 + 1) (p + 8) rest _ u (omega arith)
  name_start cmd_cas p rest c u = moved (p + 1 + 1 + 1 + 1) (p + 4) rest _ u (omega arith)
  name_start cmd_delete p rest c u =
      moved (p + 1 + 1 + 1 + 1 + 1 + 1 + 1) (p + 7) rest _ u (omega arith)
  name_start cmd_incr p rest c u = moved (p + 1 + 1 + 1 + 1 + 1) (p + 5) rest _ u (omega arith)
  name_start cmd_decr p rest c u = moved (p + 1 + 1 + 1 + 1 + 1) (p + 5) rest _ u (omega arith)

  name_done :
      (command : Command) (p : ℕ) (rest : List ℕ) (c : Parser) (u : U)
      → run cb d p (name command ++ (b' ' ∷ rest)) (record c { cs = done }) u
        ≡ run cb d p (name command ++ (b' ' ∷ rest)) (record c { cs = start }) u
  unfolding run step_in letter begins keyword reset
  name_done cmd_get p rest c u = refl
  name_done cmd_gets p rest c u = refl
  name_done cmd_set p rest c u = refl
  name_done cmd_add p rest c u = refl
  name_done cmd_replace p rest c u = refl
  name_done cmd_append p rest c u = refl
  name_done cmd_prepend p rest c u = refl
  name_done cmd_cas p rest c u = refl
  name_done cmd_delete p rest c u = refl
  name_done cmd_incr p rest c u = refl
  name_done cmd_decr p rest c u = refl

  pub run-name :
      (command : Command) {st : State} (p : ℕ) (rest : List ℕ) (c : Parser) (u : U)
      → Ready st
      → run cb d p (name command ++ (b' ' ∷ rest)) (record c { cs = st }) u
        ≡ run cb d
            (p + (length (name command) + 1))
            rest
            (record (reset c) { command = command; cs = key_first (class command) })
            u
  run-name command p rest c u at_start = name_start command p rest c u
  run-name command p rest c u behind = name_done command p rest c u ∙ name_start command p rest c u

  pub key_rest :
      (k : Class) (p : ℕ) (bs rest : List ℕ) (c : Parser) (u : U)
      → All (λ b. is_key_byte b ≡ true) bs
      → run cb d p (bs ++ rest) (record c { cs = in_key k }) u
        ≡ run cb d (p + length bs) rest (record c { cs = in_key k }) u
  unfolding step_in
  key_rest k p [] rest c u h = moved p (p + 0) rest _ u (omega arith)
  key_rest k p (b ∷ bs) rest c u (h, hs) =
      run-next (in_key k) p b (bs ++ rest) c (record c { cs = in_key k }) u (rw (h) refl)
      ∙ key_rest k (p + 1) bs rest c u hs
      ∙ moved (p + 1 + length bs) (p + length (b ∷ bs)) rest _ u (omega arith)

  -- A key, the first of its line.
  pub run-key :
      (k : Class) (p : ℕ) (key rest : List ℕ) (c : Parser) (u : U)
      → IsKey key
      → c.keys < 256
      → run cb d p (key ++ rest) (record c { cs = key_first k }) u
        ≡ run cb d
            (p + length key)
            rest
            (record c { cs = in_key k; key_pos = put c.key_pos c.keys p })
            u
  unfolding step_in marked mark_key
  run-key k p [] rest c u (ne, h) few = absurd (ne refl)
  run-key k p (b ∷ bs) rest c u (ne, (h, hs)) few =
      let room : ltb c.keys 256 ≡ true = ground arith in
      run-next (key_first k) p b (bs ++ rest) c
        (record c { cs = in_key k; key_pos = put c.key_pos c.keys p }) u (rw (h, room) refl)
      ∙ key_rest k (p + 1) bs rest (record c { key_pos = put c.key_pos c.keys p }) u hs
      ∙ moved (p + 1 + length bs) (p + length (b ∷ bs)) rest _ u (omega arith)

  digits_rest :
      (f : Field) (k : Class) (p : ℕ) (bs rest : List ℕ) (c : Parser) (u : U)
      → All (λ b. is_digit b ≡ true) bs
      → run cb d p (bs ++ rest) (record c { cs = digits_read f k }) u
        ≡ run cb d (p + length bs) rest (record c { cs = digits_read f k }) u
  unfolding step_in
  digits_rest f k p [] rest c u h = moved p (p + 0) rest _ u (omega arith)
  digits_rest f k p (b ∷ bs) rest c u (h, hs) =
      run-next (digits_read f k) p b (bs ++ rest) c (record c { cs = digits_read f k }) u
        (rw (h) refl)
      ∙ digits_rest f k (p + 1) bs rest c u hs
      ∙ moved (p + 1 + length bs) (p + length (b ∷ bs)) rest _ u (omega arith)

  number_stop :
      (f : Field) (k : Class) (ns st : State) (p q n b : ℕ) (c : Parser) (u : U)
      → after f k b ≡ some st
      → set_integer d q f (record (assign f p c) { cs = ns })
        ≡ some (assign f n (record (assign f p c) { cs = ns }))
      → number_end cb d q b f k (record (assign f p c) { cs = ns }) u
        ≡ next (record (assign f n c) { cs = st }) u
  unfolding number_end converted
  number_stop f k ns st p q n b c u aft set =
      let c1 : Parser = record (assign f p c) { cs = ns } in
      ap
        (λ (o : Option State). elim o [
          | none ↦ refused u
          | some st' ↦ converted cb st' (set_integer d q f c1) u
        ])
        aft
      ∙ ap (λ o. converted cb st o u) set
      ∙ ap (λ c'. next c' u) (settle f p n ns st c)

  number_zero :
      (f : Field) (k : Class) (st : State) (p b : ℕ) (rest : List ℕ) (c : Parser) (u : U)
      → may_be_zero f ≡ true
      → Fits f p
      → after f k b ≡ some st
      → drop p d ≡ 48 ∷ (b ∷ rest)
      → run cb d p (48 ∷ (b ∷ rest)) (record c { cs = first f k }) u
        ≡ run cb d (p + 1 + 1) rest (record (assign f 0 c) { cs = st }) u
  unfolding step_in first_digit
  number_zero f k st p b rest c u z mark aft at =
      let c1 : Parser = record (assign f p c) { cs = zero_read f k } in
      let set =
        set_integer_zero d p (p + 1) f (b ∷ rest) c1 (field_mark f p (zero_read f k) c mark) at in
      run-next (first f k) p 48 (b ∷ rest) c c1 u (
        rw (z) (ap (λ c'. next (record c' { cs = zero_read f k }) u) (assign_cs f p (first f k) c)))
      ∙ run-next (zero_read f k) (p + 1) b rest (assign f p c) (record (assign f 0 c) { cs = st }) u
          (number_stop f k (zero_read f k) st p (p + 1) 0 b c u aft set)

  number_digits :
      (f : Field) (k : Class) (st : State) (p n b x : ℕ) (xs rest : List ℕ) (c : Parser) (u : U)
      → (is_digit x ≡ true) × (x ≢ 48) × All (λ y. is_digit y ≡ true) xs
      → length (x ∷ xs) ≤ 20
      → decimal 0 (x ∷ xs) ≡ n
      → Fits f p
      → Fits f n
      → is_digit b ≡ false
      → after f k b ≡ some st
      → drop p d ≡ (x ∷ xs) ++ (b ∷ rest)
      → run cb d p ((x ∷ xs) ++ (b ∷ rest)) (record c { cs = first f k }) u
        ≡ run cb d (p + length (x ∷ xs) + 1) rest (record (assign f n c) { cs = st }) u
  unfolding step_in first_digit
  number_digits f k st p n b x xs rest c u (dig, ne, digs) few v mark fits nd aft at =
      let ns = digits_read f k in
      let c1 : Parser = record (assign f p c) { cs = ns } in
      let nonzero : (x == 48) ≡ false = ground arith in
      let set =
        set_integer_digits d p n f x xs (b ∷ rest) c1 (field_mark f p ns c mark) at dig ne few v
          fits in
      run-next (first f k) p x (xs ++ (b ∷ rest)) c c1 u (
        rw (nonzero, dig) (ap (λ c'. next (record c' { cs = ns }) u) (assign_cs f p (first f k) c)))
      ∙ digits_rest f k (p + 1) xs (b ∷ rest) (assign f p c) u digs
      ∙ moved (p + 1 + length xs) (p + length (x ∷ xs)) (b ∷ rest) c1 u (omega arith)
      ∙ run-next ns (p + length (x ∷ xs)) b rest (assign f p c) (record (assign f n c) { cs = st })
          u (rw (nd) (number_stop f k ns st p (p + length (x ∷ xs)) n b c u aft set))

  -- A number, with the byte behind it that leads to the state `st`.
  pub run-number :
      (f : Field) (k : Class) (st : State) (p n b : ℕ) (w rest : List ℕ) (c : Parser) (u : U)
      → IsNumeral w n
      → Allows f n
      → Fits f p
      → Fits f n
      → is_digit b ≡ false
      → after f k b ≡ some st
      → drop p d ≡ w ++ (b ∷ rest)
      → run cb d p (w ++ (b ∷ rest)) (record c { cs = first f k }) u
        ≡ run cb d (p + length w + 1) rest (record (assign f n c) { cs = st }) u
  run-number f k st p n b [] rest c u (canon, few, v) al mark fits nd aft at = absurd canon
  run-number f k st p n b (x ∷ xs) rest c u (inl (zero_digit, alone), few, v) al mark fits nd aft
        at =
      let z : n ≡ 0 = zero_value x n xs zero_digit alone v in
      rw (z, zero_digit, alone)
        (number_zero f k st p b rest c u (allowed_zero f (subst (Allows f) z al)) mark aft
          (rw (zero_digit, alone) at at))
  run-number f k st p n b (x ∷ xs) rest c u (inr (dig, ne, digs), few, v) al mark fits nd aft at =
      number_digits f k st p n b x xs rest c u (dig, ne, digs) few v mark fits nd aft at
