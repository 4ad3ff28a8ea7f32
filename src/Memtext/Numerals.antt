-- ===== src/Memtext/Numerals.antt =====
-- The conversions of src/memproto/memtext.rl on the digits of a number.
use memxy.Prelude.{
  ℕ, ◌+◌, ◌-◌, ◌*◌, ◌≤◌, ◌<◌, ◌^◌, ◌≡◌, ◌≢◌, refl, sym, ap, ◌∙◌, true, false, some, List, [], ◌∷◌,
  ◌++◌, length, get_or, drop, ltb, ◌==◌, arith,
}
use memxy.Memtext.{
  Field, flags_field, exptime_field, bytes_field, cas_unique_field, State, Parser, is_digit, assign,
  field, decimal, strtoul, slice, convert, set_integer,
}
use memxy.Memtext.Marks.{field_cs}
use memxy.Memtext.Texts.{Fits, get_or-drop, slice-drop}

field-assign : (f : Field) (n : ℕ) (c : Parser) → Fits f n → field f (assign f n c) ≡ n
unfolding field assign
field-assign flags_field n c h = refl
field-assign exptime_field n c h = omega (arith, h)
field-assign bytes_field n c h = refl
field-assign cas_unique_field n c h = refl

assign-assign : (f : Field) (m n : ℕ) (c : Parser) → assign f m (assign f n c) ≡ assign f m c
unfolding assign
assign-assign flags_field m n c = refl
assign-assign exptime_field m n c = refl
assign-assign bytes_field m n c = refl
assign-assign cas_unique_field m n c = refl

pub assign_cs :
    (f : Field) (n : ℕ) (st : State) (c : Parser)
    → assign f n (record c { cs = st }) ≡ record (assign f n c) { cs = st }
unfolding assign
assign_cs flags_field n st c = refl
assign_cs exptime_field n st c = refl
assign_cs bytes_field n st c = refl
assign_cs cas_unique_field n st c = refl

decimal-le : (n : ℕ) (w : List ℕ) → n ≤ decimal n w
unfolding decimal
decimal-le n [] = omega arith
decimal-le n (b ∷ bs) = omega (arith, decimal-le (n * 10 + (b - 48)) bs)

pub settle :
    (f : Field) (m n : ℕ) (ns st : State) (c : Parser)
    → ◌≡◌ {A = Parser}
        (record (assign f n (record (assign f m c) { cs = ns })) { cs = st })
        (record (assign f n c) { cs = st })
unfolding assign
settle flags_field m n ns st c = refl
settle exptime_field m n ns st c = refl
settle bytes_field m n ns st c = refl
settle cas_unique_field m n ns st c = refl

pub field_mark :
    (f : Field) (m : ℕ) (ns : State) (c : Parser)
    → Fits f m
    → field f (record (assign f m c) { cs = ns }) ≡ m
field_mark f m ns c h = field_cs f ns (assign f m c) ∙ field-assign f m c h

pub zero_value : (x n : ℕ) (xs : List ℕ) → x ≡ 48 → xs ≡ [] → decimal 0 (x ∷ xs) ≡ n → n ≡ 0
unfolding decimal
zero_value x n xs e k v = sym v ∙ rw (e, k) refl

Fits-size : (f : Field) (n : ℕ) → Fits f n → n < 2 ^ 64
Fits-size flags_field n h = h
Fits-size exptime_field n h = omega (arith, h)
Fits-size bytes_field n h = h
Fits-size cas_unique_field n h = h

decimal_positive : (b : ℕ) (bs : List ℕ) → is_digit b ≡ true → b ≢ 48 → 1 ≤ decimal 0 (b ∷ bs)
unfolding decimal
decimal_positive b bs dig ne = ground (arith, decimal-le (0 * 10 + (b - 48)) bs)

-- Conversion of the text between the mark and the end of a number.
pub set_integer_zero :
    (d : List ℕ) (p q : ℕ) (f : Field) (rest : List ℕ) (c : Parser)
    → field f c ≡ p
    → drop p d ≡ 48 ∷ rest
    → set_integer d q f c ≡ some (assign f 0 c)
unfolding set_integer
set_integer_zero d p q f rest c m at =
    let first : get_or d (field f c) 0 ≡ 48 =
      ap (λ i. get_or d i 0) m ∙ get_or-drop d p 48 0 rest at in
    rw (first) refl

pub set_integer_digits :
    (d : List ℕ) (p n : ℕ) (f : Field) (b : ℕ) (bs rest : List ℕ) (c : Parser)
    → field f c ≡ p
    → drop p d ≡ (b ∷ bs) ++ rest
    → is_digit b ≡ true
    → b ≢ 48
    → length (b ∷ bs) ≤ 20
    → decimal 0 (b ∷ bs) ≡ n
    → Fits f n
    → set_integer d (p + length (b ∷ bs)) f c ≡ some (assign f n c)
unfolding set_integer convert
set_integer_digits d p n f b bs rest c m at dig ne few v fits =
    let w = b ∷ bs in
    let size : p + length w - field f c ≡ length w = omega (arith, m) in
    let lead : get_or d (field f c) 0 ≡ b =
      ap (λ i. get_or d i 0) m ∙ get_or-drop d p b 0 (bs ++ rest) at in
    let nonzero : (b == 48) ≡ false = ground arith in
    let short : ltb 20 (length w) ≡ false = ground arith in
    let text : slice d (field f c) (length w) ≡ w =
      ap (λ i. slice d i (length w)) m ∙ slice-drop d w rest p at in
    let value : strtoul w ≡ n = omega (arith, v, Fits-size f n fits) in
    let kept : field f (assign f n c) ≡ n = field-assign f n c fits in
    let positive : (n == 0) ≡ false = ground (arith, v, decimal_positive b bs dig ne) in
    rw (lead, nonzero, size, short, text, value, kept, positive) refl
