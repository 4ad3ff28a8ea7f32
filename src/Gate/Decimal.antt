-- ===== src/Gate/Decimal.antt =====
-- The decimal numbers in the headers of src/gate_memtext_retrieval.cc: their lengths and values.
use memxy.Prelude.{
  ℕ, zero, suc, ◌+◌, ◌-◌, ◌*◌, ◌/◌, ◌%◌, ◌^◌, ◌≤◌, ◌<◌, ◌≡◌, refl, inl, inr, List, [], ◌∷◌, ◌++◌,
  length, length-append, ltb, Bool-cases, arith,
}
use memxy.Gate.{digits, print_u32, print_size}

pub length-digits : (f n : ℕ) → length (digits f n) ≤ f
unfolding digits
length-digits zero n = omega arith
length-digits (suc f) n = elim (Bool-cases (ltb n 10)) [
  | inl e ↦ rw (e) (omega arith)
  | inr e ↦
      let ih = length-digits f (n / 10) in
      rw (e, length-append (digits f (n / 10)) ((48 + n % 10) ∷ [])) (omega (arith, ih))
]

pub length-print_u32 : (n : ℕ) → length (print_u32 n) ≤ 10
unfolding print_u32
length-print_u32 n = length-digits 10 (n % 2 ^ 32)

pub length-print_size : (n : ℕ) → length (print_size n) ≤ 20
unfolding print_size
length-print_size n = length-digits 20 (n % 2 ^ 64)

-- The number that a string of digits stands for, as the receiver reads it.
pub parse_from : ℕ → List ℕ → ℕ
parse_from n [] = n
parse_from n (d ∷ ds) = parse_from (n * 10 + (d - 48)) ds

abbrev pub parse : List ℕ → ℕ
parse ds = parse_from 0 ds

parse_from-append :
    (n : ℕ) (ds : List ℕ) (d : ℕ) → parse_from n (ds ++ (d ∷ [])) ≡ parse_from n ds * 10 + (d - 48)
unfolding parse_from
parse_from-append n [] d = refl
parse_from-append n (x ∷ ds) d = parse_from-append (n * 10 + (x - 48)) ds d

-- With fuel for its digits, the decimal string that is printed reads back as the number.
pub parse-digits : (f n : ℕ) → n < 10 ^ f → parse (digits f n) ≡ n
unfolding digits parse_from
parse-digits zero n b = omega (arith, b)
parse-digits (suc f) n b = elim (Bool-cases (ltb n 10)) [
  | inl e ↦ rw (e) (omega arith)
  | inr e ↦
      let ih = parse-digits f (n / 10) (omega (arith, b)) in
      rw (e, parse_from-append 0 (digits f (n / 10)) (48 + n % 10), ih) (omega arith)
]
