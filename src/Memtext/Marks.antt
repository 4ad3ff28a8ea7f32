-- ===== src/Memtext/Marks.antt =====
-- The marks of the parser of src/memproto/memtext.rl, and the actions that set them.
use memxy.Prelude.{
  ℕ, ◌+◌, ◌-◌, ◌≤◌, ◌<◌, ◌≡◌, refl, sym, subst, inl, inr, Bool-cases, Option, none, some, List,
  get_or, ltb, ◌==◌, if_lem, arith,
}
use memxy.Memtext.{
  Class, cas, delete, Field, flags_field, exptime_field, bytes_field, cas_unique_field, State,
  start, done, word, key_first, in_key, next_key_first, zero_read, digits_read, in_data, data_end,
  data_line_end, Parser, assign, field, convert, slice, strtoul, set_integer, set_key,
}
use memxy.Memtext.Machine.{Step, next, refused, undefined, after}

abbrev pub KeysIn : ℕ → ℕ → Parser → Type 0
KeysIn n p c = (i : ℕ) → i < n → c.key_pos i + c.key_len i ≤ p

-- The marks that a state will use.
abbrev pub Marks : State → ℕ → Parser → Type 0
Marks start p c = Unit
Marks done p c = Unit
Marks (word w) p c = c.keys ≡ 0
Marks (key_first k) p c = c.keys ≡ 0
Marks (in_key k) p c = KeysIn c.keys p c × (c.key_pos c.keys ≤ p)
Marks (zero_read f k) p c = KeysIn (c.keys + 1) p c × (field f c ≤ p)
Marks (digits_read f k) p c = KeysIn (c.keys + 1) p c × (field f c ≤ p)
Marks (in_data k) p c = KeysIn (c.keys + 1) p c × (c.data_pos ≤ p)
Marks (data_end k) p c = KeysIn (c.keys + 1) p c × (c.data_pos + c.data_len ≤ p)
Marks (data_line_end k) p c = KeysIn (c.keys + 1) p c × (c.data_pos + c.data_len ≤ p)
Marks st p c = KeysIn (c.keys + 1) p c

-- The marks are in bounds when the bytes before `p` were read.
abbrev pub InBounds : ℕ → Parser → Type 0
InBounds p c = Marks c.cs p c

-- What a step leaves: marks in bounds, an error, or, if `V` allows it, a mark behind the arrays.
abbrev pub Keeps : {U : Type 0} → Type 0 → ℕ → Step U → Type 0
Keeps V p (next c u) = InBounds p c
Keeps V p (refused u) = Unit
Keeps V p undefined = V

-- The next byte of a key begins the 257th key of a get.
abbrev pub IsFull : Parser → Type 0
IsFull c = (c.cs ≡ next_key_first) × (c.keys ≡ 255)

pub KeysIn-le : (n p q : ℕ) (c : Parser) → p ≤ q → KeysIn n p c → KeysIn n q c
KeysIn-le n p q c h v i lt = omega (arith, h, v i lt)

pub assign-KeysIn :
    (f : Field) (m p : ℕ) (c : Parser)
    → KeysIn (c.keys + 1) p c
    → KeysIn ((assign f m c).keys + 1) p (assign f m c)
unfolding assign
assign-KeysIn flags_field m p c v = v
assign-KeysIn exptime_field m p c v = v
assign-KeysIn bytes_field m p c v = v
assign-KeysIn cas_unique_field m p c v = v

pub field_cs : (f : Field) (st : State) (c : Parser) → field f (record c { cs = st }) ≡ field f c
unfolding field
field_cs flags_field st c = refl
field_cs exptime_field st c = refl
field_cs bytes_field st c = refl
field_cs cas_unique_field st c = refl

pub field-assign-le : (f : Field) (m : ℕ) (c : Parser) → field f (assign f m c) ≤ m
unfolding assign field
field-assign-le flags_field m c = omega arith
field-assign-le exptime_field m c = omega arith
field-assign-le bytes_field m c = omega arith
field-assign-le cas_unique_field m c = omega arith

pub later : (p : ℕ) (c : Parser) → KeysIn (c.keys + 1) p c → KeysIn (c.keys + 1) (p + 1) c
later p c v = KeysIn-le _ p (p + 1) c (omega arith) v

pub set_key-KeysIn :
    (p : ℕ) (c : Parser)
    → KeysIn c.keys p c
    → c.key_pos c.keys ≤ p
    → KeysIn ((set_key p c).keys + 1) (p + 1) (set_key p c)
unfolding set_key
set_key-KeysIn p c v h i lt = elim (Bool-cases (c.keys == i)) [
  | inl same ↦
      let e : i ≡ c.keys = ground arith in
      rw (same) (subst (λ j. c.key_pos j + (p - c.key_pos c.keys) ≤ p + 1) (sym e) (omega arith))
  | inr other ↦ rw (other) (omega (arith, v i (ground arith)))
]

-- What the conversion of a number leaves.
abbrev pub Converts : ℕ → Option Parser → Type 0
Converts p none = Unit
Converts p (some c) = KeysIn (c.keys + 1) p c

pub set_integer-Converts :
    (d : List ℕ) (p : ℕ) (f : Field) (c : Parser)
    → KeysIn (c.keys + 1) p c
    → Converts p (set_integer d p f c)
unfolding set_integer convert
set_integer-Converts d p f c v =
    if_lem (Converts p) (get_or d (field f c) 0 == b'0') (assign-KeysIn f 0 p c v) (
      if_lem (Converts p) (ltb 20 (p - field f c)) tt
        (if_lem (Converts p) (field f (assign f n c) == 0) tt (assign-KeysIn f n p c v)))
  where
    n : ℕ
    n = strtoul (slice d (field f c) (p - field f c))

-- Every number ends in a state that uses no other mark than those of the keys.
abbrev pub Plain : Option State → Type 0
Plain none = Unit
Plain (some st) = (p : ℕ) (c : Parser) → KeysIn (c.keys + 1) p c → Marks st p c

pub after-Plain : (f : Field) (k : Class) (b : ℕ) → Plain (after f k b)
unfolding after
after-Plain flags_field k b = if_lem Plain (b == b' ') (λ p c v. v) tt
after-Plain exptime_field delete b =
    if_lem Plain (b == b' ') (λ p c v. v) (if_lem Plain (b == b'\r') (λ p c v. v) tt)
after-Plain exptime_field k b = if_lem Plain (b == b' ') (λ p c v. v) tt
after-Plain bytes_field cas b = if_lem Plain (b == b' ') (λ p c v. v) tt
after-Plain bytes_field k b =
    if_lem Plain (b == b' ') (λ p c v. v) (if_lem Plain (b == b'\r') (λ p c v. v) tt)
after-Plain cas_unique_field k b =
    if_lem Plain (b == b' ') (λ p c v. v) (if_lem Plain (b == b'\r') (λ p c v. v) tt)
