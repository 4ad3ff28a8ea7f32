-- ===== src/Memtext/Texts.antt =====
-- The words, keys and numbers of the grammar of src/memproto/memtext.rl, and their places in the bytes.
use memxy.Prelude.{
  ℕ, zero, suc, ◌+◌, ◌≤◌, ◌<◌, ◌^◌, ◌≡◌, ◌≢◌, refl, sym, ap, ◌∙◌, ◌⊎◌, true, List, [], ◌∷◌, ◌++◌,
  length, get_or, take, drop, take-append, drop-append, drop-drop, All,
}
use memxy.Memtext.{
  Command, cmd_get, cmd_gets, cmd_set, cmd_add, cmd_replace, cmd_append, cmd_prepend, cmd_cas,
  cmd_delete, cmd_incr, cmd_decr, Field, flags_field, exptime_field, bytes_field, cas_unique_field,
  is_key_byte, is_digit, may_be_zero, decimal, slice,
}

-- The name of a command.
abbrev pub name : Command → List ℕ
name cmd_get = b'g' ∷ b'e' ∷ b't' ∷ []
name cmd_gets = b'g' ∷ b'e' ∷ b't' ∷ b's' ∷ []
name cmd_set = b's' ∷ b'e' ∷ b't' ∷ []
name cmd_add = b'a' ∷ b'd' ∷ b'd' ∷ []
name cmd_replace = b'r' ∷ b'e' ∷ b'p' ∷ b'l' ∷ b'a' ∷ b'c' ∷ b'e' ∷ []
name cmd_append = b'a' ∷ b'p' ∷ b'p' ∷ b'e' ∷ b'n' ∷ b'd' ∷ []
name cmd_prepend = b'p' ∷ b'r' ∷ b'e' ∷ b'p' ∷ b'e' ∷ b'n' ∷ b'd' ∷ []
name cmd_cas = b'c' ∷ b'a' ∷ b's' ∷ []
name cmd_delete = b'd' ∷ b'e' ∷ b'l' ∷ b'e' ∷ b't' ∷ b'e' ∷ []
name cmd_incr = b'i' ∷ b'n' ∷ b'c' ∷ b'r' ∷ []
name cmd_decr = b'd' ∷ b'e' ∷ b'c' ∷ b'r' ∷ []

-- A key of the grammar.
abbrev pub IsKey : List ℕ → Type 0
IsKey key = (key ≢ []) × All (λ b. is_key_byte b ≡ true) key

-- A number of the grammar that fits the buffer of its conversion, and its value.
abbrev pub IsCanonical : List ℕ → Type 0
IsCanonical [] = ⊥
IsCanonical (b ∷ bs) =
    ((b ≡ 48) × (bs ≡ [])) ⊎ ((is_digit b ≡ true) × (b ≢ 48) × All (λ x. is_digit x ≡ true) bs)

abbrev pub IsNumeral : List ℕ → ℕ → Type 0
IsNumeral w n = IsCanonical w × (length w ≤ 20) × (decimal 0 w ≡ n)

-- What the field of a number holds without loss.
abbrev pub Fits : Field → ℕ → Type 0
Fits exptime_field n = n < 2 ^ 32
Fits f n = n < 2 ^ 64

-- The field's number may be `n`.
abbrev pub Allows : Field → ℕ → Type 0
Allows bytes_field n = n ≢ 0
Allows f n = Unit

pub allowed_zero : (f : Field) → Allows f 0 → may_be_zero f ≡ true
allowed_zero flags_field h = refl
allowed_zero exptime_field h = refl
allowed_zero bytes_field h = absurd (h refl)
allowed_zero cas_unique_field h = refl

pub get_or-drop : (d : List ℕ) (p x z : ℕ) (rest : List ℕ) → drop p d ≡ x ∷ rest → get_or d p z ≡ x
get_or-drop [] zero x z rest = λ e. cc
get_or-drop [] (suc p) x z rest = λ e. cc
get_or-drop (y ∷ d) zero x z rest = λ e. cc
get_or-drop (y ∷ d) (suc p) x z rest = get_or-drop d p x z rest

pub slice-drop : (d w rest : List ℕ) (p : ℕ) → drop p d ≡ w ++ rest → slice d p (length w) ≡ w
slice-drop d w rest p at = ap (take (length w)) at ∙ take-append (length w) w rest refl

pub drop-past :
    {A : Type 0} (d w rest : List A) (p : ℕ) → drop p d ≡ w ++ rest → drop (p + length w) d ≡ rest
drop-past d w rest p at =
    sym (drop-drop (length w) p d) ∙ ap (drop (length w)) at ∙ drop-append (length w) w rest refl
