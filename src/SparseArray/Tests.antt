-- ===== src/SparseArray/Tests.antt =====
-- Concrete runs of the operations of sparse_array (src/mp/sparse_array_impl.pre.h).
use memxy.Prelude.{ℕ, ◌≡◌, refl, Bool, true, Option, none, some, [], ◌∷◌, ltb, arith}
use memxy.SparseArray.{
  SparseArray, Result, done, fresh_block, put_item, capacity, get, extend, construct, set_value,
}
use memxy.SparseArray.Lookup.{IsValid, only_fresh, put_item-IsValid}
use memxy.SparseArray.Update.{IsStored, set_value-IsStored}

abbrev fresh : SparseArray ℕ
fresh = fresh_block ∷ []

-- Index 5 holds 7.
abbrev seven : SparseArray ℕ
seven = put_item fresh 5 (record { enable = true; value = some 7 })

abbrev three_blocks : ℕ → Bool
three_blocks q = ltb q 3

-- What is read at an index behind an operation.
abbrev read : Result ℕ → ℕ → Option (Option ℕ)
read (done b) j = get b j
read r j = none

fresh-IsValid : IsValid fresh
fresh-IsValid = only_fresh

seven-IsValid : IsValid seven
unfolding capacity
seven-IsValid =
    (put_item-IsValid fresh 5 (record { enable = true; value = some 7 }) fresh-IsValid
      (omega arith)).0

seven_held : get seven 5 ≡ some (some 7)
unfolding get capacity fresh_block
seven_held = refl

set_far : read (set_value three_blocks (some 9) 130 seven) 130 ≡ some (some 9)
unfolding set_value extend construct get capacity fresh_block
set_far = refl

set_near : read (set_value three_blocks (some 9) 130 seven) 5 ≡ some (some 7)
unfolding set_value extend construct get capacity fresh_block
set_near = refl

set_value-IsStored_example :
    IsStored three_blocks (some 9) 130 seven (set_value three_blocks (some 9) 130 seven)
set_value-IsStored_example = set_value-IsStored three_blocks (some 9) 130 seven seven-IsValid
