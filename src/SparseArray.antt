-- ===== src/SparseArray.antt =====
-- src/mp/sparse_array.pre.h and sparse_array_impl.pre.h: an array of blocks of 64 items, which grows
-- as far as an index asks and knows which items hold a value.
pub mod Lookup
pub mod Update
mod Tests
use memxy.Prelude.{
  ℕ, zero, suc, ◌+◌, ◌-◌, ◌*◌, ◌/◌, ◌%◌, ◌≤◌, ◌<◌, Bool, true, false, ◌&&◌, Option, none, some,
  List, [], ◌∷◌, ◌++◌, length, replicate, get_elem?, set, ltb, if◌then◌else◌,
}

-- EXTEND_ARRAY_SIZE
abbrev pub extend_array_size : ℕ
extend_array_size = 64

-- `item_t`; `none` is memory in which no T was constructed.
pub record Item (T : Type 0) : Type 0 where
  pub enable : Bool
  pub value : Option T

-- `base_array`
abbrev pub SparseArray : Type 0 → Type 0
SparseArray T = List (List (Item T))

-- What an operation leaves: the array, the array as an exception leaves it, or nothing that C++
-- defines, behind an access out of range.
pub data Result (T : Type 0) : Type 0 where
  done thrown : SparseArray T → Result T
  undefined : Result T

module _ {T : Type 0} where
  abbrev pub no_item : Item T
  no_item = record { enable = false; value = none }

  -- What `calloc` gives.
  pub fresh_block : List (Item T)
  fresh_block = replicate extend_array_size no_item

  abbrev pub within : Option (List (Item T)) → ℕ → Option (Item T)
  within none i = none
  within (some block) i = get_elem? block i

  -- `item_of`; `none` is an access out of range.
  abbrev pub item_of : SparseArray T → ℕ → Option (Item T)
  item_of a index = within (get_elem? a (index / extend_array_size)) (index % extend_array_size)

  abbrev pub put_within : SparseArray T → Option (List (Item T)) → ℕ → ℕ → Item T → SparseArray T
  put_within a none q r item = a
  put_within a (some block) q r item = set a q (set block r item)

  -- The write to an item.
  abbrev pub put_item : SparseArray T → ℕ → Item T → SparseArray T
  put_item a index item =
      put_within a (get_elem? a (index / extend_array_size)) (index / extend_array_size)
        (index % extend_array_size) item

  pub capacity : SparseArray T → ℕ
  capacity a = length a * extend_array_size

  -- `get`: the value, or NULL. The outer option is an access out of range.
  pub get : SparseArray T → ℕ → Option (Option T)
  get a index =
      if ltb index (capacity a)
      then elim (item_of a index) [
        | none ↦ none
        | some item ↦ some (if item.enable then item.value else none)
      ]
      else some none

  -- `test`
  pub test : SparseArray T → ℕ → Option Bool
  test a index =
      if ltb index (capacity a)
      then elim (item_of a index) [ none ↦ none | some item ↦ some item.enable ]
      else some false

  -- `extend_array`, as often as `set_impl` wants; `calloc` tells whether the block of a number is had.
  pub extend : (ℕ → Bool) → ℕ → SparseArray T → Bool × SparseArray T
  extend calloc zero a = (true, a)
  extend calloc (suc k) a =
      let rest = extend calloc k (a ++ (fresh_block ∷ [])) in
      if calloc (length a) then rest else (false, a)

  -- `revert`
  pub revert : ℕ → SparseArray T → Result T
  revert index a = elim (item_of a index) [
    | none ↦ undefined
    | some item ↦ thrown (put_item a index (record item { enable = false }))
  ]

  -- `set` behind `extend_array`: what T's constructor made, or that it threw.
  pub construct : Option T → ℕ → SparseArray T → Result T
  construct made index a = elim (item_of a index) [
    | none ↦ undefined
    | some item ↦ elim made [
      | some v ↦ done (put_item a index (record { enable = true; value = some v }))
      | none ↦ revert index (put_item a index (record { enable = true; value = none }))
    ]
  ]

  -- `set`, with its function-try block.
  pub set_value : (ℕ → Bool) → Option T → ℕ → SparseArray T → Result T
  set_value calloc made index a =
      let (extended, a') = extend calloc (index / extend_array_size + 1 - length a) a in
      if extended then construct made index a' else revert index a'

  -- `reset`; to destroy a T that was not constructed is not defined.
  pub reset : ℕ → SparseArray T → Result T
  reset index a = elim (item_of a index) [
    | none ↦ undefined
    | some item ↦ elim item.value [ none ↦ undefined | some v ↦ done (put_item a index no_item) ]
  ]

  -- The constructor.
  pub create : (ℕ → Bool) → Option (SparseArray T)
  create calloc = if calloc 0 then some (fresh_block ∷ []) else none
