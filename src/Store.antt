-- ===== src/Store.antt =====
-- Reference-counted blocks of memory: malloc, realloc and free of the C library, and the static
-- functions init_count, incr_count, decr_count and get_count of src/mp/stream_buffer_impl.h.
-- The counter is the first `sizeof(count_t)` bytes of a block; it is kept as a field beside them.
use memxy.Prelude.{
  ℕ, ◌+◌, ◌-◌, ◌%◌, ◌^◌, ◌<◌, ◌≡◌, ◌≢◌, arith, Bool, true, false, Option, none, some, List, ◌++◌,
  length, take, ◌==◌, if◌then◌else◌,
}

-- `bad_alloc` is the C++ exception, `dangling` an access to memory that is not allocated, `hang` a
-- loop that has not ended within its fuel.
pub data Error : Type 0 where
  bad_alloc dangling hang : Error

pub data Outcome {ℓ} (A : Type ℓ) : Type ℓ where
  ok : A → Outcome A
  err : Error → Outcome A

infixl 5 ◌>>=◌
abbrev pub ◌>>=◌ {ℓ κ} : {A : Type ℓ} {B : Type κ} → Outcome A → (A → Outcome B) → Outcome B
ok a >>= f = f a
err e >>= f = err e

pub record Block : Type 0 where
  pub refs : ℕ
  pub bytes : List ℕ

-- Addresses are numbers, handed out in order and not again.
pub record Store : Type 0 where
  pub next : ℕ
  pub block : ℕ → Option Block

-- The C library's allocator: which sizes it grants, none above the user address space of a 64-bit
-- host, and what the new bytes happen to be.
pub record Allocator : Type 0 where
  pub grants : ℕ → Bool
  pub junk : ℕ → List ℕ
  pub grants_small : (n : ℕ) → grants n ≡ true → n < 2 ^ 62
  pub length-junk : (n : ℕ) → length (junk n) ≡ n

abbrev pub update : (ℕ → Option Block) → ℕ → Option Block → ℕ → Option Block
update f a v b = if a == b then v else f b

abbrev pub put_block : Store → ℕ → Block → Store
put_block m a b = record m { block = update m.block a (some b) }

-- `free`
abbrev pub free_block : Store → ℕ → Store
free_block m a = record m { block = update m.block a none }

module _ (A : Allocator) where
  open A use {grants, junk}

  -- `malloc`, with the test for NULL that throws.
  unfoldable pub malloc : ℕ → Store → Outcome (ℕ × Store)
  malloc size m =
      if grants size
      then ok (
        m.next,
        record {
          next = m.next + 1;
          block = update m.block m.next (some (record { refs = 0; bytes = junk size }));
        },
      )
      else err bad_alloc

  -- `realloc` of a block, likewise: the old address is invalid afterwards, whether or not it moves.
  unfoldable pub realloc : ℕ → ℕ → Store → Outcome (ℕ × Store)
  realloc a size m = elim (m.block a) [
    | none ↦ err dangling
    | some b ↦
        if grants size
        then ok (
          m.next,
          record {
            next = m.next + 1;
            block =
                update (update m.block a none) m.next
                  (some (record b { bytes = take size b.bytes ++ junk (size - length b.bytes) }));
          },
        )
        else err bad_alloc
  ]

-- `count_t` is an unsigned int of 32 bits.
unfoldable pub init_count : ℕ → Store → Outcome Store
init_count a m = elim (m.block a) [
  | none ↦ err dangling
  | some b ↦ ok (put_block m a (record b { refs = 1 }))
]

unfoldable pub incr_count : ℕ → Store → Outcome Store
incr_count a m = elim (m.block a) [
  | none ↦ err dangling
  | some b ↦ ok (put_block m a (record b { refs = (b.refs + 1) % 2 ^ 32 }))
]

-- The count that reaches 0 frees the block.
unfoldable pub decr_count : ℕ → Store → Outcome Store
decr_count a m = elim (m.block a) [
  | none ↦ err dangling
  | some b ↦
      let refs' = (b.refs + 2 ^ 32 - 1) % 2 ^ 32 in
      ok (if refs' == 0 then free_block m a else put_block m a (record b { refs = refs' }))
]

unfoldable pub get_count : ℕ → Store → Outcome ℕ
get_count a m = elim (m.block a) [ none ↦ err dangling | some b ↦ ok b.refs ]

pub ==_self : (n : ℕ) → (n == n) ≡ true
==_self n = ground arith

pub ==_ne : (a b : ℕ) → a ≢ b → (a == b) ≡ false
==_ne a b h = ground arith
