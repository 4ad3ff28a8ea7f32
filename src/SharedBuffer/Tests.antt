-- ===== src/SharedBuffer/Tests.antt =====
-- Reservations in small shared buffers, for the theorems of the sibling modules.
use memxy.Prelude.{
  ◌≢◌, refl, [], ◌∷◌, some, none, arith, ltb, ltb→lt, ◌==◌, ◌^◌, replicate, length-replicate,
  if◌then◌else◌,
}
use memxy.Store.{Block, Store, Allocator}
use memxy.SharedBuffer.{SharedBuffer, reserve}
use memxy.SharedBuffer.Reserve.{Live, IsReserved, reserve-IsReserved}

abbrev heap : Allocator
heap = record {
  grants = λ n. ltb n (2 ^ 62);
  junk = λ n. replicate n 0;
  grants_small = λ n h. ltb→lt n (2 ^ 62) h;
  length-junk = λ n. length-replicate n 0;
}

-- Two bytes are handed out and still held, and two are free.
abbrev held_block : Block
held_block = record { refs = 2; bytes = 0 ∷ 0 ∷ 0 ∷ 0 ∷ 65 ∷ 66 ∷ 0 ∷ 0 ∷ [] }

abbrev held : SharedBuffer
held = record { buffer = 3; used = 6; free = 2 }

abbrev held_store : Store
held_store = record { next = 4; block = λ a. if a == 3 then some held_block else none }

held-Live : Live held held_store held_block
held-Live = record {
  at = refl;
  old = omega arith;
  sized = refl;
  counter = omega arith;
  small = omega arith;
  counted = omega arith;
  few = omega arith;
}

six : held_block.refs ≢ 1 → held.used ≢ 4
six h = omega arith

reserve-IsReserved_example :
    IsReserved heap 100 held held_block (reserve heap 100 16 held held_store)
reserve-IsReserved_example =
    reserve-IsReserved heap 100 16 held held_store held_block held-Live six (omega arith)
