-- ===== src/SharedBuffer/Allocate.antt =====
-- `allocate` of src/mp/shared_buffer_impl.h: where the piece lies, and who counts it.
use memxy.Prelude.{ℕ, ◌+◌, ◌≤◌, ◌≡◌, ◌≢◌, some, Option, false, length}
use memxy.Store.{Block, Store, Allocator, Outcome, ok, err, bad_alloc}
use memxy.StreamBuffer.{sizeof_count}
use memxy.SharedBuffer.{SharedBuffer, Reference}

-- The piece from `pos` on: behind the counter, in the used part of the block `b'`, which the
-- reference and the buffer count; and clear of what others hold of the old block.
pub record Piece (len : ℕ) (s : SharedBuffer) (b : Block) (pos : ℕ) (s' : SharedBuffer) (m' : Store)
    (b' : Block) : Type 0 where
  pub at : m'.block s'.buffer ≡ some b'
  pub counter : sizeof_count ≤ pos
  pub end : pos + len ≡ s'.used
  pub sized : s'.used + s'.free ≡ length b'.bytes
  pub counted : b'.refs ≢ 0
  pub behind : b.refs ≢ 1 → s'.buffer ≡ s.buffer → s.used ≤ pos

abbrev pub IsAllocated :
    Allocator
    → ℕ
    → SharedBuffer
    → Block
    → Outcome (ℕ × Option Reference × SharedBuffer × Store)
    → Type 0
IsAllocated A len s b (ok (pos, r, s', m')) =
    (r ≡ some (some s'.buffer)) × ((b' : Block) × Piece len s b pos s' m' b')
IsAllocated A len s b (err e) = (e ≡ bad_alloc) × ((n : ℕ) × (len ≤ n) × (A.grants n ≡ false))
