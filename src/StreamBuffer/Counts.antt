-- ===== src/StreamBuffer/Counts.antt =====
-- Who holds a block: the counts through `release`, `reference::clear`, `reserve_buffer` and the
-- destructor.
use memxy.Prelude.{ℕ, ◌+◌, ◌^◌, ◌≤◌, ◌<◌, ◌≡◌, ◌≢◌, [], ◌∷◌, some, arith}
use memxy.Store.{
  Block, Store, Allocator, ok, err, dangling, incr_count, decr_count, get_count, malloc, realloc,
  put_block, free_block, init_count,
}
use memxy.StreamBuffer.{
  StreamBuffer, push, clear, release, destroy, rewind, reserve_buffer, expand_buffer,
  expand_in_place, expand_copy, copy_data, sizeof_count,
}
use memxy.StreamBuffer.Reserve.{Live}

-- On a buffer whose `m_ref` is empty, and a block whose counter is positive and not full: `release`
-- hands out the block with one count more and leaves the buffer as it is; clearing that reference
-- gives the count back, and the store is as it was.
pub release-clear :
    (s : StreamBuffer) (m : Store) (b : Block)
    → m.block s.buffer ≡ some b
    → 0 < b.refs
    → b.refs + 1 < 2 ^ 32
    → s.ref ≡ []
    → (m' : Store) × (release s m ≡ ok (s.buffer ∷ [], s, m'))
      × (m'.block s.buffer ≡ some (record b { refs = b.refs + 1 }))
      × (m'' : Store) × (clear (s.buffer ∷ []) m' ≡ ok m'')
      × ((a : ℕ) → m''.block a ≡ m.block a)
unfolding release push clear incr_count decr_count
release-clear s m b at held room e =
    let up = put_block m s.buffer (record b { refs = b.refs + 1 }) in
    (
      up,
      ground (arith, at, e),
      ground arith,
      put_block up s.buffer (record b { refs = b.refs }),
      ground (arith, at),
      λ a. ground (arith, at),
    )

-- While another reference holds the block, a reservation that fits does not rewind: the buffer and
-- the store stay as they are, so no byte that the reference covers is written again.
pub reserve_buffer-shared :
    (A : Allocator) (len init : ℕ) (s : StreamBuffer) (m : Store) (b : Block)
    → m.block s.buffer ≡ some b
    → b.refs ≢ 1
    → len ≤ s.free
    → reserve_buffer A len init s m ≡ ok (s, m)
unfolding reserve_buffer rewind get_count
reserve_buffer-shared A len init s m b at shared fits = ground (arith, at)

-- A reservation that does not fit, on a block that another reference holds and of which no byte has
-- been used up, reallocates the block: the reference then holds memory that is gone.
pub reserve_buffer-dangling :
    (A : Allocator) (len init : ℕ) (s : StreamBuffer) (m : Store) (b : Block) (s' : StreamBuffer)
    (m' : Store)
    → Live s m b
    → b.refs ≢ 1
    → s.off ≡ sizeof_count
    → s.free < len
    → reserve_buffer A len init s m ≡ ok (s', m')
    → clear (s.buffer ∷ []) m' ≡ err dangling
unfolding reserve_buffer rewind get_count expand_buffer expand_in_place realloc clear decr_count
reserve_buffer-dangling A len init s m b s' m' l shared o short run = ground (arith, l.at, l.old)

-- A buffer that alone holds its block, with bytes used up and others unread, and that has to move:
-- when it is destroyed later, the old block stays allocated, held by nobody.
pub reserve_buffer-leak :
    (A : Allocator) (len init : ℕ) (s : StreamBuffer) (m : Store) (b : Block) (s' : StreamBuffer)
    (m' : Store)
    → Live s m b
    → b.refs ≡ 1
    → s.ref ≡ []
    → s.off ≢ sizeof_count
    → s.off ≢ s.used
    → s.free < len
    → reserve_buffer A len init s m ≡ ok (s', m')
    → (m'' : Store) × (destroy s' m' ≡ ok m'') × (m''.block s.buffer ≡ some b)
unfolding reserve_buffer rewind get_count expand_buffer expand_copy malloc init_count push
    incr_count copy_data destroy clear decr_count
reserve_buffer-leak A len init s m b s' m' l one empty o unread short run = (
  put_block (free_block m' s'.buffer) s.buffer (record b { refs = 1 }),
  ground (arith, l.at, l.old),
  ground (arith, l.at, l.old),
)
