-- ===== src/StreamBuffer.antt =====
-- src/mp/stream_buffer.h and stream_buffer_impl.h: the buffer that the handlers read into. A method
-- returns the new buffer beside the new store; what it throws is an error of the store.
pub mod Growth
pub mod Reserve
pub mod Contents
pub mod Counts
mod Tests
use memxy.Prelude.{
  ℕ, zero, suc, ◌+◌, ◌-◌, ◌*◌, ◌%◌, ◌^◌, max, Bool, true, false, ◌&&◌, Option, none, some, List, [],
  ◌∷◌, ◌++◌, length, take, drop, ◌==◌, ltb, if◌then◌else◌,
}
use memxy.Store.{
  Outcome, ok, err, hang, dangling, ◌>>=◌, Block, Store, Allocator, put_block, malloc, realloc,
  init_count, incr_count, decr_count, get_count,
}

-- sizeof(count_t)
abbrev pub sizeof_count : ℕ
sizeof_count = 4

-- `stream_buffer::reference`: the array of blocks that it holds.
abbrev pub Reference : Type 0
Reference = List ℕ

-- `stream_buffer`
pub record StreamBuffer : Type 0 where
  pub buffer : ℕ
  pub used : ℕ
  pub free : ℕ
  pub off : ℕ
  pub ref : Reference

-- `reference::push`
pub push : Reference → ℕ → Store → Outcome (Reference × Store)
push r d m = do m' ← incr_count d m; ok (r ++ (d ∷ []), m')

-- `reference::clear`: each block loses a count, in order.
pub clear : Reference → Store → Outcome Store
clear [] m = ok m
clear (d ∷ r) m = do m' ← decr_count d m; clear r m'

-- The arithmetic of size_t.
abbrev pub add_size : ℕ → ℕ → ℕ
add_size a b = (a + b) % 2 ^ 64

abbrev pub sub_size : ℕ → ℕ → ℕ
sub_size a b = (a + 2 ^ 64 - b) % 2 ^ 64

unfoldable pub buffer_capacity : StreamBuffer → ℕ
buffer_capacity s = s.free

unfoldable pub buffer_consumed : ℕ → StreamBuffer → StreamBuffer
buffer_consumed len s = record s { used = add_size s.used len; free = sub_size s.free len }

unfoldable pub data_size : StreamBuffer → ℕ
data_size s = sub_size s.used s.off

unfoldable pub data_used : ℕ → StreamBuffer → StreamBuffer
data_used len s = record s { off = add_size s.off len }

-- The bytes that a caller reads at `data()`, `data_size()` of them.
unfoldable pub contents : StreamBuffer → Block → List ℕ
contents s b = take (data_size s) (drop s.off b.bytes)

-- The caller's write of `bs` at position `i`, with a `memcpy` or `read(2)`.
abbrev pub write_at : ℕ → List ℕ → List ℕ → List ℕ
write_at i bs xs = take i xs ++ (bs ++ drop (i + length bs) xs)

-- A caller stores `bs` at `buffer()`.
unfoldable pub fill : List ℕ → StreamBuffer → Store → Outcome Store
fill bs s m = elim (m.block s.buffer) [
  | none ↦ err dangling
  | some b ↦ ok (put_block m s.buffer (record b { bytes = write_at s.used bs b.bytes }))
]

-- `while(next_size < target) { next_size *= 2; }`, with fuel; `none` is a loop that has not ended.
pub grow : ℕ → ℕ → ℕ → Option ℕ
grow zero next_size target = none
grow (suc fuel) next_size target =
    let rest = grow fuel (next_size * 2 % 2 ^ 64) target in
    if ltb next_size target then rest else some next_size

-- 64 doublings of a positive number pass every size that does not wrap.
abbrev pub grow_fuel : ℕ
grow_fuel = 64

-- `release`: the new reference, and the buffer whose `m_ref` is now empty.
pub release : StreamBuffer → Store → Outcome (Reference × StreamBuffer × Store)
release s m = do (r, m') ← push s.ref s.buffer m; ok (r, record s { ref = [] }, m')

-- `release_to`
pub release_to : Reference → StreamBuffer → Store → Outcome (Reference × StreamBuffer × Store)
release_to to s m = do
  m' ← clear to m
  (r, m'') ← push s.ref s.buffer m'
  ok (r, record s { ref = [] }, m'')

-- The destructor: the buffer's own count, then that of `m_ref`.
pub destroy : StreamBuffer → Store → Outcome Store
destroy s m = do m' ← decr_count s.buffer m; clear s.ref m'

-- The rewind of an empty buffer that nothing else holds.
unfoldable pub rewind : StreamBuffer → Store → Outcome StreamBuffer
rewind s m = do
  count ← get_count s.buffer m
  ok (
      if s.used == s.off && count == 1
      then record s {
        free = add_size s.free (sub_size s.used sizeof_count);
        used = sizeof_count;
        off = sizeof_count;
      }
      else s)

module _ (A : Allocator) where
  -- The constructor.
  pub create : ℕ → Store → Outcome (StreamBuffer × Store)
  create initial_buffer_size m =
      let initsz = max initial_buffer_size sizeof_count in
      do
        (a, m') ← malloc A initsz m
        m'' ← init_count a m'
        ok (
          record {
            buffer = a;
            used = sizeof_count;
            free = sub_size initsz sizeof_count;
            off = sizeof_count;
            ref = [];
          },
          m'',
        )

  -- `expand_buffer`, the branch that reallocates.
  pub expand_in_place : ℕ → StreamBuffer → Store → Outcome (StreamBuffer × Store)
  expand_in_place len s m =
      elim (grow grow_fuel (add_size s.used s.free * 2 % 2 ^ 64) (add_size len s.used)) [
        | none ↦ err hang
        | some next_size ↦ do
          (a, m') ← realloc A s.buffer next_size m
          ok (record s { buffer = a; free = sub_size next_size s.used }, m')
      ]

  -- `memcpy(tmp+sizeof(count_t), m_buffer+m_off, not_used)`
  pub copy_data : ℕ → ℕ → ℕ → ℕ → Store → Outcome Store
  copy_data to from off not_used m = elim (m.block from) [
    | none ↦ err dangling
    | some b ↦ elim (m.block to) [
      | none ↦ err dangling
      | some t ↦ ok (
          put_block m to
            (record t { bytes = write_at sizeof_count (take not_used (drop off b.bytes)) t.bytes }))
    ]
  ]

  -- The branch that moves the unread bytes to a new block; the old one goes into `m_ref`.
  pub expand_copy : ℕ → ℕ → StreamBuffer → Store → Outcome (StreamBuffer × Store)
  expand_copy len initial_buffer_size s m =
      let not_used = sub_size s.used s.off in
      elim (grow grow_fuel (max initial_buffer_size sizeof_count)
        (add_size (add_size len not_used) sizeof_count)) [
          | none ↦ err hang
          | some next_size ↦ do
            (tmp, m1) ← malloc A next_size m
            m2 ← init_count tmp m1
            (ref', m3) ← push s.ref s.buffer m2
            m4 ← copy_data tmp s.buffer s.off not_used m3
            ok (
              record {
                buffer = tmp;
                used = add_size not_used sizeof_count;
                free = sub_size next_size (add_size not_used sizeof_count);
                off = sizeof_count;
                ref = ref';
              },
              m4,
            )
        ]

  -- `expand_buffer`
  pub expand_buffer : ℕ → ℕ → StreamBuffer → Store → Outcome (StreamBuffer × Store)
  expand_buffer len initial_buffer_size s m =
      if s.off == sizeof_count
      then expand_in_place len s m
      else expand_copy len initial_buffer_size s m

  -- `reserve_buffer`
  unfoldable pub reserve_buffer : ℕ → ℕ → StreamBuffer → Store → Outcome (StreamBuffer × Store)
  reserve_buffer len initial_buffer_size s m = do
    s' ← rewind s m
    if ltb s'.free len then expand_buffer len initial_buffer_size s' m else ok (s', m)
