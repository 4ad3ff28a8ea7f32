-- ===== src/SharedBuffer.antt =====
-- src/mp/shared_buffer.h and shared_buffer_impl.h: a buffer that hands out pieces of a counted block.
-- Its count functions are those of src/mp/stream_buffer_impl.h, which memxy.Store models.
pub mod Reserve
pub mod Allocate
mod Tests
use memxy.Prelude.{ℕ, ◌+◌, ◌*◌, ◌%◌, ◌^◌, max, Option, none, some, ltb, ◌==◌, if◌then◌else◌}
use memxy.Store.{
  Outcome, ok, err, hang, ◌>>=◌, Store, Allocator, malloc, realloc, init_count, incr_count,
  decr_count, get_count,
}
use memxy.StreamBuffer.{sizeof_count, add_size, sub_size, grow, grow_fuel}

-- `shared_buffer`
pub record SharedBuffer : Type 0 where
  pub buffer : ℕ
  pub used : ℕ
  pub free : ℕ

-- `shared_buffer::reference`: the block that it holds, or NULL.
abbrev pub Reference : Type 0
Reference = Option ℕ

-- `reference::clear`
pub clear : Reference → Store → Outcome Store
clear none m = ok m
clear (some d) m = decr_count d m

-- `reference::reset`
pub reset : Reference → ℕ → Store → Outcome (Reference × Store)
reset r p m = do m' ← clear r m; m'' ← incr_count p m'; ok (some p, m'')

-- The destructor.
pub destroy : SharedBuffer → Store → Outcome Store
destroy s m = decr_count s.buffer m

-- The rewind at the head of `reserve`: a block that nothing else holds is used from its start.
pub rewound : SharedBuffer → ℕ → SharedBuffer
rewound s count =
    if count == 1
    then record s { free = add_size s.free (sub_size s.used sizeof_count); used = sizeof_count }
    else s

module _ (A : Allocator) where
  -- The constructor.
  pub create : ℕ → Store → Outcome (SharedBuffer × Store)
  create init_size m =
      let initsz = max init_size sizeof_count in
      do
        (a, m') ← malloc A initsz m
        m'' ← init_count a m'
        ok (record { buffer = a; used = sizeof_count; free = sub_size initsz sizeof_count }, m'')

  -- `expand_buffer`, the branch that reallocates.
  pub expand_in_place : ℕ → SharedBuffer → Store → Outcome (SharedBuffer × Store)
  expand_in_place len s m =
      elim (grow grow_fuel (add_size s.used s.free * 2 % 2 ^ 64) (add_size len s.used)) [
        | none ↦ err hang
        | some next_size ↦ do
          (a, m') ← realloc A s.buffer next_size m
          ok (record s { buffer = a; free = sub_size next_size s.used }, m')
      ]

  -- The branch that leaves the old block to its references.
  pub expand_fresh : ℕ → ℕ → SharedBuffer → Store → Outcome (SharedBuffer × Store)
  expand_fresh len init_size s m =
      elim (grow grow_fuel (max init_size sizeof_count) (add_size len sizeof_count)) [
        | none ↦ err hang
        | some next_size ↦ do
          (tmp, m1) ← malloc A next_size m
          m2 ← init_count tmp m1
          m3 ← decr_count s.buffer m2
          ok (
            record { buffer = tmp; used = sizeof_count; free = sub_size next_size sizeof_count },
            m3,
          )
      ]

  -- `expand_buffer`
  pub expand_buffer : ℕ → ℕ → SharedBuffer → Store → Outcome (SharedBuffer × Store)
  expand_buffer len init_size s m =
      if s.used == sizeof_count then expand_in_place len s m else expand_fresh len init_size s m

  -- `reserve`
  pub reserve : ℕ → ℕ → SharedBuffer → Store → Outcome (SharedBuffer × Store)
  reserve len init_size s m = do
    count ← get_count s.buffer m
    let s' = rewound s count in
        if ltb s'.free len then expand_buffer len init_size s' m else ok (s', m)

-- `allocate` behind its call of `reserve`: the position of the piece in the block, and the caller's
-- reference, if it gave one.
pub place :
    ℕ
    → Option Reference
    → SharedBuffer
    → Store
    → Outcome (ℕ × Option Reference × SharedBuffer × Store)
place len none s m =
    ok (s.used, none, record s { used = add_size s.used len; free = sub_size s.free len }, m)
place len (some r) s m = do
  (r', m') ← reset r s.buffer m
  ok (s.used, some r', record s { used = add_size s.used len; free = sub_size s.free len }, m')

-- `allocate`
pub allocate :
    Allocator
    → ℕ
    → Option Reference
    → ℕ
    → SharedBuffer
    → Store
    → Outcome (ℕ × Option Reference × SharedBuffer × Store)
allocate A len result_ref init_size s m = do
  (s', m') ← reserve A len init_size s m
  place len result_ref s' m'
