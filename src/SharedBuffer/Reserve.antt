-- ===== src/SharedBuffer/Reserve.antt =====
-- `reserve` of src/mp/shared_buffer_impl.h: the room that it promises, and that it spares the pieces
-- that others hold.
use memxy.Prelude.{
  ℕ, ◌+◌, ◌-◌, ◌*◌, ◌%◌, ◌^◌, ◌≤◌, ◌<◌, ◌≡◌, ◌≢◌, inl, inr, refl, true, false, Bool-cases, subst,
  ◌++◌, length, take, some, none, arith, max, ltb, ltb→lt, ◌==◌, if◌then◌else◌, length-append,
  take-all,
}
use memxy.Store.{
  Block, Store, Allocator, Outcome, ok, err, bad_alloc, put_block, update, malloc, realloc,
  init_count, decr_count, get_count, ==_self, ==_ne,
}
use memxy.StreamBuffer.{sizeof_count, add_size, sub_size, grow, grow_fuel}
use memxy.StreamBuffer.Growth.{Grown, grow_ends}
use memxy.SharedBuffer.{
  SharedBuffer, rewound, expand_in_place, expand_fresh, expand_buffer, reserve,
}

-- A buffer in use: its block is allocated and counted, with room for another count, and its sizes
-- make up the block's length.
pub record Live (s : SharedBuffer) (m : Store) (b : Block) : Type 0 where
  pub at : m.block s.buffer ≡ some b
  pub old : s.buffer < m.next
  pub sized : s.used + s.free ≡ length b.bytes
  pub counter : sizeof_count ≤ s.used
  pub small : length b.bytes < 2 ^ 63
  pub counted : 1 ≤ b.refs
  pub few : b.refs + 1 < 2 ^ 32

-- The block `b` at `a` is still there with its bytes.
abbrev pub Spared : Store → ℕ → Block → Type 0
Spared m a b = (b' : Block) × (m.block a ≡ some b') × (b'.bytes ≡ b.bytes)

-- The buffer after a reservation of `len` bytes: if others hold the old block, its bytes stay, and
-- the free space begins no earlier in it.
pub record Ready (len : ℕ) (s : SharedBuffer) (b : Block) (s' : SharedBuffer) (m' : Store)
    (b' : Block) : Type 0 where
  pub live : Live s' m' b'
  pub room : len ≤ s'.free
  pub spared : b.refs ≢ 1 → Spared m' s.buffer b
  pub behind : b.refs ≢ 1 → s'.buffer ≡ s.buffer → s.used ≤ s'.used

abbrev pub IsReserved :
    Allocator → ℕ → SharedBuffer → Block → Outcome (SharedBuffer × Store) → Type 0
IsReserved A len s b (ok (s', m')) = (b' : Block) × Ready len s b s' m' b'
IsReserved A len s b (err e) = (e ≡ bad_alloc) × ((n : ℕ) × (len ≤ n) × (A.grants n ≡ false))

module _ (A : Allocator) (len : ℕ) (s : SharedBuffer) (m : Store) (b : Block) (l : Live s m b) where
  in_place-Ready :
      (n : ℕ)
      → s.used ≡ sizeof_count
      → b.refs ≡ 1
      → Grown (add_size s.used s.free * 2 % 2 ^ 64) (add_size len s.used) n
      → s.used + len ≤ 2 ^ 63
      → s.free < len
      → A.grants n ≡ true
      → let bytes' = take n b.bytes ++ A.junk (n - length b.bytes) in
        let m' : Store = record {
          next = m.next + 1;
          block = update (update m.block s.buffer none) m.next (some (record b { bytes = bytes' }));
        } in
        Ready len s b
          (record s { buffer = m.next; free = sub_size n s.used })
          m'
          (record b { bytes = bytes' })
  in_place-Ready n o one g fits short granted =
      let small : n < 2 ^ 63 = omega (arith, A.grants_small n granted) in
      let more : length b.bytes ≤ n = omega (arith, l.sized, l.small, g.reaches) in
      let size : length (b.bytes ++ A.junk (n - length b.bytes)) ≡ n = omega (
        arith,
        more,
        length-append b.bytes (A.junk (n - length b.bytes)),
        A.length-junk (n - length b.bytes),
      ) in
      rw (take-all n b.bytes more) (record {
        live = record {
          at = rw (==_self m.next);
          old = omega arith;
          sized = omega (arith, size, l.sized, l.counter);
          counter = l.counter;
          small = omega (arith, size);
          counted = l.counted;
          few = l.few;
        };
        room = omega (arith, g.reaches, l.sized, l.small);
        spared = λ more_refs. elim (more_refs one) [ ];
        behind = λ more_refs _. elim (more_refs one) [ ];
      })

  expand_in_place-IsReserved :
      s.used ≡ sizeof_count
      → b.refs ≡ 1
      → s.used + len ≤ 2 ^ 63
      → s.free < len
      → IsReserved A len s b (expand_in_place A len s m)
  unfolding expand_in_place realloc
  expand_in_place-IsReserved o one fits short =
      let (n, e, g) =
        grow_ends (add_size s.used s.free * 2 % 2 ^ 64) (add_size len s.used)
          (omega (arith, l.sized, l.small, l.counter)) (omega (arith, l.sized, l.small)) in
      elim (Bool-cases (A.grants n)) [
        | inl granted ↦
            rw (e, l.at, granted, expand_in_place, realloc)
              (
                record b { bytes = take n b.bytes ++ A.junk (n - length b.bytes) },
                in_place-Ready n o one g fits short granted,
              )
        | inr refused ↦
            rw (e, l.at, refused, expand_in_place, realloc)
              (refl, (n, omega (arith, g.reaches, fits), refused))
      ]

  -- The store after the block was replaced by a new one of `n` bytes.
  abbrev pub left_store : ℕ → Store
  left_store n =
      let m1 : Store = record {
        next = m.next + 1;
        block = update m.block m.next (some (record { refs = 0; bytes = A.junk n }));
      } in
      let m2 = put_block m1 m.next (record { refs = 1; bytes = A.junk n }) in
      let refs' = (b.refs + 2 ^ 32 - 1) % 2 ^ 32 in
      if refs' == 0
      then record m2 { block = update m2.block s.buffer none }
      else put_block m2 s.buffer (record b { refs = refs' })

  expand_fresh_runs :
      (init n : ℕ)
      → grow grow_fuel (max init sizeof_count) (add_size len sizeof_count) ≡ some n
      → A.grants n ≡ true
      → expand_fresh A len init s m
        ≡ ok (
          record { buffer = m.next; used = sizeof_count; free = sub_size n sizeof_count },
          left_store n,
        )
  unfolding expand_fresh malloc init_count decr_count
  expand_fresh_runs init n e granted = ground (arith, e, l.at, l.old)

  fresh-Ready :
      (n : ℕ)
      → add_size len sizeof_count ≤ n
      → s.used + len ≤ 2 ^ 63
      → A.grants n ≡ true
      → Ready len s b
          (record { buffer = m.next; used = sizeof_count; free = sub_size n sizeof_count })
          (left_store n)
          (record { refs = 1; bytes = A.junk n })
  fresh-Ready n reaches fits granted =
      let small = A.grants_small n granted in
      record {
        live = record {
          at = ground (arith, l.old);
          old = ground arith;
          sized = omega (arith, A.length-junk n, small, reaches, fits, l.counter);
          counter = omega arith;
          small = omega (arith, A.length-junk n, small);
          counted = omega arith;
          few = omega arith;
        };
        room = omega (arith, small, reaches, fits, l.counter);
        spared = λ shared. (
          record b { refs = (b.refs + 2 ^ 32 - 1) % 2 ^ 32 },
          ground (arith, l.counted, l.few, shared),
          refl,
        );
        behind = λ shared same. omega (arith, l.old, same);
      }

  expand_fresh-IsReserved :
      (init : ℕ) → s.used + len ≤ 2 ^ 63 → IsReserved A len s b (expand_fresh A len init s m)
  unfolding expand_fresh malloc
  expand_fresh-IsReserved init fits =
      let (n, e, g) =
        grow_ends (max init sizeof_count) (add_size len sizeof_count) (omega arith)
          (omega (arith, l.counter)) in
      elim (Bool-cases (A.grants n)) [
        | inl granted ↦
            rw (expand_fresh_runs init n e granted)
              (record { refs = 1; bytes = A.junk n }, fresh-Ready n g.reaches fits granted)
        | inr refused ↦
            rw (e, refused, expand_fresh, malloc)
              (refl, (n, omega (arith, g.reaches, fits, l.counter), refused))
      ]

rewound-Live : (s : SharedBuffer) (m : Store) (b : Block) → Live s m b → Live (rewound s b.refs) m b
unfolding rewound
rewound-Live s m b l = elim (Bool-cases (b.refs == 1)) [
  | inl e ↦ rw (e) (record {
    at = l.at;
    old = l.old;
    sized = omega (arith, l.sized, l.small, l.counter);
    counter = omega arith;
    small = l.small;
    counted = l.counted;
    few = l.few;
  })
  | inr e ↦ rw (e) l
]

-- The only reference is the buffer's own: what holds of the rewound buffer holds of the buffer.
alone :
    (A : Allocator) (len : ℕ) (s1 s : SharedBuffer) (b : Block) (o : Outcome (SharedBuffer × Store))
    → b.refs ≡ 1
    → IsReserved A len s1 b o
    → IsReserved A len s b o
alone A len s1 s b (ok (s', m')) one (b', r) = (
  b',
  record {
    live = r.live;
    room = r.room;
    spared = λ shared. elim (shared one) [ ];
    behind = λ shared _. elim (shared one) [ ];
  },
)
alone A len s1 s b (err e) one r = r

expand_alone :
    (A : Allocator) (len init : ℕ) (s : SharedBuffer) (m : Store) (b : Block)
    → Live s m b
    → b.refs ≡ 1
    → s.used ≡ sizeof_count
    → s.used + len ≤ 2 ^ 63
    → s.free < len
    → IsReserved A len s b (expand_buffer A len init s m)
unfolding expand_buffer
expand_alone A len init s m b l one o fits short =
    let start : (s.used == sizeof_count) ≡ true = ground arith in
    rw (start) (expand_in_place-IsReserved A len s m b l o one fits short)

expand_shared :
    (A : Allocator) (len init : ℕ) (s : SharedBuffer) (m : Store) (b : Block)
    → Live s m b
    → s.used ≢ sizeof_count
    → s.used + len ≤ 2 ^ 63
    → IsReserved A len s b (expand_buffer A len init s m)
unfolding expand_buffer
expand_shared A len init s m b l o fits =
    rw (==_ne s.used sizeof_count o) (expand_fresh-IsReserved A len s m b l init fits)

-- `reserve` on a buffer in use, for a size that is at most 2^63 together with what is used (above
-- that the doubling may wrap to 0 and never end), when some byte of the block is used if others
-- hold it: it returns a buffer in use with `len` bytes free; a block that others hold keeps its
-- bytes, and the free space in it begins no earlier; or it throws bad_alloc, and then the allocator
-- refused a block of at least `len` bytes.
pub reserve-IsReserved :
    (A : Allocator) (len init : ℕ) (s : SharedBuffer) (m : Store) (b : Block)
    → Live s m b
    → (b.refs ≢ 1 → s.used ≢ sizeof_count)
    → s.used + len ≤ 2 ^ 63
    → IsReserved A len s b (reserve A len init s m)
unfolding reserve rewound get_count
reserve-IsReserved A len init s m b l pieces fits = elim (Bool-cases (b.refs == 1)) [
  | inl e ↦
      let one : b.refs ≡ 1 = ground arith in
      let s1 : SharedBuffer = record s {
        free = add_size s.free (sub_size s.used sizeof_count);
        used = sizeof_count;
      } in
      let same : rewound s b.refs ≡ s1 = rw (e) refl in
      let l1 : Live s1 m b = subst (λ x. Live x m b) same (rewound-Live s m b l) in
      rw (l.at, reserve, get_count, e)
        (elim (Bool-cases (ltb s1.free len)) [
          | inl short ↦ rw (short) (
              alone A len s1 s b (expand_buffer A len init s1 m) one (
                expand_alone A len init s1 m b l1 one refl (omega (arith, fits, l.counter))
                  (ltb→lt _ _ short)))
          | inr enough ↦ rw (enough) (
              alone A len s1 s b (ok (s1, m)) one (
                b,
                record {
                  live = l1;
                  room = ground arith;
                  spared = λ _. (b, l.at, refl);
                  behind = λ _ _. omega arith;
                },
              ))
        ])
  | inr e ↦
      let shared : b.refs ≢ 1 = ground arith in
      rw (l.at, reserve, get_count, e)
        (elim (Bool-cases (ltb s.free len)) [
          | inl short ↦ rw (short) (expand_shared A len init s m b l (pieces shared) fits)
          | inr enough ↦ rw (enough) (
            b,
            record {
              live = l;
              room = ground arith;
              spared = λ _. (b, l.at, refl);
              behind = λ _ _. omega arith;
            },
          )
        ])
]
