-- ===== src/StreamBuffer/Reserve.antt =====
-- `reserve_buffer`: the space that it promises, and that it loses no byte.
use memxy.Prelude.{
  ℕ, ◌+◌, ◌-◌, ◌*◌, ◌%◌, ◌^◌, ◌≤◌, ◌<◌, ◌≡◌, ◌≢◌, inl, inr, refl, ◌∙◌, true, false, ◌&&◌,
  Bool-cases, [], ◌∷◌, ◌++◌, length, take, drop, some, none, arith, max, ltb, ltb→lt, ◌==◌,
  if◌then◌else◌, length-append, length-take, length-drop, take-all, take-append_le, drop-append_le,
}
use memxy.Store.{
  Block, Store, Allocator, Outcome, ok, err, bad_alloc, put_block, update, malloc, realloc,
  init_count, incr_count, get_count, ==_self,
}
use memxy.StreamBuffer.{
  StreamBuffer, add_size, sub_size, sizeof_count, data_size, contents, write_at, grow, grow_fuel,
  rewind, push, copy_data, create, expand_in_place, expand_copy, expand_buffer, reserve_buffer,
}
use memxy.StreamBuffer.Growth.{Grown, grow_ends}
use memxy.StreamBuffer.Contents.{IsValid, Created, create_lem, length-write_at, drop-write_at}

-- A buffer in use: its block is allocated, and its fields fit that block.
pub record Live (s : StreamBuffer) (m : Store) (b : Block) : Type 0 where
  pub at : m.block s.buffer ≡ some b
  pub old : s.buffer < m.next
  pub valid : IsValid s b

-- What the constructor leaves is in use, and empty.
abbrev pub Fresh : Allocator → ℕ → Outcome (StreamBuffer × Store) → Type 0
Fresh A n (ok (s, m)) = (b : Block) × Live s m b × (contents s b ≡ [])
Fresh A n (err e) = (e ≡ bad_alloc) × (A.grants (max n sizeof_count) ≡ false)

abbrev BelowNext : Outcome (StreamBuffer × Store) → Type 0
BelowNext (ok (s, m)) = s.buffer < m.next
BelowNext (err e) = Unit

create-BelowNext : (A : Allocator) (n : ℕ) (m : Store) → BelowNext (create A n m)
unfolding create malloc init_count
create-BelowNext A n m = elim (Bool-cases (A.grants (max n sizeof_count))) [
  | inl granted ↦ rw (granted, init_count, ==_self m.next) (omega arith)
  | inr refused ↦ rw (refused) tt
]

pub create-Fresh : (A : Allocator) (n : ℕ) (m : Store) → Fresh A n (create A n m)
create-Fresh A n m = fresh (create A n m) (create_lem A n m) (create-BelowNext A n m)
  where
    fresh : (o : Outcome (StreamBuffer × Store)) → Created A n o → BelowNext o → Fresh A n o
    fresh (ok (s, m')) (b, at, refs, v, empty, room, none_held) below =
        (b, record { at = at; old = below; valid = v }, empty)
    fresh (err e) h below = h

-- The bytes `used` and `free` of a buffer after a reservation of `len` bytes, at the block `b'`.
pub record Kept (len : ℕ) (s : StreamBuffer) (b : Block) (s' : StreamBuffer) (m' : Store)
    (b' : Block) : Type 0 where
  pub live : Live s' m' b'
  pub room : len ≤ s'.free
  pub same : contents s' b' ≡ contents s b

abbrev pub Reserved : Allocator → ℕ → StreamBuffer → Block → Outcome (StreamBuffer × Store) → Type 0
Reserved A len s b (ok (s', m')) = (b' : Block) × Kept len s b s' m' b'
Reserved A len s b (err e) = (e ≡ bad_alloc) × ((n : ℕ) × (len ≤ n) × (A.grants n ≡ false))

module _ (A : Allocator) (len : ℕ) (s : StreamBuffer) (m : Store) (b : Block) (l : Live s m b) where
  -- What `realloc` to a size that is granted leaves.
  in_place-Kept :
      (n : ℕ)
      → s.off ≡ sizeof_count
      → Grown (add_size s.used s.free * 2 % 2 ^ 64) (add_size len s.used) n
      → s.used + len ≤ 2 ^ 63
      → s.free < len
      → A.grants n ≡ true
      → let bytes' = take n b.bytes ++ A.junk (n - length b.bytes) in
        let m' : Store = record {
          next = m.next + 1;
          block = update (update m.block s.buffer none) m.next (some (record b { bytes = bytes' }));
        } in
        Kept len s b
          (record s { buffer = m.next; free = sub_size n s.used })
          m'
          (record b { bytes = bytes' })
  unfolding contents data_size
  in_place-Kept n o g fits short granted =
      let v = l.valid in
      let small : n < 2 ^ 63 = omega (arith, A.grants_small n granted) in
      let more : length b.bytes ≤ n = omega arith in
      let whole : take n b.bytes ≡ b.bytes = take-all n b.bytes more in
      let size : length (b.bytes ++ A.junk (n - length b.bytes)) ≡ n = omega (
        arith,
        length-append b.bytes (A.junk (n - length b.bytes)),
        A.length-junk (n - length b.bytes),
      ) in
      rw whole (record {
        live = record {
          at = rw (==_self m.next);
          old = omega arith;
          valid = record {
            sized = omega (arith, size);
            off_above = v.off_above;
            off_in = v.off_in;
            small = omega (arith, size);
          };
        };
        room = omega arith;
        same = rw (drop-append_le s.off b.bytes (A.junk (n - length b.bytes)) (omega arith)) (
            take-append_le (sub_size s.used s.off) (drop s.off b.bytes)
              (A.junk (n - length b.bytes)) (omega (arith, length-drop s.off b.bytes)));
      })

  expand_in_place-Reserved :
      s.off ≡ sizeof_count
      → s.used + len ≤ 2 ^ 63
      → s.free < len
      → Reserved A len s b (expand_in_place A len s m)
  unfolding expand_in_place realloc
  expand_in_place-Reserved o fits short =
      let v = l.valid in
      let (n, e, g) =
        grow_ends (add_size s.used s.free * 2 % 2 ^ 64) (add_size len s.used) (omega arith)
          (omega arith) in
      elim (Bool-cases (A.grants n)) [
        | inl granted ↦
            rw (e, l.at, granted, expand_in_place, realloc)
              (
                record b { bytes = take n b.bytes ++ A.junk (n - length b.bytes) },
                in_place-Kept n o g fits short granted,
              )
        | inr refused ↦
            rw (e, l.at, refused, expand_in_place, realloc) (refl, (n, omega arith, refused))
      ]

  -- The new block with the unread bytes behind its counter.
  abbrev pub moved : ℕ → Block
  moved n = record {
    refs = 1;
    bytes = write_at sizeof_count (take (sub_size s.used s.off) (drop s.off b.bytes)) (A.junk n);
  }

  -- The buffer over it.
  abbrev pub moved_buffer : ℕ → StreamBuffer
  moved_buffer n = record {
    buffer = m.next;
    used = add_size (sub_size s.used s.off) sizeof_count;
    free = sub_size n (add_size (sub_size s.used s.off) sizeof_count);
    off = sizeof_count;
    ref = s.ref ++ (s.buffer ∷ []);
  }

  -- The store then: the old block has one count more.
  abbrev pub moved_store : ℕ → Store
  moved_store n =
      let m1 : Store = record {
        next = m.next + 1;
        block = update m.block m.next (some (record { refs = 0; bytes = A.junk n }));
      } in
      let m2 = put_block m1 m.next (record { refs = 1; bytes = A.junk n }) in
      let m3 = put_block m2 s.buffer (record b { refs = (b.refs + 1) % 2 ^ 32 }) in
      put_block m3 m.next (moved n)

  pub expand_copy_runs :
      (init n : ℕ)
      → grow grow_fuel
          (max init sizeof_count)
          (add_size (add_size len (sub_size s.used s.off)) sizeof_count)
        ≡ some n
      → A.grants n ≡ true
      → expand_copy A len init s m ≡ ok (moved_buffer n, moved_store n)
  unfolding expand_copy malloc init_count push incr_count copy_data
  expand_copy_runs init n e granted = ground (arith, e, l.at, l.old)

  moved-Kept :
      (n : ℕ)
      → add_size (add_size len (sub_size s.used s.off)) sizeof_count ≤ n
      → s.off ≢ sizeof_count
      → s.used + len ≤ 2 ^ 63
      → A.grants n ≡ true
      → Kept len s b (moved_buffer n) (moved_store n) (moved n)
  unfolding contents data_size
  moved-Kept n reaches o fits granted =
      let v = l.valid in
      let small : n < 2 ^ 63 = omega (arith, A.grants_small n granted) in
      let unread = take (sub_size s.used s.off) (drop s.off b.bytes) in
      let count : length unread ≡ s.used - s.off = omega (
        arith,
        length-take (sub_size s.used s.off) (drop s.off b.bytes),
        length-drop s.off b.bytes,
      ) in
      let size : length (write_at sizeof_count unread (A.junk n)) ≡ n = omega (
        arith,
        length-write_at sizeof_count unread (A.junk n) (omega (arith, A.length-junk n)),
        A.length-junk n,
      ) in
      let end : sub_size (add_size (sub_size s.used s.off) sizeof_count) sizeof_count
          ≡ sizeof_count + length unread - sizeof_count =
        omega arith in
      record {
        live = record {
          at = rw (==_self m.next);
          old = omega arith;
          valid = record {
            sized = omega (arith, size);
            off_above = omega arith;
            off_in = omega arith;
            small = omega (arith, size);
          };
        };
        room = omega arith;
        same = rw end (
            drop-write_at sizeof_count sizeof_count unread (A.junk n) (omega arith)
              (omega (arith, A.length-junk n)));
      }

  expand_copy-Reserved :
      (init : ℕ)
      → s.off ≢ sizeof_count
      → s.used + len ≤ 2 ^ 63
      → Reserved A len s b (expand_copy A len init s m)
  unfolding expand_copy malloc
  expand_copy-Reserved init o fits =
      let v = l.valid in
      let (n, e, g) =
        grow_ends (max init sizeof_count)
          (add_size (add_size len (sub_size s.used s.off)) sizeof_count) (omega arith)
          (omega arith) in
      elim (Bool-cases (A.grants n)) [
        | inl granted ↦
            rw (expand_copy_runs init n e granted) (moved n, moved-Kept n g.reaches o fits granted)
        | inr refused ↦ rw (e, refused, expand_copy, malloc) (refl, (n, omega arith, refused))
      ]

-- What `rewind` returns for a buffer in use.
abbrev rewound : StreamBuffer → Block → StreamBuffer
rewound s b =
    if s.used == s.off && b.refs == 1
    then record s {
      free = add_size s.free (sub_size s.used sizeof_count);
      used = sizeof_count;
      off = sizeof_count;
    }
    else s

record Rewound (s : StreamBuffer) (m : Store) (b : Block) (s' : StreamBuffer) : Type 0 where
  live : Live s' m b
  same : contents s' b ≡ contents s b
  lower : s'.used ≤ s.used

rewound-Rewound :
    (s : StreamBuffer) (m : Store) (b : Block) → Live s m b → Rewound s m b (rewound s b)
unfolding contents data_size
rewound-Rewound s m b l = elim (Bool-cases (s.used == s.off && b.refs == 1)) [
  | inl empty ↦
      let v = l.valid in
      let all : s.used ≡ s.off = ground arith in
      let none_left : sub_size s.used s.off ≡ 0 = omega arith in
      rw empty (record {
        live = record {
          at = l.at;
          old = l.old;
          valid = record {
            sized = omega arith;
            off_above = omega arith;
            off_in = omega arith;
            small = v.small;
          };
        };
        same = rw none_left;
        lower = omega arith;
      })
  | inr other ↦ rw other (record { live = l; same = refl; lower = omega arith })
]

rewind_lem : (s : StreamBuffer) (m : Store) (b : Block) → Live s m b → rewind s m ≡ ok (rewound s b)
unfolding rewind get_count
rewind_lem s m b l = rw (l.at, rewind, get_count)

Reserved-same :
    (A : Allocator) (len : ℕ) (s1 s : StreamBuffer) (b : Block) (o : Outcome (StreamBuffer × Store))
    → contents s1 b ≡ contents s b
    → Reserved A len s1 b o
    → Reserved A len s b o
Reserved-same A len s1 s b (ok (s', m')) e (b', k) =
    (b', record { live = k.live; room = k.room; same = k.same ∙ e })
Reserved-same A len s1 s b (err x) e r = r

expand_buffer-Reserved :
    (A : Allocator) (len init : ℕ) (s : StreamBuffer) (m : Store) (b : Block)
    → Live s m b
    → s.used + len ≤ 2 ^ 63
    → s.free < len
    → Reserved A len s b (expand_buffer A len init s m)
unfolding expand_buffer
expand_buffer-Reserved A len init s m b l fits short = elim (Bool-cases (s.off == sizeof_count)) [
  | inl e ↦ rw e (expand_in_place-Reserved A len s m b l (ground arith) fits short)
  | inr e ↦ rw e (expand_copy-Reserved A len s m b l init (ground arith) fits)
]

-- `reserve_buffer` on a buffer in use, for a size that is at most 2^63 together with what is used
-- (above that the doubling may wrap to 0 and never end): it returns, with at least `len` bytes
-- free, the unread bytes as they were, and a buffer in use; or it throws bad_alloc, and then the
-- allocator refused a block of at least `len` bytes.
pub reserve_buffer-Reserved :
    (A : Allocator) (len init : ℕ) (s : StreamBuffer) (m : Store) (b : Block)
    → Live s m b
    → s.used + len ≤ 2 ^ 63
    → Reserved A len s b (reserve_buffer A len init s m)
unfolding reserve_buffer
reserve_buffer-Reserved A len init s m b l fits =
    let r = rewound-Rewound s m b l in
    rw (rewind_lem s m b l) (elim (Bool-cases (ltb (rewound s b).free len)) [
      | inl short ↦ rw short (
          Reserved-same A len (rewound s b) s b (expand_buffer A len init (rewound s b) m) r.same (
            expand_buffer-Reserved A len init (rewound s b) m b r.live (omega (arith, r.lower))
              (ltb→lt _ _ short)))
      | inr enough ↦ rw enough (b, record { live = r.live; room = ground arith; same = r.same })
    ])
