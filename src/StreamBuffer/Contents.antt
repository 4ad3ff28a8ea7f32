-- ===== src/StreamBuffer/Contents.antt =====
-- The buffer as a queue of bytes: what its methods do to the bytes between `data()` and `buffer()`.
use memxy.Prelude.{
  ℕ, ◌+◌, ◌-◌, ◌^◌, ◌≤◌, ◌<◌, ◌≡◌, refl, List, [], ◌++◌, length, take, drop, some, arith,
  length-append, length-take, length-drop, take-append, drop-append_le, drop-drop, drop-take,
  append_assoc, max, false, Bool-cases, inl, inr,
}
use memxy.Store.{
  Block, Store, Allocator, Outcome, ok, err, bad_alloc, put_block, malloc, init_count, ==_self,
}
use memxy.StreamBuffer.{
  StreamBuffer, add_size, sub_size, sizeof_count, buffer_consumed, data_size, data_used, contents,
  write_at, fill, create, buffer_capacity,
}

-- `b` is the block at `m_buffer`: the two sizes make up its length, and the unread bytes lie between
-- the counter and the free space.
pub record IsValid (s : StreamBuffer) (b : Block) : Type 0 where
  pub sized : s.used + s.free ≡ length b.bytes
  pub off_above : sizeof_count ≤ s.off
  pub off_in : s.off ≤ s.used
  pub small : length b.bytes < 2 ^ 63

pub data_size_lem : {s : StreamBuffer} {b : Block} → IsValid s b → data_size s ≡ s.used - s.off
unfolding data_size
data_size_lem v = omega arith

pub length-contents :
    {s : StreamBuffer} {b : Block} → IsValid s b → length (contents s b) ≡ data_size s
unfolding contents
length-contents {s} {b} v = omega (
  arith,
  data_size_lem v,
  length-take (data_size s) (drop s.off b.bytes),
  length-drop s.off b.bytes,
)

-- `data_used` within the unread bytes takes them from the front.
pub data_used_lem :
    (n : ℕ) {s : StreamBuffer} {b : Block}
    → IsValid s b
    → n ≤ data_size s
    → IsValid (data_used n s) b × (contents (data_used n s) b ≡ drop n (contents s b))
unfolding data_used contents data_size
data_used_lem n {s} {b} v h =
    let e : add_size s.off n ≡ s.off + n = omega arith in
    let size : sub_size s.used (s.off + n) ≡ sub_size s.used s.off - n = omega arith in
    (
      record { sized = v.sized; off_above = omega arith; off_in = omega arith; small = v.small },
      rw (e, size, drop-take, drop-drop),
    )

-- The bytes before position `i + length bs` after a write of `bs` at `i`.
pub drop-write_at :
    (o i : ℕ) (bs xs : List ℕ)
    → o ≤ i
    → i ≤ length xs
    → take (i + length bs - o) (drop o (write_at i bs xs)) ≡ take (i - o) (drop o xs) ++ bs
drop-write_at o i bs xs h k =
    let front : length (take i xs) ≡ i = omega (arith, length-take i xs) in
    let cut : length (drop o (take i xs) ++ bs) ≡ i + length bs - o =
      omega (arith, length-append (drop o (take i xs)) bs, length-drop o (take i xs)) in
    rw (
      drop-append_le o (take i xs) (bs ++ drop (i + length bs) xs) (omega arith),
      ← append_assoc (drop o (take i xs)) bs (drop (i + length bs) xs),
      take-append (i + length bs - o) (drop o (take i xs) ++ bs) (drop (i + length bs) xs) cut,
      drop-take o i xs,
    )

pub length-write_at :
    (i : ℕ) (bs xs : List ℕ) → i + length bs ≤ length xs → length (write_at i bs xs) ≡ length xs
length-write_at i bs xs h = omega (
  arith,
  length-append (take i xs) (bs ++ drop (i + length bs) xs),
  length-append bs (drop (i + length bs) xs),
  length-take i xs,
  length-drop (i + length bs) xs,
)

-- What `bs` makes of the block that a caller fills.
abbrev pub filled : List ℕ → StreamBuffer → Block → Block
filled bs s b = record b { bytes = write_at s.used bs b.bytes }

-- Bytes stored at `buffer()`, no more than its capacity, and announced by `buffer_consumed` are
-- appended to the unread ones.
pub buffer_consumed_lem :
    (bs : List ℕ) {s : StreamBuffer} {b : Block} (m : Store)
    → IsValid s b
    → m.block s.buffer ≡ some b
    → length bs ≤ buffer_capacity s
    → let s' = buffer_consumed (length bs) s in
      (fill bs s m ≡ ok (put_block m s.buffer (filled bs s b)))
      × IsValid s' (filled bs s b)
      × (contents s' (filled bs s b) ≡ contents s b ++ bs)
unfolding fill buffer_consumed buffer_capacity contents data_size
buffer_consumed_lem bs {s} {b} m v e h =
    let fits : length (write_at s.used bs b.bytes) ≡ length b.bytes =
      length-write_at s.used bs b.bytes (omega arith) in
    let n : sub_size (add_size s.used (length bs)) s.off ≡ s.used + length bs - s.off =
      omega arith in
    let k : sub_size s.used s.off ≡ s.used - s.off = omega arith in
    (
      rw (e, fill),
      record {
        sized = omega (arith, fits);
        off_above = v.off_above;
        off_in = omega arith;
        small = omega (arith, fits);
      },
      rw (n, k) (drop-write_at s.off s.used bs b.bytes v.off_in (omega arith)),
    )

-- What the constructor promises.
abbrev pub Created : Allocator → ℕ → Outcome (StreamBuffer × Store) → Type 0
Created A n (ok (s, m)) =
    (b : Block) × (m.block s.buffer ≡ some b)
    × (b.refs ≡ 1)
    × IsValid s b
    × (contents s b ≡ [])
    × (s.free ≡ max n sizeof_count - sizeof_count)
    × (s.ref ≡ [])
Created A n (err e) = (e ≡ bad_alloc) × (A.grants (max n sizeof_count) ≡ false)

-- A new buffer is valid and empty, its counter is 1, and it has the capacity that was asked for but
-- for the counter; the only failure is bad_alloc, when the allocator does not grant the size.
pub create_lem : (A : Allocator) (n : ℕ) (m : Store) → Created A n (create A n m)
unfolding create malloc init_count contents data_size
create_lem A n m = elim (Bool-cases (A.grants (max n sizeof_count))) [
  | inl granted ↦
      let size = max n sizeof_count in
      let small : size < 2 ^ 63 = omega (arith, A.grants_small size granted) in
      rw (granted, init_count, ==_self m.next)
        (
          record { refs = 1; bytes = A.junk size },
          rw (==_self m.next),
          refl,
          record {
            sized = omega (arith, A.length-junk size);
            off_above = omega arith;
            off_in = omega arith;
            small = omega (arith, A.length-junk size);
          },
          refl,
          omega arith,
          refl,
        )
  | inr refused ↦ rw refused (refl, refused)
]
