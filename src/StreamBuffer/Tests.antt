-- ===== src/StreamBuffer/Tests.antt =====
-- Runs of the buffer, and the theorems at concrete buffers.
use memxy.Prelude.{
  ℕ, ◌^◌, ◌≡◌, refl, [], ◌∷◌, replicate, length-replicate, some, none, arith, ltb, ltb→lt, ◌==◌,
  if◌then◌else◌,
}
use memxy.Store.{Block, Store, Allocator, ok}
use memxy.StreamBuffer.{StreamBuffer, data_size, contents, release, clear, reserve_buffer}
use memxy.StreamBuffer.Reserve.{Live, Reserved, reserve_buffer-Reserved}
use memxy.StreamBuffer.Counts.{release-clear}

-- An allocator that grants what C can address, and clears its memory.
abbrev libc : Allocator
libc = record {
  grants = λ n. ltb n (2 ^ 62);
  junk = λ n. replicate n 0;
  grants_small = λ n h. ltb→lt n (2 ^ 62) h;
  length-junk = λ n. length-replicate n 0;
}

-- Twelve bytes: the counter, two used, three unread, three free.
abbrev block : Block
block = record { refs = 1; bytes = 0 ∷ 0 ∷ 0 ∷ 0 ∷ 1 ∷ 2 ∷ 3 ∷ 4 ∷ 5 ∷ 0 ∷ 0 ∷ 0 ∷ [] }

abbrev sample : StreamBuffer
sample = record { buffer = 0; used = 9; free = 3; off = 6; ref = [] }

abbrev holding : Block → Store
holding b = record { next = 1; block = λ a. if a == 0 then some b else none }

sample-Live : Live sample (holding block) block
sample-Live = record {
  at = refl;
  old = omega arith;
  valid = record {
    sized = omega arith;
    off_above = omega arith;
    off_in = omega arith;
    small = omega arith;
  };
}

contents-sample : contents sample block ≡ 3 ∷ 4 ∷ 5 ∷ []
unfolding contents data_size
contents-sample = refl

reserve_buffer-Reserved_example :
    Reserved libc 8 sample block (reserve_buffer libc 8 16 sample (holding block))
reserve_buffer-Reserved_example =
    reserve_buffer-Reserved libc 8 16 sample (holding block) block sample-Live (omega arith)

release-clear_example :
    (m' : Store) × (release sample (holding block) ≡ ok (0 ∷ [], sample, m'))
    × (m'.block 0 ≡ some (record block { refs = 2 }))
    × (m'' : Store) × (clear (0 ∷ []) m' ≡ ok m'')
    × ((a : ℕ) → m''.block a ≡ (holding block).block a)
release-clear_example =
    release-clear sample (holding block) block refl (omega arith) (omega arith) refl
