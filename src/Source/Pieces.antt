-- ===== src/Source/Pieces.antt =====
-- The pieces that a pool has handed out (src/mp/source_impl.h), and what a new one or a returned one
-- does to them.
use memxy.Prelude.{
  ℕ, ◌+◌, ◌≤◌, ◌<◌, ◌≡◌, refl, sym, subst, ◌⊎◌, inl, inr, Bool-cases, List, [], ◌∷◌, ◌++◌, length,
  All, ◌==◌, if◌then◌else◌, put, arith,
}
use memxy.Source.{Chunk, Piece, unlink}

-- The piece lies in its chunk, behind its `data_t` and before the free part.
abbrev pub Within : (ℕ → Chunk) → ℕ → Piece → Type 0
Within chunk next p =
    (p.chunk < next)
    × (8 ≤ p.offset)
    × (p.offset + p.size + (chunk p.chunk).free ≤ (chunk p.chunk).size)

-- Two pieces with their `data_t` do not overlap.
abbrev pub Apart : Piece → Piece → Type 0
Apart p q =
    p.chunk ≡ q.chunk → (p.offset + p.size + 8 ≤ q.offset) ⊎ (q.offset + q.size + 8 ≤ p.offset)

abbrev pub AllApart : List Piece → Type 0
AllApart [] = Unit
AllApart (p ∷ ps) = All (Apart p) ps × AllApart ps

-- How many of the pieces lie in a chunk.
abbrev pub count : ℕ → List Piece → ℕ
count i [] = 0
count i (p ∷ ps) = let rest = count i ps in if p.chunk == i then 1 + rest else rest

pub count-le : (i : ℕ) (ps : List Piece) → count i ps ≤ length ps
count-le i [] = omega arith
count-le i (p ∷ ps) = ground (arith, count-le i ps)

pub count-append : (i : ℕ) (ps qs : List Piece) → count i (ps ++ qs) ≡ count i ps + count i qs
count-append i [] qs = omega arith
count-append i (p ∷ ps) qs = ground (arith, count-append i ps qs)

-- No piece lies in a chunk yet to come.
pub count-next :
    (chunk : ℕ → Chunk) (next : ℕ) (ps : List Piece)
    → All (Within chunk next) ps
    → count next ps ≡ 0
count-next chunk next [] h = refl
count-next chunk next (p ∷ ps) (h, hs) = ground (arith, count-next chunk next ps hs)

-- A chunk that gives up free bytes, while others may be added, keeps its pieces.
pub Within-shrink :
    (chunk : ℕ → Chunk) (next next' i : ℕ) (k : Chunk) (ps : List Piece)
    → next ≤ next'
    → k.size ≡ (chunk i).size
    → k.free ≤ (chunk i).free
    → All (Within chunk next) ps
    → All (Within (put chunk i k) next') ps
Within-shrink chunk next next' i k [] le e f h = tt
Within-shrink chunk next next' i k (p ∷ ps) le e f ((a, b, c), hs) =
    ((omega arith, b, ground arith), Within-shrink chunk next next' i k ps le e f hs)

-- A chunk without pieces may change in any way.
pub Within-empty :
    (chunk : ℕ → Chunk) (next next' i : ℕ) (k : Chunk) (ps : List Piece)
    → next ≤ next'
    → count i ps ≡ 0
    → All (Within chunk next) ps
    → All (Within (put chunk i k) next') ps
Within-empty chunk next next' i k [] le z h = tt
Within-empty chunk next next' i k (p ∷ ps) le z ((a, b, c), hs) =
    ((omega arith, b, ground arith), Within-empty chunk next next' i k ps le (ground arith) hs)

-- A piece that begins at the free part, or in a chunk of its own, is apart from all.
pub Apart-new :
    (chunk : ℕ → Chunk) (next : ℕ) (p : Piece) (ps : List Piece)
    → ((chunk p.chunk).size + 8 ≤ p.offset + (chunk p.chunk).free)
    → All (Within chunk next) ps
    → All (Apart p) ps
Apart-new chunk next p [] h w = tt
Apart-new chunk next p (q ∷ qs) h ((a, b, c), ws) = (
  λ e.
      let c' = subst (λ x. q.offset + q.size + (chunk x).free ≤ (chunk x).size) (sym e) c in
      inr (omega (arith, c')),
  Apart-new chunk next p qs h ws,
)

pub Apart-next :
    (chunk : ℕ → Chunk) (next : ℕ) (p : Piece) (ps : List Piece)
    → p.chunk ≡ next
    → All (Within chunk next) ps
    → All (Apart p) ps
Apart-next chunk next p [] h w = tt
Apart-next chunk next p (q ∷ qs) h ((a, b, c), ws) =
    (λ e. absurd (omega arith), Apart-next chunk next p qs h ws)

module _ (P : Piece → Type 0) where
  pub All-remove : (ps qs : List Piece) (p : Piece) → All P (ps ++ (p ∷ qs)) → All P (ps ++ qs)
  All-remove [] qs p (h, hs) = hs
  All-remove (x ∷ ps) qs p (h, hs) = (h, All-remove ps qs p hs)

  pub All-middle : (ps qs : List Piece) (p : Piece) → All P (ps ++ (p ∷ qs)) → P p
  All-middle [] qs p (h, hs) = h
  All-middle (x ∷ ps) qs p (h, hs) = All-middle ps qs p hs

-- The pieces of a chunk without the piece `p`.
pub count-remove :
    (i : ℕ) (ps qs : List Piece) (p : Piece)
    → count i (ps ++ (p ∷ qs)) ≡ count i (ps ++ qs) + (if p.chunk == i then 1 else 0)
count-remove i [] qs p = ground arith
count-remove i (x ∷ ps) qs p = ground (arith, count-remove i ps qs p)

pub AllApart-remove :
    (ps qs : List Piece) (p : Piece) → AllApart (ps ++ (p ∷ qs)) → AllApart (ps ++ qs)
AllApart-remove [] qs p (h, hs) = hs
AllApart-remove (x ∷ ps) qs p (h, hs) = (All-remove _ ps qs p h, AllApart-remove ps qs p hs)

-- Unlinking keeps what holds of all elements.
pub All-unlink : (P : ℕ → Type 0) (i : ℕ) (xs : List ℕ) → All P xs → All P (unlink i xs)
All-unlink P i [] h = tt
All-unlink P i (x ∷ xs) (h, hs) = elim (Bool-cases (x == i)) [
  | inl here ↦ rw (here) hs
  | inr other ↦ rw (other) (h, All-unlink P i xs hs)
]

pub All-le : (m n : ℕ) (xs : List ℕ) → m ≤ n → All (λ x. x < m) xs → All (λ x. x < n) xs
All-le m n [] le h = tt
All-le m n (x ∷ xs) le (h, hs) = (omega arith, All-le m n xs le hs)
