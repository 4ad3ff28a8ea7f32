-- ===== src/Source/Allocate.antt =====
-- That malloc of src/mp/source_impl.h hands out a piece of its own and keeps the pool's invariant.
use memxy.Prelude.{
  ℕ, suc, ◌+◌, ◌-◌, ◌*◌, ◌≤◌, ◌<◌, ◌^◌, ◌%◌, ◌≡◌, refl, sym, ap, subst, ◌∙◌, inl, inr, true, false,
  Bool-cases, Option, none, some, List, [], ◌∷◌, length, All, ltb, ◌==◌, put, arith,
}
use memxy.StreamBuffer.{add_size}
use memxy.Source.{
  Chunk, Setting, Source, Piece, find, is_spent, carved, carve, chunk_size, new_chunk, linked,
  expand_free, malloc,
}
use memxy.Source.Pieces.{
  Within, AllApart, count, count-le, count-next, Within-shrink, Within-empty, Apart-new, Apart-next,
  All-le,
}
use memxy.Source.Invariant.{Sound, Inv, splice_to_used-Inv}

-- A chunk that was found has room.
abbrev Found : ℕ → ℕ → (ℕ → Chunk) → Option ℕ → Type 0
Found next req chunk none = Unit
Found next req chunk (some i) = (i < next) × (req ≤ (chunk i).free)

find-Found :
    (next req : ℕ) (chunk : ℕ → Chunk) (xs : List ℕ)
    → All (λ i. i < next) xs
    → Found next req chunk (find req chunk xs)
unfolding find
find-Found next req chunk [] h = tt
find-Found next req chunk (i ∷ is) (h, hs) = elim (Bool-cases (ltb (chunk i).free req)) [
  | inl small ↦ rw (small) (find-Found next req chunk is hs)
  | inr room ↦ rw (room) (h, ground arith)
]

-- What malloc leaves: a new piece beside the others, or bad_alloc for a chunk that holds the piece.
abbrev pub IsMalloc : Setting → ℕ → List Piece → Option (Piece × Source) → Type 0
IsMalloc c size live none = (n : ℕ) × (size + 48 ≤ n) × (c.grants n ≡ false)
IsMalloc c size live (some (p, s')) = (p.size ≡ size) × Inv s' (p ∷ live)

carve-IsMalloc :
    (c : Setting) (size i : ℕ) (s : Source) (live : List Piece)
    → Inv s live
    → i < s.next
    → size + 8 ≤ (s.chunk i).free
    → length live + 1 < 2 ^ 64
    → IsMalloc c size live (some (carve c size (size + 8) i s))
unfolding carve carved
carve-IsMalloc c size i s live v lt room few = (
  refl,
  elim (Bool-cases (is_spent c (carved (size + 8) (s.chunk i)))) [
    | inl spent ↦ rw (spent) (splice_to_used-Inv i _ _ kept)
    | inr left ↦ rw (left) kept
  ],
)
  where
    k : Chunk
    k = carved (size + 8) (s.chunk i)

    p : Piece
    p = record { chunk = i; offset = (s.chunk i).size - (s.chunk i).free + 8; size = size }

    left : k.free ≡ (s.chunk i).free - (size + 8)
    left = omega (arith, v.sound i lt)

    kept_sound : Sound k (1 + count i live)
    kept_sound =
        let old = v.sound i lt in
        let some_left = count-le i live in
        (
          omega (arith, left, old),
          omega (arith, old),
          omega (arith, old),
          omega (arith, old, some_left),
        )

    here : p.offset + p.size + (put s.chunk i k i).free ≤ (put s.chunk i k i).size
    here =
        let same : (i == i) ≡ true = ground arith in rw (same) (omega (arith, left, v.sound i lt))

    kept : Inv (record s { chunk = put s.chunk i k }) (p ∷ live)
    kept = record {
      sound = λ j h. elim (Bool-cases (i == j)) [
        | inl same ↦
            let e : j ≡ i = ground arith in
            rw (same) (subst (λ x. Sound k (1 + count x live)) (sym e) kept_sound)
        | inr other ↦ rw (other) (v.sound j h)
      ];
      within = (
        (lt, omega arith, here),
        Within-shrink s.chunk s.next s.next i k live (omega arith) refl (omega (arith, left))
            v.within,
      );
      apart = (Apart-new s.chunk s.next p live (omega (arith, v.sound i lt)) v.within, v.apart);
      listed = v.listed;
    }

-- The usual size of a chunk leaves room for its `chunk_t` in size_t.
abbrev pub Fits : Setting → Type 0
Fits c = add_size c.estimated_allocation_size 40 * c.optimal_lots_in_chunk % 2 ^ 64 + 40 < 2 ^ 64

chunk_size_lem :
    (c : Setting) (req : ℕ)
    → Fits c
    → req + 40 < 2 ^ 64
    → (req ≤ chunk_size c req) × (chunk_size c req + 40 < 2 ^ 64)
unfolding chunk_size
chunk_size_lem c req f h =
    elim (Bool-cases
      (ltb (add_size c.estimated_allocation_size 40 * c.optimal_lots_in_chunk % 2 ^ 64) req)) [
        | inl less ↦ rw (less) (omega arith, h)
        | inr enough ↦ rw (enough) (ground arith, f)
      ]

new_chunk-Sound :
    (c : Setting) (req : ℕ)
    → Fits c
    → req + 40 < 2 ^ 64
    → Sound (new_chunk c req) 1 × ((new_chunk c req).free + req ≡ (new_chunk c req).size)
unfolding new_chunk
new_chunk-Sound c req f h =
    let (low, high) = chunk_size_lem c req f h in
    ((omega arith, omega arith, omega arith, refl), omega arith)

linked-Inv :
    (c : Setting) (size : ℕ) (s : Source) (live : List Piece)
    → Inv s live
    → Fits c
    → size + 48 < 2 ^ 64
    → Inv (linked c (size + 8) s) (record { chunk = s.next; offset = 8; size = size } ∷ live)
unfolding linked
linked-Inv c size s live v f h = elim (Bool-cases (is_spent c k)) [
  | inl spent ↦
      rw (spent) (record { sound = sound; within = within; apart = apart; listed = others })
  | inr left ↦
      rw (left)
        (record { sound = sound; within = within; apart = apart; listed = (omega arith, others) })
]
  where
    k : Chunk
    k = new_chunk c (size + 8)

    fresh : Sound k 1 × (k.free + (size + 8) ≡ k.size)
    fresh = new_chunk-Sound c (size + 8) f (omega arith)

    p : Piece
    p = record { chunk = s.next; offset = 8; size = size }

    none_yet : count s.next live ≡ 0
    none_yet = count-next s.chunk s.next live v.within

    sound : (j : ℕ) → j < suc s.next → Sound (put s.chunk s.next k j) (count j (p ∷ live))
    sound j lt = elim (Bool-cases (s.next == j)) [
      | inl same ↦
          let e : j ≡ s.next = ground arith in
          rw (same)
            (subst (λ n. Sound k (1 + n)) (sym (ap (λ x. count x live) e ∙ none_yet)) (fresh.0))
      | inr other ↦ rw (other) (v.sound j (ground arith))
    ]

    here : 8 + size + (put s.chunk s.next k s.next).free ≤ (put s.chunk s.next k s.next).size
    here = let same : (s.next == s.next) ≡ true = ground arith in rw (same) (omega (arith, fresh.1))

    within : All (Within (put s.chunk s.next k) (suc s.next)) (p ∷ live)
    within = (
      (omega arith, omega arith, here),
      Within-empty s.chunk s.next (suc s.next) s.next k live (omega arith) none_yet v.within,
    )

    apart : AllApart (p ∷ live)
    apart = (Apart-next s.chunk s.next p live refl v.within, v.apart)

    others : All (λ i. i < suc s.next) s.free_list
    others = All-le s.next (suc s.next) s.free_list (omega arith) v.listed

-- From a pool whose pieces do not overlap, malloc hands out a piece of the size asked for that lies
-- in the memory of its chunk and overlaps none of the pieces not yet freed, and its state keeps that
-- for the pieces together; or it throws bad_alloc, when std::malloc refused a size that the piece
-- needs. The sizes are below the range of size_t, and so is the number of pieces.
pub malloc-IsMalloc :
    (c : Setting) (size : ℕ) (s : Source) (live : List Piece)
    → Inv s live
    → Fits c
    → size + 48 < 2 ^ 64
    → length live + 1 < 2 ^ 64
    → IsMalloc c size live (malloc c size s)
unfolding malloc expand_free
malloc-IsMalloc c size s live v f h few =
    subst
      (λ n. IsMalloc c size live (elim (find n s.chunk s.free_list) [
        | some i ↦ some (carve c size n i s)
        | none ↦ expand_free c size n s
      ]))
      whole
      (go (find (size + 8) s.chunk s.free_list)
        (find-Found s.next (size + 8) s.chunk s.free_list v.listed))
  where
    whole : size + 8 ≡ add_size size 8
    whole = omega arith

    go :
        (o : Option ℕ)
        → Found s.next (size + 8) s.chunk o
        → IsMalloc c size live (elim o [
          | some i ↦ some (carve c size (size + 8) i s)
          | none ↦ expand_free c size (size + 8) s
        ])
    go (some i) (lt, room) = carve-IsMalloc c size i s live v lt room few
    go none h' = elim (Bool-cases (c.grants (new_chunk c (size + 8)).block)) [
      | inl given ↦ rw (given) (refl, linked-Inv c size s live v f h)
      | inr refused ↦
          let fresh = new_chunk-Sound c (size + 8) f (omega arith) in
          rw (refused) ((new_chunk c (size + 8)).block, omega (arith, fresh), refused)
    ]
