-- ===== src/Source/Invariant.antt =====
-- The pool's invariant, and that free of src/mp/source_impl.h keeps it.
use memxy.Prelude.{
  ℕ, ◌+◌, ◌≤◌, ◌<◌, ◌^◌, ◌≡◌, refl, sym, ap, subst, ◌∙◌, inl, inr, true, Bool-cases, List, [], ◌∷◌,
  ◌++◌, length, length-append, All, ◌==◌, put, arith,
}
use memxy.StreamBuffer.{sub_size}
use memxy.Source.{Chunk, Source, Piece, splice_to_used, splice_to_free, free, create}
use memxy.Source.Pieces.{
  Within, AllApart, count, count-le, count-remove, All-middle, Within-shrink, Within-empty,
  All-remove, AllApart-remove, All-unlink,
}

-- The chunk's part in use and its free part lie in its memory, and `lots` counts its pieces.
abbrev pub Sound : Chunk → ℕ → Type 0
Sound k n = (k.free ≤ k.size) × (k.size + 40 ≤ k.block) × (k.block < 2 ^ 64) × (k.lots ≡ n)

-- The chunks are sound, and the pieces handed out lie in them and do not overlap.
pub record Inv (s : Source) (live : List Piece) : Type 0 where
  pub sound : (i : ℕ) → i < s.next → Sound (s.chunk i) (count i live)
  pub within : All (Within s.chunk s.next) live
  pub apart : AllApart live
  pub listed : All (λ i. i < s.next) s.free_list

-- The pool that the constructor leaves.
pub create-Inv : Inv create []
unfolding create
create-Inv = record { sound = λ i h. absurd (omega arith); within = tt; apart = tt; listed = tt }

pub splice_to_used-Inv :
    (i : ℕ) (s : Source) (live : List Piece) → Inv s live → Inv (splice_to_used i s) live
unfolding splice_to_used
splice_to_used-Inv i s live v = record {
  sound = v.sound;
  within = v.within;
  apart = v.apart;
  listed = All-unlink (λ i. i < s.next) i s.free_list v.listed;
}

splice_to_free-Inv :
    (i : ℕ) (s : Source) (live : List Piece)
    → Inv s live
    → i < s.next
    → count i live ≡ 0
    → Inv (splice_to_free i s) live
unfolding splice_to_free
splice_to_free-Inv i s live v lt z = record {
  sound = λ j h. elim (Bool-cases (i == j)) [
    | inl same ↦
        let e : j ≡ i = ground arith in
        let old = v.sound i lt in
        rw (same) (
          omega arith,
          omega (arith, old),
          omega (arith, old),
          omega (arith, old) ∙ ap (λ x. count x live) (sym e),
        )
    | inr other ↦ rw (other) (v.sound j h)
  ];
  within =
      Within-empty s.chunk s.next s.next i (record (s.chunk i) { free = (s.chunk i).size }) live
        (omega arith) z v.within;
  apart = v.apart;
  listed = (lt, All-unlink (λ i. i < s.next) i s.free_list v.listed);
}

-- In a pool whose pieces lie in the memory of their chunks and do not overlap, freeing one of them,
-- the last of its chunk or not, keeps that for the others. The number of pieces is in size_t's range.
pub free-Inv :
    (ps qs : List Piece) (p : Piece) (s : Source)
    → Inv s (ps ++ (p ∷ qs))
    → length ps + length qs + 1 < 2 ^ 64
    → Inv (free p.chunk s) (ps ++ qs)
unfolding free
free-Inv ps qs p s v few = elim (Bool-cases (k.lots == 0)) [
  | inl last ↦ rw (last) (splice_to_free-Inv i _ (ps ++ qs) kept lt (sym left ∙ ground arith))
  | inr more ↦ rw (more) kept
]
  where
    i : ℕ
    i = p.chunk

    k : Chunk
    k = record (s.chunk i) { lots = sub_size (s.chunk i).lots 1 }

    lt : i < s.next
    lt = (All-middle (Within s.chunk s.next) ps qs p v.within).0

    left : k.lots ≡ count i (ps ++ qs)
    left =
        let here : (p.chunk == p.chunk) ≡ true = ground arith in
        let both = rw here at (count-remove i ps qs p) in
        omega (arith, v.sound i lt, both, count-le i (ps ++ qs), length-append ps qs)

    kept : Inv (record s { chunk = put s.chunk i k }) (ps ++ qs)
    kept = record {
      sound = λ j h. elim (Bool-cases (i == j)) [
        | inl same ↦
            let e : j ≡ i = ground arith in
            let old = v.sound i lt in
            rw (same) (
              omega (arith, old),
              omega (arith, old),
              omega (arith, old),
              left ∙ ap (λ x. count x (ps ++ qs)) (sym e),
            )
        | inr other ↦ rw (other) (
            subst (λ n. Sound (s.chunk j) n) (ground (arith, count-remove j ps qs p)) (v.sound j h))
      ];
      within =
          Within-shrink s.chunk s.next s.next i k (ps ++ qs) (omega arith) refl (omega arith)
            (All-remove (Within s.chunk s.next) ps qs p v.within);
      apart = AllApart-remove ps qs p v.apart;
      listed = v.listed;
    }
