-- ===== src/Source/Tests.antt =====
-- Concrete runs of the pool of src/mp/source_impl.h.
use memxy.Prelude.{◌≡◌, refl, Option, none, some, [], ◌∷◌, ltb, arith}
use memxy.Source.{
  Setting, Source, Piece, find, is_spent, carve, carved, splice_to_used, chunk_size, new_chunk,
  linked, expand_free, malloc, free, create,
}
use memxy.Source.Invariant.{Inv, create-Inv, free-Inv}
use memxy.Source.Allocate.{Fits, IsMalloc, malloc-IsMalloc}

-- Chunks of (16 + 40) * 2 bytes.
abbrev setting : Setting
setting = record {
  estimated_allocation_size = 16;
  optimal_lots_in_chunk = 2;
  grants = λ n. ltb n 1048576;
}

setting-Fits : Fits setting
setting-Fits = omega arith

abbrev state : Option (Piece × Source) → Source
state none = create
state (some (p, s)) = s

abbrev first : Piece
first = record { chunk = 0; offset = 8; size = 24 }

abbrev second : Piece
second = record { chunk = 0; offset = 40; size = 24 }

abbrev one_piece : Source
one_piece = state (malloc setting 24 create)

-- The second piece of a chunk lies behind the first, and spends the chunk.
second_runs : malloc setting 24 one_piece ≡ some (second, state (malloc setting 24 one_piece))
unfolding malloc find expand_free linked is_spent new_chunk chunk_size carve carved splice_to_used
    create
second_runs = refl

spent : (state (malloc setting 24 one_piece)).used_list ≡ 0 ∷ []
unfolding malloc find expand_free linked is_spent new_chunk chunk_size carve carved splice_to_used
    create
spent = refl

one_piece-Inv : Inv one_piece (first ∷ [])
unfolding malloc find expand_free linked is_spent new_chunk chunk_size create
one_piece-Inv =
    (malloc-IsMalloc setting 24 create [] create-Inv setting-Fits (omega arith) (omega arith)).1

malloc-IsMalloc_example : IsMalloc setting 24 (first ∷ []) (malloc setting 24 one_piece)
malloc-IsMalloc_example =
    malloc-IsMalloc setting 24 one_piece (first ∷ []) one_piece-Inv setting-Fits (omega arith)
      (omega arith)

free-Inv_example : Inv (free 0 one_piece) []
free-Inv_example = free-Inv [] [] first one_piece one_piece-Inv (omega arith)
