-- ===== src/Source.antt =====
-- The memory pool of src/mp/source.h and source_impl.h. A chunk is named by a number, in the order in
-- which std::malloc gave them; the rings m_free and m_used are the lists of their chunks behind the
-- two heads.
pub mod Pieces
pub mod Invariant
pub mod Allocate
mod Tests
use memxy.Prelude.{
  ℕ, zero, suc, ◌+◌, ◌-◌, ◌*◌, ◌^◌, ◌%◌, Bool, true, false, Option, none, some, List, [], ◌∷◌, ltb,
  ◌==◌, if◌then◌else◌, put,
}
use memxy.StreamBuffer.{add_size, sub_size}

-- sizeof(chunk_t) and sizeof(data_t)
abbrev pub sizeof_chunk : ℕ
sizeof_chunk = 40

abbrev pub sizeof_data : ℕ
sizeof_data = 8

-- `chunk_t` behind its links; `block` is the length of the memory that std::malloc gave for it.
pub record Chunk : Type 0 where
  pub free : ℕ
  pub lots : ℕ
  pub size : ℕ
  pub block : ℕ

-- The template's parameters, and whether std::malloc grants a size.
pub record Setting : Type 0 where
  pub estimated_allocation_size : ℕ
  pub optimal_lots_in_chunk : ℕ
  pub grants : ℕ → Bool

-- `source`; `next` is the number of the next chunk.
pub record Source : Type 0 where
  pub free_list : List ℕ
  pub used_list : List ℕ
  pub chunk : ℕ → Chunk
  pub next : ℕ

-- A piece that was handed out: its chunk, to which the `data_t` before it points, its distance from
-- the end of the `chunk_t`, and the size that was asked for.
pub record Piece : Type 0 where
  pub chunk : ℕ
  pub offset : ℕ
  pub size : ℕ

-- The unlinking of a chunk from its ring.
abbrev pub unlink : ℕ → List ℕ → List ℕ
unlink i [] = []
unlink i (x ∷ xs) = let rest = unlink i xs in if x == i then xs else x ∷ rest

-- The loop of `malloc`: the first chunk with room.
pub find : ℕ → (ℕ → Chunk) → List ℕ → Option ℕ
find req chunk [] = none
find req chunk (i ∷ is) =
    let rest = find req chunk is in if ltb (chunk i).free req then rest else some i

-- The test after each allocation.
pub is_spent : Setting → Chunk → Bool
is_spent c k = ltb k.free (add_size c.estimated_allocation_size sizeof_chunk)

pub splice_to_used : ℕ → Source → Source
splice_to_used i s = record s {
  free_list = unlink i s.free_list;
  used_list = i ∷ unlink i s.used_list;
}

pub splice_to_free : ℕ → Source → Source
splice_to_free i s = record s {
  free_list = i ∷ unlink i s.free_list;
  used_list = unlink i s.used_list;
  chunk = put s.chunk i (record (s.chunk i) { free = (s.chunk i).size });
}

-- A chunk with one piece more.
pub carved : ℕ → Chunk → Chunk
carved req k = record k { lots = add_size k.lots 1; free = sub_size k.free req }

-- The body of the loop for a chunk with room.
pub carve : Setting → ℕ → ℕ → ℕ → Source → Piece × Source
carve c size req i s =
    let k = carved req (s.chunk i) in
    let s' : Source = record s { chunk = put s.chunk i k } in
    (
      record { chunk = i; offset = (s.chunk i).size - (s.chunk i).free + sizeof_data; size = size },
      if is_spent c k then splice_to_used i s' else s',
    )

-- The size of a new chunk.
pub chunk_size : Setting → ℕ → ℕ
chunk_size c req =
    let default_chunk_size =
      add_size c.estimated_allocation_size sizeof_chunk * c.optimal_lots_in_chunk % 2 ^ 64 in
    if ltb default_chunk_size req then req else default_chunk_size

-- The new chunk with its first piece.
pub new_chunk : Setting → ℕ → Chunk
new_chunk c req = record {
  free = sub_size (chunk_size c req) req;
  lots = 1;
  size = chunk_size c req;
  block = add_size sizeof_chunk (chunk_size c req);
}

pub linked : Setting → ℕ → Source → Source
linked c req s =
    let s' : Source = record s {
      chunk = put s.chunk s.next (new_chunk c req);
      next = suc s.next;
    } in
    if is_spent c (new_chunk c req)
    then record s' { used_list = s.next ∷ s.used_list }
    else record s' { free_list = s.next ∷ s.free_list }

-- `expand_free`; `none` is bad_alloc.
pub expand_free : Setting → ℕ → ℕ → Source → Option (Piece × Source)
expand_free c size req s =
    if c.grants (new_chunk c req).block
    then some (record { chunk = s.next; offset = sizeof_data; size = size }, linked c req s)
    else none

-- `malloc`
pub malloc : Setting → ℕ → Source → Option (Piece × Source)
malloc c size s =
    let req = add_size size sizeof_data in
    elim (find req s.chunk s.free_list) [
      | some i ↦ some (carve c size req i s)
      | none ↦ expand_free c size req s
    ]

-- `free`
pub free : ℕ → Source → Source
free i s =
    let k : Chunk = record (s.chunk i) { lots = sub_size (s.chunk i).lots 1 } in
    let s' : Source = record s { chunk = put s.chunk i k } in
    if k.lots == 0 then splice_to_free i s' else s'

-- The constructor, once its two allocations are had.
pub create : Source
create = record {
  free_list = [];
  used_list = [];
  chunk = λ i. record { free = 0; lots = 0; size = 0; block = 0 };
  next = 0;
}
