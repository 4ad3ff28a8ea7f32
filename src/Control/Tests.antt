-- ===== src/Control/Tests.antt =====
-- Frames and server lists on small inputs, for the theorems of the sibling modules.
use memxy.Prelude.{
  ℕ, ◌+◌, ◌^◌, ◌≤◌, ltb, ltb→lt, replicate, length, length-replicate, length-take, take, ◌≡◌, refl,
  Option, List, [], ◌∷◌, ◌++◌, some, none, arith, ◌==◌, if◌then◌else◌,
}
use memxy.Store.{Block, Store, Allocator, put_block, get_count}
use memxy.StreamBuffer.Reserve.{Live}
use memxy.Control.Events.{bytes_of, IsRead, read_event-IsRead}
use memxy.StreamBuffer.{
  reserve_buffer, rewind, fill, buffer_capacity, buffer_consumed, data_used, data_size,
  StreamBuffer, contents,
}
use memxy.StreamBuffer.Contents.{IsValid, filled}
use memxy.Control.{
  Fault, Answer, received, finished, read_event, on_read, read_buffer, looped, Library, Pool,
  read_frames, frame_size, on_body,
}
use memxy.Control.Session.{arriving, Session, begun, event, Parsed, Session-Parsed}
use memxy.Control.Frames.{view}
use memxy.Control.Chunks.{read_frames-append}

-- Each body is added to a list.
abbrev collect : List ℕ → List (List ℕ) → Option Fault × List (List ℕ)
collect body seen = (none, seen ++ (body ∷ []))

-- A frame of two bytes, and the first five bytes of another.
abbrev input_bytes : List ℕ
input_bytes = 0 ∷ 0 ∷ 0 ∷ 2 ∷ 65 ∷ 66 ∷ 0 ∷ 0 ∷ 0 ∷ 2 ∷ 67 ∷ []

abbrev input_block : Block
input_block = record { refs = 1; bytes = 0 ∷ 0 ∷ 0 ∷ 0 ∷ input_bytes }

abbrev input : StreamBuffer
input = record { buffer = 1; used = 15; free = 0; off = 4; ref = [] }

input-IsValid : IsValid input input_block
input-IsValid = record {
  sized = refl;
  off_above = omega arith;
  off_in = omega arith;
  small = omega arith;
}

-- What is left of it, with the last byte of the second frame behind; and all of it.
abbrev left : StreamBuffer
left = record { buffer = 1; used = 15; free = 0; off = 10; ref = [] }

abbrev next_block : Block
next_block = record { refs = 1; bytes = 0 ∷ 0 ∷ 0 ∷ 0 ∷ 0 ∷ 0 ∷ 0 ∷ 2 ∷ 67 ∷ 68 ∷ [] }

abbrev next : StreamBuffer
next = record { buffer = 2; used = 10; free = 0; off = 4; ref = [] }

abbrev whole_block : Block
whole_block = record { refs = 1; bytes = 0 ∷ 0 ∷ 0 ∷ 0 ∷ (input_bytes ++ (68 ∷ [])) }

abbrev whole : StreamBuffer
whole = record { buffer = 3; used = 16; free = 0; off = 4; ref = [] }

next-IsValid : IsValid next next_block
next-IsValid = record {
  sized = refl;
  off_above = omega arith;
  off_in = omega arith;
  small = omega arith;
}

whole-IsValid : IsValid whole whole_block
whole-IsValid = record {
  sized = refl;
  off_above = omega arith;
  off_in = omega arith;
  small = omega arith;
}

read_frames-append_example :
    view collect whole_block (read_frames collect 6 whole whole_block [])
    ≡ view collect next_block
        (some (none, record next { off = 10 }, (65 ∷ 66 ∷ []) ∷ (67 ∷ 68 ∷ []) ∷ []))
unfolding read_frames contents data_size data_used frame_size on_body
read_frames-append_example =
    read_frames-append collect 3 3 6 input next whole left input_block next_block whole_block
      (68 ∷ []) [] ((65 ∷ 66 ∷ []) ∷ [])
      (none, record next { off = 10 }, (65 ∷ 66 ∷ []) ∷ (67 ∷ 68 ∷ []) ∷ []) (omega arith)
      input-IsValid next-IsValid whole-IsValid refl refl refl refl

-- The last byte comes while there is no space.
abbrev libc : Allocator
libc = record {
  grants = λ n. ltb n (2 ^ 62);
  junk = λ n. replicate n 0;
  grants_small = λ n h. ltb→lt n (2 ^ 62) h;
  length-junk = λ n. length-replicate n 0;
}

abbrev store : Store
store = record { next = 2; block = λ a. if a == 1 then some input_block else none }

left-Live : Live left store input_block
left-Live = record {
  at = refl;
  old = omega arith;
  valid = record {
    sized = refl;
    off_above = omega arith;
    off_in = omega arith;
    small = omega arith;
  };
}

abbrev last_byte : ℕ → Answer
last_byte n = received (take n (68 ∷ []))

few : (n : ℕ) → length (bytes_of (last_byte n)) ≤ n
few n = omega (arith, length-take {A = ℕ} n (68 ∷ []))

read_event-IsRead_example :
    IsRead collect libc last_byte
      (contents left input_block)
      ((65 ∷ 66 ∷ []) ∷ [])
      (read_event collect libc last_byte left store ((65 ∷ 66 ∷ []) ∷ []))
read_event-IsRead_example =
    read_event-IsRead collect libc last_byte left store input_block ((65 ∷ 66 ∷ []) ∷ []) left-Live
      (omega arith) few

-- A connection whose first event brings a frame and a part of another.
abbrev empty_block : Block
empty_block = record { refs = 1; bytes = replicate 4100 0 }

abbrev empty : StreamBuffer
empty = record { buffer = 1; used = 4; free = 4096; off = 4; ref = [] }

abbrev empty_store : Store
empty_store = record { next = 2; block = λ a. if a == 1 then some empty_block else none }

empty-Live : Live empty empty_store empty_block
empty-Live = record {
  at = refl;
  old = omega arith;
  valid = record {
    sized = omega (arith, length-replicate {A = ℕ} 4100 0);
    off_above = omega arith;
    off_in = omega arith;
    small = omega (arith, length-replicate {A = ℕ} 4100 0);
  };
}

abbrev after : StreamBuffer
after = record { buffer = 1; used = 15; free = 4085; off = 10; ref = [] }

abbrev after_store : Store
after_store = put_block empty_store 1 (filled input_bytes empty empty_block)

first_event :
    read_event collect libc (arriving input_bytes) empty empty_store []
    ≡ finished none after after_store ((65 ∷ 66 ∷ []) ∷ [])
unfolding read_event reserve_buffer rewind get_count fill buffer_capacity buffer_consumed on_read
    read_buffer looped read_frames contents data_size data_used frame_size on_body
first_event = refl

connection :
    Session collect libc empty empty_store [] input_bytes after after_store ((65 ∷ 66 ∷ []) ∷ [])
connection =
    event [] input_bytes empty after empty_store after_store [] ((65 ∷ 66 ∷ []) ∷ []) begun
      (omega arith) (omega arith) first_event

Session-Parsed_example : Parsed collect libc input_bytes [] after after_store ((65 ∷ 66 ∷ []) ∷ [])
unfolding contents data_size
Session-Parsed_example =
    Session-Parsed collect libc empty empty_store [] empty_block empty-Live refl connection

-- A library that runs out of memory at the third client.
abbrev toy : Library (List ℕ) ℕ
toy = record {
  parse = λ text. some text;
  create = λ i. if i == 2 then none else some (100 + i);
  push = λ servers mc. some mc;
}

abbrev pool : Pool ℕ
pool = record { threads = 7 ∷ 8 ∷ 9 ∷ []; created = 0 }
