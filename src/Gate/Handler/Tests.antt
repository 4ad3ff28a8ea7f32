-- ===== src/Gate/Handler/Tests.antt =====
-- A handler of src/gate_memtext.cc on a small client library, whose first event brings a set and a get.
use memxy.Prelude.{
  ℕ, ◌≡◌, ◌≤◌, ◌^◌, refl, false, inl, inr, none, some, List, [], ◌∷◌, ◌++◌, replicate,
  length-replicate, ltb, ltb→lt, Bool-cases, ◌==◌, if◌then◌else◌, arith,
}
use memxy.Store.{Block, Store, Allocator}
use memxy.StreamBuffer.{contents, data_size}
use memxy.Memtext.{cmd_set, init, decimal}
use memxy.Memtext.Pieces.{at_start}
use memxy.Memtext.StorageTexts.{Storage, IsStorage}
use memxy.Memtext.Lines.{lines_text}
use memxy.Control.{Answer, received, interrupted}
use memxy.Gate.{Client, Fetched, vectors, success, not_found}
use memxy.Gate.Retrieval.{render, concat}
use memxy.Gate.Handler.{Handler, read_event}
use memxy.Gate.Handler.Events.{Waits, IsAnswer, IsRead, read_event-Waits}
use memxy.Gate.Handler.Service.{
  Served, serving, callbacks, Serves, set_get, set_replies, read_event-set_get,
}

abbrev plain : Allocator
plain = record {
  grants = λ n. ltb n (2 ^ 62);
  junk = λ n. replicate n 0;
  grants_small = λ n h. ltb→lt n (2 ^ 62) h;
  length-junk = λ n. length-replicate n 0;
}

-- A client library of one cell, whose keys all name it: the value and its flags.
abbrev Cell : Type 0
Cell = List ℕ × ℕ

abbrev of_cell : List ℕ → Cell → Fetched
of_cell k (v, f) = record { key = k; val = some v; flags = f; error = success }

abbrev cell : Client Cell
cell = record {
  get = λ k s. (of_cell k s, s);
  mget = λ ks s. (success, s);
  fetch = λ k s. (of_cell k s, s);
  set = λ k v e f s. (success, (v, f));
  delete = λ k e s. (not_found, s);
}

-- The handler behind its constructor.
abbrev first_block : Block
first_block = record { refs = 1; bytes = replicate 32768 0 }

abbrev fresh : Handler
fresh = record {
  buffer = record { buffer = 1; used = 4; free = 32764; off = 4; ref = [] };
  parser = init;
  off = 0;
}

abbrev store : Store
store = record { next = 2; block = λ a. if a == 1 then some first_block else none }

fresh-Waits : Waits fresh store first_block
unfolding contents data_size init
fresh-Waits = record {
  live = record {
    at = refl;
    old = omega arith;
    valid = record {
      sized = omega (arith, length-replicate {A = ℕ} 32768 0);
      off_above = omega arith;
      off_in = omega arith;
      small = omega (arith, length-replicate {A = ℕ} 32768 0);
    };
  };
  read_all = refl;
  marks = tt;
}

abbrev key_k : List ℕ
key_k = b'k' ∷ []

-- "set k 5 0 2\r\nab\r\n"
abbrev set_k : Storage
set_k = record {
  command = cmd_set;
  key = key_k;
  flags_text = b'5' ∷ [];
  flags = 5;
  exptime_text = b'0' ∷ [];
  exptime = 0;
  bytes_text = b'2' ∷ [];
  data_bytes = b'a' ∷ b'b' ∷ [];
  noreply = false;
}

set_k-IsStorage : IsStorage set_k
unfolding decimal
set_k-IsStorage = record {
  is_storage = refl;
  is_key = ((λ e. cc), (refl, tt));
  is_flags = (inr (refl, (λ e. omega (arith, e)), tt), omega arith, refl);
  is_exptime = (inl (refl, refl), omega arith, refl);
  is_bytes = (inr (refl, (λ e. omega (arith, e)), tt), omega arith, refl);
  has_data = λ e. cc;
  flags_fit = omega arith;
  exptime_fits = omega arith;
}

abbrev answers : ℕ → Answer
answers n = if ltb n 4096 then interrupted else received (lines_text (set_get plain cell set_k))

answers_fit : (n : ℕ) → IsAnswer (callbacks plain cell) n (answers n)
answers_fit n = elim (Bool-cases (ltb n 4096)) [
  | inl few ↦ rw (few) tt
  | inr many ↦ rw (many) (omega arith, ground arith)
]

answers_there : (n : ℕ) → 4096 ≤ n → answers n ≡ received (lines_text (set_get plain cell set_k))
answers_there n h = let many : ltb n 4096 ≡ false = ground arith in rw (many) refl

abbrev idle : Served Cell
idle = serving ([], 0) []

read_event-Waits_example :
    IsRead
      (callbacks plain cell)
      plain
      answers
      (contents fresh.buffer first_block)
      0
      fresh.parser
      idle
      (read_event (callbacks plain cell) plain answers fresh store idle)
read_event-Waits_example =
    read_event-Waits (callbacks plain cell) plain answers fresh store first_block idle fresh-Waits
      (omega arith) answers_fit

read_event-set_get_example :
    (vs : List (List ℕ)) × (s' : Cell) × Serves
      (callbacks plain cell)
      (serving s' (set_replies plain cell [] set_k ++ (vectors vs ∷ [])))
      (read_event (callbacks plain cell) plain answers fresh store idle)
    × (concat vs
        ≡ render false (record { key = key_k; val = some (b'a' ∷ b'b' ∷ []); flags = 5 } ∷ []))
unfolding contents data_size init
read_event-set_get_example =
    read_event-set_get plain cell answers fresh store first_block set_k ([], 0) [] fresh-Waits refl
      at_start (omega arith) answers_fit answers_there set_k-IsStorage refl (omega arith) refl refl
      (refl, refl, refl)
