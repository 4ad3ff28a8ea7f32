-- ===== src/Memtext/Tests.antt =====
-- The machine of src/memproto/memtext.rl on concrete bytes, with the callbacks of src/gate_memtext.cc
-- kept as a list of requests.
use memxy.Prelude.{
  ℕ, zero, suc, ◌≡◌, refl, Bool, true, false, inl, inr, Option, none, some, List, [], ◌∷◌, ◌++◌,
  length, All, take, drop, replicate, length-replicate, arith,
}
use memxy.Memtext.{
  cmd_get, cmd_gets, cmd_set, cmd_delete, start, done, Parser, Request, retrieval_request,
  storage_request, delete_request, init, reset, request, mark_key, set_key, assign, field, convert,
  set_integer, keys_from, data_start, decimal,
}
use memxy.Memtext.Machine.{
  Callbacks, Executed, executed, parse_error, out_of_bounds, step_in, run, execute, letter,
  name_end, marked, begins, keyword, finish, call, newline, data_byte, number_end, first_digit,
  converted, after, after_key, key_may_end,
}
use memxy.Memtext.Bounds.{step_in-Keeps}
use memxy.Memtext.Marks.{Keeps, IsFull}
use memxy.Memtext.Chunks.{Resumes, execute-Resumes}
use memxy.Memtext.Pieces.{at_start}
use memxy.Memtext.Texts.{IsKey}
use memxy.Memtext.StorageTexts.{Storage, IsStorage, storage_text, requested}
use memxy.Memtext.Keys.{run_too_many_keys}
use memxy.Memtext.Lines.{
  Line, storage_line, retrieval_line, accepts_none, accepts_next, execute-lines, lines_text,
}

abbrev Log : Type 0
Log = List Request

abbrev noted : Request → Log → Bool × Log
noted r u = (true, u ++ (r ∷ []))

abbrev callbacks : Callbacks Log
callbacks cmd_get = some noted
callbacks cmd_gets = some noted
callbacks cmd_set = some noted
callbacks cmd_delete = some noted
callbacks command = none

-- "get a\r\n" and "set k 5 0 2\r\nab\r\n"
abbrev get_a : List ℕ
get_a = b'g' ∷ b'e' ∷ b't' ∷ b' ' ∷ b'a' ∷ b'\r' ∷ b'\n' ∷ []

abbrev key_k : List ℕ
key_k = b'k' ∷ []

abbrev set_k : Storage
set_k = record {
  command = cmd_set;
  key = key_k;
  flags_text = b'5' ∷ [];
  flags = 5;
  exptime_text = b'0' ∷ [];
  exptime = 0;
  bytes_text = b'2' ∷ [];
  data_bytes = b'a' ∷ b'b' ∷ [];
  noreply = false;
}

-- What a call leaves: its result, its offset and the requests.
abbrev outcome : Executed Log → Option (Bool × ℕ × Log)
outcome (executed final off c u) = some (final, off, u)
outcome (parse_error u) = none
outcome out_of_bounds = none

get_a_run :
    outcome (execute callbacks get_a 0 init [])
    ≡ some (true, 7, retrieval_request ((b'a' ∷ []) ∷ []) ∷ [])
unfolding execute run step_in letter name_end marked begins keyword finish call newline init reset
    request mark_key set_key keys_from key_may_end
get_a_run = refl

set_k_run :
    outcome (execute callbacks (storage_text set_k []) 0 init [])
    ≡ some (true, 17, storage_request key_k (b'a' ∷ b'b' ∷ []) 5 0 false ∷ [])
unfolding execute run step_in letter name_end marked begins keyword finish call newline init reset
    request mark_key set_key keys_from key_may_end after after_key number_end first_digit converted
    set_integer convert assign field data_start data_byte decimal
set_k_run = refl

-- A data block of no bytes is refused, and so is a command without a callback.
abbrev empty_block : List ℕ
empty_block =
    b's' ∷ b'e' ∷ b't' ∷ b' ' ∷ b'k' ∷ b' ' ∷ b'0' ∷ b' ' ∷ b'0' ∷ b' ' ∷ b'0' ∷ b'\r' ∷ b'\n'
    ∷ b'\r' ∷ b'\n' ∷ []

empty_block_run : outcome (execute callbacks empty_block 0 init []) ≡ none
unfolding execute run step_in letter name_end marked begins keyword finish call newline init reset
    request mark_key set_key keys_from key_may_end after after_key number_end first_digit converted
    set_integer convert assign field data_start data_byte decimal
empty_block_run = refl

-- "delete k 10\r\n"
delete_run :
    outcome (
      execute callbacks
        (b'd' ∷ b'e' ∷ b'l' ∷ b'e' ∷ b't' ∷ b'e' ∷ b' ' ∷ b'k' ∷ b' ' ∷ b'1' ∷ b'0' ∷ b'\r' ∷ b'\n'
          ∷ [])
        0
        init
        [])
    ≡ some (true, 13, delete_request key_k 10 false ∷ [])
unfolding execute run step_in letter name_end marked begins keyword finish call newline init reset
    request mark_key set_key keys_from key_may_end after after_key number_end first_digit converted
    set_integer convert assign field data_start data_byte decimal
delete_run = refl

execute-Resumes_example :
    Resumes callbacks
      (take 5 get_a)
      (drop 5 get_a)
      (execute callbacks (take 5 get_a) 0 init [])
      (execute callbacks (take 5 get_a ++ drop 5 get_a) 0 init [])
unfolding init
execute-Resumes_example =
    execute-Resumes callbacks (take 5 get_a) (drop 5 get_a) 0 init [] (omega arith) (omega arith) tt

step_in-Keeps_example :
    Keeps {U = Log} (IsFull init) 1 (step_in callbacks start get_a 0 b'g' init [])
unfolding init
step_in-Keeps_example = step_in-Keeps callbacks start get_a 0 b'g' init [] refl tt

key_k-IsKey : IsKey key_k
key_k-IsKey = ((λ e. cc), (refl, tt))

set_k-IsStorage : IsStorage set_k
unfolding decimal
set_k-IsStorage = record {
  is_storage = refl;
  is_key = key_k-IsKey;
  is_flags = (inr (refl, (λ e. omega (arith, e)), tt), omega arith, refl);
  is_exptime = (inl (refl, refl), omega arith, refl);
  is_bytes = (inr (refl, (λ e. omega (arith, e)), tt), omega arith, refl);
  has_data = λ e. cc;
  flags_fit = omega arith;
  exptime_fits = omega arith;
}

abbrev after_set : Log
after_set = requested set_k ∷ []

abbrev get_two : Line
get_two = retrieval_line cmd_get key_k ((b'a' ∷ b'b' ∷ []) ∷ [])

get_two-IsKeys : All IsKey ((b'a' ∷ b'b' ∷ []) ∷ [])
get_two-IsKeys = (((λ e. cc), (refl, (refl, tt))), tt)

abbrev after_get : Log
after_get = retrieval_request (key_k ∷ (b'a' ∷ b'b' ∷ []) ∷ []) ∷ []

many-IsKey : (n : ℕ) → All IsKey (replicate n key_k)
many-IsKey zero = tt
many-IsKey (suc n) = (key_k-IsKey, many-IsKey n)

abbrev many_text : List ℕ
many_text = lines_text (retrieval_line cmd_get key_k (replicate 256 key_k) ∷ [])

run_too_many_keys_example :
    run callbacks many_text 0 many_text (record init { cs = start }) [] ≡ out_of_bounds
run_too_many_keys_example =
    run_too_many_keys callbacks many_text cmd_get 0 key_k (replicate 256 key_k) [] init [] refl
      at_start key_k-IsKey (many-IsKey 256) (omega (arith, length-replicate 256 key_k))

execute-lines_example :
    (c' : Parser) × (execute callbacks
        (lines_text (storage_line set_k ∷ get_two ∷ []))
        0
        (record init { cs = start })
        []
      ≡ executed true
          (length (lines_text (storage_line set_k ∷ get_two ∷ [])))
          (record c' { cs = done })
          (after_set ++ after_get))
execute-lines_example =
    execute-lines callbacks (storage_line set_k) (get_two ∷ []) init [] (after_set ++ after_get)
      (set_k-IsStorage, ((refl, key_k-IsKey, get_two-IsKeys, omega arith), tt)) at_start
      (omega arith)
      (accepts_next (noted, refl, refl) (accepts_next (noted, refl, refl) accepts_none))
