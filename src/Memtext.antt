-- ===== src/Memtext.antt =====
-- The parser of the text protocol, src/memproto/memtext.rl and memtext.h: its context, the actions of
-- the grammar, and the requests that it hands to the callbacks. Bytes are numbers, and a position is
-- the distance from `data`.
pub mod Machine
pub mod Marks
pub mod Bounds
pub mod Chunks
pub mod Texts
pub mod Numerals
pub mod Pieces
pub mod StorageTexts
pub mod Blocks
pub mod RoundTrip
pub mod KeyTexts
pub mod Keys
pub mod Lines
mod Tests
use memxy.Prelude.{
  ℕ, zero, suc, ◌+◌, ◌-◌, ◌*◌, ◌%◌, ◌^◌, min, Bool, true, false, not, ◌&&◌, ◌||◌, Option, none,
  some, List, [], ◌∷◌, ◌++◌, get_or, take, drop, ltb, ◌==◌, if◌then◌else◌, put,
}

-- `memtext_command`
pub data Command : Type 0 where
  cmd_get cmd_gets cmd_set cmd_add cmd_replace cmd_append cmd_prepend cmd_cas cmd_delete cmd_incr
        cmd_decr :
      Command

-- The alternatives of `command`.
pub data Class : Type 0 where
  retrieval storage cas delete numeric : Class

-- The numbers of a command line.
pub data Field : Type 0 where
  flags_field exptime_field bytes_field cas_unique_field : Field

-- The states of the machine: what was read of the line. `start` is the first state and `done` the
-- final one, behind a command; `word` has the letters of the command's name; `in_data` is the machine
-- `data`, called by `data_start`, with the way back to `data_end` on the stack.
pub data State : Type 0 where
  start done : State
  word : List ℕ → State
  key_first in_key : Class → State
  next_key_first : State
  first zero_read digits_read : Field → Class → State
  storage_option delete_option space : State
  noreply_letters : ℕ → Class → State
  line_end in_data data_end data_line_end : Class → State

-- `memtext_parser`, where `cs` stands for `cs`, `top` and `stack`; between its mark and its end the
-- field of a number holds the mark.
pub record Parser : Type 0 where
  pub cs : State
  pub command : Command
  pub key_pos : ℕ → ℕ
  pub key_len : ℕ → ℕ
  pub keys : ℕ
  pub flags : ℕ
  pub exptime : ℕ
  pub bytes : ℕ
  pub noreply : Bool
  pub cas_unique : ℕ
  pub data_pos : ℕ
  pub data_len : ℕ
  pub data_count : ℕ

-- The structures `memtext_request_retrieval`, `..._storage`, `..._cas`, `..._delete` and
-- `..._numeric`; a pointer with its length is the bytes that it points to.
pub data Request : Type 0 where
  retrieval_request : (keys : List (List ℕ)) → Request
  storage_request : (key data_bytes : List ℕ) (flags exptime : ℕ) (noreply : Bool) → Request
  cas_request :
      (key data_bytes : List ℕ) (flags exptime : ℕ) (noreply : Bool) (cas_unique : ℕ) → Request
  delete_request : (key : List ℕ) (exptime : ℕ) (noreply : Bool) → Request
  numeric_request : (key : List ℕ) (value : ℕ) (noreply : Bool) → Request

-- MEMTEXT_MAX_MULTI_GET and NUM_BUF_MAX
abbrev pub max_multi_get : ℕ
max_multi_get = 256

abbrev pub num_buf_max : ℕ
num_buf_max = 20

-- `([^\r \0\n])`
abbrev pub is_key_byte : ℕ → Bool
is_key_byte c = not (c == b'\r' || c == b' ' || c == 0 || c == b'\n')

abbrev pub is_digit : ℕ → Bool
is_digit c = ltb 47 c && ltb c 58

-- `action reset`
unfoldable pub reset : Parser → Parser
reset c = record c { keys = 0; noreply = false; exptime = 0 }

-- The number of bytes is `[1-9][0-9]*`, the others may be '0'.
abbrev pub may_be_zero : Field → Bool
may_be_zero bytes_field = false
may_be_zero f = true

-- An assignment to the field of a number, whose type is size_t, uint32_t or uint64_t.
unfoldable pub assign : Field → ℕ → Parser → Parser
assign flags_field n c = record c { flags = n }
assign exptime_field n c = record c { exptime = n % 2 ^ 32 }
assign bytes_field n c = record c { bytes = n }
assign cas_unique_field n c = record c { cas_unique = n }

unfoldable pub field : Field → Parser → ℕ
field flags_field c = c.flags
field exptime_field c = c.exptime
field bytes_field c = c.bytes
field cas_unique_field c = c.cas_unique

-- The value of decimal digits, behind those that gave `n`.
unfoldable pub decimal : ℕ → List ℕ → ℕ
decimal n [] = n
decimal n (c ∷ cs) = decimal (n * 10 + (c - 48)) cs

-- `strtoul` and `strtoull` on digits: ULONG_MAX on overflow.
abbrev pub strtoul : List ℕ → ℕ
strtoul text = min (decimal 0 text) (2 ^ 64 - 1)

-- The bytes `MARK_PTR` and `MARK_LEN` name.
abbrev pub slice : List ℕ → ℕ → ℕ → List ℕ
slice d pos len = take len (drop pos d)

-- The conversion in `SET_INTEGER`, of the text from the mark to `p`; `none` is convert_error.
unfoldable pub convert : Field → ℕ → Parser → Option Parser
convert f n c = let c' = assign f n c in if field f c' == 0 then none else some c'

-- `SET_INTEGER`
unfoldable pub set_integer : List ℕ → ℕ → Field → Parser → Option Parser
set_integer d p f c =
    let pos = field f c in
    if get_or d pos 0 == b'0'
    then some (assign f 0 c)
    else if ltb num_buf_max (p - pos)
    then none
    else convert f (strtoul (slice d pos (p - pos))) c

-- `action mark_key`; `none` is a write behind the array.
unfoldable pub mark_key : ℕ → Parser → Option Parser
mark_key p c =
    if ltb c.keys max_multi_get then some (record c { key_pos = put c.key_pos c.keys p }) else none

-- `action key`
unfoldable pub set_key : ℕ → Parser → Parser
set_key p c = record c { key_len = put c.key_len c.keys (p - c.key_pos c.keys) }

-- `action data_start`, at the end of the line.
unfoldable pub data_start : ℕ → Parser → Parser
data_start p c = record c { data_pos = p + 1; data_count = c.bytes }

-- The `n` keys from the `i`-th on.
unfoldable pub keys_from : List ℕ → Parser → ℕ → ℕ → List (List ℕ)
keys_from d c i zero = []
keys_from d c i (suc n) = slice d (c.key_pos i) (c.key_len i) ∷ keys_from d c (suc i) n

-- The request that `do_retrieval`, `do_storage`, `do_cas`, `do_delete` or `do_numeric` builds. The
-- values of do_cas are written in another order than that of the structure's members.
unfoldable pub request : List ℕ → Class → Parser → Request
request d retrieval c = retrieval_request (keys_from d c 0 (c.keys + 1))
request d storage c =
    storage_request (slice d (c.key_pos 0) (c.key_len 0)) (slice d c.data_pos c.data_len)
      (c.flags % 2 ^ 16) c.exptime c.noreply
request d cas c =
    cas_request (slice d (c.key_pos 0) (c.key_len 0)) (slice d c.data_pos c.data_len)
      (c.flags % 2 ^ 16) c.exptime (not (c.cas_unique == 0)) (if c.noreply then 1 else 0)
request d delete c = delete_request (slice d (c.key_pos 0) (c.key_len 0)) c.exptime c.noreply
request d numeric c = numeric_request (slice d (c.key_pos 0) (c.key_len 0)) c.cas_unique c.noreply

-- `memtext_init`
unfoldable pub init : Parser
init = record {
  cs = start;
  command = cmd_get;
  key_pos = λ i. 0;
  key_len = λ i. 0;
  keys = 0;
  flags = 0;
  exptime = 0;
  bytes = 0;
  noreply = false;
  cas_unique = 0;
  data_pos = 0;
  data_len = 0;
  data_count = 0;
}
