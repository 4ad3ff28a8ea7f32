-- ===== src/Memtext/Machine.antt =====
-- The machine of src/memproto/memtext.rl: what one byte does in each state, and memtext_execute. The
-- grammar's alternatives run side by side, so a state stands for all that the bytes so far may mean.
use memxy.Prelude.{
  ℕ, ◌+◌, ◌-◌, Bool, true, false, ◌&&◌, ◌||◌, Option, none, some, List, [], ◌∷◌, ◌++◌, length,
  get_or, drop, ltb, ◌==◌, if◌then◌else◌,
}
use memxy.StreamBuffer.{sub_size}
use memxy.Memtext.{
  Command, cmd_get, cmd_gets, cmd_set, cmd_add, cmd_replace, cmd_append, cmd_prepend, cmd_cas,
  cmd_delete, cmd_incr, cmd_decr, Class, retrieval, storage, cas, delete, numeric, Field,
  flags_field, exptime_field, bytes_field, cas_unique_field, State, start, done, word, key_first,
  in_key, next_key_first, first, zero_read, digits_read, storage_option, delete_option, space,
  noreply_letters, line_end, in_data, data_end, data_line_end, Parser, Request, max_multi_get,
  is_key_byte, is_digit, may_be_zero, reset, assign, set_integer, mark_key, set_key, data_start,
  request,
}

-- The names of the commands.
abbrev pub keywords : List (List ℕ × Command)
keywords =
    (b'g' ∷ b'e' ∷ b't' ∷ [], cmd_get)
    ∷ (b'g' ∷ b'e' ∷ b't' ∷ b's' ∷ [], cmd_gets)
    ∷ (b's' ∷ b'e' ∷ b't' ∷ [], cmd_set)
    ∷ (b'a' ∷ b'd' ∷ b'd' ∷ [], cmd_add)
    ∷ (b'r' ∷ b'e' ∷ b'p' ∷ b'l' ∷ b'a' ∷ b'c' ∷ b'e' ∷ [], cmd_replace)
    ∷ (b'a' ∷ b'p' ∷ b'p' ∷ b'e' ∷ b'n' ∷ b'd' ∷ [], cmd_append)
    ∷ (b'p' ∷ b'r' ∷ b'e' ∷ b'p' ∷ b'e' ∷ b'n' ∷ b'd' ∷ [], cmd_prepend)
    ∷ (b'c' ∷ b'a' ∷ b's' ∷ [], cmd_cas)
    ∷ (b'd' ∷ b'e' ∷ b'l' ∷ b'e' ∷ b't' ∷ b'e' ∷ [], cmd_delete)
    ∷ (b'i' ∷ b'n' ∷ b'c' ∷ b'r' ∷ [], cmd_incr)
    ∷ (b'd' ∷ b'e' ∷ b'c' ∷ b'r' ∷ [], cmd_decr)
    ∷ []

-- "noreply"
abbrev pub noreply_word : List ℕ
noreply_word = b'n' ∷ b'o' ∷ b'r' ∷ b'e' ∷ b'p' ∷ b'l' ∷ b'y' ∷ []

-- `retrieval_command`, `storage_command`, `cas_command`, `delete_command` and `numeric_command`
abbrev pub class : Command → Class
class cmd_get = retrieval
class cmd_gets = retrieval
class cmd_cas = cas
class cmd_delete = delete
class cmd_incr = numeric
class cmd_decr = numeric
class command = storage

abbrev pub is_prefix : List ℕ → List ℕ → Bool
is_prefix [] ys = true
is_prefix (x ∷ xs) [] = false
is_prefix (x ∷ xs) (y ∷ ys) = let rest = is_prefix xs ys in x == y && rest

abbrev pub same : List ℕ → List ℕ → Bool
same xs ys = is_prefix xs ys && is_prefix ys xs

unfoldable pub begins : List ℕ → List (List ℕ × Command) → Bool
begins w [] = false
begins w ((k, command) ∷ ks) = let rest = begins w ks in is_prefix w k || rest

unfoldable pub keyword : List ℕ → List (List ℕ × Command) → Option Command
keyword w [] = none
keyword w ((k, command) ∷ ks) = let rest = keyword w ks in if same w k then some command else rest

-- A callback for each command, or NULL: it tells whether its result is not negative.
abbrev pub Callbacks : Type 0 → Type 0
Callbacks U = Command → Option (Request → U → Bool × U)

-- What a byte does: the machine goes on, it is in error, or it accesses memory out of bounds.
pub data Step (U : Type 0) : Type 0 where
  next : Parser → U → Step U
  refused : U → Step U
  undefined : Step U

-- What memtext_execute leaves: 1 or 0 with the offset, -1, or nothing defined.
pub data Executed (U : Type 0) : Type 0 where
  executed : Bool → ℕ → Parser → U → Executed U
  parse_error : U → Executed U
  out_of_bounds : Executed U

-- The state that a byte behind a number leads to.
unfoldable pub after : Field → Class → ℕ → Option State
after flags_field k c = if c == b' ' then some (first exptime_field k) else none
after exptime_field delete c =
    if c == b' '
    then some (noreply_letters 0 delete)
    else if c == b'\r'
    then some (line_end delete)
    else none
after exptime_field k c = if c == b' ' then some (first bytes_field k) else none
after bytes_field cas c = if c == b' ' then some (first cas_unique_field cas) else none
after bytes_field k c =
    if c == b' ' then some storage_option else if c == b'\r' then some (line_end k) else none
after cas_unique_field k c =
    if c == b' ' then some (noreply_letters 0 k) else if c == b'\r' then some (line_end k) else none

-- The state behind the space that follows the key, and whether the line may end there instead.
unfoldable pub after_key : Class → State
after_key retrieval = next_key_first
after_key delete = delete_option
after_key numeric = first cas_unique_field numeric
after_key k = first flags_field k

unfoldable pub key_may_end : Class → Bool
key_may_end retrieval = true
key_may_end delete = true
key_may_end k = false

abbrev pub is_done : State → Bool
is_done done = true
is_done st = false

module _ {U : Type 0} (cb : Callbacks U) where
  abbrev pub goto : State → Parser → U → Step U
  goto st c u = next (record c { cs = st }) u

  -- A letter of a command's name; the last one assigns the command.
  unfoldable pub letter : List ℕ → Parser → U → Step U
  letter w c u =
      if begins w keywords
      then elim (keyword w keywords) [
        | none ↦ goto (word w) c u
        | some command ↦ goto (word w) (record c { command = command }) u
      ]
      else refused u

  unfoldable pub name_end : List ℕ → Parser → U → Step U
  name_end w c u = elim (keyword w keywords) [
    | none ↦ refused u
    | some command ↦ goto (key_first (class command)) c u
  ]

  unfoldable pub marked : Class → Option Parser → U → Step U
  marked k none u = undefined
  marked k (some c) u = goto (in_key k) c u

  -- `action incr_key`, which comes before mark_key.
  unfoldable pub incr_key : ℕ → Parser → U → Step U
  incr_key p c u =
      if ltb max_multi_get (c.keys + 1)
      then refused u
      else marked retrieval (mark_key p (record c { keys = c.keys + 1 })) u

  -- The first digit of a number.
  unfoldable pub first_digit : ℕ → ℕ → Field → Class → Parser → U → Step U
  first_digit p b f k c u =
      if b == b'0'
      then (if may_be_zero f then goto (zero_read f k) (assign f p c) u else refused u)
      else if is_digit b
      then goto (digits_read f k) (assign f p c) u
      else refused u

  unfoldable pub converted : State → Option Parser → U → Step U
  converted st none u = refused u
  converted st (some c) u = goto st c u

  -- A byte behind a number.
  unfoldable pub number_end : List ℕ → ℕ → ℕ → Field → Class → Parser → U → Step U
  number_end d p b f k c u = elim (after f k b) [
    | none ↦ refused u
    | some st ↦ converted st (set_integer d p f c) u
  ]

  -- The callback, at the end of a command.
  unfoldable pub call : Request → Parser → U → Step U
  call r c u = elim (cb c.command) [
    | none ↦ refused u
    | some callback ↦ let (ok, u') = callback r u in if ok then goto done c u' else refused u'
  ]

  -- `do_retrieval`, `do_storage`, `do_cas`, `do_delete` and `do_numeric`
  unfoldable pub finish : List ℕ → Class → Parser → U → Step U
  finish d retrieval c u = call (request d retrieval c) (record c { keys = c.keys + 1 }) u
  finish d k c u = call (request d k c) c u

  -- The '\n' of a command line.
  unfoldable pub newline : List ℕ → ℕ → Class → Parser → U → Step U
  newline d p storage c u = goto (in_data storage) (data_start p c) u
  newline d p cas c u = goto (in_data cas) (data_start p c) u
  newline d p k c u = finish d k c u

  -- `action data`
  unfoldable pub data_byte : ℕ → Class → Parser → U → Step U
  data_byte p k c u =
      let c' : Parser = record c { data_count = sub_size c.data_count 1 } in
      if c'.data_count == 0
      then goto (data_end k) (record c' { data_len = p + 1 - c.data_pos }) u
      else next c' u

  -- A byte behind "noreply".
  unfoldable pub noreply_end : Class → ℕ → Parser → U → Step U
  noreply_end storage b c u =
      if b == b'\r'
      then goto (line_end storage) c u
      else if b == b' '
      then goto space c u
      else refused u
  noreply_end k b c u = if b == b'\r' then goto (line_end k) c u else refused u

  -- What the byte `b` at `p` does in a state.
  unfoldable pub step_in : State → List ℕ → ℕ → ℕ → Parser → U → Step U
  step_in start d p b c u = letter (b ∷ []) (reset c) u
  step_in done d p b c u = letter (b ∷ []) (reset c) u
  step_in (word w) d p b c u = if b == b' ' then name_end w c u else letter (w ++ (b ∷ [])) c u
  step_in (key_first k) d p b c u = if is_key_byte b then marked k (mark_key p c) u else refused u
  step_in (in_key k) d p b c u =
      if is_key_byte b
      then next c u
      else if b == b' '
      then goto (after_key k) (set_key p c) u
      else if b == b'\r' && key_may_end k
      then goto (line_end k) (set_key p c) u
      else refused u
  step_in next_key_first d p b c u =
      if is_key_byte b
      then incr_key p c u
      else if b == b'\r'
      then goto (line_end retrieval) c u
      else refused u
  step_in (first f k) d p b c u = first_digit p b f k c u
  step_in (zero_read f k) d p b c u = number_end d p b f k c u
  step_in (digits_read f k) d p b c u = if is_digit b then next c u else number_end d p b f k c u
  step_in storage_option d p b c u =
      if b == b'n'
      then goto (noreply_letters 1 storage) c u
      else if b == b'\r'
      then goto (line_end storage) c u
      else refused u
  step_in delete_option d p b c u =
      if b == b'n'
      then goto (noreply_letters 1 delete) c u
      else first_digit p b exptime_field delete c u
  step_in space d p b c u = if b == b'\r' then goto (line_end storage) c u else refused u
  step_in (noreply_letters i k) d p b c u =
      if ltb i 7
      then (if b == get_or noreply_word i 0
          then goto (noreply_letters (i + 1) k) c u
          else refused u)
      else noreply_end k b (record c { noreply = true }) u
  step_in (line_end k) d p b c u = if b == b'\n' then newline d p k c u else refused u
  step_in (in_data k) d p b c u = data_byte p k c u
  step_in (data_end k) d p b c u = if b == b'\r' then goto (data_line_end k) c u else refused u
  step_in (data_line_end k) d p b c u = if b == b'\n' then finish d k c u else refused u

  -- The machine on the bytes `bs` of `d`, which begin at `p`.
  unfoldable pub run : List ℕ → ℕ → List ℕ → Parser → U → Executed U
  run d p [] c u = executed (is_done c.cs) p c u
  run d p (b ∷ bs) c u = elim (step_in c.cs d p b c u) [
    | next c' u' ↦ run d (p + 1) bs c' u'
    | refused u' ↦ parse_error u'
    | undefined ↦ out_of_bounds
  ]

  -- `memtext_execute` on the bytes `d` and the offset `off`.
  unfoldable pub execute : List ℕ → ℕ → Parser → U → Executed U
  execute d off c u =
      if ltb off (length d) then run d off (drop off d) c u else executed false off c u
