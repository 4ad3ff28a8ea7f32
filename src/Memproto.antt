-- ===== src/Memproto.antt =====
-- src/memproto/memproto.c and memproto.h, the parser of memcached's binary protocol.
-- A buffer is a list of bytes, and a pointer into the packet is an offset from its header.
-- The host is little-endian, as the code's default branch.
pub mod Fields
pub mod Validity
pub mod Packet
pub mod RoundTrip
pub mod Increment
mod Tests
use memxy.Prelude.{
  ℕ, ◌!=◌, ◌+◌, ◌-◌, ◌*◌, ◌/◌, ◌%◌, ◌^◌, Bool, true, false, ◌||◌, Option, none, some, List, [],
  ◌==◌, ltb, if◌then◌else◌, get_or, drop, ℤ, pos, negsuc, neg,
}

-- MEMPROTO_HEADER_SIZE
abbrev pub header_size : ℕ
header_size = 24

-- MEMPROTO_REQUEST
abbrev pub request_magic : ℕ
request_magic = 0x80

-- MEMPROTO_INVALID_ARGUMENT, -128
abbrev pub invalid_argument : ℤ
invalid_argument = negsuc 127

-- Loads of a little-endian host at the byte `i` of a buffer.
abbrev pub load8 : List ℕ → ℕ → ℕ
load8 d i = get_or d i 0

abbrev pub load16 : List ℕ → ℕ → ℕ
load16 d i = load8 d i + 2 ^ 8 * load8 d (i + 1)

abbrev pub load32 : List ℕ → ℕ → ℕ
load32 d i = load16 d i + 2 ^ 16 * load16 d (i + 2)

abbrev pub load64 : List ℕ → ℕ → ℕ
load64 d i = load32 d i + 2 ^ 32 * load32 d (i + 4)

-- `ntohs`, `ntohl` and `htonl` of a little-endian host.
abbrev pub ntohs : ℕ → ℕ
ntohs x = x % 2 ^ 8 * 2 ^ 8 + x / 2 ^ 8 % 2 ^ 8

abbrev pub ntohl : ℕ → ℕ
ntohl x =
    x % 2 ^ 8 * 2 ^ 24
    + x / 2 ^ 8 % 2 ^ 8 * 2 ^ 16
    + x / 2 ^ 16 % 2 ^ 8 * 2 ^ 8
    + x / 2 ^ 24 % 2 ^ 8

-- `memproto_be64h`: each line of the source selects one byte of `x` and puts it at its new place.
abbrev pub be64h : ℕ → ℕ
be64h x =
    x % 2 ^ 8 * 2 ^ 56
    + x / 2 ^ 8 % 2 ^ 8 * 2 ^ 48
    + x / 2 ^ 16 % 2 ^ 8 * 2 ^ 40
    + x / 2 ^ 24 % 2 ^ 8 * 2 ^ 32
    + x / 2 ^ 32 % 2 ^ 8 * 2 ^ 24
    + x / 2 ^ 40 % 2 ^ 8 * 2 ^ 16
    + x / 2 ^ 48 % 2 ^ 8 * 2 ^ 8
    + x / 2 ^ 56 % 2 ^ 8

-- The header's fields, MEMPROTO_MAGIC to MEMPROTO_CAS.
pub magic_of : List ℕ → ℕ
magic_of h = load8 h 0

pub opcode_of : List ℕ → ℕ
opcode_of h = load8 h 1

pub key_length_of : List ℕ → ℕ
key_length_of h = ntohs (load16 h 2)

pub extra_length_of : List ℕ → ℕ
extra_length_of h = load8 h 4

pub data_type_of : List ℕ → ℕ
data_type_of h = load8 h 5

pub status_of : List ℕ → ℕ
status_of h = ntohs (load16 h 6)

pub body_length_of : List ℕ → ℕ
body_length_of h = ntohl (load32 h 8)

pub opaque_of : List ℕ → ℕ
opaque_of h = ntohl (load32 h 12)

pub cas_of : List ℕ → ℕ
cas_of h = be64h (load64 h 16)

-- The extra fields; `extra` begins behind the header. MEMPROTO_EXTRA_20_EXPIRATION loads 32 bits,
-- and passes them to the 64-bit swap; the callback's parameter is a uint32_t.
abbrev pub extra_32 : List ℕ → ℕ → ℕ
extra_32 h i = ntohl (load32 h (header_size + i))

abbrev pub extra_64 : List ℕ → ℕ → ℕ
extra_64 h i = be64h (load64 h (header_size + i))

pub extra_20_expiration : List ℕ → ℕ
extra_20_expiration h = be64h (load32 h (header_size + 16)) % 2 ^ 32

-- `memproto_header`
pub record Header : Type 0 where
  pub magic : ℕ
  pub opcode : ℕ
  pub data_type : ℕ
  pub reserved : ℕ
  pub opaque : ℕ
  pub cas : ℕ

-- A pointer with a length: `start` counts from the header's first byte.
pub record Slice : Type 0 where
  pub start : ℕ
  pub len : ℕ

-- A callback and its arguments.
pub data Call : Type 0 where
  on_key : Header → Slice → Call
  on_delete : Header → Slice → ℕ → Call
  on_flush : Header → ℕ → Call
  on_store : Header → Slice → Slice → ℕ → ℕ → Call
  on_numeric : Header → Slice → ℕ → ℕ → ℕ → Call
  on_plain : Header → Call
  on_concat : Header → Slice → Slice → Call

-- What `memproto_dispatch` does: it calls back and returns 1, or it returns an error.
pub data Verdict : Type 0 where
  call : Call → Verdict
  fail : ℤ → Verdict

-- The cases of the `switch` of `memproto_dispatch`, and the commands that no case names.
pub data Group : Type 0 where
  get delete flush set increment quit append other : Group

pub group : ℕ → Group
group cmd =
    if cmd == 0x00 || cmd == 0x09 || cmd == 0x0c || cmd == 0x0d
    then get
    else if cmd == 0x04
    then delete
    else if cmd == 0x08
    then flush
    else if cmd == 0x01 || cmd == 0x02 || cmd == 0x03
    then set
    else if cmd == 0x05 || cmd == 0x06
    then increment
    else if cmd == 0x07 || cmd == 0x0a || cmd == 0x0b
    then quit
    else if cmd == 0x0e || cmd == 0x0f
    then append
    else other

-- `memproto_parser`: the packet from `header` on, and which of the callbacks are set. The array has
-- 16 entries; `beyond` is what a read behind them finds, which the code does not rule out.
pub record Parser : Type 0 where
  pub header : List ℕ
  pub callback : ℕ → Bool
  pub beyond : ℕ → Bool

-- `memproto_callback`: which callbacks a user of the parser gives.
pub record Callbacks : Type 0 where
  pub cb_get : Bool
  pub cb_set : Bool
  pub cb_add : Bool
  pub cb_replace : Bool
  pub cb_delete : Bool
  pub cb_increment : Bool
  pub cb_decrement : Bool
  pub cb_quit : Bool
  pub cb_flush : Bool
  pub cb_getq : Bool
  pub cb_noop : Bool
  pub cb_version : Bool
  pub cb_getk : Bool
  pub cb_getkq : Bool
  pub cb_append : Bool
  pub cb_prepend : Bool

-- The array that `memproto_parser_init` fills, entry by entry; the rest of the parser is zeroed.
pub callback_of : Callbacks → ℕ → Bool
callback_of cb cmd =
    if cmd == 0x00
    then cb.cb_get
    else if cmd == 0x01
    then cb.cb_set
    else if cmd == 0x02
    then cb.cb_add
    else if cmd == 0x03
    then cb.cb_replace
    else if cmd == 0x04
    then cb.cb_delete
    else if cmd == 0x05
    then cb.cb_increment
    else if cmd == 0x06
    then cb.cb_decrement
    else if cmd == 0x07
    then cb.cb_quit
    else if cmd == 0x08
    then cb.cb_flush
    else if cmd == 0x09
    then cb.cb_getq
    else if cmd == 0x0a
    then cb.cb_noop
    else if cmd == 0x0b
    then cb.cb_version
    else if cmd == 0x0c
    then cb.cb_getk
    else if cmd == 0x0d
    then cb.cb_getkq
    else if cmd == 0x0e
    then cb.cb_append
    else if cmd == 0x0f
    then cb.cb_prepend
    else false

-- `memproto_parser_init`
pub parser_init : Callbacks → (ℕ → Bool) → Parser
parser_init cb beyond = record { header = []; callback = callback_of cb; beyond = beyond }

pub lookup_callback : Parser → ℕ → Bool
lookup_callback ctx cmd = if ltb cmd 16 then ctx.callback cmd else ctx.beyond cmd

-- The lengths that the cases test, in the order of `memproto_dispatch`.
pub record Lengths : Type 0 where
  pub keylen : ℕ
  pub extralen : ℕ
  pub vallen : ℕ

-- `vallen = bodylen - extralen - keylen` in uint32_t.
pub lengths : List ℕ → Lengths
lengths h = record {
  keylen = key_length_of h;
  extralen = extra_length_of h;
  vallen = (body_length_of h + 2 ^ 33 - extra_length_of h - key_length_of h) % 2 ^ 32;
}

pub read_header : List ℕ → Header
read_header h = record {
  magic = magic_of h;
  opcode = opcode_of h;
  data_type = data_type_of h;
  reserved = status_of h;
  opaque = opaque_of h;
  cas = cas_of h;
}

abbrev pub key_slice : Lengths → Slice
key_slice l = record { start = header_size + l.extralen; len = l.keylen }

abbrev pub val_slice : Lengths → Slice
val_slice l = record { start = header_size + l.extralen + l.keylen; len = l.vallen }

-- The body of each case of the `switch`; `l` holds the lengths, `d` the packet.
pub switch : List ℕ → Lengths → Group → ℕ → Verdict
switch d l get cmd =
    if l.extralen != 0
    then fail invalid_argument
    else if l.vallen != 0
    then fail invalid_argument
    else if l.keylen == 0
    then fail invalid_argument
    else call (on_key (read_header d) (key_slice l))
switch d l delete cmd =
    if l.keylen == 0
    then fail invalid_argument
    else if l.vallen != 0
    then fail invalid_argument
    else if l.extralen == 0
    then call (on_delete (read_header d) (key_slice l) 0)
    else if l.extralen == 4
    then call (on_delete (read_header d) (key_slice l) (extra_32 d 0))
    else fail invalid_argument
switch d l flush cmd =
    if l.keylen != 0
    then fail invalid_argument
    else if l.vallen != 0
    then fail invalid_argument
    else if l.extralen == 0
    then call (on_flush (read_header d) 0)
    else if l.extralen == 4
    then call (on_flush (read_header d) (extra_32 d 0))
    else fail invalid_argument
switch d l set cmd =
    if l.keylen == 0
    then fail invalid_argument
    else if l.extralen != 8
    then fail invalid_argument
    else call (on_store (read_header d) (key_slice l) (val_slice l) (extra_32 d 0) (extra_32 d 4))
switch d l increment cmd =
    if l.extralen != 20
    then fail invalid_argument
    else if l.keylen == 0
    then fail invalid_argument
    else if l.vallen != 0
    then fail invalid_argument
    else call (
        on_numeric (read_header d) (key_slice l) (extra_64 d 0) (extra_64 d 8)
          (extra_20_expiration d))
switch d l quit cmd =
    if l.keylen != 0
    then fail invalid_argument
    else if l.extralen != 0
    then fail invalid_argument
    else if l.vallen != 0
    then fail invalid_argument
    else call (on_plain (read_header d))
switch d l append cmd =
    if l.keylen == 0
    then fail invalid_argument
    else if l.extralen != 0
    then fail invalid_argument
    else call (on_concat (read_header d) (key_slice l) (val_slice l))
switch d l other cmd = fail (neg cmd)

-- `memproto_dispatch`: no callback, no call; else by the command.
pub dispatch : Parser → Verdict
dispatch ctx =
    let cmd = opcode_of ctx.header in
    if lookup_callback ctx cmd
    then switch ctx.header (lengths ctx.header) (group cmd) cmd
    else fail (neg cmd)

-- The `int` that `memproto_dispatch` returns.
abbrev pub returned : Verdict → ℤ
returned (call c) = pos 1
returned (fail e) = e

-- What `memproto_parser_execute` leaves: its result, the parser, and `*off`.
pub record Parsed : Type 0 where
  pub ret : ℤ
  pub parser : Parser
  pub off : ℕ

-- `data` is the whole buffer, of `datalen` bytes. The bound `*off + 24 + bodylen` is computed in
-- size_t, its last two terms in uint32_t.
pub execute : Parser → List ℕ → ℕ → ℕ → Parsed
execute ctx buf datalen off =
    let region = (datalen + 2 ^ 64 - off) % 2 ^ 64 in
    let header = drop off buf in
    let seen = record ctx { header = header } in
    let bodylen = body_length_of header in
    if ltb region header_size
    then record { ret = pos 0; parser = ctx; off = off }
    else if ltb (region - header_size) bodylen
    then record { ret = pos 0; parser = seen; off = off }
    else if magic_of header != request_magic
    then record { ret = negsuc 0; parser = seen; off = off }
    else record {
      ret = pos 1;
      parser = seen;
      off = (off + (header_size + bodylen) % 2 ^ 32) % 2 ^ 64;
    }
