-- ===== src/Memproto/Packet.antt =====
-- The packets of the binary protocol, written down independently of the parser, and the round trip
-- through `memproto_parser_execute` and `memproto_dispatch`.
use memxy.Prelude.{
  ℕ, ◌+◌, ◌^◌, ◌<◌, ◌≡◌, ◌≢◌, refl, Option, some, none, List, [], ◌∷◌, ◌++◌, length, take, drop,
  drop-drop, arith, take-append, drop-append,
}
use memxy.Memproto.{
  Header, Slice, Verdict, Group, header_size, request_magic, call, fail, on_key, on_delete,
  on_flush, on_store, on_numeric, on_plain, on_concat, magic_of, opcode_of, key_length_of,
  extra_length_of, data_type_of, status_of, body_length_of, opaque_of, cas_of, read_header, lengths,
}
use memxy.Memproto.Fields.{put16, put32, put64, swap16, swap32, swap64}

-- A request with its header: magic, opcode, the lengths of key and extras, data type, a reserved
-- field, the length of the body, opaque and cas, then extras, key and value; `rest` follows it.
abbrev pub packet : Header → List ℕ → List ℕ → List ℕ → List ℕ → List ℕ
packet h extra key val rest =
    h.magic
    ∷ h.opcode
    ∷ put16 (length key) (
        length extra
        ∷ h.data_type
        ∷ put16 h.reserved (
            put32 (length extra + length key + length val)
              (put32 h.opaque (put64 h.cas (extra ++ (key ++ (val ++ rest)))))))

-- The header's values fit their fields, and so do the lengths.
pub record Fits (h : Header) (extra key val : List ℕ) : Type 0 where
  pub is_request : h.magic ≡ request_magic
  pub opcode_fits : h.opcode < 2 ^ 8
  pub reserved_fits : h.reserved < 2 ^ 16
  pub opaque_fits : h.opaque < 2 ^ 32
  pub cas_fits : h.cas < 2 ^ 64
  pub extra_fits : length extra < 2 ^ 8
  pub key_fits : length key < 2 ^ 16
  pub body_fits : header_size + length extra + length key + length val < 2 ^ 32

module _ (h : Header) (extra key val rest : List ℕ) (fit : Fits h extra key val) where
  pub read_header-packet : read_header (packet h extra key val rest) ≡ h
  unfolding read_header magic_of opcode_of data_type_of status_of opaque_of cas_of
  read_header-packet = ground (
    arith,
    swap16 h.reserved fit.reserved_fits,
    swap32 h.opaque fit.opaque_fits,
    swap64 h.cas fit.cas_fits,
  )

  pub body_length-packet :
      body_length_of (packet h extra key val rest) ≡ length extra + length key + length val
  unfolding body_length_of
  body_length-packet = swap32 (length extra + length key + length val) (omega arith)

  pub lengths-packet :
      lengths (packet h extra key val rest)
      ≡ record { keylen = length key; extralen = length extra; vallen = length val }
  unfolding lengths key_length_of extra_length_of
  lengths-packet = ground (arith, swap16 (length key) fit.key_fits, body_length-packet)

  pub key_bytes :
      take (length key) (drop (header_size + length extra) (packet h extra key val rest)) ≡ key
  key_bytes =
      rw
        (
          ← drop-drop (length extra) 24 (packet h extra key val rest),
          drop-append (length extra) extra (key ++ (val ++ rest)) refl,
        )
        (take-append (length key) key (val ++ rest) refl)

  pub val_bytes :
      take
        (length val)
        (drop (header_size + length extra + length key) (packet h extra key val rest))
      ≡ val
  val_bytes =
      rw
        (
          ← drop-drop (length key) (24 + length extra) (packet h extra key val rest),
          ← drop-drop (length extra) 24 (packet h extra key val rest),
          drop-append (length extra) extra (key ++ (val ++ rest)) refl,
          drop-append (length key) key (val ++ rest) refl,
        )
        (take-append (length val) val rest refl)

-- What a request asks, by the command's group; the numbers are those of the extras.
pub data Body : Type 0 where
  with_key : List ℕ → Body
  remove : List ℕ → ℕ → Body
  flush_all : ℕ → Body
  store : List ℕ → List ℕ → ℕ → ℕ → Body
  arithmetic : List ℕ → ℕ → ℕ → ℕ → Body
  plain : Body
  concat : List ℕ → List ℕ → Body

abbrev pub body_group : Body → Group
body_group (with_key key) = Group.get
body_group (remove key expiration) = Group.delete
body_group (flush_all expiration) = Group.flush
body_group (store key val flags expiration) = Group.set
body_group (arithmetic key amount initial expiration) = Group.increment
body_group plain = Group.quit
body_group (concat key val) = Group.append

abbrev pub extras : Body → List ℕ
extras (with_key key) = []
extras (remove key expiration) = put32 expiration []
extras (flush_all expiration) = put32 expiration []
extras (store key val flags expiration) = put32 flags (put32 expiration [])
extras (arithmetic key amount initial expiration) =
    put64 amount (put64 initial (put32 expiration []))
extras plain = []
extras (concat key val) = []

abbrev pub key_of : Body → List ℕ
key_of (with_key key) = key
key_of (remove key expiration) = key
key_of (flush_all expiration) = []
key_of (store key val flags expiration) = key
key_of (arithmetic key amount initial expiration) = key
key_of plain = []
key_of (concat key val) = key

abbrev pub val_of : Body → List ℕ
val_of (store key val flags expiration) = val
val_of (concat key val) = val
val_of b = []

-- The numbers fit their fields, and a key that the command takes is not empty.
abbrev pub Proper : Body → Type 0
Proper (with_key key) = length key ≢ 0
Proper (remove key expiration) = (length key ≢ 0) × (expiration < 2 ^ 32)
Proper (flush_all expiration) = expiration < 2 ^ 32
Proper (store key val flags expiration) =
    (length key ≢ 0) × (flags < 2 ^ 32) × (expiration < 2 ^ 32)
Proper (arithmetic key amount initial expiration) =
    (length key ≢ 0) × (amount < 2 ^ 64) × (initial < 2 ^ 64) × (expiration < 2 ^ 32)
Proper plain = Unit
Proper (concat key val) = length key ≢ 0

-- What arrives of a request: the expiration of an arithmetic command does not.
abbrev pub arrives : Body → Body
arrives (arithmetic key amount initial expiration) = arithmetic key amount initial 0
arrives b = b

-- The packet of a request in front of `rest`.
abbrev pub encode : Header → Body → List ℕ → List ℕ
encode h b rest = packet h (extras b) (key_of b) (val_of b) rest

-- The bytes that a pointer and a length denote in the packet `d`.
abbrev pub bytes : List ℕ → Slice → List ℕ
bytes d s = take s.len (drop s.start d)

-- What a callback can read from its arguments.
abbrev pub received : List ℕ → Verdict → Option (Header × Body)
received d (call (on_key h key)) = some (h, with_key (bytes d key))
received d (call (on_delete h key expiration)) = some (h, remove (bytes d key) expiration)
received d (call (on_flush h expiration)) = some (h, flush_all expiration)
received d (call (on_store h key val flags expiration)) =
    some (h, store (bytes d key) (bytes d val) flags expiration)
received d (call (on_numeric h key amount initial expiration)) =
    some (h, arithmetic (bytes d key) amount initial expiration)
received d (call (on_plain h)) = some (h, plain)
received d (call (on_concat h key val)) = some (h, concat (bytes d key) (bytes d val))
received d (fail e) = none
