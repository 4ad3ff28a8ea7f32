-- ===== src/Memproto/Tests.antt =====
-- Runs of the parser, and the theorems at concrete packets.
use memxy.Prelude.{
  ℕ, ◌+◌, ◌%◌, ◌-◌, ◌^◌, ◌≤◌, negsuc, ◌≡◌, ◌≢◌, ◌⊎◌, ◌↔◌, inl, refl, List, [], ◌∷◌, true, false,
  arith, pos, neg,
}
use memxy.Memproto.{
  Header, Parser, Call, Callbacks, parser_init, callback_of, execute, dispatch, returned, group,
  Group, opcode_of, lookup_callback, lengths, data_type_of, status_of, opaque_of, cas_of,
  body_length_of, call, header_size, on_store, on_numeric, read_header, magic_of, invalid_argument,
  switch, request_magic, extra_20_expiration, extra_length_of, key_length_of,
}
use memxy.Memproto.Packet.{Body, store, arithmetic, encode}
use memxy.Memproto.Validity.{
  dispatch_accepts, dispatch_refuses, dispatch-InBounds, dispatch_overrun, execute_outcome, Allowed,
  InBounds, val_end,
}

abbrev everything : Callbacks
everything = record {
  cb_get = true;
  cb_set = true;
  cb_add = true;
  cb_replace = true;
  cb_delete = true;
  cb_increment = true;
  cb_decrement = true;
  cb_quit = true;
  cb_flush = true;
  cb_getq = true;
  cb_noop = true;
  cb_version = true;
  cb_getk = true;
  cb_getkq = true;
  cb_append = true;
  cb_prepend = true;
}

abbrev fresh : Parser
unfolding parser_init callback_of
fresh = parser_init everything (λ c. true)

abbrev set_header : Header
set_header = record {
  magic = 0x80;
  opcode = 1;
  data_type = 0;
  reserved = 0;
  opaque = 7;
  cas = 2 ^ 40 + 1;
}

-- Set "ab" to "xyz", flags 5, expiration 3600.
abbrev set_body : Body
set_body = store (97 ∷ 98 ∷ []) (120 ∷ 121 ∷ 122 ∷ []) 5 3600

abbrev set_packet : List ℕ
set_packet = encode set_header set_body []

abbrev at_set : Parser
unfolding parser_init callback_of
at_set = record fresh { header = set_packet }

dispatch_accepts_example : (returned (dispatch at_set) ≡ pos 1) ↔ (
    (lookup_callback at_set (opcode_of set_packet) ≡ true)
    × Allowed (group (opcode_of set_packet)) (lengths set_packet))
unfolding parser_init callback_of
dispatch_accepts_example = dispatch_accepts at_set

-- Get with a key length of 0.
abbrev bare_get : List ℕ
bare_get =
    0x80 ∷ 0 ∷ 0 ∷ 0 ∷ 0 ∷ 0 ∷ 0 ∷ 0 ∷ 0 ∷ 0 ∷ 0 ∷ 0 ∷ 0 ∷ 0 ∷ 0 ∷ 0 ∷ 0 ∷ 0 ∷ 0 ∷ 0 ∷ 0 ∷ 0 ∷ 0 ∷ 0
    ∷ []

abbrev at_bare_get : Parser
unfolding parser_init callback_of
at_bare_get = record fresh { header = bare_get }

dispatch_refuses_example :
    ((lookup_callback at_bare_get (opcode_of bare_get) ≡ true)
      × (group (opcode_of bare_get) ≢ Group.other)
      × (returned (dispatch at_bare_get) ≡ invalid_argument))
    ⊎ (((lookup_callback at_bare_get (opcode_of bare_get) ≡ false)
          ⊎ (group (opcode_of bare_get) ≡ Group.other))
        × (returned (dispatch at_bare_get) ≡ neg (opcode_of bare_get)))
unfolding parser_init callback_of dispatch switch lengths key_length_of extra_length_of
    body_length_of group opcode_of lookup_callback
dispatch_refuses_example = dispatch_refuses at_bare_get (λ e. cc)

abbrev odd_packet : List ℕ
odd_packet = 0x80 ∷ 0x10 ∷ []

-- The call that the set packet leads to.
abbrev set_call : Call
set_call =
    on_store set_header (record { start = 32; len = 2 }) (record { start = 34; len = 3 }) 5 3600

set_runs : dispatch at_set ≡ call set_call
unfolding parser_init callback_of dispatch switch lengths key_length_of extra_length_of
    body_length_of group opcode_of lookup_callback read_header magic_of data_type_of status_of
    opaque_of cas_of
set_runs = refl

dispatch-InBounds_example : InBounds (header_size + body_length_of set_packet) set_call
unfolding parser_init callback_of body_length_of extra_length_of key_length_of
dispatch-InBounds_example =
    dispatch-InBounds at_set set_call (omega arith) set_runs (λ v. omega arith)

-- Set with a body of 5 bytes, of which the extras take 8 and the key 2.
abbrev short_packet : List ℕ
short_packet =
    0x80 ∷ 1 ∷ 0 ∷ 2 ∷ 8 ∷ 0 ∷ 0 ∷ 0 ∷ 0 ∷ 0 ∷ 0 ∷ 5 ∷ 0 ∷ 0 ∷ 0 ∷ 0 ∷ 0 ∷ 0 ∷ 0 ∷ 0 ∷ 0 ∷ 0 ∷ 0 ∷ 0
    ∷ 1 ∷ 2 ∷ 3 ∷ 4 ∷ 5 ∷ []

abbrev at_short : Parser
unfolding parser_init callback_of
at_short = record fresh { header = short_packet }

dispatch_overrun_example :
    (c : Call) × (dispatch at_short ≡ call c)
    × (val_end c ≡ header_size + body_length_of short_packet + 2 ^ 32)
unfolding parser_init callback_of lengths key_length_of extra_length_of body_length_of group
    opcode_of lookup_callback
dispatch_overrun_example =
    dispatch_overrun at_short (omega arith) (inl refl) refl (omega arith) (omega arith)

execute_outcome_example :
    let p = execute fresh set_packet 37 0 in
    let size = header_size + body_length_of set_packet in
    let complete = (header_size ≤ 37 - 0) × (size ≤ 37 - 0) in
    ((p.ret ≡ pos 1)
      × complete
      × (magic_of set_packet ≡ request_magic)
      × (p.off ≡ 0 + size % 2 ^ 32)
      × (p.off ≤ 37)
      × (p.parser ≡ record fresh { header = set_packet }))
    ⊎ ((p.ret ≡ negsuc 0) × complete × (magic_of set_packet ≢ request_magic) × (p.off ≡ 0))
    ⊎ ((p.ret ≡ pos 0) × (¬ complete) × (p.off ≡ 0))
unfolding parser_init callback_of
execute_outcome_example = execute_outcome fresh set_packet 37 0 (omega arith) (omega arith)

-- Increment by 1 with an initial value of 2 and an expiration of 3600 seconds.
abbrev increment_packet : List ℕ
increment_packet = encode (record set_header { opcode = 5 }) (arithmetic (97 ∷ []) 1 2 3600) []

abbrev at_increment : Parser
unfolding parser_init callback_of
at_increment = record fresh { header = increment_packet }

increment_runs :
    dispatch at_increment
    ≡ call (on_numeric (record set_header { opcode = 5 }) (record { start = 44; len = 1 }) 1 2 0)
unfolding parser_init callback_of dispatch switch lengths key_length_of extra_length_of
    body_length_of group opcode_of lookup_callback read_header extra_20_expiration magic_of
    data_type_of status_of opaque_of cas_of
increment_runs = refl
