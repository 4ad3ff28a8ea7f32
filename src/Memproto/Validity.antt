-- ===== src/Memproto/Validity.antt =====
-- Which packets `memproto_dispatch` accepts, what it returns for the others, and where the pointers
-- that it hands out lead.
use memxy.Prelude.{
  ℕ, ◌+◌, ◌-◌, ◌%◌, ◌^◌, ◌≤◌, ◌<◌, ◌≡◌, ◌≢◌, ◌⊎◌, inl, inr, Bool-cases, ◌↔◌, refl, List, [], ◌∷◌,
  get_or, drop, true, false, arith, pos, negsuc, neg, All, zero, suc,
}
use memxy.Memproto.{
  Slice, Call, Group, Lengths, Parser, header_size, request_magic, call, on_key, on_delete,
  on_flush, on_store, on_numeric, on_plain, on_concat, returned, magic_of, opcode_of, key_length_of,
  extra_length_of, body_length_of, lengths, group, switch, dispatch, execute, lookup_callback,
  invalid_argument, read_header, key_slice, val_slice, extra_32,
}

abbrev pub IsByte : ℕ → Type 0
IsByte b = b < 2 ^ 8

-- The lengths of key, extras and value that a command may have, command by command. The value's
-- length is what the source computes for it, which wraps when extras and key do not fit the body.
abbrev pub Allowed : Group → Lengths → Type 0
Allowed Group.get l = (l.keylen ≢ 0) × (l.extralen ≡ 0) × (l.vallen ≡ 0)
Allowed Group.delete l = (l.keylen ≢ 0) × ((l.extralen ≡ 0) ⊎ (l.extralen ≡ 4)) × (l.vallen ≡ 0)
Allowed Group.flush l = (l.keylen ≡ 0) × ((l.extralen ≡ 0) ⊎ (l.extralen ≡ 4)) × (l.vallen ≡ 0)
Allowed Group.set l = (l.keylen ≢ 0) × (l.extralen ≡ 8)
Allowed Group.increment l = (l.keylen ≢ 0) × (l.extralen ≡ 20) × (l.vallen ≡ 0)
Allowed Group.quit l = (l.keylen ≡ 0) × (l.extralen ≡ 0) × (l.vallen ≡ 0)
Allowed Group.append l = (l.keylen ≢ 0) × (l.extralen ≡ 0)
Allowed Group.other l = ⊥

switch_accepts :
    (d : List ℕ) (l : Lengths) (g : Group) (cmd : ℕ)
    → (returned (switch d l g cmd) ≡ pos 1) ↔ Allowed g l
unfolding switch
switch_accepts d l Group.get cmd = ground arith
switch_accepts d l Group.other zero = ground arith
switch_accepts d l Group.other (suc n) = ground arith
switch_accepts d l _ cmd = ground arith

-- `memproto_dispatch` returns 1, having called back, exactly when the opcode has a callback and the
-- packet's lengths, as the source computes them, are those that the command may have. (That extras
-- and key fit the body is not asked.)
pub dispatch_accepts :
    (ctx : Parser)
    → let cmd = opcode_of ctx.header in
      (returned (dispatch ctx) ≡ pos 1)
      ↔ ((lookup_callback ctx cmd ≡ true) × Allowed (group cmd) (lengths ctx.header))
unfolding dispatch
dispatch_accepts ctx = elim (Bool-cases (lookup_callback ctx (opcode_of ctx.header))) [
  | inl set ↦
      let iff =
        switch_accepts ctx.header (lengths ctx.header) (group (opcode_of ctx.header))
          (opcode_of ctx.header) in
      rw set (λ e. (refl, iff.0 e), λ a. iff.1 a.1)
  | inr null ↦ rw null (λ e. absurd (neg-ne-one _ e), λ a. cc)
]
  where
    neg-ne-one : (n : ℕ) → neg n ≡ pos 1 → ⊥
    neg-ne-one zero e = ground arith
    neg-ne-one (suc n) e = cc

switch_refuses :
    (d : List ℕ) (l : Lengths) (g : Group) (cmd : ℕ)
    → returned (switch d l g cmd) ≢ pos 1
    → (g ≢ Group.other × returned (switch d l g cmd) ≡ invalid_argument)
      ⊎ ((g ≡ Group.other) × (returned (switch d l g cmd) ≡ neg cmd))
unfolding switch
switch_refuses d l Group.get cmd = ground arith
switch_refuses d l _ cmd = ground arith

-- A packet that is not accepted gets -128 if its command has a callback and a rule, and minus its
-- opcode if it has not.
pub dispatch_refuses :
    (ctx : Parser)
    → returned (dispatch ctx) ≢ pos 1
    → let cmd = opcode_of ctx.header in
      ((lookup_callback ctx cmd ≡ true)
        × (group cmd ≢ Group.other)
        × (returned (dispatch ctx) ≡ invalid_argument))
      ⊎ (((lookup_callback ctx cmd ≡ false) ⊎ (group cmd ≡ Group.other))
          × (returned (dispatch ctx) ≡ neg cmd))
unfolding dispatch
dispatch_refuses ctx h =
    let cmd = opcode_of ctx.header in
    ground (arith, switch_refuses ctx.header (lengths ctx.header) (group cmd) cmd)

-- The opcodes behind the callback array are refused, whatever the read behind its end finds.
pub dispatch_unknown :
    (ctx : Parser)
    → 16 ≤ opcode_of ctx.header
    → returned (dispatch ctx) ≡ neg (opcode_of ctx.header)
unfolding dispatch switch group
dispatch_unknown ctx h = ground arith

pub get_or-IsByte : (d : List ℕ) (i : ℕ) → All IsByte d → get_or d i 0 < 2 ^ 8
get_or-IsByte [] i h = omega arith
get_or-IsByte (x ∷ d) zero h = h.0
get_or-IsByte (x ∷ d) (suc i) h = get_or-IsByte d i h.1

key_length_bound : (d : List ℕ) → key_length_of d < 2 ^ 16
unfolding key_length_of
key_length_bound d = omega arith

body_length_bound : (d : List ℕ) → body_length_of d < 2 ^ 32
unfolding body_length_of
body_length_bound d = omega arith

extra_length_bound : (d : List ℕ) → All IsByte d → extra_length_of d < 2 ^ 8
unfolding extra_length_of
extra_length_bound d h = get_or-IsByte d 4 h

-- A slice that ends within `n` bytes, and a call whose pointers do.
abbrev pub Within : ℕ → Slice → Type 0
Within n s = s.start + s.len ≤ n

abbrev pub InBounds : ℕ → Call → Type 0
InBounds n (on_key h key) = Within n key
InBounds n (on_delete h key expiration) = Within n key
InBounds n (on_flush h expiration) = Unit
InBounds n (on_store h key val flags expiration) = Within n key × Within n val
InBounds n (on_numeric h key amount initial expiration) = Within n key
InBounds n (on_plain h) = Unit
InBounds n (on_concat h key val) = Within n key × Within n val

-- The commands that carry a value.
abbrev pub TakesValue : Group → Type 0
TakesValue g = (g ≡ Group.set) ⊎ (g ≡ Group.append)

switch-InBounds :
    (d : List ℕ) (g : Group) (cmd : ℕ) (c : Call)
    → All IsByte d
    → switch d (lengths d) g cmd ≡ call c
    → (TakesValue g → extra_length_of d + key_length_of d ≤ body_length_of d)
    → InBounds (header_size + body_length_of d) c
unfolding switch lengths
switch-InBounds d Group.get cmd c b e v =
    ground (arith, key_length_bound d, extra_length_bound d b, body_length_bound d)
switch-InBounds d Group.set cmd c b e v =
    ground (arith, v (inl refl), key_length_bound d, extra_length_bound d b, body_length_bound d)
switch-InBounds d Group.append cmd c b e v =
    ground (arith, v (inr refl), key_length_bound d, extra_length_bound d b, body_length_bound d)
switch-InBounds d _ cmd c b e v =
    ground (arith, key_length_bound d, extra_length_bound d b, body_length_bound d)

-- Whatever the packet holds, the pointers of a call end within its header and body, provided that,
-- for the commands with a value, extras and key fit the body. (The code does not test that.)
pub dispatch-InBounds :
    (ctx : Parser) (c : Call)
    → All IsByte ctx.header
    → dispatch ctx ≡ call c
    → (TakesValue (group (opcode_of ctx.header))
        → extra_length_of ctx.header + key_length_of ctx.header ≤ body_length_of ctx.header)
    → InBounds (header_size + body_length_of ctx.header) c
unfolding dispatch
dispatch-InBounds ctx c b e v = elim (Bool-cases (lookup_callback ctx (opcode_of ctx.header))) [
  | inl set ↦
      switch-InBounds ctx.header (group (opcode_of ctx.header)) (opcode_of ctx.header) c b
        (rw set at e) v
  | inr null ↦ absurd (cc (rw null at e))
]

-- The end of the value of a storage call.
abbrev pub val_end : Call → ℕ
val_end (on_store h key val flags expiration) = val.start + val.len
val_end (on_concat h key val) = val.start + val.len
val_end c = 0

switch_overrun :
    (d : List ℕ) (g : Group) (cmd : ℕ) (c : Call)
    → All IsByte d
    → TakesValue g
    → switch d (lengths d) g cmd ≡ call c
    → body_length_of d < extra_length_of d + key_length_of d
    → val_end c ≡ header_size + body_length_of d + 2 ^ 32
unfolding switch lengths
switch_overrun d Group.set cmd c b v e short =
    ground (arith, key_length_bound d, extra_length_bound d b, body_length_bound d)
switch_overrun d Group.append cmd c b v e short =
    ground (arith, key_length_bound d, extra_length_bound d b, body_length_bound d)
switch_overrun d _ cmd c b v e short = ground arith

switch_calls :
    (d : List ℕ) (l : Lengths) (g : Group) (cmd : ℕ)
    → TakesValue g
    → Allowed g l
    → (c : Call) × (switch d l g cmd ≡ call c)
unfolding switch
switch_calls d l Group.set cmd v ok = (
  on_store (read_header d) (key_slice l) (val_slice l) (extra_32 d 0) (extra_32 d 4),
  ground arith,
)
switch_calls d l Group.append cmd v ok =
    (on_concat (read_header d) (key_slice l) (val_slice l), ground arith)
switch_calls d l _ cmd v ok = absurd (ground arith)

-- A storage packet whose body is shorter than its extras and key is accepted all the same, and the
-- value that the callback gets ends 4 GB behind the packet.
pub dispatch_overrun :
    (ctx : Parser)
    → All IsByte ctx.header
    → let d = ctx.header in
      let cmd = opcode_of d in
      TakesValue (group cmd)
      → lookup_callback ctx cmd ≡ true
      → Allowed (group cmd) (lengths d)
      → body_length_of d < extra_length_of d + key_length_of d
      → (c : Call) × (dispatch ctx ≡ call c) × (val_end c ≡ header_size + body_length_of d + 2 ^ 32)
unfolding dispatch
dispatch_overrun ctx b v set ok short =
    let d = ctx.header in
    let cmd = opcode_of d in
    let (c, e) = switch_calls d (lengths d) (group cmd) cmd v ok in
    (c, rw set e, switch_overrun d (group cmd) cmd c b v e short)

-- `memproto_parser_execute` on a buffer that holds `datalen` bytes, in size_t's range, from `off`
-- on: it returns 1 exactly for a complete request, and then `*off` is the old one plus the size of
-- header and body modulo 2^32, which is less than their size for a body of 2^32 - 24 bytes or more,
-- and stays within the buffer; it returns -1 exactly for a complete packet with another magic, and
-- 0 for what is not complete; `*off` does not move then.
pub execute_outcome :
    (ctx : Parser) (buf : List ℕ) (datalen off : ℕ)
    → datalen < 2 ^ 64
    → off ≤ datalen
    → let p = execute ctx buf datalen off in
      let size = header_size + body_length_of (drop off buf) in
      let complete = (header_size ≤ datalen - off) × (size ≤ datalen - off) in
      ((p.ret ≡ pos 1)
        × complete
        × (magic_of (drop off buf) ≡ request_magic)
        × (p.off ≡ off + size % 2 ^ 32)
        × (p.off ≤ datalen)
        × (p.parser ≡ record ctx { header = drop off buf }))
      ⊎ ((p.ret ≡ negsuc 0) × complete × (magic_of (drop off buf) ≢ request_magic) × (p.off ≡ off))
      ⊎ ((p.ret ≡ pos 0) × (¬ complete) × (p.off ≡ off))
unfolding execute
execute_outcome ctx buf datalen off small h = ground (arith, body_length_bound (drop off buf))
