-- ===== src/Memproto/Increment.antt =====
-- The expiration of the arithmetic commands.
use memxy.Prelude.{ℕ, ◌≡◌, List, All, arith}
use memxy.Memproto.{
  Header, Slice, Group, Parser, call, on_numeric, lengths, group, switch, dispatch,
  extra_20_expiration, opcode_of,
}
use memxy.Memproto.Validity.{IsByte, get_or-IsByte}

-- A 32-bit value that goes through the 64-bit swap loses all its bytes.
extra_20_expiration-zero : (d : List ℕ) → All IsByte d → extra_20_expiration d ≡ 0
unfolding extra_20_expiration
extra_20_expiration-zero d b =
    omega (
      arith,
      get_or-IsByte d 40 b,
      get_or-IsByte d 41 b,
      get_or-IsByte d 42 b,
      get_or-IsByte d 43 b,
    )

switch_numeric :
    (d : List ℕ) (g : Group) (cmd : ℕ) {h : Header} {key : Slice} {amount initial expiration : ℕ}
    → switch d (lengths d) g cmd ≡ call (on_numeric h key amount initial expiration)
    → expiration ≡ extra_20_expiration d
unfolding switch
switch_numeric d Group.increment cmd e = ground arith
switch_numeric d _ cmd e = ground arith

-- Whatever expiration an increment or decrement packet carries, its callback gets 0.
pub dispatch_numeric_expiration :
    (ctx : Parser) (h : Header) (key : Slice) (amount initial expiration : ℕ)
    → All IsByte ctx.header
    → dispatch ctx ≡ call (on_numeric h key amount initial expiration)
    → expiration ≡ 0
unfolding dispatch
dispatch_numeric_expiration ctx h key amount initial expiration b e = ground (
  arith,
  extra_20_expiration-zero ctx.header b,
  switch_numeric ctx.header (group (opcode_of ctx.header)) (opcode_of ctx.header) {h = h}
      {key = key} {amount = amount} {initial = initial} {expiration = expiration},
)
