-- ===== src/Memproto/Fields.antt =====
-- The header's fields against network byte order: an independent encoder, and what the loads of
-- memproto.c read back from it.
use memxy.Prelude.{ℕ, ◌/◌, ◌%◌, ◌^◌, ◌<◌, ◌≡◌, List, [], ◌∷◌, arith}
use memxy.Memproto.{load16, load32, load64, ntohs, ntohl, be64h}

-- `v` in 2, 4 and 8 bytes, most significant first, in front of `rest`.
abbrev pub put16 : ℕ → List ℕ → List ℕ
put16 v rest = v / 2 ^ 8 ∷ v % 2 ^ 8 ∷ rest

abbrev pub put32 : ℕ → List ℕ → List ℕ
put32 v rest = put16 (v / 2 ^ 16) (put16 (v % 2 ^ 16) rest)

abbrev pub put64 : ℕ → List ℕ → List ℕ
put64 v rest = put32 (v / 2 ^ 32) (put32 (v % 2 ^ 32) rest)

pub swap16 : (v : ℕ) → v < 2 ^ 16 → ntohs (load16 (put16 v []) 0) ≡ v
swap16 v h = omega arith

pub swap32 : (v : ℕ) → v < 2 ^ 32 → ntohl (load32 (put32 v []) 0) ≡ v
swap32 v h = omega arith

pub swap64 : (v : ℕ) → v < 2 ^ 64 → be64h (load64 (put64 v []) 0) ≡ v
swap64 v h = omega arith
