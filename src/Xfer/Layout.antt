-- ===== src/Xfer/Layout.antt =====
-- The tag in front of each record, as the fill functions of xferimpl write it and as `execute` and
-- `reset` read it.
use memxy.Prelude.{
  ℕ, ◌+◌, ◌*◌, ◌/◌, ◌%◌, ◌^◌, ◌<◌, ◌≡◌, refl, [], length, ◌==◌, if◌then◌else◌, arith,
}
use memxy.Xfer.{Record, iovec, sendfile, finalize, sizeof_record}

-- XF_SENDFILE, XF_FINALIZE, and the count of an XF_IOVEC shifted left in an unsigned int.
pub tag : Record → ℕ
tag (iovec vec) = length vec * 2 % 2 ^ 32
tag (sendfile infd off len) = 0
tag (finalize fin user) = 3

-- The cases of the switch, XF_IOVEC with `tag >> 1` vectors.
pub data Kind : Type 0 where
  as_sendfile as_finalize : Kind
  as_iovec : ℕ → Kind

pub kind : ℕ → Kind
kind t = if t == 0 then as_sendfile else if t == 3 then as_finalize else as_iovec (t / 2)

-- By how much the switch moves on.
abbrev pub skip : Kind → ℕ
skip as_sendfile = 4 + 24
skip as_finalize = 4 + 16
skip (as_iovec n) = 4 + 16 * n

abbrev pub kind_of : Record → Kind
kind_of (iovec vec) = as_iovec (length vec)
kind_of (sendfile infd off len) = as_sendfile
kind_of (finalize fin user) = as_finalize

abbrev pub Countable : Record → Type 0
Countable (iovec vec) = (0 < length vec) × (length vec < 2 ^ 31)
Countable r = Unit

-- A record of at least one and less than 2^31 vectors, and every other record, is read as what was
-- written, and the reader moves on by its size.
pub kind-tag :
    (r : Record)
    → Countable r
    → (kind (tag r) ≡ kind_of r) × (skip (kind (tag r)) ≡ sizeof_record r)
unfolding kind tag
kind-tag (iovec vec) h = ground arith
kind-tag (sendfile infd off len) h = (refl, refl)
kind-tag (finalize fin user) h = (refl, refl)

-- A record of no vectors is read as a sendfile, and the reader then runs 24 bytes past its end.
pub kind-tag_empty :
    (r : Record)
    → r ≡ iovec []
    → (kind (tag r) ≡ as_sendfile) × (skip (kind (tag r)) ≡ sizeof_record r + 24)
unfolding kind tag
kind-tag_empty r e = rw e (refl, refl)
