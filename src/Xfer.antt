-- ===== src/Xfer.antt =====
-- core::xfer, declared in src/mp/wavy/core.pre.h, and xferimpl, of src/mpsrc/wavy_out.cc: a buffer of
-- output records. The bytes between m_head and m_tail are kept as the list of records that they
-- hold (`Layout` relates the tags); `free` counts the bytes behind m_tail. Sizes are those of a
-- 64-bit host. Addresses and file offsets do not wrap.
pub mod Layout
pub mod Execute
pub mod Capacity
use memxy.Prelude.{
  ℕ, zero, suc, ◌+◌, ◌-◌, ◌*◌, ◌%◌, ◌^◌, Bool, true, false, Option, none, some, List, [], ◌∷◌, ◌++◌,
  length, take, ◌==◌, leb, ltb, if◌then◌else◌, ◌≤◌, ◌≡◌,
}
use memxy.Store.{Outcome, ok, err, bad_alloc, hang, ◌>>=◌, Allocator}
use memxy.StreamBuffer.{grow, grow_fuel, add_size, sub_size}

-- `struct iovec`
pub record Iovec : Type 0 where
  pub base : ℕ
  pub len : ℕ

-- XF_IOVEC, XF_SENDFILE (xfer_sendfile) and XF_FINALIZE (xfer_finalize; `none` is a null pointer).
pub data Record : Type 0 where
  iovec : List Iovec → Record
  sendfile : ℕ → ℕ → ℕ → Record
  finalize : Option ℕ → ℕ → Record

-- sizeof_iovec, sizeof_sendfile, sizeof_finalize; sizeof_mem is sizeof_iovec(1).
abbrev pub sizeof_record : Record → ℕ
sizeof_record (iovec vec) = 4 + 16 * length vec
sizeof_record (sendfile infd off len) = 4 + 24
sizeof_record (finalize fin user) = 4 + 16

abbrev pub sizeof_records : List Record → ℕ
sizeof_records [] = 0
sizeof_records (r ∷ rs) = sizeof_record r + sizeof_records rs

-- `core::xfer`; `head` says whether m_head is not NULL.
pub record Xfer : Type 0 where
  pub head : Bool
  pub records : List Record
  pub free : ℕ

-- The constructor.
abbrev pub new_xfer : Xfer
new_xfer = record { head = false; records = []; free = 0 }

-- `m_tail - m_head`
abbrev pub used : Xfer → ℕ
used x = sizeof_records x.records

-- `empty`: m_head == m_tail.
abbrev pub is_empty : Xfer → Bool
is_empty x = sizeof_records x.records == 0

-- What the outside sees: a byte of memory or of a file leaves for the descriptor, or a finalizer is
-- called.
pub data Event : Type 0 where
  sent_mem : ℕ → Event
  sent_file : ℕ → ℕ → Event
  finalized : ℕ → ℕ → Event

abbrev pub mem_bytes : ℕ → ℕ → List Event
mem_bytes base zero = []
mem_bytes base (suc n) = sent_mem base ∷ mem_bytes (base + 1) n

abbrev pub file_bytes : ℕ → ℕ → ℕ → List Event
file_bytes fd off zero = []
file_bytes fd off (suc n) = sent_file fd off ∷ file_bytes fd (off + 1) n

abbrev pub vec_bytes : List Iovec → List Event
vec_bytes [] = []
vec_bytes (v ∷ vec) = mem_bytes v.base v.len ++ vec_bytes vec

abbrev pub vec_total : List Iovec → ℕ
vec_total [] = 0
vec_total (v ∷ vec) = v.len + vec_total vec

-- `if(x->finalize) x->finalize(x->user)`; what it throws is swallowed.
abbrev pub run_finalizer : Option ℕ → ℕ → List Event
run_finalizer none user = []
run_finalizer (some f) user = finalized f user ∷ []

-- What a record asks for, and a list of them.
abbrev pub events : Record → List Event
events (iovec vec) = vec_bytes vec
events (sendfile infd off len) = file_bytes infd off len
events (finalize fin user) = run_finalizer fin user

abbrev pub trace : List Record → List Event
trace [] = []
trace (r ∷ rs) = events r ++ trace rs

module _ (A : Allocator) where
  -- `xfer::reserve`
  pub reserve : ℕ → Xfer → Outcome Xfer
  reserve reqsz x =
      elim (grow grow_fuel (add_size (add_size (used x) x.free * 2 % 2 ^ 64) 72)
        (add_size reqsz (used x))) [
          | none ↦ err hang
          | some nsize ↦
              if A.grants nsize
              then ok (record x { head = true; free = sub_size nsize (used x) })
              else err bad_alloc
        ]

  -- The three lines that the push functions share: make room, write the records, count them off.
  pub push_records : List Record → Xfer → Outcome Xfer
  push_records rs x = do
    x' ← if ltb x.free (sizeof_records rs) then reserve (sizeof_records rs) x else ok x
    ok (record x' { records = x'.records ++ rs; free = sub_size x'.free (sizeof_records rs) })

  unfoldable pub push_write : ℕ → ℕ → Xfer → Outcome Xfer
  push_write buf size = push_records (iovec (record { base = buf; len = size } ∷ []) ∷ [])

  unfoldable pub push_writev : List Iovec → Xfer → Outcome Xfer
  push_writev vec = push_records (iovec vec ∷ [])

  unfoldable pub push_sendfile : ℕ → ℕ → ℕ → Xfer → Outcome Xfer
  push_sendfile infd off len = push_records (sendfile infd off len ∷ [])

  unfoldable pub push_finalize : Option ℕ → ℕ → Xfer → Outcome Xfer
  push_finalize fin user = push_records (finalize fin user ∷ [])

  -- `xferimpl::push_xfraw`
  unfoldable pub push_xfraw : List Record → Xfer → Outcome Xfer
  push_xfraw rs = push_records rs

  -- `xfer::migrate`: what is left of the source, and the destination.
  pub migrate : Xfer → Xfer → Outcome (Xfer × Xfer)
  migrate x to =
      if to.head
      then (do
        to' ← push_records x.records to
        ok (record x { records = []; free = add_size x.free (used x) }, to'))
      else ok (new_xfer, x)

-- `xfer::reset`: every finalizer is called, and the memory is kept.
abbrev pub finalizers : List Record → List Event
finalizers [] = []
finalizers (iovec vec ∷ rs) = finalizers rs
finalizers (sendfile infd off len ∷ rs) = finalizers rs
finalizers (finalize fin user ∷ rs) = run_finalizer fin user ++ finalizers rs

unfoldable pub reset : Xfer → List Event × Xfer
reset x = (finalizers x.records, record x { records = []; free = add_size x.free (used x) })

-- What a system call that writes returns: a count, 0, or -1 with EAGAIN or EINTR, or another errno.
pub data Reply : Type 0 where
  wrote : ℕ → Reply
  closed again broken : Reply

-- The kernel: the reply to call number `i`, which asks to write `n` bytes. A count is that of the
-- bytes taken, at least one and at most what was asked. `copied` is what memcpy leaves of vectors that
-- it moves to the front of the buffer: source and destination may overlap, and then C does not say.
pub record Kernel : Type 0 where
  pub reply : ℕ → ℕ → Reply
  pub copied : List Iovec → List Iovec
  pub honest : (i n k : ℕ) → reply i n ≡ wrote k → (1 ≤ k) × (k ≤ n)

-- The loop over the vectors behind a `writev` that took `wl` bytes: what is left of them.
unfoldable pub advance : ℕ → List Iovec → List Iovec
advance wl [] = []
advance wl (v ∷ vec) =
    if leb v.len wl
    then advance (wl - v.len) vec
    else (record { base = v.base + wl; len = v.len - wl } ∷ vec)

-- The result of `xferimpl::execute`, the records that it leaves from `head` on, and what it did;
-- `misread` tells that it came to a record of no vector, whose tag it takes for XF_SENDFILE, and what
-- it does then is not defined.
pub record Executed : Type 0 where
  pub cont : Bool
  pub left : List Record
  pub log : List Event
  pub calls : ℕ
  pub misread : Bool

-- A stop at a system call that took nothing.
abbrev pub stopped : Bool → List Record → ℕ → Executed
stopped cont rs i = record { cont = cont; left = rs; log = []; calls = i + 1; misread = false }

-- Events before those of the rest of the loop.
abbrev pub after : List Event → Executed → Executed
after es e = record e { log = es ++ e.log }

-- The case XF_SENDFILE of the loop (with Linux's sendfile); `rest` is the loop behind the record.
unfoldable pub on_sendfile : ℕ → ℕ → ℕ → ℕ → List Record → Reply → Executed → Executed
on_sendfile i infd off len rs closed rest = stopped false (sendfile infd off len ∷ rs) i
on_sendfile i infd off len rs broken rest = stopped false (sendfile infd off len ∷ rs) i
on_sendfile i infd off len rs again rest = stopped true (sendfile infd off len ∷ rs) i
on_sendfile i infd off len rs (wrote wl) rest =
    if ltb wl len
    then record {
      cont = true;
      left = sendfile infd (off + wl) (len - wl) ∷ rs;
      log = file_bytes infd off wl;
      calls = i + 1;
      misread = false;
    }
    else after (file_bytes infd off wl) rest

-- The vectors `left` of a record that had `vec`: in place, when the first was not used up, and
-- otherwise moved by memcpy.
unfoldable pub kept : (List Iovec → List Iovec) → List Iovec → List Iovec → List Iovec
kept copied vec left = if length left == length vec then left else copied left

-- The end of the case XF_IOVEC, behind the loop over the vectors that leaves `left`, which are `moved`
-- to the front.
unfoldable pub on_advanced :
    ℕ → List Event → (left moved : List Iovec) → List Record → Executed → Executed
on_advanced i log [] moved rs rest = after log rest
on_advanced i log (v ∷ left) moved rs rest = record {
  cont = true;
  left = iovec moved ∷ rs;
  log = log;
  calls = i + 1;
  misread = false;
}

-- The case XF_IOVEC.
unfoldable pub on_iovec :
    (List Iovec → List Iovec) → ℕ → List Iovec → List Record → Reply → Executed → Executed
on_iovec copied i vec rs closed rest = stopped false (iovec vec ∷ rs) i
on_iovec copied i vec rs broken rest = stopped false (iovec vec ∷ rs) i
on_iovec copied i vec rs again rest = stopped true (iovec vec ∷ rs) i
on_iovec copied i vec rs (wrote wl) rest =
    on_advanced i (take wl (vec_bytes vec)) (advance wl vec) (kept copied vec (advance wl vec)) rs
      rest

-- `xferimpl::execute`, from the record at `p` on.
unfoldable pub execute : Kernel → ℕ → List Record → Executed
execute k i [] = record { cont = false; left = []; log = []; calls = i; misread = false }
execute k i (finalize fin user ∷ rs) = after (run_finalizer fin user) (execute k i rs)
execute k i (sendfile infd off len ∷ rs) =
    on_sendfile i infd off len rs (k.reply i len) (execute k (i + 1) rs)
execute k i (iovec [] ∷ rs) = record {
  cont = false;
  left = iovec [] ∷ rs;
  log = [];
  calls = i;
  misread = true;
}
execute k i (iovec (v ∷ vec) ∷ rs) =
    on_iovec k.copied i (v ∷ vec) rs (k.reply i (vec_total (v ∷ vec))) (execute k (i + 1) rs)
