-- ===== src/Out/Session.antt =====
-- `out::write`, and a descriptor through any sequence of operations.
use memxy.Prelude.{
  ℕ, ◌+◌, ◌-◌, ◌≤◌, ◌<◌, ◌^◌, ◌≡◌, ◌≢◌, refl, inl, inr, true, Bool-cases, List, [], ◌∷◌, ◌++◌, All,
  arith, append-nil, leb,
}
use memxy.Store.{Outcome, ok, ◌>>=◌, Allocator}
use memxy.Xfer.{
  Record, Xfer, iovec, is_empty, sizeof_records, Event, mem_bytes, trace, Reply, wrote, closed,
  again, broken, Kernel, push_write,
}
use memxy.Xfer.Execute.{Solid, Healthy, mem_bytes-split}
use memxy.Xfer.Capacity.{IsValid}
use memxy.Out.{Channel, write_event, commit_raw, commit, write, on_write, keep}
use memxy.Out.Delivery.{Inv, Delivers, pushed-Inv, queued, settled, empty-records, left_by_commit}

-- The record of a plain write.
abbrev one : ℕ → ℕ → List Record
one buf size = iovec (record { base = buf; len = size } ∷ []) ∷ []

trace-one : (buf size : ℕ) → trace (one buf size) ≡ mem_bytes buf size
trace-one buf size = rw (append-nil (mem_bytes buf size), append-nil (mem_bytes buf size))

keep-Delivers :
    (A : Allocator) (c : Channel) (asked : List Event) (buf size : ℕ) (es all : List Event)
    → 0 < size
    → es ++ mem_bytes buf size ≡ all
    → Inv asked c
    → is_empty c.ctx ≡ true
    → Delivers (asked ++ all) (keep A buf size es c)
unfolding keep push_write
keep-Delivers A c asked buf size es all pos e v idle =
    pushed-Inv A (one buf size) c asked (c.log ++ es) (c.calls + 1) true v (omega arith)
      (omega arith) refl all es
      (rw (empty-records c idle, append-nil (c.log ++ es), settled c asked v idle))
      (rw (trace-one buf size) e)

on_write-Delivers :
    (A : Allocator) (c : Channel) (asked : List Event) (buf size : ℕ) (r : Reply)
    → 0 < size
    → r ≢ closed
    → r ≢ broken
    → ((n : ℕ) → r ≡ wrote n → n ≤ size)
    → Inv asked c
    → is_empty c.ctx ≡ true
    → Delivers (asked ++ mem_bytes buf size) (on_write A buf size r c)
unfolding on_write
on_write-Delivers A c asked buf size closed pos nc nb le v idle = absurd (nc refl)
on_write-Delivers A c asked buf size broken pos nc nb le v idle = absurd (nb refl)
on_write-Delivers A c asked buf size again pos nc nb le v idle =
    keep-Delivers A c asked buf size [] (mem_bytes buf size) pos refl v idle
on_write-Delivers A c asked buf size (wrote wl) pos nc nb le v idle =
    elim (Bool-cases (leb size wl)) [
      | inl all ↦
          let e : wl ≡ size = ground (arith, le wl refl) in
          rw all (record {
            valid = v.valid;
            solid = v.solid;
            delivered = rw (
              empty-records c idle,
              append-nil (c.log ++ mem_bytes buf wl),
              settled c asked v idle,
              e,
            );
            awake = v.awake;
          })
      | inr part ↦
          let lt : wl < size = ground arith in
          rw part (
            keep-Delivers A c asked (buf + wl) (size - wl) (mem_bytes buf wl) (mem_bytes buf size)
              (omega arith) (mem_bytes-split wl size buf (omega arith)) v idle)
    ]

-- On a healthy kernel `out::write` adds its bytes to what is delivered.
pub write-Delivers :
    (k : Kernel) (A : Allocator) (c : Channel) (asked : List Event) (buf size : ℕ)
    → Healthy k
    → 0 < size
    → Inv asked c
    → Delivers (asked ++ mem_bytes buf size) (write k A buf size c)
unfolding write push_write
write-Delivers k A c asked buf size h pos v = elim (Bool-cases (is_empty c.ctx)) [
  | inl idle ↦ rw idle (
      on_write-Delivers A c asked buf size (k.reply c.calls size) pos (h.0 c.calls size pos).0
        (h.0 c.calls size pos).1 (λ n e. (k.honest c.calls size n e).1) v idle)
  | inr busy ↦
      rw (busy, ← trace-one buf size)
        (queued A c asked (one buf size) v (omega arith) (omega arith) busy)
]

-- What can happen to a descriptor: records are committed (by core::write with a finalizer,
-- core::writev and the sendfile functions), an xfer is submitted (by core::commit), bytes are
-- written, or it has become writable.
pub data Operation : Type 0 where
  committed : List Record → Operation
  submitted : Xfer → Operation
  written : ℕ → ℕ → Operation
  writable : Operation

pub perform : Kernel → Allocator → Operation → Channel → Outcome Channel
perform k A (committed rs) c = commit_raw k A rs c
perform k A (submitted xf) c = left_by_commit (commit k A xf c)
perform k A (written buf size) c = write k A buf size c
perform k A writable c = ok (write_event k c)

pub run : Kernel → Allocator → List Operation → Channel → Outcome Channel
run k A [] c = ok c
run k A (op ∷ ops) c = perform k A op c >>= run k A ops

abbrev pub asks : Operation → List Event
asks (committed rs) = trace rs
asks (submitted xf) = trace xf.records
asks (written buf size) = mem_bytes buf size
asks writable = []

abbrev pub asks_all : List Operation → List Event
asks_all [] = []
asks_all (op ∷ ops) = asks op ++ asks_all ops

-- No operation writes nothing, none is as large as the address space, and an xfer that is submitted
-- is well-formed.
abbrev pub Sensible : Operation → Type 0
Sensible (committed rs) = All Solid rs × (sizeof_records rs < 2 ^ 62)
Sensible (submitted xf) = All Solid xf.records × IsValid xf
Sensible (written buf size) = 0 < size
Sensible writable = Unit
