-- ===== src/Out/Tests.antt =====
-- Runs of a descriptor, and the theorems at concrete kernels and records.
use memxy.Prelude.{
  ℕ, ◌+◌, ◌^◌, ◌≤◌, ◌≡◌, refl, min, true, List, [], ◌∷◌, some, arith, if◌then◌else◌, ◌==◌, ltb,
  ltb→lt, replicate, length-replicate,
}
use memxy.Store.{Allocator}
use memxy.Xfer.{
  Iovec, Record, iovec, finalize, Xfer, new_xfer, Reply, wrote, closed, Kernel, execute, advance,
  on_iovec, on_advanced, kept, push_records, migrate,
}
use memxy.Xfer.Layout.{kind, tag, skip, as_sendfile, kind-tag_empty}
use memxy.Xfer.Capacity.{IsValid, Pushed, push_records-Pushed, Migrated, migrate-Migrated}
use memxy.Out.Session.{Operation, committed, submitted, written, writable}

abbrev libc : Allocator
libc = record {
  grants = λ n. ltb n (2 ^ 62);
  junk = λ n. replicate n 0;
  grants_small = λ n h. ltb→lt n (2 ^ 62) h;
  length-junk = λ n. length-replicate n 0;
}

-- A kernel that takes three bytes at most.
abbrev three : ℕ → ℕ → Reply
three i n = if n == 0 then closed else wrote (min n 3)

three-honest : (i n k : ℕ) → three i n ≡ wrote k → (1 ≤ k) × (k ≤ n)
three-honest i n k h = ground arith

abbrev slow : Kernel
slow = record { reply = three; honest = three-honest; copied = λ vec. vec }

abbrev reply_vec : List Iovec
reply_vec = record { base = 100; len = 2 } ∷ record { base = 200; len = 5 } ∷ []

abbrev pending : List Record
pending = iovec reply_vec ∷ finalize (some 7) 8 ∷ []

-- A list of no vectors is misread.
execute_misreads : (execute slow 0 (iovec [] ∷ pending)).misread ≡ true
unfolding execute
execute_misreads = refl

execute_runs :
    (execute slow 0 pending).left
    ≡ iovec (record { base = 201; len = 4 } ∷ []) ∷ finalize (some 7) 8 ∷ []
unfolding execute on_iovec on_advanced advance kept
execute_runs = refl

push_records-Pushed_example : Pushed libc pending new_xfer (push_records libc pending new_xfer)
push_records-Pushed_example =
    push_records-Pushed libc pending new_xfer
      (record { bounded = omega arith; unallocated = λ f. (refl, refl) }) (omega arith)

abbrev some_xfer : Xfer
some_xfer = record { head = true; records = pending; free = 16 }

some_xfer-IsValid : IsValid some_xfer
some_xfer-IsValid = record { bounded = omega arith; unallocated = λ f. absurd (cc) }

migrate-Migrated_example : Migrated libc some_xfer some_xfer (migrate libc some_xfer some_xfer)
migrate-Migrated_example =
    migrate-Migrated libc some_xfer some_xfer some_xfer-IsValid some_xfer-IsValid

kind-tag_empty_example :
    (kind (tag (iovec [])) ≡ as_sendfile) × (skip (kind (tag (iovec []))) ≡ 4 + 24)
kind-tag_empty_example = kind-tag_empty (iovec []) refl

abbrev script : List Operation
script = committed pending ∷ submitted some_xfer ∷ written 300 4 ∷ writable ∷ writable ∷ []
