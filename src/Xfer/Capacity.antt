-- ===== src/Xfer/Capacity.antt =====
-- The space of an xfer: the push functions and `migrate` never write behind the allocation, and lose
-- no record.
use memxy.Prelude.{
  ℕ, ◌+◌, ◌*◌, ◌%◌, ◌^◌, ◌≤◌, ◌<◌, ◌≡◌, refl, sym, ap, ◌⊎◌, inl, inr, Bool, true, false, Bool-cases,
  ltb, ltb→lt, List, [], ◌∷◌, ◌++◌, arith,
}
use memxy.Store.{Outcome, ok, err, bad_alloc, ◌>>=◌, Allocator}
use memxy.StreamBuffer.{add_size, sub_size}
use memxy.StreamBuffer.Growth.{grow_ends}
use memxy.Xfer.Execute.{Copies, execute-sizeof}
use memxy.Xfer.{
  Kernel, execute, Record, Xfer, used, sizeof_record, sizeof_records, iovec, sendfile, finalize,
  reserve, push_records, migrate, reset,
}

pub sizeof_records-append :
    (rs ts : List Record) → sizeof_records (rs ++ ts) ≡ sizeof_records rs + sizeof_records ts
sizeof_records-append [] ts = omega arith
sizeof_records-append (r ∷ rs) ts = omega (arith, sizeof_records-append rs ts)

-- The allocation holds what is used and what is free; there is none before the first push.
pub record IsValid (x : Xfer) : Type 0 where
  pub bounded : used x + x.free < 2 ^ 62
  pub unallocated : x.head ≡ false → (x.records ≡ []) × (x.free ≡ 0)

abbrev pub NotGranted : Allocator → Type 0
NotGranted A = (n : ℕ) × (A.grants n ≡ false)

-- What `reserve` promises: the records stay, and at least `n` bytes are free.
abbrev pub Reserved : Allocator → ℕ → Xfer → Outcome Xfer → Type 0
Reserved A n x (ok x') = IsValid x' × (x'.records ≡ x.records) × (n ≤ x'.free) × (x'.head ≡ true)
Reserved A n x (err e) = (e ≡ bad_alloc) × NotGranted A

-- What the push functions promise: the records are appended, in an allocation that holds them.
abbrev pub Pushed : Allocator → List Record → Xfer → Outcome Xfer → Type 0
Pushed A rs x (ok x') = IsValid x' × (x'.records ≡ x.records ++ rs)
Pushed A rs x (err e) = (e ≡ bad_alloc) × NotGranted A

pub reserve-Reserved :
    (A : Allocator) (n : ℕ) (x : Xfer)
    → IsValid x
    → n < 2 ^ 62
    → x.free < n
    → Reserved A n x (reserve A n x)
unfolding reserve
reserve-Reserved A n x v small short =
    let (size, e, g) =
      grow_ends (add_size (add_size (used x) x.free * 2 % 2 ^ 64) 72) (add_size n (used x))
        (omega (arith, v.bounded)) (omega (arith, v.bounded)) in
    elim (Bool-cases (A.grants size)) [
      | inl granted ↦
          rw (e, granted, reserve)
            (
              record {
                bounded = omega (arith, A.grants_small size granted, g.reaches, v.bounded);
                unallocated = λ f. cc;
              },
              refl,
              omega (arith, A.grants_small size granted, g.reaches, v.bounded),
              refl,
            )
      | inr refused ↦ rw (e, refused, reserve) (refl, (size, refused))
    ]

sizeof_record-pos : (r : Record) → 0 < sizeof_record r
sizeof_record-pos (iovec vec) = omega arith
sizeof_record-pos (sendfile infd off len) = omega arith
sizeof_record-pos (finalize fin user) = omega arith

pub sizeof_records-zero : (rs : List Record) → sizeof_records rs ≡ 0 → rs ≡ []
sizeof_records-zero [] h = refl
sizeof_records-zero (r ∷ rs) h = absurd (omega (arith, sizeof_record-pos r))

-- The end of a push, once there is room.
placed :
    (rs : List Record) (x : Xfer)
    → IsValid x
    → sizeof_records rs ≤ x.free
    → (x.head ≡ true) ⊎ (rs ≡ [])
    → IsValid (record x { records = x.records ++ rs; free = sub_size x.free (sizeof_records rs) })
placed rs x v room h = record {
  bounded = omega (arith, v.bounded, sizeof_records-append x.records rs);
  unallocated = λ f. unalloc f h;
}
  where
    unalloc :
        x.head ≡ false
        → (x.head ≡ true) ⊎ (rs ≡ [])
        → (x.records ++ rs ≡ []) × (sub_size x.free (sizeof_records rs) ≡ 0)
    unalloc f (inl t) = absurd (cc)
    unalloc f (inr e) = rw (e, (v.unallocated f).0, (v.unallocated f).1) (refl, refl)

-- Every push function returns with its records appended, within the allocation; or the allocator
-- refused, and then it throws bad_alloc.
pub push_records-Pushed :
    (A : Allocator) (rs : List Record) (x : Xfer)
    → IsValid x
    → sizeof_records rs < 2 ^ 62
    → Pushed A rs x (push_records A rs x)
unfolding push_records
push_records-Pushed A rs x v small = elim (Bool-cases (ltb x.free (sizeof_records rs))) [
  | inl short ↦ rw short (
      roomy (reserve A (sizeof_records rs) x)
        (reserve-Reserved A (sizeof_records rs) x v small (ltb→lt _ _ short)))
  | inr enough ↦
      let room : sizeof_records rs ≤ x.free = ground arith in
      rw enough (placed rs x v room (head_or_none room x.head refl), refl)
]
  where
    head_or_none :
        sizeof_records rs ≤ x.free → (h : Bool) → x.head ≡ h → (x.head ≡ true) ⊎ (rs ≡ [])
    head_or_none room true e = inl e
    head_or_none room false e = inr (sizeof_records-zero rs (omega (arith, (v.unallocated e).1)))

    roomy :
        (o : Outcome Xfer)
        → Reserved A (sizeof_records rs) x o
        → Pushed A rs x (
            o >>= λ x'.
            ok (record x' {
              records = x'.records ++ rs;
              free = sub_size x'.free (sizeof_records rs);
            }))
    roomy (ok x') (v', same, room, head) = (placed rs x' v' room (inl head), ap (λ r. r ++ rs) same)
    roomy (err e) r = r

-- What `migrate` promises.
abbrev pub Migrated : Allocator → Xfer → Xfer → Outcome (Xfer × Xfer) → Type 0
Migrated A x to (ok (x', to')) =
    IsValid x' × IsValid to' × (x'.records ≡ []) × (to'.records ≡ to.records ++ x.records)
Migrated A x to (err e) = (e ≡ bad_alloc) × NotGranted A

emptied :
    (x : Xfer) → IsValid x → IsValid (record x { records = []; free = add_size x.free (used x) })
emptied x v = record { bounded = omega (arith, v.bounded); unallocated = λ f. (refl, gone f) }
  where
    gone : x.head ≡ false → add_size x.free (used x) ≡ 0
    gone f = rw ((v.unallocated f).0, (v.unallocated f).1)

-- On valid xfers, `migrate` moves every record, in order, behind those of the destination, leaves
-- none and keeps both valid, or throws bad_alloc, when the allocator refused a size.
pub migrate-Migrated :
    (A : Allocator) (x to : Xfer) → IsValid x → IsValid to → Migrated A x to (migrate A x to)
unfolding migrate
migrate-Migrated A x to v w = elim (Bool-cases to.head) [
  | inl here ↦ simp here (
      moved (push_records A x.records to)
        (push_records-Pushed A x.records to w (omega (arith, v.bounded))))
  | inr none ↦ simp none (
    record { bounded = omega arith; unallocated = λ f. (refl, refl) },
    v,
    refl,
    ap (λ r. r ++ x.records) (sym (w.unallocated none).0),
  )
]
  where
    moved :
        (o : Outcome Xfer)
        → Pushed A x.records to o
        → Migrated A x to
            (o >>= λ to'. ok (record x { records = []; free = add_size x.free (used x) }, to'))
    moved (ok to') (w', same) = (emptied x v, w', refl, same)
    moved (err e) r = r

-- `reset` keeps the allocation and empties it.
pub reset-IsValid : (x : Xfer) → IsValid x → IsValid (reset x).1
unfolding reset
reset-IsValid x v = emptied x v

-- The room that is left by `execute` in the xfer that it worked on.
pub shrunk :
    (k : Kernel) (x : Xfer) (i : ℕ)
    → Copies k.copied
    → IsValid x
    → IsValid (record x {
      records = (execute k i x.records).left;
      free = sub_size (add_size (used x) x.free) (sizeof_records (execute k i x.records).left);
    })
unfolding execute
shrunk k x i m v = record {
  bounded = omega (arith, v.bounded, execute-sizeof k i x.records m);
  unallocated = λ f. gone (v.unallocated f).0 (v.unallocated f).1;
}
  where
    gone :
        x.records ≡ []
        → x.free ≡ 0
        → ((execute k i x.records).left ≡ [])
          × (sub_size (add_size (used x) x.free) (sizeof_records (execute k i x.records).left) ≡ 0)
    gone e f = rw (e, f) (refl, refl)
