-- ===== src/Xfer/Execute.antt =====
-- `xferimpl::execute`: nothing is lost, repeated or reordered, and a finalizer is called after the
-- bytes before it.
use memxy.Prelude.{
  ℕ, zero, suc, ◌+◌, ◌-◌, ◌≤◌, ◌<◌, ◌≡◌, ◌≢◌, refl, sym, ap, ap₂, subst, ◌==◌, ◌∙◌, inl, inr, true,
  false, Bool-cases, leb, ltb, List, [], ◌∷◌, ◌++◌, length, take, All, arith, take-nil,
  take-append_le, take-append_ge, append-nil, append_assoc,
}
use memxy.Xfer.{
  Iovec, Record, iovec, sendfile, finalize, Event, sent_mem, sent_file, mem_bytes, file_bytes,
  vec_bytes, vec_total, run_finalizer, trace, Reply, wrote, closed, again, broken, Kernel, advance,
  Executed, after, sizeof_records, execute, on_sendfile, on_iovec, on_advanced, kept,
}

length-mem_bytes : (base n : ℕ) → length (mem_bytes base n) ≡ n
length-mem_bytes base zero = refl
length-mem_bytes base (suc n) = ap suc (length-mem_bytes (base + 1) n)

take-mem_bytes : (k n base : ℕ) → k ≤ n → take k (mem_bytes base n) ≡ mem_bytes base k
take-mem_bytes zero n base h = refl
take-mem_bytes (suc k) zero base h = absurd (omega arith)
take-mem_bytes (suc k) (suc n) base h =
    ap (λ r. sent_mem base ∷ r) (take-mem_bytes k n (base + 1) (omega arith))

pub mem_bytes-split :
    (k n base : ℕ) → k ≤ n → mem_bytes base k ++ mem_bytes (base + k) (n - k) ≡ mem_bytes base n
mem_bytes-split zero n base h = ap₂ mem_bytes (omega arith) (omega arith)
mem_bytes-split (suc k) zero base h = absurd (omega arith)
mem_bytes-split (suc k) (suc n) base h =
    let e : base + 1 + k ≡ base + suc k = omega arith in
    let d : n - k ≡ suc n - suc k = omega arith in
    ap (λ r. sent_mem base ∷ r) (rw (← e, ← d) (mem_bytes-split k n (base + 1) (omega arith)))

file_bytes-split :
    (k n fd off : ℕ)
    → k ≤ n
    → file_bytes fd off k ++ file_bytes fd (off + k) (n - k) ≡ file_bytes fd off n
file_bytes-split zero n fd off h = ap₂ (file_bytes fd) (omega arith) (omega arith)
file_bytes-split (suc k) zero fd off h = absurd (omega arith)
file_bytes-split (suc k) (suc n) fd off h =
    let e : off + 1 + k ≡ off + suc k = omega arith in
    let d : n - k ≡ suc n - suc k = omega arith in
    ap (λ r. sent_file fd off ∷ r) (rw (← e, ← d) (file_bytes-split k n fd (off + 1) (omega arith)))

-- The loop over the vectors leaves exactly what the call did not take.
pub advance_lem :
    (wl : ℕ) (vec : List Iovec)
    → wl ≤ vec_total vec
    → take wl (vec_bytes vec) ++ vec_bytes (advance wl vec) ≡ vec_bytes vec
unfolding advance
advance_lem wl [] h = rw (take-nil {A = Event} wl)
advance_lem wl (v ∷ vec) h = elim (Bool-cases (leb v.len wl)) [
  | inl over ↦
      let whole = mem_bytes v.base v.len in
      let n : length whole ≡ v.len = length-mem_bytes v.base v.len in
      let le : v.len ≤ wl = ground arith in
      rw (
        over,
        take-append_ge wl whole (vec_bytes vec) (omega (arith, n)),
        n,
        append_assoc,
        advance_lem (wl - v.len) vec (omega arith),
      )
  | inr inside ↦
      let whole = mem_bytes v.base v.len in
      let lt : wl ≤ v.len = ground arith in
      rw (
        inside,
        take-append_le wl whole (vec_bytes vec) (omega (arith, length-mem_bytes v.base v.len)),
        take-mem_bytes wl v.len v.base lt,
        ← append_assoc (mem_bytes v.base wl) (mem_bytes (v.base + wl) (v.len - wl)) (vec_bytes vec),
        mem_bytes-split wl v.len v.base lt,
      )
]

-- It leaves nothing only if the call took everything.
advance-nil : (wl : ℕ) (vec : List Iovec) → advance wl vec ≡ [] → vec_total vec ≤ wl
unfolding advance
advance-nil wl [] h = omega arith
advance-nil wl (v ∷ vec) h = ground (arith, advance-nil (wl - v.len) vec)

-- The events of a prefix of the records in front of those of the rest.
after-trace :
    (es : List Event) (e : Executed) (t : List Event)
    → e.log ++ trace e.left ≡ t
    → (after es e).log ++ trace (after es e).left ≡ es ++ t
after-trace es e t h = append_assoc es e.log (trace e.left) ∙ ap (λ r. es ++ r) h

file_taken :
    (wl len fd off : ℕ) → len ≤ wl → wl ≤ len → file_bytes fd off wl ≡ file_bytes fd off len
file_taken wl len fd off h k = ap (file_bytes fd off) (omega arith)

on_sendfile-trace :
    (i infd off len : ℕ) (rs : List Record) (r : Reply) (rest : Executed)
    → ((n : ℕ) → r ≡ wrote n → n ≤ len)
    → rest.log ++ trace rest.left ≡ trace rs
    → let e = on_sendfile i infd off len rs r rest in
      e.log ++ trace e.left ≡ file_bytes infd off len ++ trace rs
unfolding on_sendfile
on_sendfile-trace i infd off len rs closed rest h ih = refl
on_sendfile-trace i infd off len rs broken rest h ih = refl
on_sendfile-trace i infd off len rs again rest h ih = refl
on_sendfile-trace i infd off len rs (wrote wl) rest h ih = elim (Bool-cases (ltb wl len)) [
  | inl part ↦ rw (
    part,
    ← append_assoc (file_bytes infd off wl) (file_bytes infd (off + wl) (len - wl)) (trace rs),
    file_bytes-split wl len infd off (h wl refl),
  )
  | inr whole ↦
      rw (whole, ← file_taken wl len infd off (ground arith) (h wl refl))
        (after-trace (file_bytes infd off wl) rest (trace rs) ih)
]

on_advanced-trace :
    (i : ℕ) (log : List Event) (left moved : List Iovec) (rs : List Record) (rest : Executed)
    → moved ≡ left
    → rest.log ++ trace rest.left ≡ trace rs
    → let e = on_advanced i log left moved rs rest in
      e.log ++ trace e.left ≡ (log ++ vec_bytes left) ++ trace rs
unfolding on_advanced
on_advanced-trace i log [] moved rs rest same ih =
    rw (append-nil log) (after-trace log rest (trace rs) ih)
on_advanced-trace i log (v ∷ left) moved rs rest same ih =
    ap (λ vec. log ++ (vec_bytes vec ++ trace rs)) same
    ∙ sym (append_assoc log (vec_bytes (v ∷ left)) (trace rs))

-- memcpy moves vectors as they are, also where source and destination overlap.
abbrev pub Copies : (List Iovec → List Iovec) → Type 0
Copies copied = (vec : List Iovec) → copied vec ≡ vec

kept_lem :
    (copied : List Iovec → List Iovec) (vec left : List Iovec)
    → Copies copied
    → kept copied vec left ≡ left
unfolding kept
kept_lem copied vec left h = elim (Bool-cases (length left == length vec)) [
  | inl same ↦ rw (same) refl
  | inr less ↦ rw (less) (h left)
]

on_iovec-trace :
    (copied : List Iovec → List Iovec) (i : ℕ) (vec : List Iovec) (rs : List Record) (r : Reply)
    (rest : Executed)
    → Copies copied
    → ((n : ℕ) → r ≡ wrote n → n ≤ vec_total vec)
    → rest.log ++ trace rest.left ≡ trace rs
    → let e = on_iovec copied i vec rs r rest in e.log ++ trace e.left ≡ vec_bytes vec ++ trace rs
unfolding on_iovec
on_iovec-trace copied i vec rs closed rest m h ih = refl
on_iovec-trace copied i vec rs broken rest m h ih = refl
on_iovec-trace copied i vec rs again rest m h ih = refl
on_iovec-trace copied i vec rs (wrote wl) rest m h ih =
    on_advanced-trace i (take wl (vec_bytes vec)) (advance wl vec)
      (kept copied vec (advance wl vec)) rs rest (kept_lem copied vec (advance wl vec) m) ih
    ∙ ap (λ es. es ++ trace rs) (advance_lem wl vec (h wl refl))

pub execute_lem :
    (k : Kernel) (i : ℕ) (rs : List Record)
    → Copies k.copied
    → (execute k i rs).log ++ trace (execute k i rs).left ≡ trace rs
unfolding execute
execute_lem k i [] m = refl
execute_lem k i (finalize fin user ∷ rs) m =
    after-trace (run_finalizer fin user) (execute k i rs) (trace rs) (execute_lem k i rs m)
execute_lem k i (sendfile infd off len ∷ rs) m =
    on_sendfile-trace i infd off len rs (k.reply i len) (execute k (i + 1) rs)
      (λ n e. (k.honest i len n e).1) (execute_lem k (i + 1) rs m)
execute_lem k i (iovec [] ∷ rs) m = refl
execute_lem k i (iovec (v ∷ vec) ∷ rs) m =
    on_iovec-trace k.copied i (v ∷ vec) rs (k.reply i (vec_total (v ∷ vec))) (execute k (i + 1) rs)
      m (λ n e. (k.honest i (vec_total (v ∷ vec)) n e).1) (execute_lem k (i + 1) rs m)

-- A record that is no list of no vectors.
abbrev pub HasVectors : Record → Type 0
HasVectors (iovec []) = ⊥
HasVectors r = Unit

-- `execute` asks to be called again exactly when it stops before a record for want of room; so there
-- is one then.
pub execute-cont :
    (k : Kernel) (i : ℕ) (rs : List Record)
    → (execute k i rs).cont ≡ true
    → (execute k i rs).left ≢ []
unfolding execute on_sendfile on_iovec on_advanced
execute-cont k i [] h = cc
execute-cont k i (finalize fin user ∷ rs) h = execute-cont k i rs h
execute-cont k i (sendfile infd off len ∷ rs) h = ground (arith, execute-cont k (i + 1) rs)
execute-cont k i (iovec [] ∷ rs) h = cc
execute-cont k i (iovec (v ∷ vec) ∷ rs) h = ground (arith, execute-cont k (i + 1) rs)

-- A record that asks for at least one byte, or for none by its kind.
abbrev pub Solid : Record → Type 0
Solid (iovec vec) = 0 < vec_total vec
Solid (sendfile infd off len) = 0 < len
Solid (finalize fin user) = Unit

-- A kernel on which no write of a byte or more fails, and memcpy moves vectors as they are.
abbrev pub Healthy : Kernel → Type 0
Healthy k = ((i n : ℕ) → 0 < n → (k.reply i n ≢ closed) × (k.reply i n ≢ broken)) × Copies k.copied

advance-Solid : (wl : ℕ) (vec : List Iovec) → advance wl vec ≢ [] → 0 < vec_total (advance wl vec)
unfolding advance
advance-Solid wl [] h = absurd (h refl)
advance-Solid wl (v ∷ vec) h = ground (arith, advance-Solid (wl - v.len) vec)

on_advanced-Solid :
    (i : ℕ) (log : List Event) (left moved : List Iovec) (rs : List Record) (rest : Executed)
    → moved ≡ left
    → (left ≢ [] → 0 < vec_total left)
    → All Solid rs
    → All Solid rest.left
    → All Solid (on_advanced i log left moved rs rest).left
unfolding on_advanced
on_advanced-Solid i log [] moved rs rest same h hrs ih = ih
on_advanced-Solid i log (v ∷ left) moved rs rest same h hrs ih =
    (subst (λ vec. 0 < vec_total vec) (sym same) (h (λ e. cc)), hrs)

on_iovec-Solid :
    (copied : List Iovec → List Iovec) (i : ℕ) (vec : List Iovec) (rs : List Record) (r : Reply)
    (rest : Executed)
    → Copies copied
    → 0 < vec_total vec
    → All Solid rs
    → All Solid rest.left
    → All Solid (on_iovec copied i vec rs r rest).left
unfolding on_iovec
on_iovec-Solid copied i vec rs closed rest m h hrs ih = (h, hrs)
on_iovec-Solid copied i vec rs broken rest m h hrs ih = (h, hrs)
on_iovec-Solid copied i vec rs again rest m h hrs ih = (h, hrs)
on_iovec-Solid copied i vec rs (wrote wl) rest m h hrs ih =
    on_advanced-Solid i _ (advance wl vec) _ rs rest (kept_lem copied vec (advance wl vec) m)
      (advance-Solid wl vec) hrs ih

on_sendfile-Solid :
    (i infd off len : ℕ) (rs : List Record) (r : Reply) (rest : Executed)
    → 0 < len
    → All Solid rs
    → All Solid rest.left
    → All Solid (on_sendfile i infd off len rs r rest).left
unfolding on_sendfile
on_sendfile-Solid i infd off len rs closed rest h hrs ih = (h, hrs)
on_sendfile-Solid i infd off len rs broken rest h hrs ih = (h, hrs)
on_sendfile-Solid i infd off len rs again rest h hrs ih = (h, hrs)
on_sendfile-Solid i infd off len rs (wrote wl) rest h hrs ih = elim (Bool-cases (ltb wl len)) [
  | inl part ↦ rw part (ground arith, hrs)
  | inr whole ↦ rw whole ih
]

pub execute-Solid :
    (k : Kernel) (i : ℕ) (rs : List Record)
    → Copies k.copied
    → All Solid rs
    → All Solid (execute k i rs).left
unfolding execute
execute-Solid k i [] m h = tt
execute-Solid k i (finalize fin user ∷ rs) m h = execute-Solid k i rs m h.1
execute-Solid k i (sendfile infd off len ∷ rs) m h =
    on_sendfile-Solid i infd off len rs _ (execute k (i + 1) rs) h.0 h.1
      (execute-Solid k (i + 1) rs m h.1)
execute-Solid k i (iovec [] ∷ rs) m h = h
execute-Solid k i (iovec (v ∷ vec) ∷ rs) m h =
    on_iovec-Solid k.copied i (v ∷ vec) rs _ (execute k (i + 1) rs) m h.0 h.1
      (execute-Solid k (i + 1) rs m h.1)

-- On a healthy kernel `execute` stops for good only when nothing is left.
pub execute-done :
    (k : Kernel) (i : ℕ) (rs : List Record)
    → Healthy k
    → All Solid rs
    → (execute k i rs).cont ≡ false
    → (execute k i rs).left ≡ []
unfolding execute on_sendfile on_iovec on_advanced
execute-done k i [] ok h e = refl
execute-done k i (finalize fin user ∷ rs) ok h e = execute-done k i rs ok h.1 e
execute-done k i (sendfile infd off len ∷ rs) ok h e =
    ground (arith, ok.0 i len h.0, execute-done k (i + 1) rs ok h.1)
execute-done k i (iovec [] ∷ rs) ok h e = absurd (omega (arith, h.0))
execute-done k i (iovec (v ∷ vec) ∷ rs) ok h e =
    ground (arith, ok.0 i (vec_total (v ∷ vec)) h.0, execute-done k (i + 1) rs ok h.1)

length-advance : (wl : ℕ) (vec : List Iovec) → length (advance wl vec) ≤ length vec
unfolding advance
length-advance wl [] = omega arith
length-advance wl (v ∷ vec) = ground (arith, length-advance (wl - v.len) vec)

on_advanced-sizeof :
    (i : ℕ) (log : List Event) (left moved vec : List Iovec) (rs : List Record) (rest : Executed)
    → length moved ≤ length vec
    → sizeof_records rest.left ≤ sizeof_records rs
    → sizeof_records (on_advanced i log left moved rs rest).left ≤ sizeof_records (iovec vec ∷ rs)
unfolding on_advanced
on_advanced-sizeof i log [] moved vec rs rest h ih = omega arith
on_advanced-sizeof i log (v ∷ left) moved vec rs rest h ih = omega arith

on_iovec-sizeof :
    (copied : List Iovec → List Iovec) (i : ℕ) (vec : List Iovec) (rs : List Record) (r : Reply)
    (rest : Executed)
    → Copies copied
    → sizeof_records rest.left ≤ sizeof_records rs
    → sizeof_records (on_iovec copied i vec rs r rest).left ≤ sizeof_records (iovec vec ∷ rs)
unfolding on_iovec
on_iovec-sizeof copied i vec rs (wrote wl) rest m ih =
    on_advanced-sizeof i _ (advance wl vec) _ vec rs rest
      (omega (arith, ap length (kept_lem copied vec (advance wl vec) m), length-advance wl vec)) ih
on_iovec-sizeof copied i vec rs _ rest m ih = omega arith

-- What is left takes no more room than what there was, so it fits where it was.
pub execute-sizeof :
    (k : Kernel) (i : ℕ) (rs : List Record)
    → Copies k.copied
    → sizeof_records (execute k i rs).left ≤ sizeof_records rs
unfolding execute on_sendfile
execute-sizeof k i [] m = omega arith
execute-sizeof k i (finalize fin user ∷ rs) m = omega (arith, execute-sizeof k i rs m)
execute-sizeof k i (sendfile infd off len ∷ rs) m = ground (arith, execute-sizeof k (i + 1) rs m)
execute-sizeof k i (iovec [] ∷ rs) m = omega arith
execute-sizeof k i (iovec (v ∷ vec) ∷ rs) m =
    on_iovec-sizeof k.copied i (v ∷ vec) rs _ (execute k (i + 1) rs) m
      (execute-sizeof k (i + 1) rs m)

pub execute-some : (k : Kernel) (i : ℕ) (rs : List Record) → (execute k i rs).cont ≡ true → rs ≢ []
unfolding execute
execute-some k i [] h = cc
execute-some k i (r ∷ rs) h = λ e. cc
