-- ===== src/Out/Delivery.antt =====
-- A descriptor delivers what is submitted to it, in order, and is woken while anything is pending.
use memxy.Prelude.{
  ℕ, ◌<◌, ◌^◌, ◌≡◌, ◌≢◌, refl, sym, ap, ◌∙◌, inl, inr, Bool, true, false, Bool-cases, List, [], ◌∷◌,
  ◌++◌, All, arith, append-nil, append_assoc, ◌==◌,
}
use memxy.Store.{Outcome, ok, err, bad_alloc, ◌>>=◌, Allocator}
use memxy.Xfer.{
  Record, Xfer, is_empty, sizeof_records, Event, trace, Kernel, execute, push_records, push_xfraw,
  migrate, reset,
}
use memxy.Xfer.Execute.{
  Solid, Healthy, Copies, execute_lem, execute-Solid, execute-done, execute-some, execute-sizeof,
}
use memxy.Xfer.Capacity.{
  IsValid, Pushed, push_records-Pushed, Migrated, migrate-Migrated, shrunk, reset-IsValid,
  sizeof_records-zero,
}
use memxy.Out.{Channel, try_write, write_event, commit_raw, commit}

-- The invariant of a descriptor, after `asked` was submitted to it.
pub record Inv (asked : List Event) (c : Channel) : Type 0 where
  pub valid : IsValid c.ctx
  pub solid : All Solid c.ctx.records
  pub delivered : c.log ++ trace c.ctx.records ≡ asked
  pub awake : c.ctx.records ≢ [] → c.watched ≡ true

-- An operation succeeds with the invariant, or throws bad_alloc.
abbrev pub Delivers : List Event → Outcome Channel → Type 0
Delivers asked (ok c) = Inv asked c
Delivers asked (err e) = e ≡ bad_alloc

trace-append : (rs ts : List Record) → trace (rs ++ ts) ≡ trace rs ++ trace ts
trace-append [] ts = refl
trace-append (r ∷ rs) ts = rw (trace-append rs ts, append_assoc)

All-append : (rs ts : List Record) → All Solid rs → All Solid ts → All Solid (rs ++ ts)
All-append [] ts h k = k
All-append (r ∷ rs) ts h k = (h.0, All-append rs ts h.1 k)

-- What `execute` adds to the log comes off what is pending.
served :
    (k : Kernel) (i : ℕ) (log : List Event) (rs : List Record)
    → Copies k.copied
    → (log ++ (execute k i rs).log) ++ trace (execute k i rs).left ≡ log ++ trace rs
served k i log rs m = append_assoc log _ _ ∙ ap (λ es. log ++ es) (execute_lem k i rs m)

served_all :
    (k : Kernel) (i : ℕ) (log : List Event) (rs : List Record)
    → Copies k.copied
    → (execute k i rs).left ≡ []
    → log ++ (execute k i rs).log ≡ log ++ trace rs
served_all k i log rs m nil =
    sym (append-nil (log ++ (execute k i rs).log)) ∙ (rw nil at (served k i log rs m))

-- The event of a writable descriptor.
pub write_event-Inv :
    (k : Kernel) (c : Channel) (asked : List Event)
    → Healthy k
    → Inv asked c
    → Inv asked (write_event k c)
unfolding write_event try_write reset
write_event-Inv k c asked h v = elim (Bool-cases (execute k c.calls c.ctx.records).cont) [
  | inl more ↦ simp more (record {
    valid = shrunk k c.ctx c.calls h.1 v.valid;
    solid = execute-Solid k c.calls c.ctx.records h.1 v.solid;
    delivered = served k c.calls c.log c.ctx.records h.1 ∙ v.delivered;
    awake = λ n. v.awake (execute-some k c.calls c.ctx.records more);
  })
  | inr done ↦
      let nil = execute-done k c.calls c.ctx.records h v.solid done in
      simp done (record {
        valid = reset-IsValid _ (shrunk k c.ctx c.calls h.1 v.valid);
        solid = tt;
        delivered =
            rw
              (
                nil,
                append-nil (c.log ++ (execute k c.calls c.ctx.records).log),
                append-nil (c.log ++ (execute k c.calls c.ctx.records).log),
              )
              (served_all k c.calls c.log c.ctx.records h.1 nil ∙ v.delivered);
        awake = λ n. absurd (n refl);
      })
]

-- Records that were put behind the pending ones of a descriptor that is watched.
joined-Inv :
    (rs : List Record) (x : Xfer) (c : Channel) (asked log : List Event) (calls : ℕ)
    (watched shut : Bool)
    → Inv asked c
    → All Solid rs
    → watched ≡ true
    → (after before : List Event) → log ++ trace c.ctx.records ≡ asked ++ before
    → before ++ trace rs ≡ after
    → IsValid x
    → x.records ≡ c.ctx.records ++ rs
    → Inv
        (asked ++ after)
        (record { ctx = x; watched = watched; shut = shut; log = log; calls = calls })
joined-Inv rs x c asked log calls watched shut v solid w after before e f valid same = record {
  valid = valid;
  solid = rw same (All-append c.ctx.records rs v.solid solid);
  delivered =
      rw (same, trace-append c.ctx.records rs, ← append_assoc log, e, append_assoc asked, f);
  awake = λ n. w;
}

-- A push of records on a descriptor that has output pending, or that is watched from now on.
pub pushed-Inv :
    (A : Allocator) (rs : List Record) (c : Channel) (asked log : List Event) (calls : ℕ)
    (watched : Bool)
    → Inv asked c
    → All Solid rs
    → sizeof_records rs < 2 ^ 62
    → watched ≡ true
    → (after before : List Event) → log ++ trace c.ctx.records ≡ asked ++ before
    → before ++ trace rs ≡ after
    → Delivers (asked ++ after) (
        push_records A rs c.ctx >>= λ x.
        ok (record c { ctx = x; watched = watched; log = log; calls = calls }))
pushed-Inv A rs c asked log calls watched v solid small w after before e f =
    go (push_records A rs c.ctx) (push_records-Pushed A rs c.ctx v.valid small)
  where
    go :
        (o : Outcome Xfer)
        → Pushed A rs c.ctx o
        → Delivers
            (asked ++ after)
            (o >>= λ x. ok (record c { ctx = x; watched = watched; log = log; calls = calls }))
    go (ok x) (valid, same) =
        joined-Inv rs x c asked log calls watched c.shut v solid w after before e f valid same
    go (err x) (bad, n) = bad

-- The channel behind `commit`.
abbrev pub left_by_commit : Outcome (Xfer × Channel) → Outcome Channel
left_by_commit o = o >>= λ r. ok r.1

-- A migration of records to a descriptor that has output pending, or that is watched from now on.
migrated-Inv :
    (A : Allocator) (xf : Xfer) (c : Channel) (asked log : List Event) (calls : ℕ)
    (watched shut : Bool)
    → Inv asked c
    → All Solid xf.records
    → IsValid xf
    → watched ≡ true
    → (after before : List Event) → log ++ trace c.ctx.records ≡ asked ++ before
    → before ++ trace xf.records ≡ after
    → Delivers (asked ++ after) (
        left_by_commit (
          migrate A xf c.ctx >>= λ r.
          ok (r.0, record { ctx = r.1; watched = watched; shut = shut; log = log; calls = calls })))
migrated-Inv A xf c asked log calls watched shut v solid valid w after before e f =
    go (migrate A xf c.ctx) (migrate-Migrated A xf c.ctx valid v.valid)
  where
    go :
        (o : Outcome (Xfer × Xfer))
        → Migrated A xf c.ctx o
        → Delivers (asked ++ after) (
            left_by_commit (
              o >>= λ r. ok (
                r.0,
                record { ctx = r.1; watched = watched; shut = shut; log = log; calls = calls },
              )))
    go (ok (rest, x)) (vr, vx, empty, same) =
        joined-Inv xf.records x c asked log calls watched shut v solid w after before e f vx same
    go (err x) (bad, n) = bad

pub empty-records : (c : Channel) → is_empty c.ctx ≡ true → c.ctx.records ≡ []
empty-records c h = sizeof_records-zero c.ctx.records (ground arith)

pending-records : (c : Channel) → is_empty c.ctx ≡ false → c.ctx.records ≢ []
pending-records c h e = absurd (differ (c.ctx.records) e h)
  where
    differ : (rs : List Record) → rs ≡ [] → (sizeof_records rs == 0) ≡ false → ⊥
    differ [] e h = cc
    differ (r ∷ rs) e h = cc

-- With nothing pending, everything that was asked for is done.
pub settled :
    (c : Channel) (asked : List Event) → Inv asked c → is_empty c.ctx ≡ true → c.log ≡ asked
settled c asked v h = sym (append-nil c.log) ∙ (rw (empty-records c h) at v.delivered)

-- `commit_raw` on a descriptor with output pending queues the records.
pub queued :
    (A : Allocator) (c : Channel) (asked : List Event) (rs : List Record)
    → Inv asked c
    → All Solid rs
    → sizeof_records rs < 2 ^ 62
    → is_empty c.ctx ≡ false
    → Delivers (asked ++ trace rs) (push_records A rs c.ctx >>= λ x. ok (record c { ctx = x }))
queued A c asked rs v solid small busy =
    pushed-Inv A rs c asked c.log c.calls c.watched v solid small (v.awake (pending-records c busy))
      (trace rs) [] (v.delivered ∙ sym (append-nil asked)) refl

-- On a healthy kernel `commit_raw` adds the records to what is delivered, behind all that was
-- submitted before.
pub commit_raw-Delivers :
    (k : Kernel) (A : Allocator) (c : Channel) (asked : List Event) (rs : List Record)
    → Healthy k
    → All Solid rs
    → sizeof_records rs < 2 ^ 62
    → Inv asked c
    → Delivers (asked ++ trace rs) (commit_raw k A rs c)
unfolding commit_raw push_xfraw
commit_raw-Delivers k A c asked rs h solid small v = elim (Bool-cases (is_empty c.ctx)) [
  | inr busy ↦ rw busy (queued A c asked rs v solid small busy)
  | inl idle ↦
      let e = execute k c.calls rs in
      let log = settled c asked v idle in
      elim (Bool-cases e.cont) [
        | inl more ↦
            rw (idle, more)
              (pushed-Inv A e.left c asked (c.log ++ e.log) e.calls true v
                (execute-Solid k c.calls rs h.1 solid)
                (omega (arith, execute-sizeof k c.calls rs h.1)) refl (trace rs) e.log
                (rw (empty-records c idle, append-nil, log)) (execute_lem k c.calls rs h.1))
        | inr done ↦
            let nil = execute-done k c.calls rs h solid done in
            rw (idle, done)
              (record {
                valid = v.valid;
                solid = v.solid;
                delivered =
                    rw (empty-records c idle, append-nil)
                      (served_all k c.calls c.log rs h.1 nil ∙ ap (λ l. l ++ trace rs) log);
                awake = v.awake;
              })
      ]
]

-- On a healthy kernel `commit` adds the records of the caller's xfer to what is delivered, behind all
-- that was submitted before.
pub commit-Delivers :
    (k : Kernel) (A : Allocator) (c : Channel) (asked : List Event) (xf : Xfer)
    → Healthy k
    → All Solid xf.records
    → IsValid xf
    → Inv asked c
    → Delivers (asked ++ trace xf.records) (left_by_commit (commit k A xf c))
unfolding commit try_write
commit-Delivers k A c asked xf h solid valid v = elim (Bool-cases (is_empty c.ctx)) [
  | inr busy ↦ rw busy (
      migrated-Inv A xf c asked c.log c.calls c.watched c.shut v solid valid
        (v.awake (pending-records c busy)) (trace xf.records) []
        (v.delivered ∙ sym (append-nil asked)) refl)
  | inl idle ↦
      let e = execute k c.calls xf.records in
      let log = settled c asked v idle in
      elim (Bool-cases e.cont) [
        | inl more ↦
            rw (idle, more)
              (migrated-Inv A _ c asked (c.log ++ e.log) e.calls true _ v
                (execute-Solid k c.calls xf.records h.1 solid) (shrunk k xf c.calls h.1 valid) refl
                (trace xf.records) e.log (rw (empty-records c idle, append-nil, log))
                (execute_lem k c.calls xf.records h.1))
        | inr done ↦
            let nil = execute-done k c.calls xf.records h solid done in
            rw (idle, done)
              (record {
                valid = v.valid;
                solid = v.solid;
                delivered =
                    rw (empty-records c idle, append-nil)
                      (served_all k c.calls c.log xf.records h.1 nil
                        ∙ ap (λ l. l ++ trace xf.records) log);
                awake = v.awake;
              })
      ]
]
