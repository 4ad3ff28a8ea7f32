-- ===== src/Out.antt =====
-- The class `out` of src/mpsrc/wavy_out.cc, and the output functions of core: one descriptor's
-- pending output, the calls that add to it, and the event that it is writable.
-- The mutex of a descriptor is held for the whole of each operation, so operations are steps.
pub mod Delivery
pub mod Session
mod Tests
use memxy.Prelude.{
  ℕ, ◌+◌, ◌-◌, Bool, true, false, not, ◌&&◌, Option, none, some, List, [], ◌∷◌, ◌++◌, ltb, leb,
  if◌then◌else◌, ◌==◌,
}
use memxy.Store.{Outcome, ok, err, ◌>>=◌, Allocator}
use memxy.StreamBuffer.{add_size, sub_size}
use memxy.Xfer.{
  Iovec, Record, iovec, sendfile, finalize, Xfer, new_xfer, used, is_empty, sizeof_records, Event,
  mem_bytes, Reply, wrote, closed, again, broken, Kernel, Executed, execute, push_write, push_xfraw,
  migrate, reset,
}

-- The state of one descriptor: its xfer (m_fdctx), whether the port watches it for room, whether it
-- is shut down for reading, what happened so far, and the number of system calls made.
pub record Channel : Type 0 where
  pub ctx : Xfer
  pub watched : Bool
  pub shut : Bool
  pub log : List Event
  pub calls : ℕ

abbrev pub new_channel : Channel
new_channel = record { ctx = new_xfer; watched = false; shut = false; log = []; calls = 0 }

module _ (A : Allocator) where
  -- The end of `out::write`: the rest is kept, and the descriptor watched.
  keep : ℕ → ℕ → List Event → Channel → Outcome Channel
  keep buf size es c = do
    x ← push_write A buf size c.ctx
    ok (record c { ctx = x; watched = true; log = c.log ++ es; calls = c.calls + 1 })

  -- The replies of the `::write` in `out::write`.
  on_write : ℕ → ℕ → Reply → Channel → Outcome Channel
  on_write buf size closed c = ok (record c { shut = true; calls = c.calls + 1 })
  on_write buf size broken c = ok (record c { shut = true; calls = c.calls + 1 })
  on_write buf size again c = keep buf size [] c
  on_write buf size (wrote wl) c =
      if leb size wl
      then ok (record c { log = c.log ++ mem_bytes buf wl; calls = c.calls + 1 })
      else keep (buf + wl) (size - wl) (mem_bytes buf wl) c

module _ (k : Kernel) where
  -- `xferimpl::try_write` of the records of `x`: its result, the xfer, and the channel's log, calls and
  -- shutdown.
  pub try_write : Xfer → Channel → Bool × Xfer × Channel
  try_write x c =
      let e = execute k c.calls x.records in
      let x' : Xfer = record x {
        records = e.left;
        free = sub_size (add_size (used x) x.free) (sizeof_records e.left);
      } in
      (
        e.cont,
        x',
        record c {
          shut = if not e.cont && not (is_empty x') then true else c.shut;
          log = c.log ++ e.log;
          calls = e.calls;
        },
      )

  -- `out::write_event`: an xfer that is done, or broken, is reset and no longer watched.
  pub write_event : Channel → Channel
  write_event c =
      let (cont, x, c') = try_write c.ctx c in
      if cont
      then record c' { ctx = x }
      else (let (fins, x') = reset x in
          record c' { ctx = x'; watched = false; log = c'.log ++ fins })

  module _ (A : Allocator) where
    -- `out::commit_raw`
    pub commit_raw : List Record → Channel → Outcome Channel
    commit_raw rs c =
        let e = execute k c.calls rs in
        if not (is_empty c.ctx)
        then (do x ← push_xfraw A rs c.ctx; ok (record c { ctx = x }))
        else if e.cont
        then (do
          x ← push_xfraw A e.left c.ctx
          ok (record c { ctx = x; watched = true; log = c.log ++ e.log; calls = e.calls }))
        else ok (record c { log = c.log ++ e.log; calls = e.calls })

    -- `out::commit`: what is left of the caller's xfer, and the channel.
    pub commit : Xfer → Channel → Outcome (Xfer × Channel)
    commit xf c =
        let (cont, xf', c') = try_write xf c in
        if not (is_empty c.ctx)
        then (do (rest, x) ← migrate A xf c.ctx; ok (rest, record c { ctx = x }))
        else if cont
        then (do (rest, x) ← migrate A xf' c.ctx; ok (rest, record c' { ctx = x; watched = true }))
        else ok (xf', c')

    -- `out::write`
    pub write : ℕ → ℕ → Channel → Outcome Channel
    write buf size c =
        if is_empty c.ctx
        then on_write A buf size (k.reply c.calls size) c
        else (do x ← push_write A buf size c.ctx; ok (record c { ctx = x }))

    -- core::write with a finalizer, core::writev, core::sendfile, core::hsendfile and
    -- core::hvsendfile.
    pub write_fin : ℕ → ℕ → Option ℕ → ℕ → Channel → Outcome Channel
    write_fin buf size fin user =
        commit_raw (iovec (record { base = buf; len = size } ∷ []) ∷ finalize fin user ∷ [])

    pub writev : List Iovec → Option ℕ → ℕ → Channel → Outcome Channel
    writev vec fin user = commit_raw (iovec vec ∷ finalize fin user ∷ [])

    pub core_sendfile : ℕ → ℕ → ℕ → Option ℕ → ℕ → Channel → Outcome Channel
    core_sendfile infd off size fin user =
        commit_raw (sendfile infd off size ∷ finalize fin user ∷ [])

    pub hsendfile : ℕ → ℕ → ℕ → ℕ → ℕ → Option ℕ → ℕ → Channel → Outcome Channel
    hsendfile header header_size infd off size fin user = commit_raw (
        iovec (record { base = header; len = header_size } ∷ [])
        ∷ sendfile infd off size
        ∷ finalize fin user
        ∷ [])

    pub hvsendfile : List Iovec → ℕ → ℕ → ℕ → Option ℕ → ℕ → Channel → Outcome Channel
    hvsendfile header_vec infd off size fin user =
        commit_raw (iovec header_vec ∷ sendfile infd off size ∷ finalize fin user ∷ [])
