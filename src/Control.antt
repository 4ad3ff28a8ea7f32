-- ===== src/Control.antt =====
-- The control gate, src/gate_control.cc, and the client pool of src/proxy_client.cc, whose servers it
-- sets. The client library is a parameter: `memcached_servers_parse`, `memcached_create`, of which
-- the calls are numbered, and `memcached_server_push`.
pub mod Frames
pub mod Chunks
pub mod Servers
pub mod Events
pub mod Session
mod Tests
use memxy.Prelude.{
  ℕ, zero, suc, ◌+◌, ◌-◌, ◌*◌, ◌^◌, Bool, true, false, Option, none, some, List, [], ◌∷◌, ◌++◌,
  length, take, drop, get_or, ltb, ◌==◌, if◌then◌else◌,
}
use memxy.Store.{Block, Store, Allocator, Outcome, ok, err, Error, hang, dangling}
use memxy.StreamBuffer.{
  StreamBuffer, data_size, data_used, contents, buffer_capacity, buffer_consumed, fill,
  reserve_buffer,
}

-- The exceptions that end `read_event`.
pub data Fault : Type 0 where
  no_memory invalid_server_list : Fault

pub record Library (Servers Mc : Type 0) : Type 0 where
  pub parse : List ℕ → Option Servers
  pub create : ℕ → Option Mc
  pub push : Servers → Mc → Option Mc

-- What the C functions read of a string: the bytes before the first NUL.
pub c_string : List ℕ → List ℕ
c_string [] = []
c_string (c ∷ cs) = let rest = c_string cs in if c == 0 then [] else c ∷ rest

-- The pool of src/proxy_client.cc: the client of each thread, and the number by which the library is
-- asked for the next client; after an exception some numbers are left out.
pub record Pool (Mc : Type 0) : Type 0 where
  pub threads : List Mc
  pub created : ℕ

-- One thread's turn in the loop of `set_servers`: the exception, or the new client.
pub renew : {Servers Mc : Type 0} → Library Servers Mc → Servers → ℕ → Option Mc
renew lib servers i = elim (lib.create i) [ none ↦ none | some mc ↦ lib.push servers mc ]

-- What the loop leaves when a thread's client was renewed, or not, and `rest` is the loop for the
-- threads behind it.
pub renewed :
    {Mc : Type 0} → Option Mc → Mc → List Mc → Option Fault × List Mc → Option Fault × List Mc
renewed none old behind rest = (some no_memory, old ∷ behind)
renewed (some mc) old behind (f, done) = (f, mc ∷ done)

-- The loop over the thread list, from the `i`-th creation on.
pub renew_all :
    {Servers Mc : Type 0} → Library Servers Mc → Servers → ℕ → List Mc → Option Fault × List Mc
renew_all lib servers i [] = (none, [])
renew_all lib servers i (old ∷ behind) =
    renewed (renew lib servers i) old behind (renew_all lib servers (i + 1) behind)

-- `set_servers`; `dup` tells whether `strdup` finds memory.
pub set_servers :
    {Servers Mc : Type 0} → Library Servers Mc → Bool → List ℕ → Pool Mc → Option Fault × Pool Mc
set_servers lib dup server_list p =
    if dup
    then elim (lib.parse (c_string server_list)) [
      | none ↦ (some invalid_server_list, p)
      | some servers ↦
          let (f, ts) = renew_all lib servers p.created p.threads in
          (f, record { threads = ts; created = p.created + length p.threads })
    ]
    else (some no_memory, p)

-- `process_body` of the control gate's handler: the body as a C string in memory of its own;
-- `grants` tells which sizes malloc grants.
pub process_servers :
    {Servers Mc : Type 0}
    → Library Servers Mc
    → (ℕ → Bool)
    → Bool
    → List ℕ
    → Pool Mc
    → Option Fault × Pool Mc
process_servers lib grants dup body p =
    if grants (length body + 1) then set_servers lib dup body p else (some no_memory, p)

-- `ntohl(*(uint32_t*)data)`
pub frame_size : List ℕ → ℕ
frame_size d = ((get_or d 0 0 * 256 + get_or d 1 0) * 256 + get_or d 2 0) * 256 + get_or d 3 0

module _ {T : Type 0} (process_body : List ℕ → T → Option Fault × T) where
  -- What follows the body of a frame, if it did not throw.
  pub on_body :
      {R : Type 0}
      → R
      → Option Fault × T
      → Option (Option Fault × R × T)
      → Option (Option Fault × R × T)
  on_body s (none, t) rest = rest
  on_body s (some f, t) rest = some (some f, s, t)

  -- The loop of `read_event` over the buffer `s` and its block `b`, with fuel; `none` is a loop that
  -- has not ended.
  pub read_frames : ℕ → StreamBuffer → Block → T → Option (Option Fault × StreamBuffer × T)
  read_frames zero s b t = none
  read_frames (suc fuel) s b t =
      let d = contents s b in
      let sz = frame_size d in
      let r = process_body (take sz (drop 4 d)) t in
      let rest = read_frames fuel (data_used (4 + sz) s) b r.1 in
      if ltb 4 (data_size s)
      then (if ltb (data_size s - 4) sz then some (none, s, t) else on_body s r rest)
      else some (none, s, t)

-- What read(2) returns: bytes, 0, EAGAIN or EINTR, or another error.
pub data Answer : Type 0 where
  received : List ℕ → Answer
  end_of_file interrupted failed : Answer

-- The exceptions for the connection.
pub data Dropped : Type 0 where
  connection_closed connection_broken : Dropped

-- How `read_event` ends: it leaves the buffer and what `process_body` changes, by a return or by
-- `process_body`'s exception; or it throws for the connection, or as reserve_buffer does.
pub data ReadResult (T : Type 0) : Type 0 where
  finished : Option Fault → StreamBuffer → Store → T → ReadResult T
  dropped : Dropped → ReadResult T
  refused : Error → ReadResult T

-- CONTROL_INITIAL_ALLOCATION_SIZE and CONTROL_RESERVE_SIZE
abbrev pub initial_allocation_size : ℕ
initial_allocation_size = 32768

abbrev pub reserve_size : ℕ
reserve_size = 4096

module _ {T : Type 0} (process_body : List ℕ → T → Option Fault × T) where
  pub looped : Store → Option (Option Fault × StreamBuffer × T) → ReadResult T
  looped m none = refused hang
  looped m (some (f, s, t)) = finished f s m t

  -- The loop over the buffer, with one step more than it has unread bytes.
  pub read_buffer : StreamBuffer → Store → T → ReadResult T
  read_buffer s m t = elim (m.block s.buffer) [
    | none ↦ refused dangling
    | some b ↦ looped m (read_frames process_body (suc (data_size s)) s b t)
  ]

  -- From the result of read on.
  pub on_read : Answer → StreamBuffer → Store → T → ReadResult T
  on_read (received bs) s m t = elim (fill bs s m) [
    | err e ↦ refused e
    | ok m' ↦ read_buffer (buffer_consumed (length bs) s) m' t
  ]
  on_read end_of_file s m t = dropped connection_closed
  on_read interrupted s m t = finished none s m t
  on_read failed s m t = dropped connection_broken

  -- `read_event`; `read` answers for the number of bytes that are asked for.
  pub read_event : Allocator → (ℕ → Answer) → StreamBuffer → Store → T → ReadResult T
  read_event A read s m t = elim (reserve_buffer A reserve_size initial_allocation_size s m) [
    | err e ↦ refused e
    | ok (s', m') ↦ on_read (read (buffer_capacity s')) s' m' t
  ]
