-- ===== src/Gate/Handler.antt =====
-- The handler of a connection, src/gate_memtext.cc: it reads into its stream buffer and has the parser
-- of the text protocol read what came, which makes the requests of the siblings. What read(2) answers
-- and the exceptions for the connection are those of the control gate's handler.
pub mod Events
pub mod Service
mod Tests
use memxy.Prelude.{
  ℕ, zero, suc, ◌+◌, Bool, true, false, Option, none, some, List, length, ltb, if◌then◌else◌,
}
use memxy.Store.{Block, Store, Allocator, Outcome, ok, err, Error, ◌>>=◌, hang, dangling}
use memxy.StreamBuffer.{
  StreamBuffer, create, data_size, data_used, contents, buffer_capacity, buffer_consumed, fill,
  reserve_buffer,
}
use memxy.Memtext.{Command, cmd_get, cmd_gets, cmd_set, cmd_delete, Parser, Request, init}
use memxy.Memtext.Machine.{Callbacks, Executed, executed, parse_error, out_of_bounds, execute}
use memxy.Control.{
  Answer, received, end_of_file, interrupted, failed, Dropped, connection_closed, connection_broken,
}

-- MEMTEXT_INITIAL_ALLOCATION_SIZE and MEMTEXT_RESERVE_SIZE
abbrev pub initial_allocation_size : ℕ
initial_allocation_size = 32768

abbrev pub reserve_size : ℕ
reserve_size = 4096

-- `handler`; its descriptor is the `user` of the parser.
pub record Handler : Type 0 where
  pub buffer : StreamBuffer
  pub parser : Parser
  pub off : ℕ

-- The table of the constructor.
unfoldable pub table :
    {U : Type 0}
    → (request_get request_gets request_set request_delete : Request → U → Bool × U) → Callbacks U
table request_get request_gets request_set request_delete cmd_get = some request_get
table request_get request_gets request_set request_delete cmd_gets = some request_gets
table request_get request_gets request_set request_delete cmd_set = some request_set
table request_get request_gets request_set request_delete cmd_delete = some request_delete
table request_get request_gets request_set request_delete command = none

-- The constructor.
unfoldable pub handler : Allocator → Store → Outcome (Handler × Store)
handler A m = do
  (s, m') ← create A initial_allocation_size m
  ok (record { buffer = s; parser = init; off = 0 }, m')

-- How `read_event` ends: by a return, by an exception for the connection or of the parser, as
-- reserve_buffer throws, or with a write out of bounds.
pub data ReadResult (U : Type 0) : Type 0 where
  returned : Handler → Store → U → ReadResult U
  dropped : Dropped → ReadResult U
  bad_request : U → ReadResult U
  undefined : ReadResult U
  refused : Error → ReadResult U

module _ {U : Type 0} (cb : Callbacks U) where
  -- `memtext_execute` on what is unread.
  unfoldable pub parse : Handler → Block → U → Executed U
  parse h b u = execute cb (contents h.buffer b) h.off h.parser u

  -- The handler when a command has ended.
  unfoldable pub consumed : ℕ → Parser → Handler → Handler
  consumed off c h = record { buffer = data_used off h.buffer; parser = c; off = 0 }

  -- The loop of `read_event` over the buffer and its block `b`, with fuel.
  unfoldable pub parse_all : ℕ → Handler → Block → Store → U → ReadResult U
  parse_all zero h b m u = refused hang
  parse_all (suc fuel) h b m u = elim (parse h b u) [
    | executed final off c u' ↦ elim final [
      | false ↦ returned (record h { parser = c; off = off }) m u'
      | true ↦
          let h' = consumed off c h in
          let rest = parse_all fuel h' b m u' in
          if ltb 0 (data_size h'.buffer) then rest else returned h' m u'
    ]
    | parse_error u' ↦ bad_request u'
    | out_of_bounds ↦ undefined
  ]

  -- The loop, with one step more than the buffer has unread bytes.
  unfoldable pub parse_buffer : Handler → Store → U → ReadResult U
  parse_buffer h m u = elim (m.block h.buffer.buffer) [
    | none ↦ refused dangling
    | some b ↦ parse_all (suc (data_size h.buffer)) h b m u
  ]

  -- From the result of read on.
  unfoldable pub on_read : Answer → Handler → Store → U → ReadResult U
  on_read (received bs) h m u = elim (fill bs h.buffer m) [
    | err e ↦ refused e
    | ok m' ↦ parse_buffer (record h { buffer = buffer_consumed (length bs) h.buffer }) m' u
  ]
  on_read end_of_file h m u = dropped connection_closed
  on_read interrupted h m u = returned h m u
  on_read failed h m u = dropped connection_broken

  -- `read_event`; `read` answers for the number of bytes that are asked for.
  unfoldable pub read_event : Allocator → (ℕ → Answer) → Handler → Store → U → ReadResult U
  read_event A read h m u =
      elim (reserve_buffer A reserve_size initial_allocation_size h.buffer m) [
        | err e ↦ refused e
        | ok (s, m') ↦ on_read (read (buffer_capacity s)) (record h { buffer = s }) m' u
      ]
