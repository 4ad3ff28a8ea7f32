-- ===== src/Memproto/RoundTrip.antt =====
-- A request that was written by the protocol's rules comes back from `memproto_parser_execute` and
-- `memproto_dispatch` as it was.
use memxy.Prelude.{ℕ, ◌+◌, ◌≡◌, List, length, take, drop}
use memxy.Memproto.{Header, header_size, read_header, lengths}
use memxy.Memproto.Packet.{Body, Fits, extras, key_of, val_of}

abbrev pub FitsBody : Header → Body → Type 0
FitsBody h b = Fits h (extras b) (key_of b) (val_of b)

-- What the parser reads of an encoded request.
record Decoded (h : Header) (b : Body) (d : List ℕ) : Type 0 where
  header : read_header d ≡ h
  lens : lengths d ≡ record {
    keylen = length (key_of b);
    extralen = length (extras b);
    vallen = length (val_of b);
  }
  key : take (length (key_of b)) (drop (header_size + length (extras b)) d) ≡ key_of b
  val :
      take (length (val_of b)) (drop (header_size + length (extras b) + length (key_of b)) d)
      ≡ val_of b
