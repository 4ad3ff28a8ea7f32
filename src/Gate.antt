-- ===== src/Gate.antt =====
-- The handlers of the text protocol's requests: src/gate_memtext_retrieval.cc,
-- src/gate_memtext_storage.cc, src/gate_memtext_delete.cc and src/gate_memtext_impl.cc.
-- The client library is a parameter. A reply is the bytes handed to core::write, or the vectors
-- handed to core::writev; characters are their ASCII codes.
pub mod Handler
pub mod Decimal
pub mod Retrieval
pub mod Replies
mod Tests
use memxy.Prelude.{
  ℕ, zero, suc, ◌+◌, ◌*◌, ◌/◌, ◌%◌, ◌^◌, Bool, true, false, Option, none, some, List, [], ◌∷◌, ◌++◌,
  length, ltb, ◌==◌, if◌then◌else◌,
}
use memxy.Store.{Outcome, ok, err, dangling, bad_alloc, ◌>>=◌, Allocator}

-- `memcached_return`, the library's result codes: those that the source names, and the others.
pub data Return : Type 0 where
  success not_found end deleted not_stored client_error no_servers server_error : Return
  other : ℕ → Return

-- What `memcached_get` and `memcached_fetch` give back; `fetch` also overwrites the key.
pub record Fetched : Type 0 where
  pub key : List ℕ
  pub val : Option (List ℕ)
  pub flags : ℕ
  pub error : Return

-- The client library, over a state of its own.
pub record Client (S : Type 0) : Type 0 where
  pub get : List ℕ → S → Fetched × S
  pub mget : List (List ℕ) → S → Return × S
  pub fetch : List ℕ → S → Fetched × S
  pub set : List ℕ → List ℕ → ℕ → ℕ → S → Return × S
  pub delete : List ℕ → ℕ → S → Return × S

pub data Reply : Type 0 where
  text : List ℕ → Reply
  vectors : List (List ℕ) → Reply

-- "END\r\n"
abbrev pub end_text : List ℕ
end_text = 69 ∷ 78 ∷ 68 ∷ 13 ∷ 10 ∷ []

-- "\r\n"
abbrev pub line_end : List ℕ
line_end = 13 ∷ 10 ∷ []

-- "VALUE "
abbrev pub value_text : List ℕ
value_text = 86 ∷ 65 ∷ 76 ∷ 85 ∷ 69 ∷ 32 ∷ []

-- " 0\r\n", which `sprintf` makes of the cas value 0.
abbrev pub no_cas : List ℕ
no_cas = 32 ∷ 48 ∷ 13 ∷ 10 ∷ []

-- "NOT_STORED\r\n"
abbrev pub not_stored_text : List ℕ
not_stored_text = 78 ∷ 79 ∷ 84 ∷ 95 ∷ 83 ∷ 84 ∷ 79 ∷ 82 ∷ 69 ∷ 68 ∷ line_end

-- "DELETED\r\n"
abbrev pub deleted_text : List ℕ
deleted_text = 68 ∷ 69 ∷ 76 ∷ 69 ∷ 84 ∷ 69 ∷ 68 ∷ line_end

-- "NOT_FOUND\r\n"
abbrev pub not_found_text : List ℕ
not_found_text = 78 ∷ 79 ∷ 84 ∷ 95 ∷ 70 ∷ 79 ∷ 85 ∷ 78 ∷ 68 ∷ line_end

-- "STORED\r\n"
abbrev pub stored_text : List ℕ
stored_text = 83 ∷ 84 ∷ 79 ∷ 82 ∷ 69 ∷ 68 ∷ line_end

-- "CLIENT_ERROR\r\n"
abbrev pub client_error_text : List ℕ
client_error_text = 67 ∷ 76 ∷ 73 ∷ 69 ∷ 78 ∷ 84 ∷ 95 ∷ 69 ∷ 82 ∷ 82 ∷ 79 ∷ 82 ∷ line_end

-- "SERVER_ERROR"
abbrev pub server_error_word : List ℕ
server_error_word = 83 ∷ 69 ∷ 82 ∷ 86 ∷ 69 ∷ 82 ∷ 95 ∷ 69 ∷ 82 ∷ 82 ∷ 79 ∷ 82 ∷ []

-- " no server\r\n"
abbrev pub no_server_words : List ℕ
no_server_words = 32 ∷ 110 ∷ 111 ∷ 32 ∷ 115 ∷ 101 ∷ 114 ∷ 118 ∷ 101 ∷ 114 ∷ line_end

-- " unknown error\r\n"
abbrev pub unknown_words : List ℕ
unknown_words =
    32 ∷ 117 ∷ 110 ∷ 107 ∷ 110 ∷ 111 ∷ 119 ∷ 110 ∷ 32 ∷ 101 ∷ 114 ∷ 114 ∷ 111 ∷ 114 ∷ line_end

-- `send_error`
pub send_error : Return → List ℕ
send_error not_stored = not_stored_text
send_error deleted = deleted_text
send_error not_found = not_found_text
send_error client_error = client_error_text
send_error no_servers = server_error_word ++ no_server_words
send_error server_error = server_error_word ++ line_end
send_error success = server_error_word ++ unknown_words
send_error end = server_error_word ++ unknown_words
send_error (other n) = server_error_word ++ unknown_words

-- The tests `if(err)` and the comparisons with result codes.
pub failed : Return → Bool
failed success = false
failed e = true

-- The decimal digits that `sprintf` prints, with fuel for as many digits as the type has.
pub digits : ℕ → ℕ → List ℕ
digits zero n = []
digits (suc f) n =
    let rest = digits f (n / 10) in if ltb n 10 then (48 + n) ∷ [] else rest ++ ((48 + n % 10) ∷ [])

-- %PRIu32 and %lu
pub print_u32 : ℕ → List ℕ
print_u32 n = digits 10 (n % 2 ^ 32)

pub print_size : ℕ → List ℕ
print_size n = digits 20 (n % 2 ^ 64)

-- HEADER_SIZE(keylen)
abbrev pub header_max : ℕ → ℕ
header_max keylen = 6 + keylen + 1 + 10 + 1 + 10 + 1 + 20 + 3

-- What follows the key in a header, up to the end of the line.
pub header_end : Bool → ℕ → ℕ → List ℕ
header_end require_cas flags vallen =
    (32 ∷ print_u32 flags)
    ++ ((32 ∷ print_size vallen) ++ (if require_cas then no_cas else line_end))

-- An element of the array `multi`, beside the key at the same index.
pub record Slot : Type 0 where
  pub key : List ℕ
  pub val : Option (List ℕ)
  pub flags : ℕ

abbrev pub empty_slot : List ℕ → Slot
empty_slot k = record { key = k; val = none; flags = 0 }

abbrev pub to_slot : Fetched → Slot
to_slot f = record { key = f.key; val = f.val; flags = f.flags }

-- What the loop over `memcached_fetch` leaves: the array and the two sums, or the error that it sent,
-- or nothing defined, behind a key that was written over the bytes behind its place.
pub data Gathered (S : Type 0) : Type 0 where
  gathered : List Slot → ℕ → ℕ → S → Gathered S
  stopped : Return → S → Gathered S
  overran : Gathered S

pub prepend : {S : Type 0} → Slot → ℕ → ℕ → Gathered S → Gathered S
prepend s n l (gathered ss found total s') = gathered (s ∷ ss) (n + found) (l + total) s'
prepend s n l (stopped e s') = stopped e s'
prepend s n l overran = overran

abbrev pub is_some {ℓ} : {A : Type ℓ} → Option A → Bool
is_some none = false
is_some (some a) = true

pub map_keys : List (List ℕ) → List Slot
map_keys [] = []
map_keys (k ∷ ks) = empty_slot k ∷ map_keys ks

-- The body of the loop for one key, by the error of the fetch; `rest` is the loop for the others.
pub on_fetched : {S : Type 0} → Return → Fetched → S → List (List ℕ) → Gathered S → Gathered S
on_fetched success f s ks rest =
    if is_some f.val
    then prepend (to_slot f) 1 (length f.key) rest
    else prepend (to_slot f) 0 0 rest
on_fetched not_found f s ks rest = prepend (to_slot f) 0 0 rest
on_fetched end f s ks rest = gathered (to_slot f ∷ map_keys ks) 0 0 s
on_fetched e f s ks rest = stopped e s

-- The loop over `memcached_fetch`, which writes the key that it gives back where the request has the
-- key asked for: a longer one goes over the bytes behind, where the next key is.
pub fetch_all : {S : Type 0} → Client S → List (List ℕ) → S → Gathered S
fetch_all c [] s = gathered [] 0 0 s
fetch_all c (k ∷ ks) s =
    let (f, s') = c.fetch k s in
    let rest = fetch_all c ks s' in
    if ltb (length k) (length f.key) then overran else on_fetched f.error f s' ks rest

-- The loop that looks for the first value.
pub skip_null : List Slot → List Slot
skip_null [] = []
skip_null (s ∷ ss) = let rest = skip_null ss in if is_some s.val then s ∷ ss else rest

-- The vectors of one value: its header, written behind `prefix`, and the value.
pub value_vectors : Bool → List ℕ → Slot → List ℕ → List (List ℕ) → List (List ℕ)
value_vectors require_cas prefix s v rest =
    (prefix ++ (s.key ++ header_end require_cas s.flags (length v))) ∷ v ∷ rest

-- The loop over the values behind the first, and the vector behind it.
pub more_vectors : Bool → List Slot → List (List ℕ)
more_vectors require_cas [] = (line_end ++ end_text) ∷ []
more_vectors require_cas (s ∷ ss) =
    let rest = more_vectors require_cas ss in
    elim s.val [
      | none ↦ rest
      | some v ↦ value_vectors require_cas (line_end ++ value_text) s v rest
    ]

-- The vectors that are written, from the first value on; without one the source would read behind
-- its array.
pub reply_vectors : Bool → List Slot → Outcome (List (List ℕ))
reply_vectors require_cas [] = err dangling
reply_vectors require_cas (s ∷ ss) = elim s.val [
  | none ↦ err dangling
  | some v ↦ ok (value_vectors require_cas value_text s v (more_vectors require_cas ss))
]

module _ {S : Type 0} (A : Allocator) (c : Client S) where
  -- `request_get_single`, behind the test of the error.
  pub on_get : Bool → Fetched → List ℕ → Outcome Reply
  on_get require_cas f key = elim f.val [
    | none ↦ ok (text end_text)
    | some v ↦
        if A.grants (header_max (length key))
        then ok (
            vectors (
              (value_text ++ (key ++ header_end require_cas f.flags (length v)))
              ∷ v
              ∷ (line_end ++ end_text)
              ∷ []))
        else err bad_alloc
  ]

  pub on_get_error : Return → Bool → Fetched → List ℕ → Outcome Reply
  on_get_error success require_cas f key = on_get require_cas f key
  on_get_error not_found require_cas f key = on_get require_cas f key
  on_get_error e require_cas f key = ok (text (send_error e))

  -- `request_get_single`
  pub request_get_single : List ℕ → Bool → S → Outcome (Reply × S)
  request_get_single key require_cas s =
      let (f, s') = c.get key s in do r ← on_get_error f.error require_cas f key; ok (r, s')

  -- `request_get_multi`, behind the loop over `memcached_fetch`: `key_num` elements of the array are
  -- carried to a new allocation with room for the headers.
  pub on_gathered : ℕ → Bool → Gathered S → Outcome (Reply × S)
  on_gathered key_num require_cas (stopped e s) = ok (text (send_error e), s)
  on_gathered key_num require_cas overran = err dangling
  on_gathered key_num require_cas (gathered slots found total s) =
      if found == 0
      then ok (text end_text, s)
      else if A.grants (8 * key_num + (found * header_max 0 + total))
      then (do vs ← reply_vectors require_cas (skip_null slots); ok (vectors vs, s))
      else err bad_alloc

  -- `request_get_multi`
  pub request_get_multi : List (List ℕ) → Bool → S → Outcome (Reply × S)
  request_get_multi keys require_cas s =
      if ltb 1024 (length keys)
      then ok (text (send_error client_error), s)
      else (let (e, s') = c.mget keys s in
          if failed e
          then ok (text (send_error e), s')
          else on_gathered (length keys) require_cas (fetch_all c keys s'))

  -- `request_get` and `request_gets`, which differ in the last argument.
  pub request_get : List (List ℕ) → Bool → S → Outcome (Reply × S)
  request_get (k ∷ []) require_cas s = request_get_single k require_cas s
  request_get keys require_cas s = request_get_multi keys require_cas s

-- The reply to a change: nothing on noreply, the error's text, or `done`.
abbrev pub change_reply : Bool → List ℕ → Return → Option Reply
change_reply noreply done e =
    if noreply then none else if failed e then some (text (send_error e)) else some (text done)

-- `request_set`
pub request_set : {S : Type 0} → Client S → List ℕ → List ℕ → ℕ → ℕ → Bool → S → Option Reply × S
request_set c key value exptime flags noreply s =
    let (e, s') = c.set key value exptime flags s in (change_reply noreply stored_text e, s')

-- `request_delete`
pub request_delete : {S : Type 0} → Client S → List ℕ → ℕ → Bool → S → Option Reply × S
request_delete c key exptime noreply s =
    let (e, s') = c.delete key exptime s in (change_reply noreply deleted_text e, s')
