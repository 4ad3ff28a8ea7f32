-- ===== src/Gate/Replies.antt =====
-- The requests of src/gate_memtext_retrieval.cc and src/gate_memtext_storage.cc as a whole: what is
-- replied for what the client library returned.
use memxy.Prelude.{
  ℕ, ◌+◌, ◌*◌, ◌≤◌, ◌≡◌, refl, ap, sym, ◌∙◌, Bool, true, false, none, some, List, [], ◌∷◌, ◌++◌,
  append_assoc, length, arith,
}
use memxy.Store.{Outcome, ok, err, bad_alloc, Allocator}
use memxy.Gate.{
  header_end, value_text, line_end, success, Client, Reply, text, vectors, Gathered, gathered,
  stopped, overran, request_get_single, on_get, on_get_error, request_get, request_set, send_error,
  failed, end_text, header_max,
}
use memxy.Gate.Retrieval.{
  header_fits, header_line, header_bytes, render, concat, count_values, total_keylen, IsReply,
}

module _ {S : Type 0} where
  -- The library's documentation: `memcached_fetch` returns no value with an error.
  abbrev pub IsDocumented : Client S → Type 0
  IsDocumented c =
      (k : List ℕ) (s : S) → failed (c.fetch k s).0.error ≡ true → (c.fetch k s).0.val ≡ none

  -- No key that is fetched is longer than the key at whose place it is written.
  abbrev pub FetchesInPlace : Client S → Type 0
  FetchesInPlace c = (k : List ℕ) (s : S) → length (c.fetch k s).0.key ≤ length k

  -- In the state `s` a get of the key finds this value with these flags.
  abbrev pub Holds : Client S → List ℕ → List ℕ → ℕ → S → Type 0
  Holds c key value flags s =
      ((c.get key s).0.error ≡ success)
      × ((c.get key s).0.val ≡ some value)
      × ((c.get key s).0.flags ≡ flags)

  -- The sums are those of the array.
  abbrev pub IsTallied : Gathered S → Type 0
  IsTallied (gathered ss found total s) = (found ≡ count_values ss) × (total ≡ total_keylen ss)
  IsTallied (stopped e s) = failed e ≡ true
  IsTallied overran = ⊥

module _ {S : Type 0} (A : Allocator) (c : Client S) where
  -- What `request_get_multi` replies for what the client library fetched.
  abbrev pub Answers : ℕ → Bool → Gathered S → Outcome (Reply × S) → Type 0
  Answers key_num require_cas (stopped e s) r = r ≡ ok (text (send_error e), s)
  Answers key_num require_cas overran r = ⊥
  Answers key_num require_cas (gathered ss found total s) (ok (text t, s')) =
      (t ≡ render require_cas ss) × (s' ≡ s)
  Answers key_num require_cas (gathered ss found total s) (ok (vectors vs, s')) =
      IsReply require_cas ss vs × (s' ≡ s)
  Answers key_num require_cas (gathered ss found total s) (err e) =
      (e ≡ bad_alloc)
      × (A.grants (8 * key_num + (count_values ss * header_max 0 + total_keylen ss)) ≡ false)

  -- A single key that was found: the protocol's reply in three vectors, when the allocator grants the
  -- header.
  pub request_get_single-found :
      (key v : List ℕ) (require_cas : Bool) (s : S)
      → A.grants (header_max (length key)) ≡ true
      → (c.get key s).0.error ≡ success
      → (c.get key s).0.val ≡ some v
      → (vs : List (List ℕ)) × (request_get_single A c key require_cas s
          ≡ ok (vectors vs, (c.get key s).1))
        × IsReply require_cas
            (record { key = key; val = some v; flags = (c.get key s).0.flags } ∷ [])
            vs
  unfolding request_get_single on_get on_get_error render concat count_values total_keylen
      header_bytes
  request_get_single-found key v require_cas s granted found value =
      rw (found, value, granted)
        (
          (value_text ++ (key ++ header_end require_cas (c.get key s).0.flags (length v)))
              ∷ v
              ∷ (line_end ++ end_text)
              ∷ [],
          refl,
          (
            ap (λ r. value_text ++ r)
                  (append_assoc key (header_end require_cas (c.get key s).0.flags (length v))
                    (v ++ (line_end ++ end_text)))
                ∙ header_line require_cas key (c.get key s).0.flags (length v)
                    (v ++ (line_end ++ end_text)),
            refl,
            omega (
              arith,
              header_fits require_cas key value_text (c.get key s).0.flags (length v) (omega arith),
            ),
          ),
        )

  -- When the client library still holds what a set stored, a get or gets behind it replies with the
  -- value and flags of the set, when the allocator grants the header.
  pub request_get-request_set :
      (key value : List ℕ) (exptime flags : ℕ) (noreply require_cas : Bool) (s : S)
      → Holds c key value flags (c.set key value exptime flags s).1
      → A.grants (header_max (length key)) ≡ true
      → let s' = (request_set c key value exptime flags noreply s).1 in
        (vs : List (List ℕ)) × (request_get A c (key ∷ []) require_cas s'
          ≡ ok (vectors vs, (c.get key s').1))
        × (concat vs
            ≡ render require_cas (record { key = key; val = some value; flags = flags } ∷ []))
  unfolding request_get request_set
  request_get-request_set key value exptime flags noreply require_cas s (found, read, same)
        granted =
      let s' = (c.set key value exptime flags s).1 in
      let (vs, replied, (reply, _, _)) =
        request_get_single-found key value require_cas s' granted found read in
      (vs, replied, rw (sym same) reply)
