-- ===== src/Gate/Handler/Service.antt =====
-- The handler of src/gate_memtext.cc with the requests of src/gate_memtext_retrieval.cc,
-- src/gate_memtext_storage.cc and src/gate_memtext_delete.cc as its callbacks.
use memxy.Prelude.{
  ℕ, ◌+◌, ◌^◌, ◌≤◌, ◌<◌, ◌%◌, ◌≡◌, refl, sym, ap, subst, ◌∙◌, inl, inr, Bool, true, false, Option,
  none, some, List, [], ◌∷◌, ◌++◌, length, All, arith,
}
use memxy.Store.{Block, Store, Allocator, Outcome, ok, err, Error, bad_alloc}
use memxy.StreamBuffer.{contents}
use memxy.Memtext.{
  cmd_get, cmd_set, done, Parser, Request, retrieval_request, storage_request, cas_request,
  delete_request, numeric_request,
}
use memxy.Memtext.Machine.{Callbacks, executed}
use memxy.Memtext.Chunks.{Overruns}
use memxy.Memtext.Pieces.{Ready}
use memxy.Memtext.StorageTexts.{Storage, IsStorage, requested}
use memxy.Memtext.Lines.{
  Line, storage_line, retrieval_line, IsLine, lines_text, AcceptsAll, accepts_none, accepts_next,
  execute-lines,
}
use memxy.Control.{Answer, received}
use memxy.Gate.{
  Client, Reply, vectors, success, header_max, stored_text, change_reply, request_get, request_set,
  request_delete,
}
use memxy.Gate.Retrieval.{render, concat}
use memxy.Gate.Replies.{Holds, request_get-request_set}
use memxy.Gate.Handler.{
  Handler, table, ReadResult, returned, dropped, bad_request, undefined, refused, reserve_size,
  read_event,
}
use memxy.Gate.Handler.Events.{Waits, Follows, Reads, IsAnswer, Leaves, read_event-Waits}

-- The state of the client library and the replies so far, or the exception that a request threw, at
-- which the machine stops as at a negative result.
pub data Served (S : Type 0) : Type 0 where
  serving : S → List Reply → Served S
  threw : Error → List Reply → Served S

abbrev pub with_reply : List Reply → Option Reply → List Reply
with_reply out none = out
with_reply out (some r) = out ++ (r ∷ [])

module _ {S : Type 0} (A : Allocator) (cl : Client S) where
  unfoldable pub replied : List Reply → Outcome (Reply × S) → Bool × Served S
  replied out (ok (r, s)) = (true, serving s (out ++ (r ∷ [])))
  replied out (err e) = (false, threw e out)

  unfoldable pub changed : List Reply → Option Reply × S → Bool × Served S
  changed out (r, s) = (true, serving s (with_reply out r))

  -- The functions of the table; each gets requests of its own kind only.
  unfoldable pub reply_to : Bool → Request → Served S → Bool × Served S
  reply_to require_cas r (threw e out) = (false, threw e out)
  reply_to require_cas (retrieval_request keys) (serving s out) =
      replied out (request_get A cl keys require_cas s)
  reply_to require_cas (storage_request key value flags exptime noreply) (serving s out) =
      changed out (request_set cl key value exptime flags noreply s)
  reply_to require_cas (delete_request key exptime noreply) (serving s out) =
      changed out (request_delete cl key exptime noreply s)
  reply_to require_cas (cas_request key value flags exptime noreply cas) (serving s out) =
      (false, serving s out)
  reply_to require_cas (numeric_request key value noreply) (serving s out) = (false, serving s out)

  -- The handler's table.
  unfoldable pub callbacks : Callbacks (Served S)
  callbacks = table (reply_to false) (reply_to true) (reply_to false) (reply_to false)

module _ {U : Type 0} (cb : Callbacks U) where
  -- The event served the bytes: it returns with this state, all bytes dropped, where a command may
  -- begin; or no block was granted for them.
  abbrev pub Serves : U → ReadResult U → Type 0
  Serves u (returned h m u') =
      (b : Block) × Waits h m b × (contents h.buffer b ≡ []) × (h.parser.cs ≡ done) × (u' ≡ u)
  Serves u (refused e) = e ≡ bad_alloc
  Serves u r = ⊥

  Follows-Serves :
      (V : Type 0) (d : List ℕ) (off : ℕ) (c : Parser) (u : U) (r : ReadResult U)
      → Follows cb V d (executed true off (record c { cs = done }) u) r
      → Serves u r
  Follows-Serves V d off c u (returned h m u') ((b, w, none_left, same), e) =
      (b, w, none_left, ap (λ x. x.cs) same, e)
  Follows-Serves V d off c u (dropped e) k = absurd k
  Follows-Serves V d off c u (bad_request u') k = absurd k
  Follows-Serves V d off c u undefined k = absurd k
  Follows-Serves V d off c u (refused e) k = absurd k

  -- When a handler waits where a command may begin, with nothing unread and room in size_t, and read
  -- has storage and retrieval commands, at least one, and nothing else: when the callbacks accept the
  -- requests of the commands one after another, read_event makes these calls of them and returns, all
  -- bytes dropped, where a command may begin; or it throws bad_alloc.
  pub read_event-lines :
      (A : Allocator) (read : ℕ → Answer) (h : Handler) (m : Store) (b : Block) (u u' : U)
      (l : Line) (ls : List Line)
      → Waits h m b
      → contents h.buffer b ≡ []
      → Ready h.parser.cs
      → h.buffer.used + reserve_size ≤ 2 ^ 63
      → ((n : ℕ) → IsAnswer cb n (read n))
      → ((n : ℕ) → reserve_size ≤ n → read n ≡ received (lines_text (l ∷ ls)))
      → All IsLine (l ∷ ls)
      → length (lines_text (l ∷ ls)) < 2 ^ 32
      → AcceptsAll cb (lines_text (l ∷ ls)) (l ∷ ls) u u'
      → Serves u' (read_event cb A read h m u)
  read_event-lines A read h m b u u' l ls w empty r room fits came vs small acc =
      let d = lines_text (l ∷ ls) in
      let at_zero : h.off ≡ 0 = w.read_all ∙ ap length empty in
      let (c', runs) = execute-lines cb l ls h.parser u u' vs r small acc in
      elim (read_event-Waits cb A read h m b u w room fits) [
        | inl (n, k, leaves) ↦ Follows-Serves (Overruns cb d 0 h.parser u) d (length d) c' u' _ (
            subst (λ x. Follows cb (Overruns cb d 0 h.parser u) d x (read_event cb A read h m u))
              runs
              (subst (λ o. Reads cb d o h.parser u (read_event cb A read h m u)) at_zero
                (subst (λ xs. Reads cb (xs ++ d) h.off h.parser u (read_event cb A read h m u))
                  empty
                  (subst
                    (λ a.
                      Leaves cb (contents h.buffer b) h.off h.parser u a
                        (read_event cb A read h m u))
                    (came n k) leaves))))
        | inr (bad, room) ↦ subst (Serves u') (sym bad) refl
      ]

module _ {S : Type 0} (A : Allocator) (cl : Client S) where
  -- A successful set, and a get of its key.
  abbrev pub set_get : Storage → List Line
  set_get x = storage_line x ∷ (retrieval_line cmd_get x.key [] ∷ [])

  -- The replies of a successful set, behind `out`.
  abbrev pub set_replies : List Reply → Storage → List Reply
  set_replies out x = with_reply out (change_reply x.noreply stored_text success)

  set_get-AcceptsAll :
      (d : List ℕ) (x : Storage) (s : S) (out : List Reply)
      → x.command ≡ cmd_set
      → A.grants (header_max (length x.key)) ≡ true
      → (cl.set x.key x.data_bytes x.exptime (x.flags % 2 ^ 16) s).0 ≡ success
      → Holds cl x.key x.data_bytes
          (x.flags % 2 ^ 16)
          (cl.set x.key x.data_bytes x.exptime (x.flags % 2 ^ 16) s).1
      → (vs : List (List ℕ)) × (s' : S) × AcceptsAll
          (callbacks A cl)
          d
          (set_get x)
          (serving s out)
          (serving s' (set_replies out x ++ (vectors vs ∷ [])))
        × (concat vs
            ≡ render false
                (record { key = x.key; val = some x.data_bytes; flags = x.flags % 2 ^ 16 } ∷ []))
  unfolding callbacks table reply_to changed replied request_set
  set_get-AcceptsAll d x s out is_set granted stored held =
      let flags = x.flags % 2 ^ 16 in
      let s1 = (request_set cl x.key x.data_bytes x.exptime flags x.noreply s).1 in
      let (vs, found, same) =
        request_get-request_set A cl x.key x.data_bytes x.exptime flags x.noreply false s held
          granted in
      let set_accepted : reply_to A cl false (requested x) (serving s out)
          ≡ (true, serving s1 (set_replies out x)) =
        ap (λ e. (true, serving s1 (with_reply out (change_reply x.noreply stored_text e))))
          stored in
      let get_accepted : reply_to A cl false (retrieval_request (x.key ∷ []))
            (serving s1 (set_replies out x))
          ≡ (true, serving (cl.get x.key s1).1 (set_replies out x ++ (vectors vs ∷ []))) =
        ap (replied A cl (set_replies out x)) found in
      (
        vs,
        (cl.get x.key s1).1,
        accepts_next (reply_to A cl false, ap (callbacks A cl) is_set, set_accepted)
            (accepts_next (reply_to A cl false, refl, get_accepted) accepts_none),
        same,
      )

  -- When a handler waits where a command may begin, with nothing unread and room in its buffer's
  -- size up to 2^63, the allocator grants the header, and read has, for every size it is asked for
  -- from the reserve size on, in fewer than 2^32 bytes a set, of a data block that is not empty,
  -- with flags below 2^64 and an expiration below 2^32, which the client library accepts and whose
  -- value and low 16 bits of flags it still finds behind it, and a get of the same key: read_event
  -- replies STORED, unless the set has noreply, and then the protocol's line and the data block of
  -- the set, with the low 16 bits of its flags, and END; and it returns, all bytes dropped, where a
  -- command may begin; or it throws bad_alloc.
  pub read_event-set_get :
      (read : ℕ → Answer) (h : Handler) (m : Store) (b : Block) (x : Storage) (s : S)
      (out : List Reply)
      → Waits h m b
      → contents h.buffer b ≡ []
      → Ready h.parser.cs
      → h.buffer.used + reserve_size ≤ 2 ^ 63
      → ((n : ℕ) → IsAnswer (callbacks A cl) n (read n))
      → ((n : ℕ) → reserve_size ≤ n → read n ≡ received (lines_text (set_get x)))
      → IsStorage x
      → x.command ≡ cmd_set
      → length (lines_text (set_get x)) < 2 ^ 32
      → A.grants (header_max (length x.key)) ≡ true
      → (cl.set x.key x.data_bytes x.exptime (x.flags % 2 ^ 16) s).0 ≡ success
      → Holds cl x.key x.data_bytes
          (x.flags % 2 ^ 16)
          (cl.set x.key x.data_bytes x.exptime (x.flags % 2 ^ 16) s).1
      → (vs : List (List ℕ)) × (s' : S) × Serves
          (callbacks A cl)
          (serving s' (set_replies out x ++ (vectors vs ∷ [])))
          (read_event (callbacks A cl) A read h m (serving s out))
        × (concat vs
            ≡ render false
                (record { key = x.key; val = some x.data_bytes; flags = x.flags % 2 ^ 16 } ∷ []))
  read_event-set_get read h m b x s out w empty r room fits came v is_set small granted stored
        held =
      let (vs, s', acc, same) =
        set_get-AcceptsAll (lines_text (set_get x)) x s out is_set granted stored held in
      (
        vs,
        s',
        read_event-lines (callbacks A cl) A read h m b (serving s out) _ (storage_line x)
            (retrieval_line cmd_get x.key [] ∷ []) w empty r room fits came
            (v, ((refl, v.is_key, tt, omega arith), tt)) small acc,
        same,
      )
