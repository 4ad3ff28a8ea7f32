-- ===== src/Memtext/Keys.antt =====
-- The keys of a retrieval command of src/memproto/memtext.rl: up to 256 of them reach the callback, and
-- one more is written behind the array.
use memxy.Prelude.{
  ℕ, ◌+◌, ◌-◌, ◌≤◌, ◌<◌, ◌≡◌, refl, sym, ap, subst, ◌∙◌, inl, inr, Bool, true, false, Bool-cases,
  Option, none, some, List, [], ◌∷◌, ◌++◌, append_assoc, append-nil, length, drop, All, ltb,
  if◌then◌else◌, put, arith,
}
use memxy.Memtext.{
  Command, retrieval, State, done, next_key_first, in_key, key_first, line_end, Parser, Request,
  retrieval_request, reset, slice, mark_key, set_key, keys_from, request,
}
use memxy.Memtext.Machine.{
  Callbacks, Step, next, refused, undefined, parse_error, out_of_bounds, class, after_key,
  key_may_end, goto, call, finish, newline, marked, incr_key, step_in, run,
}
use memxy.Memtext.Pieces.{Ready, moved, run-next, run-call, run-name, run-key, key_rest}
use memxy.Memtext.Texts.{name, IsKey, slice-drop, drop-past}
use memxy.Memtext.RoundTrip.{Accepts}
use memxy.Memtext.StorageTexts.{drop_space}
use memxy.Memtext.KeyTexts.{keys_text, keys_from-same, ends_at, with_key, ends_at-with_key}

module _ {U : Type 0} (cb : Callbacks U) (d : List ℕ) where
  finish-retrieval :
      (c : Parser) (u u' : U)
      → Accepts cb d c.command (request d retrieval c) u u'
      → (c' : Parser) × (finish cb d retrieval c u ≡ next (record c' { cs = done }) u')
  unfolding finish call
  finish-retrieval c u u' (f, table, accepted) =
      let c1 : Parser = record c { keys = c.keys + 1 } in
      let r = request d retrieval c in
      (
        c1,
        ap
              (λ (o : Option (Request → U → Bool × U)). elim o [
                | none ↦ refused u
                | some g ↦ let (ok, v) = g r u in if ok then goto cb done c1 v else refused v
              ])
              table
            ∙ ap (λ (x : Bool × U). if x.0 then goto cb done c1 x.1 else refused x.1) accepted,
      )

  -- One key more, while there is room for it.
  next_key :
      (q : ℕ) (c : Parser) (u : U)
      → c.keys + 1 < 256
      → incr_key cb q c u
        ≡ next
            (record c {
              cs = in_key retrieval;
              keys = c.keys + 1;
              key_pos = put c.key_pos (c.keys + 1) q;
            })
            u
  unfolding incr_key marked mark_key
  next_key q c u room =
      let fits : ltb 256 (c.keys + 1) ≡ false = ground arith in
      let inside : ltb (c.keys + 1) 256 ≡ true = ground arith in rw (fits, inside) refl

  run-keys :
      (keys seen : List (List ℕ)) (p : ℕ) (rest : List ℕ) (c : Parser) (u u' : U)
      → c.keys + length keys < 256
      → All IsKey keys
      → drop p d ≡ keys_text keys rest
      → ends_at d p c ≡ seen
      → Accepts cb d c.command (retrieval_request (seen ++ keys)) u u'
      → (q : ℕ) × (c' : Parser) × (drop q d ≡ rest)
        × (run cb d p (keys_text keys rest) (record c { cs = in_key retrieval }) u
            ≡ run cb d q rest (record c' { cs = done }) u')
  unfolding step_in after_key key_may_end set_key newline request
  run-keys [] seen p rest c u u' few ks at held acc =
      let c1 : Parser = set_key p c in
      let all : seen ++ [] ≡ keys_from d (record c1 { cs = line_end retrieval }) 0 (c.keys + 1) =
        append-nil seen
        ∙ sym (
            keys_from-same d c1 (record c1 { cs = line_end retrieval }) 0 (c.keys + 1)
              (λ k lt. (refl, refl))
            ∙ held) in
      let (c2, ends) =
        finish-retrieval (record c1 { cs = line_end retrieval }) u u'
          (subst (λ ks. Accepts cb d c.command (retrieval_request ks) u u') all acc) in
      (
        p + 1 + 1,
        c2,
        drop-past d (b'\n' ∷ []) rest (p + 1) (drop-past d (b'\r' ∷ []) (b'\n' ∷ rest) p at),
        run-next cb d (in_key retrieval) p b'\r' (b'\n' ∷ rest) c
              (record c1 { cs = line_end retrieval }) u refl
            ∙ run-call cb d (line_end retrieval) (p + 1) b'\n' rest c1 (record c2 { cs = done }) u
                u' ends,
      )
  run-keys ([] ∷ keys) seen p rest c u u' few ((ne, k), ks) at held acc = absurd (ne refl)
  run-keys ((b ∷ bs) ∷ keys) seen p rest c u u' few ((ne, (k, kk)), ks) at held acc =
      let key = b ∷ bs in
      let q = p + 1 in
      let at1 = drop-past d (b' ' ∷ []) (key ++ keys_text keys rest) p at in
      let at2 = drop-past d key (keys_text keys rest) q at1 in
      let held' : ends_at d (q + length key) (with_key p q c) ≡ seen ++ (key ∷ []) =
        ends_at-with_key d key (keys_text keys rest) p q c at1 ∙ ap (λ xs. xs ++ (key ∷ [])) held in
      let (q', c', here, runs) =
        run-keys keys (seen ++ (key ∷ [])) (q + length key) rest (with_key p q c) u u' (omega arith)
          ks at2 held'
          (subst (λ ks. Accepts cb d c.command (retrieval_request ks) u u')
            (sym (append_assoc seen (key ∷ []) keys)) acc) in
      (
        q',
        c',
        here,
        run-next cb d (in_key retrieval) p b' ' (key ++ keys_text keys rest) c
              (record (set_key p c) { cs = next_key_first }) u refl
            ∙ run-next cb d next_key_first q b (bs ++ keys_text keys rest) (set_key p c)
                (record (with_key p q c) { cs = in_key retrieval }) u
                (rw (k) (next_key q (record (set_key p c) { cs = next_key_first }) u (omega arith)))
            ∙ key_rest cb d retrieval (q + 1) bs (keys_text keys rest) (with_key p q c) u kk
            ∙ moved cb d (q + 1 + length bs) (q + length key) (keys_text keys rest) _ u
                (omega arith)
            ∙ runs,
      )

  -- The key behind the 256th is written out of bounds.
  last_key : (q : ℕ) (c : Parser) (u : U) → c.keys ≡ 255 → incr_key cb q c u ≡ undefined
  unfolding incr_key marked mark_key
  last_key q c u full =
      let fits : ltb 256 (c.keys + 1) ≡ false = ground arith in
      let outside : ltb (c.keys + 1) 256 ≡ false = ground arith in rw (fits, outside) refl

  stops_undefined :
      (st : State) (p b : ℕ) (bs : List ℕ) (c : Parser) (u : U)
      → step_in cb st d p b (record c { cs = st }) u ≡ undefined
      → run cb d p (b ∷ bs) (record c { cs = st }) u ≡ out_of_bounds
  unfolding run
  stops_undefined st p b bs c u e =
      ap
        (λ (s : Step U). elim s [
          | next c' u' ↦ run cb d (p + 1) bs c' u'
          | refused u' ↦ parse_error u'
          | undefined ↦ out_of_bounds
        ])
        e

  keys_overflow :
      (keys : List (List ℕ)) (p : ℕ) (rest : List ℕ) (c : Parser) (u : U)
      → c.keys < 256
      → 256 ≤ c.keys + length keys
      → All IsKey keys
      → run cb d p (keys_text keys rest) (record c { cs = in_key retrieval }) u ≡ out_of_bounds
  unfolding step_in after_key set_key
  keys_overflow [] p rest c u few many ks = absurd (omega arith)
  keys_overflow ([] ∷ keys) p rest c u few many ((ne, k), ks) = absurd (ne refl)
  keys_overflow ((b ∷ bs) ∷ keys) p rest c u few many ((ne, (k, kk)), ks) =
      let q = p + 1 in
      run-next cb d (in_key retrieval) p b' ' ((b ∷ bs) ++ keys_text keys rest) c
        (record (set_key p c) { cs = next_key_first }) u refl
      ∙ elim (Bool-cases (ltb (c.keys + 1) 256)) [
        | inl room ↦
            run-next cb d next_key_first q b (bs ++ keys_text keys rest) (set_key p c)
              (record (with_key p q c) { cs = in_key retrieval }) u
              (rw (k) (next_key q (record (set_key p c) { cs = next_key_first }) u (ground arith)))
            ∙ key_rest cb d retrieval (q + 1) bs (keys_text keys rest) (with_key p q c) u kk
            ∙ keys_overflow keys (q + 1 + length bs) rest (with_key p q c) u (ground arith)
                (omega arith) ks
        | inr full ↦
            stops_undefined next_key_first q b (bs ++ keys_text keys rest) (set_key p c) u
              (rw (k) (last_key q (record (set_key p c) { cs = next_key_first }) u (ground arith)))
      ]

  -- The name of the command and the first key.
  run-first :
      (command : Command) {st : State} (p : ℕ) (key rest : List ℕ) (c : Parser) (u : U)
      → class command ≡ retrieval
      → Ready st
      → IsKey key
      → let q = p + (length (name command) + 1) in
        let c1 : Parser = record (reset c) { command = command } in
        run cb d p (name command ++ (b' ' ∷ (key ++ rest))) (record c { cs = st }) u
        ≡ run cb d
            (q + length key)
            rest
            (record c1 { cs = in_key retrieval; key_pos = put c1.key_pos 0 q })
            u
  unfolding reset
  run-first command p key rest c u e r k =
      let q = p + (length (name command) + 1) in
      run-name cb d command p (key ++ rest) c u r
      ∙ ap
          (λ x.
            run cb d q (key ++ rest) (record (reset c) { command = command; cs = key_first x }) u)
          e
      ∙ run-key cb d retrieval q key rest (record (reset c) { command = command }) u k (omega arith)

  -- A get or gets of up to 256 keys, where a command may begin: when the callback accepts the request
  -- for these keys, the machine calls it with that request, goes on behind the command, and may begin
  -- another.
  pub run-retrieval :
      (command : Command) {st : State} (p : ℕ) (key : List ℕ) (keys : List (List ℕ)) (rest : List ℕ)
      (c : Parser) (u u' : U)
      → class command ≡ retrieval
      → Ready st
      → IsKey key
      → All IsKey keys
      → length keys < 256
      → drop p d ≡ name command ++ (b' ' ∷ (key ++ keys_text keys rest))
      → Accepts cb d command (retrieval_request (key ∷ keys)) u u'
      → (q : ℕ) × (c' : Parser) × (drop q d ≡ rest)
        × (run cb d p
              (name command ++ (b' ' ∷ (key ++ keys_text keys rest)))
              (record c { cs = st })
              u
            ≡ run cb d q rest (record c' { cs = done }) u')
  unfolding reset set_key keys_from
  run-retrieval command p key keys rest c u u' e r k ks few at acc =
      let q = p + (length (name command) + 1) in
      let c0 : Parser = record (reset c) { command = command } in
      let c1 : Parser = record c0 { key_pos = put c0.key_pos 0 q } in
      let at1 : drop q d ≡ key ++ keys_text keys rest =
        ap (λ i. drop i d) (omega arith)
        ∙ drop_space d (name command) (key ++ keys_text keys rest) p b' ' at in
      let at2 = drop-past d key (keys_text keys rest) q at1 in
      let size : q + length key - q ≡ length key = omega arith in
      let held : ends_at d (q + length key) c1 ≡ key ∷ [] =
        ap (λ k. k ∷ [])
          (ap (λ n. slice d q n) size ∙ slice-drop d key (keys_text keys rest) q at1) in
      let (q', c', here, runs) =
        run-keys keys (key ∷ []) (q + length key) rest c1 u u' (omega arith) ks at2 held acc in
      (q', c', here, run-first command p key (keys_text keys rest) c u e r k ∙ runs)

  -- A get or gets of more than 256 keys, where a command may begin, has the machine write behind the
  -- arrays of the keys' positions and lengths.
  pub run_too_many_keys :
      (command : Command) {st : State} (p : ℕ) (key : List ℕ) (keys : List (List ℕ)) (rest : List ℕ)
      (c : Parser) (u : U)
      → class command ≡ retrieval
      → Ready st
      → IsKey key
      → All IsKey keys
      → 256 ≤ length keys
      → run cb d p (name command ++ (b' ' ∷ (key ++ keys_text keys rest))) (record c { cs = st }) u
        ≡ out_of_bounds
  unfolding reset
  run_too_many_keys command p key keys rest c u e r k ks many =
      let q = p + (length (name command) + 1) in
      let c1 : Parser = record (reset c) { command = command } in
      run-first command p key (keys_text keys rest) c u e r k
      ∙ keys_overflow keys (q + length key) rest (record c1 { key_pos = put c1.key_pos 0 q }) u
          (omega arith) (omega arith) ks
