-- ===== src/Memtext/RoundTrip.antt =====
-- Storage commands: the machine of src/memproto/memtext.rl hands the callback what was written.
use memxy.Prelude.{
  ℕ, ◌+◌, ◌-◌, ◌<◌, ◌%◌, ◌^◌, ◌≡◌, ◌≢◌, refl, sym, ap, subst, ◌∙◌, Bool, true, Option, none, some,
  List, [], ◌∷◌, ◌++◌, length, length-append, length-drop, drop, if◌then◌else◌, put, arith,
}
use memxy.Memtext.{
  Command, storage, flags_field, exptime_field, bytes_field, State, done, key_first, in_key, first,
  in_data, data_end, data_line_end, Parser, Request, reset, assign, set_key, request,
}
use memxy.Memtext.Machine.{
  Callbacks, next, refused, after, after_key, goto, call, finish, step_in, run,
}
use memxy.Memtext.Pieces.{Ready, run-next, run-call, run-name, run-key, run-number}
use memxy.Memtext.Texts.{name, slice-drop, drop-past}
use memxy.Memtext.StorageTexts.{
  tail, Storage, IsStorage, text_behind_key, storage_text, requested, at-lt, tail-append,
  length_nonzero, drop_space,
}
use memxy.Memtext.Blocks.{run-data, at_data, run-bytes}

module _ {U : Type 0} (cb : Callbacks U) (d : List ℕ) where
  -- What a callback that accepts a request leaves.
  abbrev pub Accepts : Command → Request → U → U → Type 0
  Accepts command r u u' =
      (f : Request → U → Bool × U) × (cb command ≡ some f) × (f r u ≡ (true, u'))

  finish_lem :
      (command : Command) (c : Parser) (u u' : U)
      → c.command ≡ command
      → Accepts command (request d storage c) u u'
      → finish cb d storage c u ≡ next (record c { cs = done }) u'
  unfolding finish call
  finish_lem command c u u' at (f, table, accepted) =
      let r = request d storage c in
      ap
        (λ (o : Option (Request → U → Bool × U)). elim o [
          | none ↦ refused u
          | some g ↦ let (ok, v) = g r u in if ok then goto cb done c v else refused v
        ])
        (ap cb at ∙ table)
      ∙ ap (λ (x : Bool × U). if x.0 then goto cb done c x.1 else refused x.1) accepted

  -- The data block with its end, and the callback.
  run-block :
      (command : Command) (q : ℕ) (data_bytes rest : List ℕ) (c : Parser) (u u' : U)
      → c.command ≡ command
      → data_bytes ≢ []
      → c.data_count ≡ length data_bytes
      → length data_bytes < 2 ^ 64
      → Accepts command
          (request d storage (record c { data_len = q + length data_bytes - c.data_pos }))
          u
          u'
      → (c' : Parser) × (run cb d q
            (data_bytes ++ (b'\r' ∷ (b'\n' ∷ rest)))
            (record c { cs = in_data storage })
            u
          ≡ run cb d (q + length data_bytes + 1 + 1) rest (record c' { cs = done }) u')
  unfolding step_in request
  run-block command q [] rest c u u' at ne n small acc = absurd (ne refl)
  run-block command q (b ∷ bs) rest c u u' at ne n small acc =
      let q' = q + length (b ∷ bs) in
      let c1 : Parser = record c { data_count = 0; data_len = q' - c.data_pos } in
      (
        c1,
        run-data cb d storage q b bs (b'\r' ∷ (b'\n' ∷ rest)) c u n small
            ∙ run-next cb d (data_end storage) q' b'\r' (b'\n' ∷ rest) c1
                (record c1 { cs = data_line_end storage }) u refl
            ∙ run-call cb d (data_line_end storage) (q' + 1) b'\n' rest c1 (record c1 { cs = done })
                u u' (finish_lem command (record c1 { cs = data_line_end storage }) u u' at acc),
      )

  -- The slices of the key and of the data block are what was written.
  request_lem :
      (x : Storage) (p q : ℕ) (after_key after_data : List ℕ) (c : Parser)
      → x.exptime < 2 ^ 32
      → drop p d ≡ x.key ++ after_key
      → drop q d ≡ x.data_bytes ++ after_data
      → request d storage (record c {
        key_pos = put c.key_pos 0 p;
        key_len = put c.key_len 0 (p + length x.key - p);
        flags = x.flags;
        exptime = x.exptime % 2 ^ 32;
        noreply = x.noreply;
        data_pos = q;
        data_len = q + length x.data_bytes - q;
      })
        ≡ requested x
  unfolding request
  request_lem x p q after_key after_data c h at_key at_block =
      let key_size : p + length x.key - p ≡ length x.key = omega arith in
      let data_size : q + length x.data_bytes - q ≡ length x.data_bytes = omega arith in
      let whole : x.exptime % 2 ^ 32 ≡ x.exptime = omega (arith, h) in
      rw
        (
          key_size,
          data_size,
          whole,
          slice-drop d x.key after_key p at_key,
          slice-drop d x.data_bytes after_data q at_block,
        )
        refl

  -- Behind the name of the command.
  run-line :
      (x : Storage) (p : ℕ) (rest : List ℕ) (c : Parser) (u u' : U)
      → IsStorage x
      → length d < 2 ^ 32
      → drop p d ≡ x.key ++ (b' ' ∷ text_behind_key x rest)
      → Accepts x.command (requested x) u u'
      → let c0 : Parser = record (reset c) { command = x.command; cs = key_first storage } in
        (q : ℕ) × (c' : Parser) × (drop q d ≡ rest)
        × (run cb d p (x.key ++ (b' ' ∷ text_behind_key x rest)) c0 u
            ≡ run cb d q rest (record c' { cs = done }) u')
  unfolding reset step_in after_key set_key after assign
  run-line x p rest c u u' v small at acc =
      let c0 : Parser = record (reset c) { command = x.command } in
      let block = x.data_bytes ++ (b'\r' ∷ (b'\n' ∷ rest)) in
      let t3 = x.bytes_text ++ tail x.noreply block in
      let t2 = x.exptime_text ++ (b' ' ∷ t3) in
      let t1 = x.flags_text ++ (b' ' ∷ t2) in
      let q1 = p + length x.key in
      let q2 = q1 + 1 in
      let q3 = q2 + length x.flags_text + 1 in
      let q4 = q3 + length x.exptime_text + 1 in
      let q5 = q4 + length x.bytes_text + length (tail x.noreply []) in
      let q6 = q5 + length x.data_bytes in
      let at2 = drop_space d x.key t1 p b' ' at in
      let at3 = drop_space d x.flags_text t2 q2 b' ' at2 in
      let at4 = drop_space d x.exptime_text t3 q3 b' ' at3 in
      let at5 =
        drop-past d (tail x.noreply []) block (q4 + length x.bytes_text)
          (drop-past d x.bytes_text (tail x.noreply block) q4 at4 ∙ tail-append x.noreply block) in
      let at6 = drop_space d x.data_bytes (b'\n' ∷ rest) q5 b'\r' at5 in
      let c1 : Parser = record c0 { key_pos = put c0.key_pos 0 p } in
      let c2 : Parser = record c1 { key_len = put c0.key_len 0 (q1 - p) } in
      let c3 : Parser = record c2 { flags = x.flags } in
      let c4 : Parser = record c3 { exptime = x.exptime % 2 ^ 32 } in
      let c5 : Parser = at_data cb d q5 (length x.data_bytes) x.noreply c4 in
      let low : q5 < 2 ^ 32 = omega (arith, at-lt d x.data_bytes q5 b'\r' (b'\n' ∷ rest) at5) in
      let size : length x.data_bytes < 2 ^ 64 = omega (
        arith,
        length-drop q5 d,
        ap length at5,
        length-append x.data_bytes (b'\r' ∷ (b'\n' ∷ rest)),
      ) in
      let made =
        request_lem x p q5 (b' ' ∷ t1) (b'\r' ∷ (b'\n' ∷ rest))
          (record c5 { key_pos = c0.key_pos; key_len = c0.key_len }) v.exptime_fits at at5 in
      let (c6, ends) =
        run-block x.command q5 x.data_bytes rest c5 u u' refl v.has_data refl size
          (subst (λ r. Accepts x.command r u u') (sym made) acc) in
      (
        q6 + 1 + 1,
        c6,
        drop-past d (b'\n' ∷ []) rest (q6 + 1) at6,
        run-key cb d storage p x.key (b' ' ∷ t1) c0 u v.is_key (omega arith)
            ∙ run-next cb d (in_key storage) q1 b' ' t1 c1
                (record c2 { cs = first flags_field storage }) u refl
            ∙ run-number cb d flags_field storage (first exptime_field storage) q2 x.flags b' '
                x.flags_text t2 c2 u v.is_flags tt (omega (arith, low)) v.flags_fit refl refl at2
            ∙ run-number cb d exptime_field storage (first bytes_field storage) q3 x.exptime b' '
                x.exptime_text t3 c3 u v.is_exptime tt (omega (arith, low)) v.exptime_fits refl refl
                at3
            ∙ run-bytes cb d x.noreply q4 (length x.data_bytes) x.bytes_text block c4 u v.is_bytes
                (length_nonzero x.data_bytes v.has_data) (omega (arith, low)) size at4
            ∙ ends,
      )

  -- In fewer than 2^32 bytes, which begin with a storage command where a command may begin: when the
  -- callback accepts the request that the command asks for, the machine calls it with that request,
  -- goes on behind the command, and may begin another.
  pub run-storage :
      (x : Storage) {st : State} (p : ℕ) (rest : List ℕ) (c : Parser) (u u' : U)
      → IsStorage x
      → Ready st
      → length d < 2 ^ 32
      → drop p d ≡ storage_text x rest
      → Accepts x.command (requested x) u u'
      → (q : ℕ) × (c' : Parser) × (drop q d ≡ rest)
        × (run cb d p (storage_text x rest) (record c { cs = st }) u
            ≡ run cb d q rest (record c' { cs = done }) u')
  run-storage x p rest c u u' v r small at acc =
      let q = p + (length (name x.command) + 1) in
      let at' : drop q d ≡ x.key ++ (b' ' ∷ text_behind_key x rest) =
        ap (λ i. drop i d) (omega arith)
        ∙ drop_space d (name x.command) (x.key ++ (b' ' ∷ text_behind_key x rest)) p b' ' at in
      let (q', c', here, runs) = run-line x q rest c u u' v small at' acc in
      let behind_name = x.key ++ (b' ' ∷ text_behind_key x rest) in
      (
        q',
        c',
        here,
        run-name cb d x.command p behind_name c u r
            ∙ ap
                (λ k.
                  run cb d q behind_name
                    (record (reset c) { command = x.command; cs = key_first k }) u)
                v.is_storage
            ∙ runs,
      )
