-- ===== src/Memtext/Blocks.antt =====
-- The number of bytes, the end of the line and the data block of a storage command, as the machine of
-- src/memproto/memtext.rl reads them.
use memxy.Prelude.{
  ℕ, ◌+◌, ◌-◌, ◌<◌, ◌^◌, ◌≡◌, ◌≢◌, refl, ap, ◌∙◌, Bool, true, false, List, [], ◌∷◌, ◌++◌, length,
  drop, ◌==◌, arith,
}
use memxy.StreamBuffer.{sub_size}
use memxy.Memtext.{
  Class, storage, bytes_field, first, storage_option, line_end, in_data, data_end, Parser, assign,
  data_start,
}
use memxy.Memtext.Machine.{
  Callbacks, after, newline, data_byte, noreply_end, noreply_word, step_in, run,
}
use memxy.Memtext.Pieces.{moved, run-next, run-number}
use memxy.Memtext.Texts.{IsNumeral}
use memxy.Memtext.StorageTexts.{tail}

module _ {U : Type 0} (cb : Callbacks U) (d : List ℕ) where
  -- The data block, whose length was given.
  pub run-data :
      (k : Class) (p b : ℕ) (bs rest : List ℕ) (c : Parser) (u : U)
      → c.data_count ≡ length (b ∷ bs)
      → length (b ∷ bs) < 2 ^ 64
      → run cb d p ((b ∷ bs) ++ rest) (record c { cs = in_data k }) u
        ≡ run cb d
            (p + length (b ∷ bs))
            rest
            (record c {
              cs = data_end k;
              data_count = 0;
              data_len = p + length (b ∷ bs) - c.data_pos;
            })
            u
  unfolding step_in data_byte
  run-data k p b [] rest c u n h =
      let last : sub_size c.data_count 1 ≡ 0 = omega (arith, n) in
      run-next cb d (in_data k) p b rest c _ u (rw (last) refl)
  run-data k p b (x ∷ xs) rest c u n h =
      let left : sub_size c.data_count 1 ≡ length (x ∷ xs) = omega (arith, n) in
      let more : (length (x ∷ xs) == 0) ≡ false = ground arith in
      let end : p + 1 + length (x ∷ xs) ≡ p + length (b ∷ (x ∷ xs)) = omega arith in
      run-next cb d (in_data k) p b ((x ∷ xs) ++ rest) c
        (record c { cs = in_data k; data_count = length (x ∷ xs) }) u (rw (left, more) refl)
      ∙ run-data k (p + 1) x xs rest (record c { data_count = length (x ∷ xs) }) u refl
          (omega arith)
      ∙ ap
          (λ q.
            run cb d q rest
              (record c { cs = data_end k; data_count = 0; data_len = q - c.data_pos }) u)
          end

  -- " noreply" behind the number of bytes.
  run-noreply :
      (p : ℕ) (rest : List ℕ) (c : Parser) (u : U)
      → run cb d p (noreply_word ++ (b'\r' ∷ rest)) (record c { cs = storage_option }) u
        ≡ run cb d (p + 8) rest (record c { cs = line_end storage; noreply = true }) u
  unfolding run step_in noreply_end
  run-noreply p rest c u =
      moved cb d (p + 1 + 1 + 1 + 1 + 1 + 1 + 1 + 1) (p + 8) rest _ u (omega arith)

  -- The parser at the first byte of the data block, at `q`.
  abbrev pub at_data : ℕ → ℕ → Bool → Parser → Parser
  at_data q n reply c = record c {
    cs = in_data storage;
    bytes = n;
    noreply = reply;
    data_pos = q;
    data_count = n;
  }

  -- The number of bytes, and the end of the line.
  pub run-bytes :
      (noreply : Bool) (p n : ℕ) (w rest : List ℕ) (c : Parser) (u : U)
      → IsNumeral w n
      → n ≢ 0
      → p < 2 ^ 32
      → n < 2 ^ 64
      → drop p d ≡ w ++ tail noreply rest
      → run cb d p
          (w ++ tail noreply rest)
          (record c { cs = first bytes_field storage; noreply = false })
          u
        ≡ run cb d
            (p + length w + length (tail noreply []))
            rest
            (at_data (p + length w + length (tail noreply [])) n noreply c)
            u
  unfolding after assign step_in newline data_start
  run-bytes false p n w rest c u num nz small fits at =
      let c1 : Parser = record c { bytes = n; noreply = false } in
      let q = p + length w + 1 in
      let here : q + 1 ≡ p + length w + 2 = omega arith in
      run-number cb d bytes_field storage (line_end storage) p n b'\r' w (b'\n' ∷ rest)
        (record c { noreply = false }) u num nz (omega arith) fits refl refl at
      ∙ run-next cb d (line_end storage) q b'\n' rest c1 (at_data (q + 1) n false c) u refl
      ∙ ap (λ x. run cb d x rest (at_data x n false c) u) here
  run-bytes true p n w rest c u num nz small fits at =
      let c1 : Parser = record c { bytes = n; noreply = false } in
      let q = p + length w + 1 in
      let here : q + 8 + 1 ≡ p + length w + 10 = omega arith in
      run-number cb d bytes_field storage storage_option p n b' ' w
        (noreply_word ++ (b'\r' ∷ (b'\n' ∷ rest))) (record c { noreply = false }) u num nz
        (omega arith) fits refl refl at
      ∙ run-noreply q (b'\n' ∷ rest) c1 u
      ∙ run-next cb d (line_end storage) (q + 8) b'\n' rest (record c1 { noreply = true })
          (at_data (q + 8 + 1) n true c) u refl
      ∙ ap (λ x. run cb d x rest (at_data x n true c) u) here
