-- ===== src/Control/Chunks.antt =====
-- How reads cut the byte stream of the control protocol does not matter to src/gate_control.cc.
use memxy.Prelude.{
  sym, ap, subst, ◌∙◌, ℕ, zero, suc, ◌+◌, ◌-◌, ◌≤◌, ◌<◌, ◌≡◌, refl, inl, inr, true, false, Option,
  none, some, List, [], ◌∷◌, ◌++◌, length, length-append, length-drop, take, drop, ltb, Bool-cases,
  arith, take-append_le, drop-append_le,
}
use memxy.Store.{Block}
use memxy.StreamBuffer.{StreamBuffer, contents}
use memxy.StreamBuffer.Contents.{IsValid}
use memxy.Control.{read_frames, Fault, frame_size, on_body}
use memxy.Control.Frames.{frames, view, read_frames-frames}

frame_size-append : (xs ys : List ℕ) → 4 < length xs → frame_size (xs ++ ys) ≡ frame_size xs
unfolding frame_size
frame_size-append [] ys h = absurd (omega arith)
frame_size-append (a ∷ []) ys h = absurd (omega arith)
frame_size-append (a ∷ b ∷ []) ys h = absurd (omega arith)
frame_size-append (a ∷ b ∷ c ∷ []) ys h = absurd (omega arith)
frame_size-append (a ∷ b ∷ c ∷ d ∷ xs) ys h = refl

body-append :
    (n : ℕ) (xs ys : List ℕ) → n ≤ length xs - 4 → take n (drop 4 (xs ++ ys)) ≡ take n (drop 4 xs)
body-append n xs ys h = elim (Bool-cases (ltb 3 (length xs))) [
  | inl long ↦
      rw (drop-append_le 4 xs ys (ground arith))
        (take-append_le n (drop 4 xs) ys (omega (arith, h, length-drop 4 xs)))
  | inr short ↦ let nothing : n ≡ 0 = ground arith in rw (nothing) refl
]

module _ {T : Type 0} (process_body : List ℕ → T → Option Fault × T) where
  abbrev Result : Type 0
  Result = Option Fault × List ℕ × T

  on_body-join :
      (xs zs r : List ℕ) (t' : T) (b : Option Fault × T) (rest rest' : Option Result) (x : Result)
      → (rest ≡ some (none, r, t') → rest' ≡ some x)
      → on_body process_body xs b rest ≡ some (none, r, t')
      → on_body process_body zs b rest' ≡ some x
  unfolding on_body
  on_body-join xs zs r t' (none, t) rest rest' x k h = k h
  on_body-join xs zs r t' (some f, t) rest rest' x k h = cc

  on_body-more :
      (d : List ℕ) (b : Option Fault × T) (rest rest' : Option Result) (x : Result)
      → ((y : Result) → rest ≡ some y → rest' ≡ some y)
      → on_body process_body d b rest ≡ some x
      → on_body process_body d b rest' ≡ some x
  unfolding on_body
  on_body-more d (none, t) rest rest' x k h = k x h
  on_body-more d (some f, t) rest rest' x k h = h

  more_fuel :
      (f g : ℕ) (d : List ℕ) (t : T) (x : Result)
      → f ≤ g
      → frames process_body f d t ≡ some x
      → frames process_body g d t ≡ some x
  unfolding frames
  more_fuel zero g d t x le = λ h. cc
  more_fuel (suc f) zero d t x le = absurd (omega arith)
  more_fuel (suc f) (suc g) d t x le =
      let sz = frame_size d in
      let r = process_body (take sz (drop 4 d)) t in
      let ih : (y : Result)
          → frames process_body f (drop (4 + sz) d) r.1 ≡ some y
          → frames process_body g (drop (4 + sz) d) r.1 ≡ some y =
        λ y. more_fuel f g (drop (4 + sz) d) r.1 y (omega arith) in
      elim (Bool-cases (ltb 4 (length d))) [
        | inr short ↦ rw (short) (λ h. h)
        | inl long ↦ elim (Bool-cases (ltb (length d - 4) sz)) [
          | inl part ↦ rw (long, part) (λ h. h)
          | inr whole ↦ rw (long, whole) (on_body-more d r _ _ x ih)
        ]
      ]

  resume :
      (f' : ℕ) (xs ys r : List ℕ) (t t' : T) (x : Result)
      → ◌≡◌ {A = Option Result} (some (none, xs, t)) (some (none, r, t'))
      → frames process_body f' (r ++ ys) t' ≡ some x
      → frames process_body f' (xs ++ ys) t ≡ some x
  resume f' xs ys r t t' x same k = cc

  -- If the bytes `xs` are read without an exception and leave `r`, then reading `r` and the bytes `ys`
  -- that come later has the result of reading `xs` and `ys` at once.
  pub frames-append :
      (f f' g : ℕ) (xs ys r : List ℕ) (t t' : T) (x : Option Fault × List ℕ × T)
      → f + f' ≤ g
      → frames process_body f xs t ≡ some (none, r, t')
      → frames process_body f' (r ++ ys) t' ≡ some x
      → frames process_body g (xs ++ ys) t ≡ some x
  unfolding frames
  frames-append zero f' g xs ys r t t' x le = λ h k. cc
  frames-append (suc f) f' zero xs ys r t t' x le = absurd (omega arith)
  frames-append (suc f) f' (suc g) xs ys r t t' x le = elim (Bool-cases (ltb 4 (length xs))) [
    | inr short ↦
        rw (short)
          (λ h k. more_fuel f' (suc g) (xs ++ ys) t x (omega arith) (resume f' xs ys r t t' x h k))
    | inl long ↦ elim (Bool-cases (ltb (length xs - 4) (frame_size xs))) [
      | inl part ↦
          rw (long, part)
            (λ h k.
              more_fuel f' (suc g) (xs ++ ys) t x (omega arith) (resume f' xs ys r t t' x h k))
      | inr whole ↦
          let sz = frame_size xs in
          let b = process_body (take sz (drop 4 xs)) t in
          let long' : ltb 4 (length (xs ++ ys)) ≡ true = ground (arith, length-append xs ys) in
          let whole' : ltb (length (xs ++ ys) - 4) sz ≡ false =
            ground (arith, length-append xs ys) in
          rw
            (
              long,
              whole,
              frame_size-append xs ys (ground arith),
              long',
              whole',
              body-append sz xs ys (ground arith),
              drop-append_le (4 + sz) xs ys (ground arith),
            )
            (λ h k.
              on_body-join xs (xs ++ ys) r t' b _ _ x
                (λ h'. frames-append f f' g (drop (4 + sz) xs) ys r b.1 t' x (omega arith) h' k) h)
    ]
  ]

  -- On valid buffers: if the loop reads a buffer without an exception, and a second buffer holds what
  -- it left and the bytes `ys` behind, then reading the second has the result, in exceptions, unread
  -- bytes and state, of reading a buffer that held all the bytes at once.
  pub read_frames-append :
      (f f' g : ℕ) (s s' s'' u : StreamBuffer) (b b' b'' : Block) (ys : List ℕ) (t t' : T)
      (x : Option Fault × StreamBuffer × T)
      → f + f' ≤ g
      → IsValid s b
      → IsValid s' b'
      → IsValid s'' b''
      → contents s' b' ≡ contents u b ++ ys
      → contents s'' b'' ≡ contents s b ++ ys
      → read_frames process_body f s b t ≡ some (none, u, t')
      → read_frames process_body f' s' b' t' ≡ some x
      → view process_body b'' (read_frames process_body g s'' b'' t) ≡ view process_body b' (some x)
  unfolding view
  read_frames-append f f' g s s' s'' u b b' b'' ys t t' x le v v' v'' e' e'' h k =
      let first : frames process_body f (contents s b) t ≡ some (none, contents u b, t') =
        sym (read_frames-frames process_body f s b t v) ∙ ap (view process_body b) h in
      let second : frames process_body f' (contents u b ++ ys) t'
          ≡ some (x.0, contents x.1 b', x.2) =
        subst (λ d. frames process_body f' d t' ≡ some (x.0, contents x.1 b', x.2)) e'
          (sym (read_frames-frames process_body f' s' b' t' v') ∙ ap (view process_body b') k) in
      read_frames-frames process_body g s'' b'' t v''
      ∙ subst (λ d. frames process_body g d t ≡ some (x.0, contents x.1 b', x.2)) (sym e'')
          (frames-append f f' g (contents s b) ys (contents u b) t t' (x.0, contents x.1 b', x.2) le
            first second)
