-- ===== src/Control/Frames.antt =====
-- The frames of the control protocol, which src/gate_control.cc reads: the loop over the buffer
-- against a loop over its unread bytes, that it ends, and that it does not matter how reads cut them.
use memxy.Prelude.{
  ◌∙◌, ℕ, zero, suc, ◌+◌, ◌-◌, ◌≤◌, ◌≡◌, refl, inl, inr, false, Option, none, some, List, length,
  length-drop, take, drop, ltb, Bool-cases, if◌then◌else◌, arith,
}
use memxy.Store.{Block}
use memxy.StreamBuffer.{StreamBuffer, data_size, data_used, contents}
use memxy.StreamBuffer.Contents.{IsValid, length-contents, data_used_lem}
use memxy.Control.{Fault, frame_size, on_body, read_frames}

module _ {T : Type 0} (process_body : List ℕ → T → Option Fault × T) where
  -- The frames of a byte string: the exception, the bytes behind the frames, and the state.
  unfoldable pub frames : ℕ → List ℕ → T → Option (Option Fault × List ℕ × T)
  frames zero d t = none
  frames (suc fuel) d t =
      let sz = frame_size d in
      let r = process_body (take sz (drop 4 d)) t in
      let rest = frames fuel (drop (4 + sz) d) r.1 in
      if ltb 4 (length d)
      then (if ltb (length d - 4) sz then some (none, d, t) else on_body process_body d r rest)
      else some (none, d, t)

  -- The buffer's unread bytes in place of the buffer.
  unfoldable pub view :
      Block → Option (Option Fault × StreamBuffer × T) → Option (Option Fault × List ℕ × T)
  view b none = none
  view b (some (f, s, t)) = some (f, contents s b, t)

  view-on_body :
      (b : Block) (s : StreamBuffer) (r : Option Fault × T)
      (rest : Option (Option Fault × StreamBuffer × T))
      → view b (on_body process_body s r rest) ≡ on_body process_body (contents s b) r (view b rest)
  unfolding view on_body
  view-on_body b s (none, t) rest = refl
  view-on_body b s (some f, t) rest = refl

  -- On a valid buffer the loop over the buffer is the loop over its unread bytes.
  pub read_frames-frames :
      (fuel : ℕ) (s : StreamBuffer) (b : Block) (t : T)
      → IsValid s b
      → view b (read_frames process_body fuel s b t) ≡ frames fuel (contents s b) t
  unfolding read_frames frames view
  read_frames-frames zero s b t v = refl
  read_frames-frames (suc fuel) s b t v =
      let size = length-contents v in
      elim (Bool-cases (ltb 4 (data_size s))) [
        | inr short ↦ rw (size, short) refl
        | inl long ↦ elim (Bool-cases (ltb (data_size s - 4) (frame_size (contents s b)))) [
          | inl part ↦ rw (size, long, part) refl
          | inr whole ↦
              let sz = frame_size (contents s b) in
              let r = process_body (take sz (drop 4 (contents s b))) t in
              let (v', e) = data_used_lem (4 + sz) v (ground arith) in
              let ih = read_frames-frames fuel (data_used (4 + sz) s) b r.1 v' in
              rw (size, long, whole, view-on_body b s r _, ih, e) refl
        ]
      ]

  on_body-ends :
      (d : List ℕ) (r : Option Fault × T) (rest : Option (Option Fault × List ℕ × T))
      → (x : Option Fault × List ℕ × T) × (rest ≡ some x)
      → (x : Option Fault × List ℕ × T) × (on_body process_body d r rest ≡ some x)
  unfolding on_body
  on_body-ends d (none, t) rest e = e
  on_body-ends d (some f, t) rest e = ((some f, d, t), refl)

  -- With one step more than there are bytes, the loop ends.
  frames_end :
      (fuel : ℕ) (d : List ℕ) (t : T)
      → length d ≤ fuel
      → (r : Option Fault × List ℕ × T) × (frames (suc fuel) d t ≡ some r)
  unfolding frames
  frames_end zero d t h =
      let short : ltb 4 (length d) ≡ false = ground arith in rw (short) ((none, d, t), refl)
  frames_end (suc fuel) d t h = elim (Bool-cases (ltb 4 (length d))) [
    | inr short ↦ rw (short) ((none, d, t), refl)
    | inl long ↦ elim (Bool-cases (ltb (length d - 4) (frame_size d))) [
      | inl part ↦ rw (long, part) ((none, d, t), refl)
      | inr whole ↦
          let sz = frame_size d in
          let r = process_body (take sz (drop 4 d)) t in
          let shorter : length (drop (4 + sz) d) ≤ fuel = ground (arith, length-drop (4 + sz) d) in
          rw (long, whole) (on_body-ends d r _ (frames_end fuel (drop (4 + sz) d) r.1 shorter))
    ]
  ]

  seen :
      (o : Option (Option Fault × StreamBuffer × T)) (b : Block) (r : Option Fault × List ℕ × T)
      → view b o ≡ some r
      → (x : Option Fault × StreamBuffer × T) × (o ≡ some x)
  unfolding view
  seen none b r e = absurd (none_is_some e)
    where
      none_is_some : ◌≡◌ {A = Option (Option Fault × List ℕ × T)} none (some r) → ⊥
      none_is_some h = cc
  seen (some x) b r e = (x, refl)

  -- On a valid buffer the loop ends within one step more than there are unread bytes.
  pub read_frames_end :
      (fuel : ℕ) (s : StreamBuffer) (b : Block) (t : T)
      → IsValid s b
      → length (contents s b) ≤ fuel
      → (r : Option Fault × StreamBuffer × T) × (read_frames process_body (suc fuel) s b t ≡ some r)
  read_frames_end fuel s b t v h =
      let (r, e) = frames_end fuel (contents s b) t h in
      seen (read_frames process_body (suc fuel) s b t) b r
        (read_frames-frames (suc fuel) s b t v ∙ e)
