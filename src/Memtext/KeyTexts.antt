-- ===== src/Memtext/KeyTexts.antt =====
-- The keys of a retrieval command, as they are written and as the arrays of src/memproto/memtext.h hold
-- them.
use memxy.Prelude.{
  ℕ, zero, suc, ◌+◌, ◌-◌, ◌<◌, ◌≡◌, refl, ap, ap₂, ◌∙◌, true, false, List, [], ◌∷◌, ◌++◌, length,
  drop, ◌==◌, put, arith,
}
use memxy.Memtext.{Parser, slice, set_key, keys_from}
use memxy.Memtext.Texts.{slice-drop}

-- The keys behind the first, and the end of the line.
abbrev pub keys_text : List (List ℕ) → List ℕ → List ℕ
keys_text [] rest = b'\r' ∷ (b'\n' ∷ rest)
keys_text (key ∷ keys) rest = b' ' ∷ (key ++ keys_text keys rest)

-- The keys depend on their own entries of the arrays.
pub keys_from-same :
    (d : List ℕ) (c c' : Parser) (i n : ℕ)
    → ((k : ℕ) → k < i + n → (c'.key_pos k ≡ c.key_pos k) × (c'.key_len k ≡ c.key_len k))
    → keys_from d c' i n ≡ keys_from d c i n
unfolding keys_from
keys_from-same d c c' i zero h = refl
keys_from-same d c c' i (suc n) h =
    let (pos, len) = h i (omega arith) in
    ap₂ (λ k ks. k ∷ ks) (ap₂ (λ x y. slice d x y) pos len)
      (keys_from-same d c c' (suc i) n (λ k lt. h k (omega arith)))

keys_from-last :
    (d : List ℕ) (c : Parser) (i n : ℕ)
    → keys_from d c i (n + 1)
      ≡ keys_from d c i n ++ (slice d (c.key_pos (i + n)) (c.key_len (i + n)) ∷ [])
unfolding keys_from
keys_from-last d c i zero = let e : i + 0 ≡ i = omega arith in rw (e) refl
keys_from-last d c i (suc n) =
    let e : suc n + 1 ≡ suc (n + 1) = omega arith in
    let e' : suc i + n ≡ i + suc n = omega arith in
    rw (e, ← e')
      (ap (λ ks. slice d (c.key_pos i) (c.key_len i) ∷ ks) (keys_from-last d c (suc i) n))

-- The keys when the last one ends at `p`.
abbrev pub ends_at : List ℕ → ℕ → Parser → List (List ℕ)
ends_at d p c = keys_from d (set_key p c) 0 (c.keys + 1)

-- The parser in one key more.
abbrev pub with_key : ℕ → ℕ → Parser → Parser
with_key p q c =
    let c' : Parser = set_key p c in
    record c' { keys = c.keys + 1; key_pos = put c'.key_pos (c.keys + 1) q }

pub ends_at-with_key :
    (d key rest : List ℕ) (p q : ℕ) (c : Parser)
    → drop q d ≡ key ++ rest
    → ends_at d (q + length key) (with_key p q c) ≡ ends_at d p c ++ (key ∷ [])
unfolding set_key
ends_at-with_key d key rest p q c at =
    let same : (c.keys + 1 == c.keys + 1) ≡ true = ground arith in
    let size : q + length key - q ≡ length key = omega arith in
    let z : 0 + (c.keys + 1) ≡ c.keys + 1 = omega arith in
    keys_from-last d (set_key (q + length key) (with_key p q c)) 0 (c.keys + 1)
    ∙ ap₂ (λ ks k. ks ++ (k ∷ []))
        (keys_from-same d (set_key p c) (set_key (q + length key) (with_key p q c)) 0 (c.keys + 1)
          (λ k lt.
            let other : (c.keys + 1 == k) ≡ false = ground arith in
            (rw (other) refl, rw (other) refl)))
        (rw (z, same, size) (slice-drop d key rest q at))
