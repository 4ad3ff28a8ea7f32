-- ===== src/Gate/Retrieval.antt =====
-- The reply of `request_get_multi` of src/gate_memtext_retrieval.cc: what the vectors hold, and the
-- space that they take.
use memxy.Prelude.{
  ℕ, ◌+◌, ◌*◌, ◌≤◌, ◌≡◌, ◌≢◌, refl, inl, inr, Bool, true, false, none, some, List, [], ◌∷◌, ◌++◌,
  ap, ◌∙◌, append_assoc, length, length-append, Option-cases, if◌then◌else◌, arith,
}
use memxy.Store.{ok}
use memxy.Gate.{
  print_u32, print_size, Slot, is_some, end_text, line_end, value_text, no_cas, header_end,
  header_max, value_vectors, more_vectors, skip_null, reply_vectors,
}
use memxy.Gate.Decimal.{length-print_u32, length-print_size}

-- The protocol's line for a value: "VALUE <key> <flags> <bytes> [<cas>]", where the cas is 0.
unfoldable pub value_line : Bool → List ℕ → ℕ → ℕ → List ℕ → List ℕ
value_line require_cas key flags bytes rest =
    value_text
    ++ (key
        ++ (b' '
            ∷ (print_u32 flags
                ++ (b' '
                    ∷ (print_size bytes
                        ++ ((if require_cas then b' ' ∷ (b'0' ∷ []) else [])
                            ++ (line_end ++ rest)))))))

-- The protocol's reply: a line and a data block for each value, and END.
unfoldable pub render : Bool → List Slot → List ℕ
render require_cas [] = end_text
render require_cas (s ∷ ss) =
    let rest = render require_cas ss in
    elim s.val [
      | none ↦ rest
      | some v ↦ value_line require_cas s.key s.flags (length v) (v ++ (line_end ++ rest))
    ]

unfoldable pub concat : List (List ℕ) → List ℕ
concat [] = []
concat (xs ∷ xss) = xs ++ concat xss

-- The values that the slots hold, and the length of their keys.
unfoldable pub count_values : List Slot → ℕ
count_values [] = 0
count_values (s ∷ ss) = let rest = count_values ss in if is_some s.val then 1 + rest else rest

unfoldable pub total_keylen : List Slot → ℕ
total_keylen [] = 0
total_keylen (s ∷ ss) =
    let rest = total_keylen ss in if is_some s.val then length s.key + rest else rest

-- The bytes of the headers, that is of every other vector but the last.
unfoldable pub header_bytes : List (List ℕ) → ℕ
header_bytes [] = 0
header_bytes (h ∷ []) = 0
header_bytes (h ∷ v ∷ vs) = length h + header_bytes vs

length-header_end :
    (require_cas : Bool) (flags vallen : ℕ) → length (header_end require_cas flags vallen) ≤ 36
unfolding header_end
length-header_end true flags vallen =
    rw
      (
        length-append (print_u32 flags) (32 ∷ (print_size vallen ++ no_cas)),
        length-append (print_size vallen) no_cas,
      )
      (omega (arith, length-print_u32 flags, length-print_size vallen))
length-header_end false flags vallen =
    rw
      (
        length-append (print_u32 flags) (32 ∷ (print_size vallen ++ line_end)),
        length-append (print_size vallen) line_end,
      )
      (omega (arith, length-print_u32 flags, length-print_size vallen))

-- The header that the code writes is that line.
pub header_line :
    (require_cas : Bool) (key : List ℕ) (flags bytes : ℕ) (rest : List ℕ)
    → value_text ++ (key ++ (header_end require_cas flags bytes ++ rest))
      ≡ value_line require_cas key flags bytes rest
unfolding value_line header_end
header_line true key flags bytes rest =
    ap (λ r. value_text ++ (key ++ r))
      (append_assoc (32 ∷ print_u32 flags) ((32 ∷ print_size bytes) ++ no_cas) rest
        ∙ ap (λ r. (32 ∷ print_u32 flags) ++ r) (append_assoc (32 ∷ print_size bytes) no_cas rest))
header_line false key flags bytes rest =
    ap (λ r. value_text ++ (key ++ r))
      (append_assoc (32 ∷ print_u32 flags) ((32 ∷ print_size bytes) ++ line_end) rest
        ∙ ap (λ r. (32 ∷ print_u32 flags) ++ r)
            (append_assoc (32 ∷ print_size bytes) line_end rest))

concat-more_vectors :
    (require_cas : Bool) (ss : List Slot)
    → concat (more_vectors require_cas ss) ≡ line_end ++ render require_cas ss
unfolding concat more_vectors render value_vectors
concat-more_vectors require_cas [] = refl
concat-more_vectors require_cas (s ∷ ss) =
    let ih = concat-more_vectors require_cas ss in
    elim (Option-cases s.val) [
      | inl e ↦ rw (e) ih
      | inr (v, e) ↦
          rw (e, ih, append_assoc)
            (ap (λ xs. line_end ++ xs)
              (header_line require_cas s.key s.flags (length v)
                (v ++ (line_end ++ render require_cas ss))))
    ]

length-more_vectors :
    (require_cas : Bool) (ss : List Slot)
    → length (more_vectors require_cas ss) ≡ 2 * count_values ss + 1
unfolding more_vectors value_vectors count_values
length-more_vectors require_cas [] = refl
length-more_vectors require_cas (s ∷ ss) =
    let ih = length-more_vectors require_cas ss in
    elim (Option-cases s.val) [ inl e ↦ rw (e) ih | inr (v, e) ↦ rw (e) (omega (arith, ih)) ]

-- A header fits its part of the allocation, with the NUL that `sprintf` adds.
pub header_fits :
    (require_cas : Bool) (key prefix : List ℕ) (flags vallen : ℕ)
    → length prefix ≤ 8
    → length (prefix ++ (key ++ header_end require_cas flags vallen)) + 1 ≤ header_max (length key)
header_fits require_cas key prefix flags vallen b =
    rw
      (
        length-append prefix (key ++ header_end require_cas flags vallen),
        length-append key (header_end require_cas flags vallen),
      )
      (omega (arith, b, length-header_end require_cas flags vallen))

more_vectors_fit :
    (require_cas : Bool) (ss : List Slot)
    → header_bytes (more_vectors require_cas ss) + count_values ss
      ≤ count_values ss * header_max 0 + total_keylen ss
unfolding more_vectors value_vectors count_values total_keylen header_bytes
more_vectors_fit require_cas [] = omega arith
more_vectors_fit require_cas (s ∷ ss) =
    let ih = more_vectors_fit require_cas ss in
    elim (Option-cases s.val) [
      | inl e ↦ rw (e) ih
      | inr (v, e) ↦
          let fits =
            header_fits require_cas s.key (line_end ++ value_text) s.flags (length v)
              (omega arith) in
          rw (e) (omega (arith, ih, fits))
    ]

-- What the vectors of a reply are: the protocol's reply, in two vectors for each value and one more,
-- with headers that fit the allocation.
abbrev pub IsReply : Bool → List Slot → List (List ℕ) → Type 0
IsReply require_cas ss vs =
    (concat vs ≡ render require_cas ss)
    × (length vs ≡ 2 * count_values ss + 1)
    × (header_bytes vs + count_values ss ≤ count_values ss * header_max 0 + total_keylen ss)

pub reply_vectors-IsReply :
    (require_cas : Bool) (ss : List Slot)
    → count_values ss ≢ 0
    → (vs : List (List ℕ)) × (reply_vectors require_cas (skip_null ss) ≡ ok vs)
      × IsReply require_cas ss vs
unfolding reply_vectors skip_null value_vectors count_values total_keylen header_bytes concat render
reply_vectors-IsReply require_cas [] some_value = elim (some_value refl) [ ]
reply_vectors-IsReply require_cas (s ∷ ss) some_value = elim (Option-cases s.val) [
  | inl e ↦ rw (e) (reply_vectors-IsReply require_cas ss (λ z. some_value (rw (e) z)))
  | inr (v, e) ↦ rw (e) (
    value_vectors require_cas value_text s v (more_vectors require_cas ss),
    refl,
    (
      rw (concat-more_vectors require_cas ss, append_assoc)
          (header_line require_cas s.key s.flags (length v)
            (v ++ (line_end ++ render require_cas ss))),
      omega (arith, length-more_vectors require_cas ss),
      omega (
        arith,
        more_vectors_fit require_cas ss,
        header_fits require_cas s.key value_text s.flags (length v) (omega arith),
      ),
    ),
  )
]
