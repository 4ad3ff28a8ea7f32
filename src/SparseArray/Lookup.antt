-- ===== src/SparseArray/Lookup.antt =====
-- Reading an index of a sparse array after a write to an item, and after new blocks
-- (src/mp/sparse_array_impl.pre.h).
use memxy.Prelude.{
  ℕ, zero, suc, ◌+◌, ◌-◌, ◌/◌, ◌%◌, ◌≤◌, ◌<◌, ◌≡◌, ◌≢◌, refl, sym, ap, subst, ◌∙◌, inl, inr, false,
  Option, none, some, Bool-cases, List, [], ◌∷◌, ◌++◌, length, length-append, length-replicate,
  get_elem?, set, length-set, get_elem?-set_self, get_elem?-set_ne, get_elem?-lt, get_elem?-ge,
  get_elem?-append_lt, get_elem?-append_ge, get_elem?-replicate, ltb, ◌==◌, if◌then◌else◌, arith,
}
use memxy.SparseArray.{
  extend_array_size, Item, SparseArray, fresh_block, no_item, within, item_of, put_item, capacity,
  get,
}

some_inj : {A : Type 0} {x y : A} → some x ≡ some y → x ≡ y
some_inj h = cc

module _ {T : Type 0} where
  -- Every block has its 64 items.
  abbrev pub IsValid : SparseArray T → Type 0
  IsValid a =
      (q : ℕ) (block : List (Item T))
      → get_elem? a q ≡ some block
      → length block ≡ extend_array_size

  -- The value at an index, as a partial map.
  abbrev pub value_of : Option (Item T) → Option T
  value_of none = none
  value_of (some item) = if item.enable then item.value else none

  pub block_at :
      (a : SparseArray T) (i : ℕ)
      → i < capacity a
      → (block : List (Item T)) × (get_elem? a (i / extend_array_size) ≡ some block)
  unfolding capacity
  block_at a i h = get_elem?-lt a (i / extend_array_size) (omega arith)

  pub item_at :
      (a : SparseArray T) (i : ℕ)
      → IsValid a
      → i < capacity a
      → (item : Item T) × (item_of a i ≡ some item)
  item_at a i v h =
      let (block, e) = block_at a i h in
      rw (e) (get_elem?-lt block (i % extend_array_size) (omega (arith, v _ block e)))

  pub get_lem : (a : SparseArray T) (i : ℕ) → IsValid a → get a i ≡ some (value_of (item_of a i))
  unfolding get capacity
  get_lem a i v = elim (Bool-cases (ltb i (capacity a))) [
    | inl inside ↦ let (item, e) = item_at a i v (ground arith) in rw (inside, e) refl
    | inr outside ↦ rw (outside, beyond (ground arith)) refl
  ]
    where
      past : capacity a ≤ i → length a ≤ i / extend_array_size
      past h = omega (arith, h)

      beyond : capacity a ≤ i → item_of a i ≡ none
      beyond h =
          ap (λ o. within o (i % extend_array_size))
            (get_elem?-ge a (i / extend_array_size) (past h))

  pub item_of-put_item :
      (a : SparseArray T) (i j : ℕ) (item : Item T)
      → IsValid a
      → i < capacity a
      → item_of (put_item a i item) j ≡ (if i == j then some item else item_of a j)
  unfolding capacity
  item_of-put_item a i j item v h =
      let (block, e) = block_at a i h in
      let size = v _ block e in
      let r : ℕ = i % extend_array_size in
      let r' : ℕ = j % extend_array_size in
      let changed = get_elem?-set_self a (i / extend_array_size) (set block r item) (omega arith) in
      elim (Bool-cases (i / extend_array_size == j / extend_array_size)) [
        | inl same ↦
            let q : j / extend_array_size ≡ i / extend_array_size = ground arith in
            rw (q, e, changed)
              (elim (Bool-cases (i == j)) [
                | inl equal ↦
                    let here : r' ≡ r = ground arith in
                    rw (equal, here) (get_elem?-set_self block r item (omega (arith, size)))
                | inr apart ↦
                    let there : r ≢ r' = ground arith in
                    rw (apart) (get_elem?-set_ne block r r' item there)
              ])
        | inr other ↦
            let apart : (i == j) ≡ false = ground arith in
            let q : i / extend_array_size ≢ j / extend_array_size = ground arith in
            rw (apart, e)
              (ap (λ o. within o r')
                (get_elem?-set_ne a (i / extend_array_size) (j / extend_array_size)
                  (set block r item) q))
      ]

  pub put_item-IsValid :
      (a : SparseArray T) (i : ℕ) (item : Item T)
      → IsValid a
      → i < capacity a
      → IsValid (put_item a i item) × (length (put_item a i item) ≡ length a)
  unfolding capacity
  put_item-IsValid a i item v h =
      let (block, e) = block_at a i h in
      let q : ℕ = i / extend_array_size in
      let r : ℕ = i % extend_array_size in
      let size : length (set block r item) ≡ extend_array_size =
        length-set block r item ∙ v q block e in
      rw (e) (
        λ p blk at. elim (Bool-cases (q == p)) [
          | inl same ↦
              let here : p ≡ q = ground arith in
              let changed = get_elem?-set_self a q (set block r item) (omega arith) in
              let at' : get_elem? (set a q (set block r item)) q ≡ some blk =
                subst (λ k. get_elem? (set a q (set block r item)) k ≡ some blk) here at in
              subst (λ b. length b ≡ extend_array_size) (some_inj (sym changed ∙ at')) size
          | inr other ↦
              let apart : q ≢ p = ground arith in
              v p blk (sym (get_elem?-set_ne a q p (set block r item) apart) ∙ at)
        ],
        length-set a q (set block r item),
      )

  pub only_fresh :
      (k : ℕ) (block : List (Item T))
      → get_elem? (fresh_block ∷ []) k ≡ some block
      → length block ≡ extend_array_size
  unfolding fresh_block
  only_fresh zero block at =
      ap length (sym (some_inj at)) ∙ length-replicate extend_array_size (no_item {T = T})
  only_fresh (suc k) block at = cc

  unread :
      (k r : ℕ)
      → r < extend_array_size
      → value_of (within (get_elem? (fresh_block ∷ []) k) r) ≡ none
  unfolding fresh_block
  unread zero r h = ap value_of (get_elem?-replicate extend_array_size no_item r h)
  unread (suc k) r h = refl

  -- One more block: valid, and no index reads otherwise.
  pub extend_one :
      (a : SparseArray T)
      → IsValid a
      → IsValid (a ++ (fresh_block ∷ []))
        × (length (a ++ (fresh_block ∷ [])) ≡ length a + 1)
        × ((j : ℕ) → value_of (item_of (a ++ (fresh_block ∷ [])) j) ≡ value_of (item_of a j))
  extend_one a v = (
    λ q block at. elim (Bool-cases (ltb q (length a))) [
      | inl old ↦ v q block (sym (get_elem?-append_lt a (fresh_block ∷ []) q (ground arith)) ∙ at)
      | inr more ↦
          only_fresh (q - length a) block
            (sym (get_elem?-append_ge a (fresh_block ∷ []) q (ground arith)) ∙ at)
    ],
    length-append a (fresh_block ∷ []),
    λ j. elim (Bool-cases (ltb (j / extend_array_size) (length a))) [
      | inl old ↦
          rw (get_elem?-append_lt a (fresh_block ∷ []) (j / extend_array_size) (ground arith)) refl
      | inr more ↦
          ap (λ o. value_of (within o (j % extend_array_size)))
            (get_elem?-append_ge a (fresh_block ∷ []) (j / extend_array_size) (ground arith))
          ∙ unread (j / extend_array_size - length a) (j % extend_array_size) (omega arith)
          ∙ sym (
              ap (λ o. value_of (within o (j % extend_array_size)))
                (get_elem?-ge a (j / extend_array_size) (ground arith)))
    ],
  )
