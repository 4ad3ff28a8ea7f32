-- ===== src/SparseArray/Update.antt =====
-- What set and reset leave (src/mp/sparse_array_impl.pre.h).
use memxy.Prelude.{
  ℕ, zero, suc, ◌+◌, ◌-◌, ◌/◌, ◌%◌, ◌≤◌, ◌<◌, ◌≡◌, refl, sym, ap, ◌∙◌, inl, inr, Bool, true, false,
  Option, none, some, Bool-cases, get_elem?-ge, [], ◌∷◌, ◌++◌, length, ltb, ◌==◌, if◌then◌else◌,
  arith,
}
use memxy.SparseArray.{
  extend_array_size, within, Item, SparseArray, Result, done, thrown, undefined, fresh_block,
  no_item, item_of, put_item, capacity, get, extend, revert, construct, set_value, reset,
}
use memxy.SparseArray.Lookup.{
  IsValid, value_of, item_at, get_lem, item_of-put_item, put_item-IsValid, extend_one,
}

module _ {T : Type 0} where
  -- `b` is `a` with `v` at `index`, in an array of `blocks` blocks.
  abbrev pub IsUpdate : SparseArray T → ℕ → ℕ → Option T → SparseArray T → Type 0
  IsUpdate a blocks index v b =
      IsValid b
      × (length b ≡ blocks)
      × ((j : ℕ) → get b j ≡ (if index == j then some v else get a j))

  -- Growing by `k` blocks: every block was had and nothing reads otherwise, or one was refused.
  abbrev Extended : (ℕ → Bool) → ℕ → SparseArray T → Bool × SparseArray T → Type 0
  Extended calloc k a (true, b) =
      ((q : ℕ) → length a ≤ q → q < length a + k → calloc q ≡ true)
      × IsValid b
      × (length b ≡ length a + k)
      × ((j : ℕ) → value_of (item_of b j) ≡ value_of (item_of a j))
  Extended calloc k a (false, b) =
      (calloc (length b) ≡ false) × length a ≤ length b × length b < length a + k

  extend_lem :
      (calloc : ℕ → Bool) (k : ℕ) (a : SparseArray T)
      → IsValid a
      → Extended calloc k a (extend calloc k a)
  unfolding extend
  extend_lem calloc zero a v = (λ q h l. absurd (omega arith), v, omega arith, λ j. refl)
  extend_lem calloc (suc k) a v =
      let (v', more, same) = extend_one a v in
      elim (Bool-cases (calloc (length a))) [
        | inl given ↦ rw (given) (
            chain (extend calloc k (a ++ (fresh_block ∷ [])))
              (extend_lem calloc k (a ++ (fresh_block ∷ [])) v') given more same)
        | inr refused ↦ rw (refused) (refused, omega arith, omega arith)
      ]
    where
      first :
          ((q : ℕ)
            → length (a ++ (fresh_block ∷ [])) ≤ q
            → q < length (a ++ (fresh_block ∷ [])) + k
            → calloc q ≡ true)
          → calloc (length a) ≡ true
          → length (a ++ (fresh_block ∷ [])) ≡ length a + 1
          → (q : ℕ) → length a ≤ q
          → q < length a + suc k
          → calloc q ≡ true
      first had given more q low high = elim (Bool-cases (length a == q)) [
        | inl here ↦ ap calloc (sym (ground arith)) ∙ given
        | inr other ↦ had q (ground arith) (omega arith)
      ]

      chain :
          (r : Bool × SparseArray T)
          → Extended calloc k (a ++ (fresh_block ∷ [])) r
          → calloc (length a) ≡ true
          → length (a ++ (fresh_block ∷ [])) ≡ length a + 1
          → ((j : ℕ) → value_of (item_of (a ++ (fresh_block ∷ [])) j) ≡ value_of (item_of a j))
          → Extended calloc (suc k) a r
      chain (true, b) (had, w, long, same) given more same' =
          (first had given more, w, omega arith, λ j. same j ∙ same' j)
      chain (false, b) (refused, low, high) given more same' = (refused, omega arith, omega arith)

  -- A write to an item in range.
  put_item-IsUpdate :
      (a : SparseArray T) (index : ℕ) (item : Item T)
      → IsValid a
      → index < capacity a
      → IsUpdate a (length a) index (value_of (some item)) (put_item a index item)
  put_item-IsUpdate a index item v h =
      let (v', same) = put_item-IsValid a index item v h in
      (
        v',
        same,
        λ j.
            get_lem (put_item a index item) j v'
            ∙ ap (λ o. some (value_of o)) (item_of-put_item a index j item v h)
            ∙ elim (Bool-cases (index == j)) [
              | inl here ↦ rw (here) refl
              | inr other ↦ rw (other) (sym (get_lem a j v))
            ],
      )

  -- An update behind an update of the same index, or behind one that changed nothing.
  overwrite :
      (a b c : SparseArray T) (m n index : ℕ) (v w : Option T)
      → IsUpdate a m index v b
      → IsUpdate b n index w c
      → IsUpdate a n index w c
  overwrite a b c m n index v w (valid, long, reads) (valid', long', reads') = (
    valid',
    long',
    λ j. reads' j ∙ elim (Bool-cases (index == j)) [
      | inl here ↦ rw (here) refl
      | inr other ↦ rw (other) (reads j ∙ rw (other) refl)
    ],
  )

  behind :
      (a b c : SparseArray T) (n index : ℕ) (w : Option T)
      → ((j : ℕ) → get b j ≡ get a j)
      → IsUpdate b n index w c
      → IsUpdate a n index w c
  behind a b c n index w same (valid', long', reads') =
      (valid', long', λ j. reads' j ∙ ap (λ o. if index == j then some w else o) (same j))

  -- Every block between the array's end and `index` is had.
  abbrev pub Granted : (ℕ → Bool) → ℕ → SparseArray T → Type 0
  Granted calloc index a = (q : ℕ) → length a ≤ q → q ≤ index / extend_array_size → calloc q ≡ true

  -- What set leaves: the new value in its place, or an empty place when T's constructor threw, in
  -- an array long enough, when every block in its way was had; or nothing defined, after a block in
  -- its way was refused.
  abbrev pub IsStored : (ℕ → Bool) → Option T → ℕ → SparseArray T → Result T → Type 0
  IsStored calloc made index a (done b) =
      Granted calloc index a
      × (v : T) × (made ≡ some v)
      × IsUpdate a (length a + (index / extend_array_size + 1 - length a)) index (some v) b
  IsStored calloc made index a (thrown b) =
      Granted calloc index a
      × (made ≡ none)
      × IsUpdate a (length a + (index / extend_array_size + 1 - length a)) index none b
  IsStored calloc made index a undefined =
      (q : ℕ) × (calloc q ≡ false) × length a ≤ q × q ≤ index / extend_array_size

  item_of-beyond :
      (a : SparseArray T) (index : ℕ)
      → length a ≤ index / extend_array_size
      → item_of a index ≡ none
  item_of-beyond a index h =
      ap (λ o. within o (index % extend_array_size)) (get_elem?-ge a (index / extend_array_size) h)

  counted :
      (a b : SparseArray T) (m n index : ℕ) (w : Option T)
      → m ≡ n
      → IsUpdate a m index w b
      → IsUpdate a n index w b
  counted a b m n index w e (valid, long, reads) = (valid, long ∙ e, reads)

  reverted :
      (calloc : ℕ → Bool) (index : ℕ) (a b : SparseArray T) (w : Option T)
      → Granted calloc index a
      → IsUpdate a (length a + (index / extend_array_size + 1 - length a)) index w b
      → IsStored calloc none index a (revert index b)
  unfolding revert capacity
  reverted calloc index a b w had u =
      let (valid, long, reads) = u in
      let inside : index < capacity b = omega (arith, long) in
      let (item, e) = item_at b index valid inside in
      let item' : Item T = record item { enable = false } in
      rw (e, IsStored)
        (
          had,
          refl,
          overwrite a b (put_item b index item') _ _ index w none u (
              counted b (put_item b index item') _ _ index none long
                (put_item-IsUpdate b index item' valid inside)),
        )

  refused_lem :
      (calloc : ℕ → Bool) (made : Option T) (index : ℕ) (a b : SparseArray T)
      → calloc (length b) ≡ false
      → length a ≤ length b
      → length b < length a + (index / extend_array_size + 1 - length a)
      → IsStored calloc made index a (revert index b)
  unfolding revert
  refused_lem calloc made index a b refused low high =
      rw (item_of-beyond b index (omega arith), IsStored) (length b, refused, low, omega arith)

  constructed :
      (calloc : ℕ → Bool) (made : Option T) (index : ℕ) (a b : SparseArray T)
      → Granted calloc index a
      → IsValid b
      → length b ≡ length a + (index / extend_array_size + 1 - length a)
      → ((j : ℕ) → get b j ≡ get a j)
      → IsStored calloc made index a (construct made index b)
  unfolding construct capacity
  constructed calloc made index a b had v long same =
      let inside : index < capacity b = omega (arith, long) in
      let (item, e) = item_at b index v inside in rw (e, IsStored) (written made)
    where
      wrote :
          (item : Item T)
          → IsUpdate a
              (length a + (index / extend_array_size + 1 - length a))
              index
              (value_of (some item))
              (put_item b index item)
      wrote item = behind a b (put_item b index item) _ index (value_of (some item)) same (
          counted b (put_item b index item) _ _ index (value_of (some item)) long
            (put_item-IsUpdate b index item v (omega (arith, long))))

      written :
          (made : Option T)
          → IsStored calloc made index a (elim made [
            | some v ↦ done (put_item b index (record { enable = true; value = some v }))
            | none ↦ revert index (put_item b index (record { enable = true; value = none }))
          ])
      written (some v) = (had, v, refl, wrote (record { enable = true; value = some v }))
      written none =
          reverted calloc index a (put_item b index (record { enable = true; value = none })) none
            had (wrote (record { enable = true; value = none }))

  -- On a valid array: when every block between the array's end and the index is had, set either puts
  -- the new value at the index and no other index reads otherwise, or T's constructor threw, and only
  -- that index is empty behind it; when one of the blocks is refused, and only then, the clean-up
  -- reads out of range.
  pub set_value-IsStored :
      (calloc : ℕ → Bool) (made : Option T) (index : ℕ) (a : SparseArray T)
      → IsValid a
      → IsStored calloc made index a (set_value calloc made index a)
  unfolding set_value
  set_value-IsStored calloc made index a v =
      settle (extend calloc (index / extend_array_size + 1 - length a) a)
        (extend_lem calloc (index / extend_array_size + 1 - length a) a v)
    where
      settle :
          (r : Bool × SparseArray T)
          → Extended calloc (index / extend_array_size + 1 - length a) a r
          → IsStored calloc made index a
              (if r.0 then construct made index r.1 else revert index r.1)
      settle (true, b) (had, w, long, same) =
          constructed calloc made index a b (λ q low high. had q low (omega arith)) w long
            (λ j. get_lem b j w ∙ ap some (same j) ∙ sym (get_lem a j v))
      settle (false, b) (refused, low, high) = refused_lem calloc made index a b refused low high

  abbrev pub IsReset : ℕ → SparseArray T → Result T → Type 0
  IsReset index a (done b) = IsUpdate a (length a) index none b
  IsReset index a (thrown b) = ⊥
  IsReset index a undefined = ⊥

  -- Resetting an index of a valid array that holds a value empties it and no other.
  pub reset-IsReset :
      (index : ℕ) (v : T) (a : SparseArray T)
      → IsValid a
      → get a index ≡ some (some v)
      → IsReset index a (reset index a)
  unfolding get reset
  reset-IsReset index v a valid held = elim (Bool-cases (ltb index (capacity a))) [
    | inl inside ↦
        let (item, e) = item_at a index valid (ground arith) in
        let here : some (value_of (some item)) ≡ some (some v) =
          ap (λ o. some (value_of o)) (sym e) ∙ sym (get_lem a index valid) ∙ held in
        rw (e, IsReset) (emptied (ground arith) item.enable item.value here)
    | inr outside ↦ absurd (ground arith)
  ]
    where
      emptied :
          index < capacity a
          → (enable : Bool) (value : Option T)
          → some (if enable then value else none) ≡ some (some v)
          → IsReset index a
              (elim value [ none ↦ undefined | some w ↦ done (put_item a index no_item) ])
      emptied inside true none h = absurd cc
      emptied inside false none h = absurd cc
      emptied inside enable (some w) h = put_item-IsUpdate a index no_item valid inside
