-- ===== src/Memtext/Lines.antt =====
-- Several commands in one call of memtext_execute, src/memproto/memtext.rl.
use memxy.Prelude.{
  ℕ, ◌+◌, ◌<◌, ◌^◌, ◌≡◌, refl, sym, ap, subst, ◌∙◌, true, List, [], ◌∷◌, ◌++◌, length,
  length-append, drop, All, ltb, arith,
}
use memxy.Memtext.{Command, retrieval, State, done, Parser, Request, retrieval_request}
use memxy.Memtext.Machine.{
  Callbacks, Step, next, refused, undefined, Executed, executed, parse_error, out_of_bounds, class,
  step_in, run, execute,
}
use memxy.Memtext.Pieces.{Ready, behind}
use memxy.Memtext.Texts.{name, IsKey}
use memxy.Memtext.RoundTrip.{Accepts, run-storage}
use memxy.Memtext.StorageTexts.{Storage, IsStorage, storage_text, text_behind_key, requested}
use memxy.Memtext.Keys.{run-retrieval}
use memxy.Memtext.KeyTexts.{keys_text}

-- A command, to store or to retrieve.
pub data Line : Type 0 where
  storage_line : Storage → Line
  retrieval_line : Command → (key : List ℕ) → (keys : List (List ℕ)) → Line

-- It is one of the grammar; a get has at most 256 keys.
abbrev pub IsLine : Line → Type 0
IsLine (storage_line x) = IsStorage x
IsLine (retrieval_line command key keys) =
    (class command ≡ retrieval) × IsKey key × All IsKey keys × (length keys < 256)

abbrev pub line_command : Line → Command
line_command (storage_line x) = x.command
line_command (retrieval_line command key keys) = command

abbrev pub line_request : Line → Request
line_request (storage_line x) = requested x
line_request (retrieval_line command key keys) = retrieval_request (key ∷ keys)

-- As it is written, in front of `rest`.
abbrev pub line_text : Line → List ℕ → List ℕ
line_text (storage_line x) rest = storage_text x rest
line_text (retrieval_line command key keys) rest =
    name command ++ (b' ' ∷ (key ++ keys_text keys rest))

abbrev pub lines_text : List Line → List ℕ
lines_text [] = []
lines_text (l ∷ ls) = line_text l (lines_text ls)

module _ {U : Type 0} (cb : Callbacks U) (d : List ℕ) where
  -- The callbacks accept the requests of the commands, one after another.
  pub data AcceptsAll : List Line → U → U → Type 0 where
    accepts_none : {u : U} → AcceptsAll [] u u
    accepts_next :
        {l : Line} {ls : List Line} {u u' u'' : U}
        → Accepts cb d (line_command l) (line_request l) u u'
        → AcceptsAll ls u' u''
        → AcceptsAll (l ∷ ls) u u''

  run-line :
      (l : Line) {st : State} (p : ℕ) (rest : List ℕ) (c : Parser) (u u' : U)
      → IsLine l
      → Ready st
      → length d < 2 ^ 32
      → drop p d ≡ line_text l rest
      → Accepts cb d (line_command l) (line_request l) u u'
      → (q : ℕ) × (c' : Parser) × (drop q d ≡ rest)
        × (run cb d p (line_text l rest) (record c { cs = st }) u
            ≡ run cb d q rest (record c' { cs = done }) u')
  run-line (storage_line x) p rest c u u' v r small at acc =
      run-storage cb d x p rest c u u' v r small at acc
  run-line (retrieval_line command key keys) p rest c u u' (e, k, ks, few) r small at acc =
      run-retrieval cb d command p key keys rest c u u' e r k ks few at acc

  -- Behind a command.
  run-lines :
      (ls : List Line) (p : ℕ) (c : Parser) (u u' : U)
      → All IsLine ls
      → length d < 2 ^ 32
      → drop p d ≡ lines_text ls
      → AcceptsAll ls u u'
      → (q : ℕ) × (c' : Parser) × (run cb d p (lines_text ls) (record c { cs = done }) u
          ≡ run cb d q [] (record c' { cs = done }) u')
  run-lines [] p c u _ v small at accepts_none = (p, c, refl)
  run-lines (l ∷ ls) p c u u' (v, vs) small at (accepts_next acc accs) =
      let (q, c', here, runs) = run-line l p (lines_text ls) c u _ v behind small at acc in
      let (q', c'', runs') = run-lines ls q c' _ u' vs small here accs in (q', c'', runs ∙ runs')

  -- The machine goes to the end of the bytes unless it fails.
  abbrev GoesTo : ℕ → Executed U → Type 0
  GoesTo n (executed final off c u) = off ≡ n
  GoesTo n (parse_error u) = Unit
  GoesTo n out_of_bounds = Unit

  run-GoesTo :
      (bs : List ℕ) (p : ℕ) (c : Parser) (u : U) → GoesTo (p + length bs) (run cb d p bs c u)
  unfolding run
  run-GoesTo [] p c u = omega arith
  run-GoesTo (b ∷ bs) p c u =
      let e : p + length (b ∷ bs) ≡ p + 1 + length bs = omega arith in
      subst (λ n. GoesTo n (run cb d p (b ∷ bs) c u)) (sym e)
        (go (step_in cb c.cs d p b c u) (λ c' u'. run-GoesTo bs (p + 1) c' u'))
    where
      go :
          (s : Step U)
          → ((c' : Parser) (u' : U) → GoesTo (p + 1 + length bs) (run cb d (p + 1) bs c' u'))
          → GoesTo (p + 1 + length bs) (elim s [
            | next c' u' ↦ run cb d (p + 1) bs c' u'
            | refused u' ↦ parse_error u'
            | undefined ↦ out_of_bounds
          ])
      go (next c' u') k = k c' u'
      go (refused u') k = tt
      go undefined k = tt

  execute-run :
      (q : ℕ) (c c' : Parser) (u u' : U)
      → 0 < length d
      → run cb d 0 d c u ≡ executed true q c' u'
      → execute cb d 0 c u ≡ executed true (length d) c' u'
  unfolding execute
  execute-run q c c' u u' some_bytes e =
      let at : q ≡ length d =
        subst (GoesTo (length d)) e
          (subst (λ n. GoesTo n (run cb d 0 d c u)) (omega arith) (run-GoesTo d 0 c u)) in
      let inside : ltb 0 (length d) ≡ true = ground arith in
      rw (inside) (e ∙ ap (λ n. executed true n c' u') at)

line_text_long : (l : Line) (rest : List ℕ) → 0 < length (line_text l rest)
line_text_long (storage_line x) rest =
    omega
      (arith, length-append (name x.command) (b' ' ∷ (x.key ++ (b' ' ∷ text_behind_key x rest))))
line_text_long (retrieval_line command key keys) rest =
    omega (arith, length-append (name command) (b' ' ∷ (key ++ keys_text keys rest)))

-- A call where a command may begin, on fewer than 2^32 bytes, which hold storage commands, with
-- data blocks that are not empty, flags below 2^64 and expirations below 2^32, and retrieval
-- commands of at most 256 keys, at least one command, and nothing else: when the callbacks accept
-- the requests of the commands one after another, the call makes these calls of them and returns 1,
-- its offset is the end of the bytes, and another command may begin. A request has the keys, the
-- data block, the expiration and noreply as they were written, but of the flags only the low 16
-- bits.
pub execute-lines :
    {U : Type 0} (cb : Callbacks U) (l : Line) (ls : List Line) {st : State} (c : Parser) (u u' : U)
    → All IsLine (l ∷ ls)
    → Ready st
    → length (lines_text (l ∷ ls)) < 2 ^ 32
    → AcceptsAll cb (lines_text (l ∷ ls)) (l ∷ ls) u u'
    → (c' : Parser) × (execute cb (lines_text (l ∷ ls)) 0 (record c { cs = st }) u
        ≡ executed true (length (lines_text (l ∷ ls))) (record c' { cs = done }) u')
unfolding run
execute-lines cb l ls {st} c u u'' (v, vs) r small (accepts_next acc accs) =
    let d = lines_text (l ∷ ls) in
    let (q, c1, here, first_run) = run-line cb d l 0 (lines_text ls) c u _ v r small refl acc in
    let (q', c', runs) = run-lines cb d ls q c1 _ u'' vs small here accs in
    (
      c',
      execute-run cb d q' (record c { cs = st }) (record c' { cs = done }) u u''
          (line_text_long l (lines_text ls)) (first_run ∙ runs),
    )
