-- ===== src/Memtext/StorageTexts.antt =====
-- Storage commands as the text protocol writes them.
use memxy.Prelude.{
  ℕ, ◌+◌, ◌<◌, ◌%◌, ◌^◌, ◌≡◌, ◌≢◌, refl, ap, Bool, true, false, List, [], ◌∷◌, ◌++◌, length,
  length-append, length-drop, drop, arith,
}
use memxy.Memtext.{
  Command, storage, Field, flags_field, exptime_field, bytes_field, cas_unique_field, Request,
  storage_request,
}
use memxy.Memtext.Machine.{class, noreply_word}
use memxy.Memtext.Texts.{name, IsKey, IsNumeral, Fits, drop-past}

-- What may stand before the end of the line.
abbrev pub tail : Bool → List ℕ → List ℕ
tail false rest = b'\r' ∷ (b'\n' ∷ rest)
tail true rest = b' ' ∷ (noreply_word ++ (b'\r' ∷ (b'\n' ∷ rest)))

-- A storage command with the texts of its numbers.
pub record Storage : Type 0 where
  pub command : Command
  pub key : List ℕ
  pub flags_text : List ℕ
  pub flags : ℕ
  pub exptime_text : List ℕ
  pub exptime : ℕ
  pub bytes_text : List ℕ
  pub data_bytes : List ℕ
  pub noreply : Bool

-- It is one of the grammar, its data block is not empty and as long as it says, and its numbers fit
-- their fields.
pub record IsStorage (x : Storage) : Type 0 where
  pub is_storage : class x.command ≡ storage
  pub is_key : IsKey x.key
  pub is_flags : IsNumeral x.flags_text x.flags
  pub is_exptime : IsNumeral x.exptime_text x.exptime
  pub is_bytes : IsNumeral x.bytes_text (length x.data_bytes)
  pub has_data : x.data_bytes ≢ []
  pub flags_fit : x.flags < 2 ^ 64
  pub exptime_fits : x.exptime < 2 ^ 32

-- As it is written, in front of `rest`.
abbrev pub text_behind_key : Storage → List ℕ → List ℕ
text_behind_key x rest =
    x.flags_text
    ++ (b' '
        ∷ (x.exptime_text
            ++ (b' '
                ∷ (x.bytes_text ++ tail x.noreply (x.data_bytes ++ (b'\r' ∷ (b'\n' ∷ rest)))))))

abbrev pub storage_text : Storage → List ℕ → List ℕ
storage_text x rest = name x.command ++ (b' ' ∷ (x.key ++ (b' ' ∷ text_behind_key x rest)))

-- The request that it asks for; a callback gets 16 bits of the flags.
abbrev pub requested : Storage → Request
requested x = storage_request x.key x.data_bytes (x.flags % 2 ^ 16) x.exptime x.noreply

pub at-lt : (d w : List ℕ) (p x : ℕ) (xs : List ℕ) → drop p d ≡ w ++ (x ∷ xs) → p < length d
at-lt d w p x xs at = omega (arith, length-drop p d, ap length at, length-append w (x ∷ xs))

pub tail-append : (reply : Bool) (rest : List ℕ) → tail reply rest ≡ tail reply [] ++ rest
tail-append false rest = refl
tail-append true rest = refl

pub length_nonzero : (bs : List ℕ) → bs ≢ [] → length bs ≢ 0
length_nonzero [] ne e = ne refl
length_nonzero (b ∷ bs) ne e = omega (arith, e)

-- The positions of a piece and of the byte behind it.
pub drop_space :
    (d w rest : List ℕ) (p b : ℕ) → drop p d ≡ w ++ (b ∷ rest) → drop (p + length w + 1) d ≡ rest
drop_space d w rest p b at =
    drop-past d (b ∷ []) rest (p + length w) (drop-past d w (b ∷ rest) p at)

Fits-small : (f : Field) (n : ℕ) → n < 2 ^ 32 → Fits f n
Fits-small flags_field n h = omega (arith, h)
Fits-small exptime_field n h = h
Fits-small bytes_field n h = omega (arith, h)
Fits-small cas_unique_field n h = omega (arith, h)
