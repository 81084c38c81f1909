-- ===== src/Editor/Buffer/Positions.antt =====
-- Byte offsets in src/app/ui/text_buffer.rs.
use personal_productivity_ai.Common.{
  ℕ, zero, suc, ◌+◌, ◌≡◌, refl, ap, ◌∙◌, [], ◌∷◌, ◌++◌, take, drop, take-append-drop, arith,
}
use personal_productivity_ai.Common.Text.{Text}
use personal_productivity_ai.Editor.Buffer.{len_utf8, byte_len, nth_offset, byte_index, or_len}

nth_offset_lem :
    (i n : ℕ) (s : Text) → or_len (i + byte_len s) (nth_offset i n s) ≡ i + byte_len (take n s)
unfolding nth_offset byte_len
nth_offset_lem i zero [] = refl
nth_offset_lem i (suc n) [] = refl
nth_offset_lem i zero (c ∷ s) = omega arith
nth_offset_lem i (suc n) (c ∷ s) =
    ap (λ k. or_len k (nth_offset (i + len_utf8 c) n s)) {x = i + (len_utf8 c + byte_len s)}
      {y = i + len_utf8 c + byte_len s} (omega arith)
    ∙ nth_offset_lem (i + len_utf8 c) n s
    ∙ omega arith

-- The byte index of a character is the length in bytes of the characters before it; an index past
-- the end is the length of the whole text.
pub byte_index-eq : (s : Text) (n : ℕ) → byte_index s n ≡ byte_len (take n s)
unfolding byte_index
byte_index-eq s n =
    ap (λ k. or_len k (nth_offset 0 n s)) {x = byte_len s} (omega arith)
    ∙ nth_offset_lem 0 n s
    ∙ omega arith

byte_len-append : (s t : Text) → byte_len (s ++ t) ≡ byte_len s + byte_len t
unfolding byte_len
byte_len-append [] t = omega arith
byte_len-append (c ∷ s) t = omega (arith, byte_len-append s t)

-- So a text can be cut there: the bytes before the index and those of the rest are all its bytes.
pub byte_index-split : (s : Text) (n : ℕ) → byte_index s n + byte_len (drop n s) ≡ byte_len s
byte_index-split s n = omega (
  arith,
  byte_index-eq s n,
  byte_len-append (take n s) (drop n s),
  ap byte_len (take-append-drop n s),
)
