-- ===== src/Catalog/Text.antt =====
-- An identifier is read back.
use mathlib.Core.List.{append_assoc}
use pageforge.Prelude.{
  ℕ, ◌^◌, ◌<◌, ◌≡◌, refl, ap, arith, ◌++◌, false, length, ltb, ok, catalog_corruption,
}
use pageforge.Bytes.{Bytes, word_bytes}
use pageforge.Bytes.Words.{take_word-word_bytes, take_bytes-append}
use pageforge.Catalog.{append_text, read_text}

-- The bytes of an identifier: its size and its characters.
abbrev pub text_bytes : Bytes → Bytes
text_bytes text = word_bytes 2 0 (length text) ++ text

pub append_text-ok :
    (output text : Bytes)
    → ltb 65535 (length text) ≡ false
    → append_text output text ≡ ok (output ++ text_bytes text)
unfolding append_text
append_text-ok output text short =
    rw short (ap ok (append_assoc output (word_bytes 2 0 (length text)) text))

pub read_text-text_bytes :
    (text rest : Bytes)
    → ltb 65535 (length text) ≡ false
    → read_text (text_bytes text ++ rest) ≡ ok (text, rest)
unfolding read_text
read_text-text_bytes text rest short =
    rw
      (
        append_assoc,
        take_word-word_bytes catalog_corruption 2 (length text) (text ++ rest)
            (small (length text) short),
      )
      (take_bytes-append catalog_corruption (length text) text rest refl)
  where
    small : (n : ℕ) → ltb 65535 n ≡ false → n < 256 ^ 2
    small n h = ground arith
