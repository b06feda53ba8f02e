-- ===== src/Catalog.antt =====
-- include/pageforge/catalog.hpp and src/catalog.cpp: the definitions of tables and indexes, which are records
-- of the same store. This file has the two structs and the helpers of both formats. A reader that
-- takes an offset by reference is a function of the bytes from the offset on.
pub mod Text
pub mod Tables
pub mod Indexes
pub mod Store
use pageforge.Prelude.{
  ℕ, ◌+◌, ◌*◌, ◌^◌, Bool, true, false, not, ◌||◌, List, [], ◌∷◌, ◌++◌, map, length, ltb, ◌==◌,
  if◌then◌else◌, Result, ok, err, Exception, ◌>>=◌, ◌>>◌, throw_if, invalid_argument,
  catalog_corruption,
}
use pageforge.Bytes.{Bytes, word_bytes, append_u16, take_word, take_bytes}
use pageforge.Bytes.Compare.{eq_bytes}
use pageforge.RecordStore.{RecordId}
use pageforge.Tuple.{Schema}
use pageforge.SqlParser.Tokens.{ascii_lower}

pub record TableDefinition : Type 0 where
  pub name : Bytes
  pub schema : Schema
  pub schema_version : ℕ

pub record IndexDefinition : Type 0 where
  pub name : Bytes
  pub table : Bytes
  pub column : Bytes
  pub header_id : RecordId

abbrev pub format_version : ℕ
format_version = 1

unfoldable pub identifier_key : Bytes → Bytes
identifier_key value = map ascii_lower value

unfoldable pub append_text : Bytes → Bytes → Result Bytes
append_text output text =
    if ltb 65535 (length text)
    then err invalid_argument
    else ok (append_u16 output (length text) ++ text)

unfoldable pub read_text : Bytes → Result (Bytes × Bytes)
read_text bytes = do
  (count, rest) ← take_word catalog_corruption 2 bytes
  take_bytes catalog_corruption count rest

-- `!set.insert(value).second`, for a set that is the list of its members.
unfoldable pub contains : Bytes → List Bytes → Bool
contains value [] = false
contains value (member ∷ set) =
    let later = contains value set in if eq_bytes member value then true else later
