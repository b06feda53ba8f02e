-- ===== src/SqlExecutor/Access.antt =====
-- src/sql_executor.cpp: `choose_index`, the index and the keys of it that a plan's predicates leave.
-- The lists are what the catalog returns.
pub mod Bounds
pub mod Names
pub mod Sound
pub mod Rows
pub mod Covers
pub mod Limit
pub mod Shape
use pageforge.Prelude.{
  ℕ, zero, suc, ◌+◌, Bool, true, false, not, ◌&&◌, ◌||◌, List, [], ◌∷◌, Option, none, some, ltb,
  ◌==◌, if◌then◌else◌, Result, ok, err, ◌>>=◌,
}
use pageforge.Prelude.Int.{ℤ, pos, negsuc, ltb_ℤ, eq_ℤ, suc_ℤ, pred_ℤ}
use pageforge.Bytes.{Bytes}
use pageforge.Bytes.Compare.{eq_bytes}
use pageforge.Tuple.{DataType, Value}
use pageforge.SqlParser.Ast.{SqlComparison, SqlPredicateKind, SqlPredicate, SqlOrder, SqlLiteral}
use pageforge.Catalog.{TableDefinition, IndexDefinition}
use pageforge.SqlExecutor.Binding.{equal_name, resolve_column, compare_integer, only_equality}

pub data SelectAccessPath : Type 0 where
  table_scan index_lookup index_range : SelectAccessPath

pub record IndexAccess : Type 0 where
  pub path : SelectAccessPath
  pub name : Bytes
  pub column : Bytes
  pub key : Option ℤ
  pub lower : Option ℤ
  pub upper : Option ℤ
  pub covered_predicates : ℕ
  pub selected_predicates : ℕ
  pub empty : Bool

abbrev pub is_integer : DataType → Bool
is_integer DataType.integer = true
is_integer type = false

unfoldable pub first_index : Bytes → Bytes → List IndexDefinition → Option IndexDefinition
first_index table column [] = none
first_index table column (index ∷ indexes) =
    let later = first_index table column indexes in
    if eq_bytes index.table table && eq_bytes index.column column then some index else later

-- The index that a predicate can use, with its literal, which is an integer then.
abbrev pub Match : Type 0
Match = Option (IndexDefinition × ℤ)

abbrev pub with_literal : ℤ → Option IndexDefinition → Match
with_literal literal none = none
with_literal literal (some index) = some (index, literal)

abbrev pub integer_literal : SqlPredicateKind → SqlLiteral → Option ℤ
integer_literal SqlPredicateKind.comparison (Value.integer literal) = some literal
integer_literal kind literal = none

unfoldable pub matching_index : List IndexDefinition → TableDefinition → SqlPredicate → Result Match
matching_index indexes table predicate = elim (integer_literal predicate.kind predicate.literal) [
  | none ↦ ok none
  | some literal ↦ do
    (position, column) ← resolve_column table.schema predicate.column
    if not (is_integer column.type)
        then ok none
        else ok (with_literal literal (first_index table.name column.name indexes))
]

-- A loop that may throw, on the state that it changes.
unfoldable pub fold {ℓ κ} : {A : Type ℓ} {S : Type κ} → (A → S → Result S) → List A → S → Result S
fold step [] state = ok state
fold step (a ∷ items) state = do state' ← step a state; fold step items state'

-- `std::find_if` by the name, and the change of what it finds, or `push_back` when it finds nothing.
unfoldable pub update_or_push :
    Bytes → (IndexAccess → IndexAccess) → IndexAccess → List IndexAccess → List IndexAccess
update_or_push name change fresh [] = fresh ∷ []
update_or_push name change fresh (access ∷ accesses) =
    let later = update_or_push name change fresh accesses in
    if eq_bytes access.name name then change access ∷ accesses else access ∷ later

unfoldable pub fresh_lookup : IndexDefinition → ℤ → IndexAccess
fresh_lookup index literal = record {
  path = SelectAccessPath.index_lookup;
  name = index.name;
  column = index.column;
  key = some literal;
  lower = none;
  upper = none;
  covered_predicates = 0;
  selected_predicates = 0;
  empty = false;
}

abbrev pub is_equal : SqlComparison → Bool
is_equal SqlComparison.equal = true
is_equal comparison = false

-- What a match does to the list of accesses.
abbrev pub on_match :
    (IndexDefinition → ℤ → List IndexAccess → List IndexAccess)
    → Match
    → List IndexAccess
    → List IndexAccess
on_match change none accesses = accesses
on_match change (some (index, literal)) accesses = change index literal accesses

unfoldable pub add_lookup : IndexDefinition → ℤ → List IndexAccess → List IndexAccess
add_lookup index literal = update_or_push index.name (λ access. access) (fresh_lookup index literal)

unfoldable pub collect_lookup :
    List IndexDefinition
    → TableDefinition
    → SqlPredicate
    → List IndexAccess
    → Result (List IndexAccess)
collect_lookup indexes table predicate lookups =
    if not (is_equal predicate.comparison)
    then ok lookups
    else do match ← matching_index indexes table predicate; ok (on_match add_lookup match lookups)

-- `compare(*lookup.key, literal, comparison)`
abbrev pub key_holds : Option ℤ → ℤ → SqlComparison → Bool
key_holds none literal comparison = true
key_holds (some key) literal comparison = compare_integer key literal comparison

unfoldable pub count_match : SqlComparison → Match → IndexAccess → IndexAccess
count_match comparison none lookup = lookup
count_match comparison (some (index, literal)) lookup =
    if not (eq_bytes index.name lookup.name) then lookup else record lookup {
      selected_predicates = lookup.selected_predicates + 1;
      covered_predicates = lookup.covered_predicates + 1;
      empty = if key_holds lookup.key literal comparison then lookup.empty else true;
    }

unfoldable pub count_lookup :
    List IndexDefinition → TableDefinition → SqlPredicate → IndexAccess → Result IndexAccess
count_lookup indexes table predicate lookup = do
  match ← matching_index indexes table predicate
  ok (count_match predicate.comparison match lookup)

unfoldable pub count_lookups :
    List IndexDefinition
    → TableDefinition
    → List SqlPredicate
    → List IndexAccess
    → Result (List IndexAccess)
count_lookups indexes table predicates [] = ok []
count_lookups indexes table predicates (lookup ∷ lookups) = do
  lookup' ← fold (count_lookup indexes table) predicates lookup
  lookups' ← count_lookups indexes table predicates lookups
  ok (lookup' ∷ lookups')

-- `std::max_element`: the first of the greatest.
unfoldable pub max_element :
    (IndexAccess → IndexAccess → Bool) → IndexAccess → List IndexAccess → IndexAccess
max_element less largest [] = largest
max_element less largest (access ∷ accesses) =
    max_element less (if less largest access then access else largest) accesses

unfoldable pub reuses_order : Option SqlOrder → IndexAccess → Bool
reuses_order none access = false
reuses_order (some order) access = equal_name access.column order.column

abbrev pub same_bool : Bool → Bool → Bool
same_bool left right = if left then right else not right

unfoldable pub less_lookup : Option SqlOrder → IndexAccess → IndexAccess → Bool
less_lookup order left right =
    if not (same_bool left.empty right.empty)
    then not left.empty
    else if not (left.selected_predicates == right.selected_predicates)
    then ltb left.selected_predicates right.selected_predicates
    else not (reuses_order order left) && reuses_order order right

-- The comparisons that bound an index from below, and those that leave out the literal itself.
abbrev pub has_lower : SqlComparison → Bool
has_lower SqlComparison.greater = true
has_lower SqlComparison.greater_equal = true
has_lower comparison = false

abbrev pub i64_max : ℤ
i64_max = pos 9223372036854775807

abbrev pub i64_min : ℤ
i64_min = negsuc 9223372036854775807

unfoldable pub impossible : SqlComparison → ℤ → Bool
impossible SqlComparison.greater key = eq_ℤ key i64_max
impossible SqlComparison.less key = eq_ℤ key i64_min
impossible comparison key = false

unfoldable pub bound_of : SqlComparison → ℤ → ℤ
bound_of SqlComparison.greater key = if impossible SqlComparison.greater key then key else suc_ℤ key
bound_of SqlComparison.less key = if impossible SqlComparison.less key then key else pred_ℤ key
bound_of comparison key = key

unfoldable pub fresh_range : SqlComparison → IndexDefinition → ℤ → IndexAccess
fresh_range comparison index key = record {
  path = SelectAccessPath.index_range;
  name = index.name;
  column = index.column;
  key = none;
  lower = if has_lower comparison then some (bound_of comparison key) else none;
  upper = if has_lower comparison then none else some (bound_of comparison key);
  covered_predicates = 1;
  selected_predicates = 1;
  empty = impossible comparison key;
}

-- The greater of a lower bound and another, and the lesser of an upper bound and another.
abbrev pub raise : Option ℤ → ℤ → Option ℤ
raise none bound = some bound
raise (some lower) bound = some (if ltb_ℤ lower bound then bound else lower)

abbrev pub reduce : Option ℤ → ℤ → Option ℤ
reduce none bound = some bound
reduce (some upper) bound = some (if ltb_ℤ bound upper then bound else upper)

abbrev pub crossed : Option ℤ → Option ℤ → Bool
crossed (some lower) (some upper) = ltb_ℤ upper lower
crossed lower upper = false

-- A range that holds no key covers every predicate that selected it.
unfoldable pub emptied : IndexAccess → IndexAccess
emptied range = record range {
  selected_predicates = range.selected_predicates + 1;
  covered_predicates = range.selected_predicates + 1;
  empty = true;
}

unfoldable pub tighten : SqlComparison → ℤ → IndexAccess → IndexAccess
unfolding emptied
tighten comparison key range =
    if range.empty || impossible comparison key
    then emptied range
    else let bound = bound_of comparison key in
      let lower = if has_lower comparison then raise range.lower bound else range.lower in
      let upper = if has_lower comparison then range.upper else reduce range.upper bound in
      if crossed lower upper
      then record (emptied range) { lower = lower; upper = upper }
      else record range {
        selected_predicates = range.selected_predicates + 1;
        covered_predicates = range.covered_predicates + 1;
        lower = lower;
        upper = upper;
      }

unfoldable pub add_range : SqlComparison → IndexDefinition → ℤ → List IndexAccess → List IndexAccess
add_range comparison index key =
    update_or_push index.name (tighten comparison key) (fresh_range comparison index key)

unfoldable pub collect_range :
    List IndexDefinition
    → TableDefinition
    → SqlPredicate
    → List IndexAccess
    → Result (List IndexAccess)
collect_range indexes table predicate ranges =
    if only_equality predicate.comparison then ok ranges else do
      match ← matching_index indexes table predicate
      ok (on_match (add_range predicate.comparison) match ranges)

abbrev pub one_if_some : Option ℤ → ℕ
one_if_some none = 0
one_if_some (some bound) = 1

abbrev pub bound_count : IndexAccess → ℕ
bound_count access = one_if_some access.lower + one_if_some access.upper

unfoldable pub less_range : Option SqlOrder → IndexAccess → IndexAccess → Bool
less_range order left right =
    if not (same_bool left.empty right.empty)
    then not left.empty
    else if not (bound_count left == bound_count right)
    then ltb (bound_count left) (bound_count right)
    else if not (left.selected_predicates == right.selected_predicates)
    then ltb left.selected_predicates right.selected_predicates
    else not (reuses_order order left) && reuses_order order right

abbrev pub greatest : (IndexAccess → IndexAccess → Bool) → List IndexAccess → Option IndexAccess
greatest less [] = none
greatest less (access ∷ accesses) = some (max_element less access accesses)

unfoldable pub choose_range :
    List IndexDefinition
    → TableDefinition
    → List SqlPredicate
    → Option SqlOrder
    → Result (Option IndexAccess)
choose_range indexes table predicates order = do
  ranges ← fold (collect_range indexes table) predicates []
  ok (greatest (less_range order) ranges)

-- The counted lookups, or the ranges when there is no lookup.
unfoldable pub choose_counted :
    List IndexDefinition
    → TableDefinition
    → List SqlPredicate
    → Option SqlOrder
    → List IndexAccess
    → Result (Option IndexAccess)
choose_counted indexes table predicates order [] = choose_range indexes table predicates order
choose_counted indexes table predicates order (lookup ∷ lookups) =
    ok (some (max_element (less_lookup order) lookup lookups))

unfoldable pub choose_index :
    List IndexDefinition
    → TableDefinition
    → List SqlPredicate
    → Option SqlOrder
    → Result (Option IndexAccess)
choose_index indexes table predicates order = do
  lookups ← fold (collect_lookup indexes table) predicates []
  counted ← count_lookups indexes table predicates lookups
  choose_counted indexes table predicates order counted
