-- ===== src/Parameters.antt =====
-- pkg/parameters.go: the types of the parameters of a statement, from the columns that they stand
-- beside. The parser and its walk over a statement are parameters.
pub mod Kept
use milvus_sql_proxy.Base.{
  ℕ, zero, suc, ◌+◌, Bool, false, ◌&&◌, ◌||◌, List, [], ◌∷◌, ◌++◌, map, Bytes, codes, equal, ◌==◌,
  is_empty, get_elem?, set, Option, none, some, if◌then◌else◌, ℤ, pos, Result, ok, err,
}
use milvus_sql_proxy.Base.Exec.{Exec, pure, lift, ◌>>=◌, ◌>>◌}
use milvus_sql_proxy.Error.{Error}
use milvus_sql_proxy.Decimal.{atoi, parse_int, format_uint}
use milvus_sql_proxy.Value.{Value, string}
use milvus_sql_proxy.Ast.{
  Expr, col_name, sql_val, val_tuple, Exprs, nil, cons, table_name, TableExpr, aliased_table, Limit,
  InsertRows, values, other_rows, is_blank,
}
use milvus_sql_proxy.Bind.{postgres, bind_sql}
use milvus_sql_proxy.Wire.{pg_oid}
use milvus_sql_proxy.Postgres.Dictionary.{lookup}
use milvus_sql_proxy.Resultset.{result_field}
use milvus_sql_proxy.Insert.Values.{FieldSchema}
use milvus_sql_proxy.Insert.Columns.{field_map, insert_names}
use milvus_sql_proxy.Select.Run.{schema_or_error}
use milvus_sql_proxy.Commands.Patterns.{upsert_pattern}
use milvus_sql_proxy.Query.Statements.{Statement, select_stmt, insert_stmt, delete_stmt}
use milvus_sql_proxy.Query.{Backends}

-- The nodes that the walk shows and that are looked at.
pub data Visited : Type 0 where
  -- the two sides
  seen_comparison : Expr → Expr → Visited
  seen_limit : Limit → Visited

-- `sqlparser.Parse`, and the nodes that `sqlparser.Walk` shows of a statement, in order.
pub record Syntax : Type 0 where
  pub parse : Bytes → Result Error Statement
  pub walk : Statement → List Visited

-- `fmt.Sprintf("__milvus_param_%d__", i+1)`, for the parameters from number `n` on.
abbrev pub placeholder : ℕ → Value
placeholder n = string (codes "__milvus_param_" ++ (format_uint n ++ codes "__"))

unfoldable pub placeholders : ℕ → List ℕ → List Value
unfolding format_uint
placeholders n [] = []
placeholders n (oid ∷ oids) = placeholder n ∷ placeholders (n + 1) oids

abbrev pub plain_table_name : List TableExpr → Bytes
plain_table_name (aliased_table (table_name qualifier name) alias hints ∷ []) = name
plain_table_name _ = []

-- The table of a statement, empty if there is none.
unfoldable pub table_of : Statement → Bytes
table_of (select_stmt s) = plain_table_name s.from
table_of (insert_stmt s) = s.table
table_of (delete_stmt s) = plain_table_name s.table_exprs
table_of _ = []

-- What is behind a prefix.
unfoldable pub strip_prefix : Bytes → Bytes → Option Bytes
strip_prefix [] s = some s
strip_prefix (p ∷ ps) [] = none
strip_prefix (p ∷ ps) (c ∷ s) = if p == c then strip_prefix ps s else none

abbrev pub is_underscores : ℕ → ℕ → Bool
is_underscores a b = a == b'_' && b == b'_'

-- `strings.HasSuffix(s, "__")`
unfoldable pub ends_in_underscores : Bytes → Bool
ends_in_underscores [] = false
ends_in_underscores (a ∷ []) = false
ends_in_underscores (a ∷ b ∷ []) = is_underscores a b
ends_in_underscores (a ∷ b ∷ c ∷ s) = ends_in_underscores (b ∷ c ∷ s)

-- `strings.TrimSuffix(s, "__")`
unfoldable pub trim_underscores : Bytes → Bytes
trim_underscores [] = []
trim_underscores (a ∷ []) = a ∷ []
trim_underscores (a ∷ b ∷ []) = if is_underscores a b then [] else a ∷ b ∷ []
trim_underscores (a ∷ b ∷ c ∷ s) = a ∷ trim_underscores (b ∷ c ∷ s)

abbrev pub number_in : Option Bytes → Option ℤ
number_in none = none
number_in (some text) = atoi (trim_underscores text)

-- The number of the placeholder that a literal's text is, if it is one.
unfoldable pub placeholder_number : Bytes → Option ℤ
unfolding ends_in_underscores strip_prefix trim_underscores parse_int
placeholder_number text =
    if ends_in_underscores text
    then number_in (strip_prefix (codes "__milvus_param_") text)
    else none

abbrev pub is_unset : Option ℕ → Bool
is_unset none = false
is_unset (some oid) = oid == 0

abbrev pub set_number : Option ℤ → ℕ → List ℕ → List ℕ
set_number (some (pos (suc i))) oid oids =
    if is_unset (get_elem? oids i) then set oids i oid else oids
set_number _ oid oids = oids

-- `set`
unfoldable pub set_type : Expr → ℕ → List ℕ → List ℕ
unfolding placeholder_number
set_type (sql_val kind text) oid oids = set_number (placeholder_number text) oid oids
set_type _ oid oids = oids

unfoldable pub set_types : Exprs → ℕ → List ℕ → List ℕ
unfolding set_type
set_types nil oid oids = oids
set_types (cons e es) oid oids = set_types es oid (set_type e oid oids)

-- `fieldOID`
unfoldable pub field_oid : Option FieldSchema → ℕ
unfolding result_field pg_oid
field_oid none = 25
field_oid (some f) = pg_oid (result_field f.name f.data_type).type

abbrev pub set_tuple : Expr → ℕ → List ℕ → List ℕ
set_tuple (val_tuple es) oid oids = set_types es oid oids
set_tuple _ oid oids = oids

module _ (fields : List (Bytes × FieldSchema)) where
  -- A comparison with a column on the left, and with one on the right.
  abbrev pub set_right : Expr → Expr → List ℕ → List ℕ
  set_right (col_name qualifier name) right oids =
      let oid = field_oid (lookup name fields) in set_tuple right oid (set_type right oid oids)
  set_right _ right oids = oids

  abbrev pub set_left : Expr → Expr → List ℕ → List ℕ
  set_left left (col_name qualifier name) oids = set_type left (field_oid (lookup name fields)) oids
  set_left left _ oids = oids

  abbrev pub set_offset : Option Expr → List ℕ → List ℕ
  set_offset none oids = oids
  set_offset (some e) oids = set_type e 20 oids

  unfoldable pub visit : Visited → List ℕ → List ℕ
  unfolding set_type set_types field_oid lookup
  visit (seen_comparison left right) oids = set_left left right (set_right left right oids)
  visit (seen_limit l) oids = set_offset l.offset (set_type l.rowcount 20 oids)

  unfoldable pub visit_all : List Visited → List ℕ → List ℕ
  unfolding visit
  visit_all [] oids = oids
  visit_all (v ∷ vs) oids = visit_all vs (visit v oids)

  -- A row of an INSERT, beside the names of its columns.
  unfoldable pub visit_row : List Bytes → List Expr → List ℕ → List ℕ
  unfolding set_type field_oid lookup
  visit_row (n ∷ ns) (e ∷ es) oids = visit_row ns es (set_type e (field_oid (lookup n fields)) oids)
  visit_row _ _ oids = oids

  unfoldable pub visit_rows : List Bytes → List (List Expr) → List ℕ → List ℕ
  unfolding visit_row
  visit_rows names [] oids = oids
  visit_rows names (row ∷ rows) oids = visit_rows names rows (visit_row names row oids)

  abbrev pub visit_values : List Bytes → InsertRows → List ℕ → List ℕ
  visit_values names (values rows) oids = visit_rows names rows oids
  visit_values names other_rows oids = oids

  abbrev pub visit_insert : Statement → Option (List FieldSchema) → List ℕ → List ℕ
  visit_insert (insert_stmt s) (some schema) oids =
      visit_values (insert_names schema s.columns) s.rows oids
  visit_insert _ _ oids = oids

abbrev pub or_text : ℕ → ℕ
or_text zero = 25
or_text (suc n) = suc n

-- A parameter that nothing says the type of is text.
abbrev pub default_types : List ℕ → List ℕ
default_types = map or_text

abbrev pub fields_of : Option (List FieldSchema) → List (Bytes × FieldSchema)
fields_of none = []
fields_of (some schema) = field_map [] schema

-- The types of a statement's parameters, with the schema of its table.
unfoldable pub statement_types : Syntax → Statement → Option (List FieldSchema) → List ℕ → List ℕ
unfolding visit_all visit_rows insert_names field_map
statement_types syntax s schema oids =
    default_types
      (visit_insert (fields_of schema) s schema (visit_all (fields_of schema) (syntax.walk s) oids))

module _ {W C : Type 0} (b : Backends W C) (syntax : Syntax) where
  abbrev pub table_schema : Bytes → Exec W (Option (List FieldSchema))
  table_schema table =
      if is_blank table || equal table (codes "dual")
      then pure none
      else (b.milvus.reads.describe_collection table >>= λ found.
          lift (schema_or_error found) >>= λ schema. pure (some schema))

  abbrev pub parsed_types : List ℕ → Result Error Statement → Exec W (List ℕ)
  parsed_types oids (err e) = pure (default_types oids)
  parsed_types oids (ok s) = do
    schema ← table_schema (table_of s)
    pure (statement_types syntax s schema oids)

  abbrev pub bound_types : Bytes → List ℕ → Exec W (List ℕ)
  bound_types q oids = do
    bound ← lift (bind_sql b.library q postgres (placeholders 1 oids) false)
    parsed_types oids
        (syntax.parse (b.regexps.replace_all upsert_pattern bound.0 (codes "REPLACE INTO")))

  -- `parameterOIDs`
  unfoldable pub parameter_oids : Bytes → List ℕ → Exec W (List ℕ)
  unfolding bind_sql placeholders statement_types table_of equal
  parameter_oids q oids = if is_empty oids then pure oids else bound_types q oids
