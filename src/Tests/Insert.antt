-- ===== src/Tests/Insert.antt =====
-- Runs of inserts and of a delete.
use milvus_sql_proxy.Base.{
  ℕ, suc, ◌+◌, false, ◌≡◌, refl, List, [], ◌∷◌, ◌++◌, Bytes, codes, equal, Option, none, some, ok,
  ℤ, pos, negsuc, ok-injective,
}
use milvus_sql_proxy.Value.{Value, signed, int8, int64, string}
use milvus_sql_proxy.Ast.{
  Expr, sql_val, str_val, int_val, Insert, values, Delete, aliased_table, table_name,
}
use milvus_sql_proxy.Resultset.{
  FieldType, field_int8, field_string, field_var_char, field_float_vector, field_other,
}
use milvus_sql_proxy.Select.Filter.Meaning.{Means, holds, sql_atom}
use milvus_sql_proxy.Insert.Values.{FieldSchema, field_value, type_param}
use milvus_sql_proxy.Insert.Values.Typed.{HasType, field_value-HasType}
use milvus_sql_proxy.Insert.Columns.{
  ColumnApi, fill_insert_columns, empty_column_of, vector_column, field_map, insert_names,
}
use milvus_sql_proxy.Insert.Columns.Filled.{Lawful, Filled, fill_insert_columns-Filled}
use milvus_sql_proxy.Insert.Columns.Supplied.{IsAccepted, fill_insert_columns-IsAccepted}
use milvus_sql_proxy.Insert.{Upstream, Written, handle_insert, plan_delete}
use milvus_sql_proxy.Insert.Writes.{Outcome, handle_insert-Outcome, plan_delete-Means}
use milvus_sql_proxy.Tests.{library}
use milvus_sql_proxy.Tests.Select.{older, milvus}

-- A column is its name and its values.
abbrev pub Listed : Type 0
Listed = Bytes × List Value

abbrev pub listed : ColumnApi Listed
listed = record {
  new_column = λ t name dim. (name, []);
  append_value = λ c v. ok (c.0, c.1 ++ v ∷ []);
  column_name = λ c. c.0;
  column_values = λ c. c.1;
}

listed-new :
    (f : FieldSchema) (t : FieldType) {c : Listed}
    → empty_column_of library listed t f ≡ ok c
    → (c.0 ≡ f.name) × (c.1 ≡ [])
unfolding empty_column_of
listed-new f field_float_vector h = of_vector (type_param f (codes "dim")) h
  where
    of_vector :
        (o : Option ℤ) {c : Listed}
        → vector_column library listed f.name o ≡ ok c
        → (c.0 ≡ f.name) × (c.1 ≡ [])
    of_vector none h = cc
    of_vector (some (pos ℕ.zero)) h = cc
    of_vector (some (pos (suc n))) h = rw (← ok-injective h) (refl, refl)
    of_vector (some (negsuc n)) h = cc
listed-new f field_string h = cc
listed-new f field_other h = cc
listed-new f t h = rw (← ok-injective h) (refl, refl)

listed-Lawful : Lawful library listed
listed-Lawful = record {
  new-IsEmpty = λ f c h. listed-new f f.data_type h;
  append-adds = λ c d v h. let same = ok-injective h in (rw (← same) refl, rw (← same) refl);
}

abbrev pub plain_field : Bytes → FieldType → FieldSchema
plain_field name t = record {
  name = name;
  description = [];
  data_type = t;
  primary_key = false;
  auto_id = false;
  type_params = (codes "max_length", codes "4") ∷ [];
}

abbrev people : List FieldSchema
people = plain_field (codes "id") field_int8 ∷ plain_field (codes "n") field_var_char ∷ []

-- insert into people (n, id) values ('ab', 1), ('cd', -128)
abbrev two_rows : List (List Expr)
two_rows =
    (sql_val str_val (codes "ab") ∷ sql_val int_val (codes "1") ∷ [])
    ∷ (sql_val str_val (codes "cd") ∷ sql_val int_val (codes "-128") ∷ [])
    ∷ []

abbrev two_people : Insert
two_people = record {
  is_replace = false;
  ignore = [];
  qualifier = [];
  table = codes "people";
  partitions = [];
  columns = codes "n" ∷ codes "id" ∷ [];
  rows = values two_rows;
  on_dup = 0;
}

abbrev two_columns : List Listed
two_columns =
    (codes "n", string (codes "ab") ∷ string (codes "cd") ∷ [])
    ∷ (codes "id", signed int8 (pos 1) ∷ signed int8 (negsuc 127) ∷ [])
    ∷ []

filled : fill_insert_columns library listed people two_people ≡ ok two_columns
unfolding fill_insert_columns equal
filled = refl

fill_insert_columns-Filled_example :
    (rows : List (List Expr)) × (two_people.rows ≡ values rows)
    × Filled library listed
        (field_map [] people)
        rows
        0
        (insert_names people two_people.columns)
        two_columns
fill_insert_columns-Filled_example =
    fill_insert_columns-Filled library listed listed-Lawful people two_people two_columns filled

fill_insert_columns-IsAccepted_example : IsAccepted library listed people two_people two_rows
fill_insert_columns-IsAccepted_example =
    fill_insert_columns-IsAccepted library listed people two_people two_rows two_columns refl filled

smallest :
    field_value library (plain_field (codes "id") field_int8) (sql_val int_val (codes "-128"))
    ≡ ok (signed int8 (negsuc 127))
unfolding field_value
smallest = refl

field_value-HasType_example :
    HasType library (plain_field (codes "id") field_int8) field_int8 (signed int8 (negsuc 127))
field_value-HasType_example =
    field_value-HasType library (plain_field (codes "id") field_int8)
      (sql_val int_val (codes "-128")) (signed int8 (negsuc 127)) smallest

-- A client that counts its writes.
abbrev counting : Upstream ℕ Listed
counting = record {
  describe_collection = λ w name. (ok (some people), w);
  upsert = λ w name columns. (ok none, w + 1);
  insert = λ w name columns. (ok (some (signed int64 (pos 7))), w + 1);
  delete = λ w name filter. (ok tt, w + 1);
}

abbrev two_written : Written
two_written = record { affected_rows = 2; insert_id = 7 }

inserted : handle_insert library listed counting two_people 0 ≡ (ok two_written, 1)
unfolding handle_insert equal
inserted = refl

handle_insert-Outcome_example :
    Outcome library listed counting two_people 0
      (handle_insert library listed counting two_people 0)
handle_insert-Outcome_example =
    handle_insert-Outcome library listed counting listed-Lawful two_people 0

abbrev delete_older : Delete
delete_older = record {
  targets = [];
  table_exprs = aliased_table (table_name [] (codes "people")) [] false ∷ [];
  partitions = [];
  where_expr = some older;
  order_by = [];
  limit = none;
}

delete_planned :
    plan_delete library listed counting delete_older ≡ ok (codes "people", codes "age > 30")
unfolding plan_delete equal
delete_planned = refl

plan_delete-Means_example :
    (e : Expr) × (delete_older.where_expr ≡ some e)
    × Means library milvus (holds (sql_atom library milvus) e) (codes "age > 30")
plan_delete-Means_example =
    plan_delete-Means library listed counting milvus delete_older (codes "people")
      (codes "age > 30") delete_planned
