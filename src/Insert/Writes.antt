-- ===== src/Insert/Writes.antt =====
-- What an insert and a delete ask of the Milvus client.
use milvus_sql_proxy.Base.{
  ℕ, ℤ, pos, negsuc, ◌≢◌, [], length, sym, ◌⊎◌, inl, inr, Bool, subst, true, false, ◌≡◌, refl, ap,
  List, Bytes, Option, none, some, if◌then◌else◌, Result, ok, err, >>=-eq-ok, refuse-eq-ok,
  ok-injective, ◌∙◌,
}
use milvus_sql_proxy.Error.{Error, unsupported_insert, unsupported_delete, no_schema}
use milvus_sql_proxy.Value.{Library, Value, signed, int64}
use milvus_sql_proxy.Ast.{Expr, Insert, values, Delete}
use milvus_sql_proxy.Select.Filter.Meaning.{Milvus, holds, sql_atom, Means, scalar_filter-Means}
use milvus_sql_proxy.Insert.Values.{FieldSchema}
use milvus_sql_proxy.Insert.Columns.{ColumnApi, fill_insert_columns, field_map, insert_names}
use milvus_sql_proxy.Insert.Columns.Filled.{Lawful, Filled, fill_insert_columns-Filled}
use milvus_sql_proxy.Insert.Columns.Supplied.{IsAccepted, fill_insert_columns-IsAccepted}
use milvus_sql_proxy.Insert.{
  Upstream, Written, row_count, first_id, has_unsupported_insert, written, write_columns,
  insert_with, handle_insert, has_unsupported_delete, delete_table, filter_of, plan_delete,
}

-- The identifier that a write gave, as a result has it: a natural number of an int64, else 0.
pub data Identifies : Option Value → ℕ → Type 0 where
  no_identifier : Identifies none 0
  natural : (n : ℕ) → Identifies (some (signed int64 (pos n))) n
  negative : (n : ℕ) → Identifies (some (signed int64 (negsuc n))) 0
  no_int64 : (v : Value) → ((i : ℤ) → v ≢ signed int64 i) → Identifies (some v) 0

-- The answer of a write of rows, and the result that goes to the client.
pub data Reports (rows : List (List Expr))
    : Result Error (Option Value) → Result Error Written → Type 0 where
  refused : (e : Error) → Reports rows (err e) (err e)
  reports :
      (id : Option Value) (n : ℕ)
      → Identifies id n
      → Reports rows (ok id) (ok (record { affected_rows = length rows; insert_id = n }))

first_id-Identifies : (id : Option Value) → Identifies id (first_id id)
first_id-Identifies none = no_identifier
first_id-Identifies (some (signed int64 (pos n))) = natural n
first_id-Identifies (some (signed int64 (negsuc n))) = negative n
first_id-Identifies (some _) = no_int64 _ (λ i e. cc)

module _ {W C : Type 0} (lib : Library) (api : ColumnApi C) (up : Upstream W C) where
  -- What an insert of `rows` asks, of a collection that has `schema`, and how it ends.
  pub record IsWritten (s : Insert) (w : W) (result : Result Error Written) (after : W)
      : Type 0 where
    pub supported : has_unsupported_insert lib api up s ≡ false
    pub schema : List FieldSchema
    pub described : W
    pub rows : List (List Expr)
    pub columns : List C
    pub answer : Result Error (Option Value)
    pub describes : up.describe_collection w s.table ≡ (ok (some schema), described)
    pub has_rows : s.rows ≡ values rows
    pub accepted : IsAccepted lib api schema s rows
    pub filled : Filled lib api (field_map [] schema) rows 0 (insert_names schema s.columns) columns
    pub writes :
        (if s.is_replace
          then up.upsert described s.table columns
          else up.insert described s.table columns)
        ≡ (answer, after)
    pub reports : Reports rows answer result

  -- Why nothing is written, by what the description of the collection is.
  abbrev pub Blocks : Insert → Result Error (Option (List FieldSchema)) → Type 0
  Blocks s (ok (some schema)) = (e : Error) × (fill_insert_columns lib api schema s ≡ err e)
  Blocks s _ = Unit

  -- Nothing is written: the statement is not supported, or the collection is described and cannot
  -- take it.
  abbrev pub IsUnwritten : Insert → W → Result Error Written → W → Type 0
  IsUnwritten s w result after =
      ((e : Error) × (result ≡ err e))
      × (((has_unsupported_insert lib api up s ≡ true) × (after ≡ w))
          ⊎ (Blocks s (up.describe_collection w s.table).0
              × (after ≡ (up.describe_collection w s.table).1)))

  abbrev pub Outcome : Insert → W → Result Error Written × W → Type 0
  Outcome s w x = IsUnwritten s w x.0 x.1 ⊎ IsWritten s w x.0 x.1

  columns-Outcome :
      (l : Lawful lib api) (s : Insert) (w d : W) (schema : List FieldSchema)
      (c : Result Error (List C))
      → has_unsupported_insert lib api up s ≡ false
      → up.describe_collection w s.table ≡ (ok (some schema), d)
      → fill_insert_columns lib api schema s ≡ c
      → Outcome s w (write_columns lib api up s d c)
  columns-Outcome l s w d schema (err e) supported ed ef =
      inl ((e, refl), inr (rw ed (e, ef), ap (λ x. x.1) (sym ed)))
  columns-Outcome l s w d schema (ok columns) supported ed ef =
      let (rows, er, filled) = fill_insert_columns-Filled lib api l schema s columns ef in
      inr (by_write rows er filled _ refl)
    where
      by_write :
          (rows : List (List Expr))
          → s.rows ≡ values rows
          → Filled lib api (field_map [] schema) rows 0 (insert_names schema s.columns) columns
          → (o : Result Error (Option Value) × W)
          → (if s.is_replace then up.upsert d s.table columns else up.insert d s.table columns) ≡ o
          → IsWritten s w (written lib api up s o).0 (written lib api up s o).1
      by_write rows er filled (err e, v) eo = record {
        supported = supported;
        schema = schema;
        described = d;
        rows = rows;
        columns = columns;
        answer = err e;
        describes = ed;
        has_rows = er;
        accepted = fill_insert_columns-IsAccepted lib api schema s rows columns er ef;
        filled = filled;
        writes = eo;
        reports = refused e;
      }
      by_write rows er filled (ok id, v) eo = record {
        supported = supported;
        schema = schema;
        described = d;
        rows = rows;
        columns = columns;
        answer = ok id;
        describes = ed;
        has_rows = er;
        accepted = fill_insert_columns-IsAccepted lib api schema s rows columns er ef;
        filled = filled;
        writes = eo;
        reports =
            subst
              (λ r.
                Reports rows (ok id)
                  (ok (record { affected_rows = row_count r; insert_id = first_id id })))
              (sym er) (reports id (first_id id) (first_id-Identifies id));
      }

  schema-Outcome :
      (l : Lawful lib api) (s : Insert) (w : W) (o : Result Error (Option (List FieldSchema)) × W)
      → has_unsupported_insert lib api up s ≡ false
      → up.describe_collection w s.table ≡ o
      → Outcome s w (insert_with lib api up s o)
  schema-Outcome l s w (err e, d) supported ed =
      inl ((e, refl), inr (rw ed tt, ap (λ x. x.1) (sym ed)))
  schema-Outcome l s w (ok none, d) supported ed =
      inl ((no_schema, refl), inr (rw ed tt, ap (λ x. x.1) (sym ed)))
  schema-Outcome l s w (ok (some schema), d) supported ed =
      columns-Outcome l s w d schema _ supported ed refl

  -- Each INSERT or REPLACE comes to one of two ends. Either it fails with nothing written: it has a
  -- clause that is not supported, and nothing is called; or the collection has been described, and
  -- has no schema or one that its columns cannot be filled for. Or its columns are written once, by
  -- an upsert for a REPLACE and by an insert otherwise: they hold just the values of its rows in
  -- their order, which supply each field that they must; and it returns the error of the write, or
  -- else the number of its rows and the first identifier that the write gave, 0 if that is no
  -- natural int64. The client's columns are lawful.
  pub handle_insert-Outcome :
      (l : Lawful lib api) (s : Insert) (w : W) → Outcome s w (handle_insert lib api up s w)
  unfolding handle_insert
  handle_insert-Outcome l s w = by_clauses (has_unsupported_insert lib api up s) refl
    where
      by_clauses :
          (b : Bool)
          → has_unsupported_insert lib api up s ≡ b
          → Outcome s w (
              if b
              then (err unsupported_insert, w)
              else insert_with lib api up s (up.describe_collection w s.table))
      by_clauses true e = inl ((unsupported_insert, refl), inl (e, refl))
      by_clauses false e = schema-Outcome l s w (up.describe_collection w s.table) e refl

  -- The filter of a DELETE that is accepted means its WHERE clause, which it must have: the filter
  -- is the print of a Milvus filter that holds just where the clause does, whatever Milvus takes
  -- its comparisons to be.
  pub plan_delete-Means :
      (m : Milvus) (s : Delete) (table filter : Bytes)
      → plan_delete lib api up s ≡ ok (table, filter)
      → (e : Expr) × (s.where_expr ≡ some e) × Means lib m (holds (sql_atom lib m) e) filter
  unfolding plan_delete
  plan_delete-Means m s table filter h =
      let (allowed, h') =
        refuse-eq-ok (has_unsupported_delete lib api up s) unsupported_delete _ h in
      let (t, et, h'') = >>=-eq-ok (delete_table s.table_exprs) _ h' in
      let (f, ef, h3) = >>=-eq-ok (filter_of lib api up s.where_expr) _ h'' in
      by_where s.where_expr (ef ∙ ap (λ x. ok (x.1)) (ok-injective h3))
    where
      by_where :
          (o : Option Expr)
          → filter_of lib api up o ≡ ok filter
          → (e : Expr) × (o ≡ some e) × Means lib m (holds (sql_atom lib m) e) filter
      by_where none h = cc
      by_where (some e) h = (e, refl, scalar_filter-Means lib m e h)
