-- ===== src/Insert/Columns/Filled.antt =====
-- The columns of an insert hold the values of its rows.
use milvus_sql_proxy.Base.{
  ℕ, ◌+◌, ◌≡◌, ap, List, [], ◌∷◌, ◌++◌, append_assoc, append-nil, Bytes, get_elem?, Option, none,
  some, Result, ok, err, >>=-eq-ok, refuse-eq-ok, ok-injective, ◌∙◌, length, sym, ◌&&◌,
}
use milvus_sql_proxy.Error.{Error, upsert_auto_id}
use milvus_sql_proxy.Value.{Library, Value}
use milvus_sql_proxy.Ast.{Expr, Insert, InsertRows, values, other_rows}
use milvus_sql_proxy.Postgres.Dictionary.{lookup}
use milvus_sql_proxy.Insert.Values.{FieldSchema, field_value}
use milvus_sql_proxy.Insert.Columns.{
  ColumnApi, field_map, insert_names, check_names, check_missing, check_lengths, wrap, or_panic,
  empty_column, fill_column, fill_columns, fill_insert_columns, values_rows, has_auto_id,
}

module _ {C : Type 0} (lib : Library) (api : ColumnApi C) where
  -- What the client's columns do: a new one is empty, and an append that succeeds adds one value.
  pub record Lawful : Type 0 where
    pub new-IsEmpty :
        (f : FieldSchema) (c : C)
        → empty_column lib api f ≡ ok c
        → (api.column_name c ≡ f.name) × (api.column_values c ≡ [])
    pub append-adds :
        (c d : C) (v : Value)
        → api.append_value c v ≡ ok d
        → (api.column_name d ≡ api.column_name c)
          × (api.column_values d ≡ api.column_values c ++ v ∷ [])

  -- The values are those that the field takes from position `j` of the rows, in their order.
  abbrev pub Cells : FieldSchema → ℕ → List (List Expr) → List Value → Type 0
  Cells f j [] [] = Unit
  Cells f j (row ∷ rows) (v ∷ vs) =
      ((e : Expr) × (get_elem? row j ≡ some e) × (field_value lib f e ≡ ok v)) × Cells f j rows vs
  Cells f j _ _ = ⊥

  -- One column for each name, from position `j` on, with its field's name and its values.
  abbrev pub Filled :
      List (Bytes × FieldSchema) → List (List Expr) → ℕ → List Bytes → List C → Type 0
  Filled m rows j [] [] = Unit
  Filled m rows j (n ∷ ns) (c ∷ cs) =
      ((f : FieldSchema) × (lookup n m ≡ some f)
        × (api.column_name c ≡ f.name)
        × Cells f j rows (api.column_values c))
      × Filled m rows (j + 1) ns cs
  Filled m rows j _ _ = ⊥

  wrap-eq-ok :
      {A : Type 0} (name : Bytes) (i : ℕ) (r : Result Error A) {a : A}
      → wrap name i r ≡ ok a
      → r ≡ ok a
  wrap-eq-ok name i (ok a) h = h
  wrap-eq-ok name i (err e) h = cc

  or_panic-eq-ok : {A : Type 0} (o : Option A) {a : A} → or_panic o ≡ ok a → o ≡ some a
  or_panic-eq-ok none h = cc
  or_panic-eq-ok (some a) h = ap some (ok-injective h)

  fill_column-Cells :
      (l : Lawful) (name : Bytes) (f : FieldSchema) (j i : ℕ) (rows : List (List Expr)) (c : C)
      {d : C}
      → fill_column lib api name f j i rows c ≡ ok d
      → (api.column_name d ≡ api.column_name c)
        × ((vs : List Value) × (api.column_values d ≡ api.column_values c ++ vs)
            × Cells f j rows vs)
  unfolding fill_column
  fill_column-Cells l name f j i [] c h =
      let same = ok-injective h in (rw same, ([], rw same (sym (append-nil _)), tt))
  fill_column-Cells l name f j i (row ∷ rows) c h =
      let (e, ee, h') = >>=-eq-ok (or_panic (get_elem? row j)) _ h in
      let (v, ev, h'') = >>=-eq-ok (wrap name (i + 1) (field_value lib f e)) _ h' in
      let (d, ed, h''') = >>=-eq-ok (api.append_value c v) _ h'' in
      let (named, (vs, more, cells)) = fill_column-Cells l name f j (i + 1) rows d h''' in
      let (kept, added) = l.append-adds c d v ed in
      (
        named ∙ kept,
        (
          v ∷ vs,
          more ∙ rw added (append_assoc (api.column_values c) (v ∷ []) vs),
          ((e, or_panic-eq-ok _ ee, wrap-eq-ok name (i + 1) _ ev), cells),
        ),
      )

  fill_columns-Filled :
      (l : Lawful) (m : List (Bytes × FieldSchema)) (rows : List (List Expr)) (j : ℕ)
      (ns : List Bytes) {cs : List C}
      → fill_columns lib api m rows j ns ≡ ok cs
      → Filled m rows j ns cs
  unfolding fill_columns
  fill_columns-Filled l m rows j [] h = rw (← ok-injective h) tt
  fill_columns-Filled l m rows j (n ∷ ns) h =
      let (f, ef, h') = >>=-eq-ok (or_panic (lookup n m)) _ h in
      let (start, es, h'') = >>=-eq-ok (empty_column lib api f) _ h' in
      let (c, ec, h''') = >>=-eq-ok (fill_column lib api n f j 0 rows start) _ h'' in
      let (cs, er, h'''') = >>=-eq-ok (fill_columns lib api m rows (j + 1) ns) _ h''' in
      let (named, empty) = l.new-IsEmpty f start es in
      let (kept, (vs, held, cells)) = fill_column-Cells l n f j 0 rows start ec in
      rw (← ok-injective h'''') (
        (f, or_panic-eq-ok _ ef, kept ∙ named, rw (held, empty) cells),
        fill_columns-Filled l m rows (j + 1) ns er,
      )

  -- An insert that is accepted makes one column for each of its names, in their order, with the
  -- name of its field; the column's values are those that the field takes from the rows at the
  -- name's position, one for each row and in their order. The client's columns are lawful: a new
  -- one is empty, and an append that succeeds adds one value.
  pub fill_insert_columns-Filled :
      (l : Lawful) (schema : List FieldSchema) (s : Insert) (columns : List C)
      → fill_insert_columns lib api schema s ≡ ok columns
      → (rows : List (List Expr)) × (s.rows ≡ values rows)
        × Filled (field_map [] schema) rows 0 (insert_names schema s.columns) columns
  unfolding fill_insert_columns values_rows
  fill_insert_columns-Filled l schema s columns h =
      let (rows, er, h') = >>=-eq-ok (values_rows lib api s.rows) _ h in
      let m = field_map [] schema in
      let names = insert_names schema s.columns in
      let (seen, es, h'') = >>=-eq-ok (check_names m [] names) _ h' in
      let (allowed, h3) =
        refuse-eq-ok (s.is_replace && has_auto_id lib api schema) upsert_auto_id _ h'' in
      let (u, eu, h4) = >>=-eq-ok (check_missing seen schema) _ h3 in
      let (w, ew, h5) = >>=-eq-ok (check_lengths 0 (length names) rows) _ h4 in
      (rows, values_rows-eq-ok s.rows er, fill_columns-Filled l m rows 0 names h5)
    where
      values_rows-eq-ok :
          (r : InsertRows) {rows : List (List Expr)}
          → values_rows lib api r ≡ ok rows
          → r ≡ values rows
      values_rows-eq-ok (values []) h = cc
      values_rows-eq-ok (values (row ∷ rows)) h = ap values (ok-injective h)
      values_rows-eq-ok other_rows h = cc
