-- ===== src/Postgres/Encoding.antt =====
-- `pgDescription`, `pgRows` and the parameters of a Bind: lists of columns, cells and arguments.
use milvus_sql_proxy.Base.{
  ℕ, ◌+◌, ◌-◌, ◌||◌, List, [], ◌∷◌, ◌++◌, Bytes, length, take, drop, replicate, ◌==◌, Option, none,
  some, if◌then◌else◌, Result, ok, err, ◌>>=◌,
}
use milvus_sql_proxy.Error.{Error, index_panic}
use milvus_sql_proxy.Value.{Value, Library}
use milvus_sql_proxy.Resultset.{Field}
use milvus_sql_proxy.Wire.{format_at, pg_oid, pg_value, pg_parameter}
use milvus_sql_proxy.Postgres.Messages.{Column, Backend, data_row}

-- `pgDescription`, from column `i` on
unfoldable pub pg_description : List ℕ → ℕ → List Field → List Column
unfolding format_at
pg_description formats i [] = []
pg_description formats i (f ∷ fs) =
    let oid = pg_oid f.type in
    let column : Column = record {
      name = f.name;
      oid = oid;
      size = (if oid == 16 then 1 else if oid == 20 || oid == 701 then 8 else 65535);
      format = format_at formats i;
    } in
    column ∷ pg_description formats (i + 1) fs

-- One row, from column `i` on. A value with no field is an index out of range.
unfoldable pub pg_cells :
    Library → List ℕ → ℕ → List Field → List Value → Result Error (List (Option Bytes))
unfolding format_at
pg_cells lib formats i fs [] = ok []
pg_cells lib formats i [] (v ∷ row) = err index_panic
pg_cells lib formats i (f ∷ fs) (v ∷ row) = do
  cell ← pg_value lib v (pg_oid f.type) (format_at formats i)
  cells ← pg_cells lib formats (i + 1) fs row
  ok (cell ∷ cells)

-- `pgRows` on the rows of the slice: the rows sent before the first that cannot be encoded, and
-- the error of that one.
abbrev pub sends :
    Result Error (List (Option Bytes)) → List Backend × Option Error → List Backend × Option Error
sends (err e) later = ([], some e)
sends (ok cells) (sent, error) = (data_row cells ∷ sent, error)

unfoldable pub pg_rows :
    Library → List Field → List ℕ → List (List Value) → List Backend × Option Error
unfolding pg_cells
pg_rows lib fields formats [] = ([], none)
pg_rows lib fields formats (row ∷ rows) =
    sends (pg_cells lib formats 0 fields row) (pg_rows lib fields formats rows)

-- `r.Values[start:end]`
abbrev pub slice {ℓ} : {A : Type ℓ} → ℕ → ℕ → List A → List A
slice start end xs = take (end - start) (drop start xs)

-- `copy` of the OIDs that the client names into `n` fresh ones.
abbrev pub pad_oids : ℕ → List ℕ → List ℕ
pad_oids n oids = oids ++ replicate (n - length oids) 0

-- The loop over the parameters of a Bind. There is an OID for each.
unfoldable pub pg_parameters :
    Library → List ℕ → ℕ → List ℕ → List (Option Bytes) → Result Error (List Value)
unfolding format_at
pg_parameters lib formats i (oid ∷ oids) (p ∷ ps) = do
  v ← pg_parameter lib p oid (format_at formats i)
  vs ← pg_parameters lib formats (i + 1) oids ps
  ok (v ∷ vs)
pg_parameters lib formats i _ _ = ok []
