-- ===== src/Tests/Session.antt =====
-- Runs of a SQL session: a SELECT and its description, a prepared statement, the types
-- of a parameter, an index, and an UPSERT.
use milvus_sql_proxy.Base.{
  true, false, ◌≡◌, refl, List, [], ◌∷◌, any, Bytes, codes, equal, none, some, pos, ok,
}
use milvus_sql_proxy.Base.Exec.{continue}
use milvus_sql_proxy.Value.{Value, signed, int64, string, float32}
use milvus_sql_proxy.Ast.{col_name, sql_val, str_val}
use milvus_sql_proxy.Bind.{mysql, bind_sql}
use milvus_sql_proxy.Bind.SqlLiteral.{sql_literal}
use milvus_sql_proxy.Normalize.{has_prefix}
use milvus_sql_proxy.Wire.Tag.{words_onto}
use milvus_sql_proxy.Resultset.{Field, QueryResult, result_field, field_int64, field_var_char}
use milvus_sql_proxy.Session.{new_session}
use milvus_sql_proxy.Select.Run.{handle_select}
use milvus_sql_proxy.Select.Run.Announce.{announced, describing, describe-announces}
use milvus_sql_proxy.Select.Run.Rows.{SearchResult, search_rows}
use milvus_sql_proxy.Select.Run.Cells.{AreRows}
use milvus_sql_proxy.Select.Run.Found.{IsSearchCell, search_rows-AreRows}
use milvus_sql_proxy.Commands.Options.{index_params}
use milvus_sql_proxy.Commands.Complete.{IsComplete, index_params-IsComplete}
use milvus_sql_proxy.Commands.{trim_statement, on_match}
use milvus_sql_proxy.Query.{handle_query, execute, describe}
use milvus_sql_proxy.Query.Quiet.{describe-Keeps}
use milvus_sql_proxy.Query.Upsert.{IsRewritten, handle_query-execute}
use milvus_sql_proxy.Parameters.{Syntax, seen_comparison, parameter_oids}
use milvus_sql_proxy.Parameters.Kept.{AreTypes, parameter_oids-AreTypes}
use milvus_sql_proxy.Mysql.{BuildRows, Prepared, handle_stmt_prepare, handle_stmt_execute, run}
use milvus_sql_proxy.Mysql.Prepare.{execute-of_prepare}
use milvus_sql_proxy.Tests.{library}
use milvus_sql_proxy.Tests.Insert.{Listed}
use milvus_sql_proxy.Tests.World.{
  reader-IsFirst, Log, reader, regexps, printer, two_names, backends,
}

abbrev select_fields : List Field
select_fields = result_field (codes "n") field_var_char ∷ result_field (codes "id") field_int64 ∷ []

abbrev two_rows : List (List Value)
two_rows =
    (string (codes "ab") ∷ signed int64 (pos 1) ∷ [])
    ∷ (string (codes "cd") ∷ signed int64 (pos 2) ∷ [])
    ∷ []

abbrev select_rows : QueryResult
select_rows = record {
  status = 2;
  insert_id = 0;
  affected_rows = 0;
  resultset = some (record { fields = select_fields; values = two_rows });
}

selected_result :
    (handle_select library printer backends.milvus.reads new_session two_names []).0
    ≡ ok select_rows
unfolding handle_select continue result_field equal
selected_result = refl

describe-announces_example :
    (d : QueryResult) × ((handle_select library printer backends.milvus.reads
        (describing new_session)
        two_names
        []).0
      ≡ ok d)
    × (announced d ≡ announced select_rows)
describe-announces_example =
    describe-announces library printer backends.milvus.reads new_session two_names [] select_rows
      selected_result

abbrev found : SearchResult Listed
found = record {
  error = none;
  fields = (codes "n", string (codes "ab") ∷ []) ∷ [];
  ids = some (codes "id", signed int64 (pos 7) ∷ []);
  result_count = 1;
  scores = 3 ∷ [];
}

abbrev found_names : List Bytes
found_names = codes "n" ∷ codes "_distance" ∷ codes "id" ∷ []

abbrev found_rows : List (List Value)
found_rows = (string (codes "ab") ∷ float32 3 ∷ signed int64 (pos 7) ∷ []) ∷ []

found_row : search_rows reader (codes "id") found found_names ≡ ok found_rows
unfolding search_rows equal
found_row = refl

search_rows-AreRows_example : AreRows (IsSearchCell reader found) found_names 0 1 found_rows
search_rows-AreRows_example =
    search_rows-AreRows reader reader-IsFirst (codes "id") found found_names found_rows found_row

-- No statement was written.
abbrev pub ReadsOnly : Log → Type 0
ReadsOnly log = any (equal (codes "write")) log ≡ false

pub read_described :
    (table : Bytes) (log : Log)
    → ReadsOnly log
    → ReadsOnly (backends.milvus.reads.describe_collection table log).1
unfolding equal
read_described table log h = h

describe-Keeps_example : ReadsOnly (describe backends new_session (codes "drop table t") []).1
describe-Keeps_example =
    describe-Keeps ReadsOnly backends read_described new_session (codes "drop table t") [] refl

rewritten : IsRewritten regexps
unfolding trim_statement equal has_prefix
rewritten sql h = refl

handle_query-execute_example :
    handle_query backends new_session 5 (codes "UPSERT INTO t VALUES (1)")
    ≡ execute backends new_session (codes "UPSERT INTO t VALUES (1)")
handle_query-execute_example =
    handle_query-execute backends new_session rewritten 3 (codes "UPSERT INTO t VALUES (1)")

abbrev hnsw_params : List (Bytes × Bytes)
hnsw_params =
    (codes "index_type", codes "HNSW")
    ∷ (codes "M", codes "8")
    ∷ (codes "metric_type", codes "L2")
    ∷ (codes "efConstruction", codes "200")
    ∷ []

hnsw_index : index_params (codes "HNSW") (codes " M = '8'") ≡ ok hnsw_params
unfolding index_params equal
hnsw_index = refl

index_params-IsComplete_example : IsComplete (codes "HNSW") hnsw_params
index_params-IsComplete_example =
    index_params-IsComplete (codes "HNSW") (codes " M = '8'") hnsw_params hnsw_index

-- The first parameter stands beside the column `id`.
abbrev pub syntax : Syntax
syntax = record {
  parse = backends.parse_strict_ddl;
  walk = λ s.
      seen_comparison (col_name [] (codes "id")) (sql_val str_val (codes "__milvus_param_1__"))
      ∷ [];
}

found_types :
    (parameter_oids backends syntax (codes "select $1, $2") (0 ∷ 16 ∷ []) []).0 ≡ ok (20 ∷ 16 ∷ [])
unfolding parameter_oids continue equal sql_literal
found_types = refl

parameter_oids-AreTypes_example : AreTypes (0 ∷ 16 ∷ []) (20 ∷ 16 ∷ [])
parameter_oids-AreTypes_example =
    parameter_oids-AreTypes backends syntax (codes "select $1, $2") (0 ∷ 16 ∷ []) (20 ∷ 16 ∷ []) []
      found_types

abbrev pub build : BuildRows
build names values binary = ok (record { columns = []; row_data = [] })

abbrev prepared : Prepared
prepared = record { parameters = 1; columns = 2 }

prepared_one :
    (handle_stmt_prepare backends build new_session (codes "select ?") []).0 ≡ ok prepared
unfolding handle_stmt_prepare continue equal on_match words_onto
prepared_one = refl

execute-of_prepare_example :
    (text : Bytes) × (bind_sql library (codes "select ?") mysql (string (codes "a") ∷ []) false
      ≡ ok (text, 1))
    × (handle_stmt_execute backends build new_session
          (codes "select ?")
          (string (codes "a") ∷ [])
          []
        ≡ run backends build new_session text true [])
execute-of_prepare_example =
    execute-of_prepare backends build new_session new_session (codes "select ?") [] [] prepared
      (string (codes "a") ∷ []) prepared_one refl (tt, tt)
