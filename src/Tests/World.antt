-- ===== src/Tests/World.antt =====
-- A Milvus service for the runs of a session: its state is the log of the calls made, its one
-- collection has two fields, and its parser knows one statement.
use milvus_sql_proxy.Base.{
  ◌≡◌, ◌++◌, Bool, true, false, ◌&&◌, List, [], ◌∷◌, Bytes, codes, equal, length, get_elem?, Option,
  none, some, if◌then◌else◌, pos, Result, ok, err,
}
use milvus_sql_proxy.Base.Exec.{Exec}
use milvus_sql_proxy.Error.{Error, index_panic}
use milvus_sql_proxy.Value.{Value, signed, int64, string}
use milvus_sql_proxy.Ast.{
  Expr, col_name, SelectExpr, aliased, TableExpr, aliased_table, table_name, Select,
}
use milvus_sql_proxy.Normalize.{has_prefix}
use milvus_sql_proxy.Resultset.{field_int64, field_var_char}
use milvus_sql_proxy.Insert.Values.{FieldSchema}
use milvus_sql_proxy.Select.Run.Columns.{Printer}
use milvus_sql_proxy.Select.Run.Rows.{ColumnReader}
use milvus_sql_proxy.Select.Run.Found.{IsFirst}
use milvus_sql_proxy.Session.{Clients}
use milvus_sql_proxy.Milvus.{Milvus, Regexps}
use milvus_sql_proxy.Commands.Patterns.{upsert_pattern}
use milvus_sql_proxy.Query.Statements.{select_stmt}
use milvus_sql_proxy.Query.{Backends}
use milvus_sql_proxy.Tests.{library}
use milvus_sql_proxy.Tests.Insert.{Listed, listed, plain_field}

abbrev pub Log : Type 0
Log = List Bytes

abbrev pub calls : {A : Type 0} → Bytes → A → Exec Log A
calls name a log = (ok a, name ∷ log)

abbrev pub column_named : List Listed → Bytes → Option Listed
column_named [] n = none
column_named (c ∷ cs) n = let rest = column_named cs n in if equal c.0 n then some c else rest

abbrev pub cell_or_panic : Option Value → Result Error Value
cell_or_panic none = err index_panic
cell_or_panic (some v) = ok v

abbrev pub reader : ColumnReader Listed
reader = record {
  get_column = column_named;
  column_length = λ c. length c.1;
  column_get = λ c i. cell_or_panic (get_elem? c.1 i);
}

abbrev pub fields : List FieldSchema
fields =
    record (plain_field (codes "id") field_int64) { primary_key = true }
    ∷ plain_field (codes "n") field_var_char
    ∷ []

abbrev pub stored : List Listed
stored =
    (codes "id", signed int64 (pos 1) ∷ signed int64 (pos 2) ∷ [])
    ∷ (codes "n", string (codes "ab") ∷ string (codes "cd") ∷ [])
    ∷ []

abbrev pub milvus_service : Milvus Log Listed
milvus_service = record {
  reads = record {
    describe_collection = λ table. calls (codes "describe") (some fields);
    query = λ request. calls (codes "query") stored;
    search = λ request. calls (codes "search") [];
    indexes = record {
      is_grpc = true;
      service_describe_index =
          λ table field. calls (codes "index") (record { status = none; descriptions = [] });
      describe_index = λ table field. calls (codes "index") [];
    };
    columns = reader;
  };
  upsert = λ table columns. calls (codes "write") none;
  insert = λ table columns. calls (codes "write") none;
  delete = λ table filter. calls (codes "write") tt;
  collections = record {
    create_collection = λ schema. calls (codes "write") tt;
    drop_collection = λ table. calls (codes "write") tt;
  };
  list_databases = calls (codes "list") [];
  list_collections = calls (codes "list") [];
  create_database = λ name. calls (codes "write") tt;
  drop_database = λ name. calls (codes "write") tt;
  using_database = λ name. calls (codes "use") tt;
  load_collection = λ name. calls (codes "write") tt;
  release_collection = λ name. calls (codes "write") tt;
  flush = λ name. calls (codes "write") tt;
  create_partition = λ table name. calls (codes "write") tt;
  drop_partition = λ table name. calls (codes "write") tt;
  load_partitions = λ table name. calls (codes "write") tt;
  release_partitions = λ table name. calls (codes "write") tt;
  show_partitions = λ table. calls (codes "list") [];
  create_index = λ table field index. calls (codes "write") tt;
  drop_index = λ table name. calls (codes "write") tt;
}

-- Only the pattern of UPSERT matches, at the start of a text.
abbrev pub regexps : Regexps
regexps = record {
  find_submatch = λ pattern s.
      if equal pattern upsert_pattern && has_prefix s (codes "UPSERT") then some [] else none;
  replace_all = λ pattern s with. with;
}

abbrev pub printed : Expr → Bytes
printed (col_name qualifier name) = name
printed e = []

abbrev pub printed_select : SelectExpr → Bytes
printed_select (aliased e alias) = printed e
printed_select e = codes "*"

abbrev pub printed_table : TableExpr → Bytes
printed_table t = codes "people"

abbrev pub printer : Printer
printer = record { expr = printed; select_expr = printed_select; table_expr = printed_table }

-- select n, id from people
abbrev pub two_names : Select
two_names = record {
  distinct = [];
  select_exprs = aliased (col_name [] (codes "n")) [] ∷ aliased (col_name [] (codes "id")) [] ∷ [];
  from = aliased_table (table_name [] (codes "people")) [] false ∷ [];
  where_expr = none;
  group_by = [];
  having = none;
  order_by = [];
  limit = none;
  lock = [];
}

abbrev pub backends : Backends Log Listed
backends = record {
  library = library;
  printer = printer;
  column_api = listed;
  milvus = milvus_service;
  kinds = record {
    flat = λ metric. ok [];
    hnsw = λ metric m ef. ok [];
    ivf_flat = λ metric n. ok [];
    autoindex = λ metric. ok [];
  };
  formats = record { type_name = λ t. codes "Type"; json_params = λ params. codes "{}" };
  regexps = regexps;
  parse_strict_ddl = λ text. ok (select_stmt two_names);
  vector_keyword = codes "vector";
}

column_named-before :
    (cs : List Listed) (c d : Listed) (n : Bytes)
    → column_named cs n ≡ some d
    → column_named (cs ++ c ∷ []) n ≡ some d
column_named-before [] c d n h = cc
column_named-before (a ∷ cs) c d n h = later (equal a.0 n) (column_named-before cs c d n) h
  where
    later :
        (b : Bool)
        → (column_named cs n ≡ some d → column_named (cs ++ c ∷ []) n ≡ some d)
        → (if b then some a else column_named cs n) ≡ some d
        → (if b then some a else column_named (cs ++ c ∷ []) n) ≡ some d
    later true k h = h
    later false k h = k h

column_named-last :
    (cs : List Listed) (c d : Listed) (n : Bytes)
    → column_named cs n ≡ none
    → column_named (cs ++ c ∷ []) n ≡ some d
    → d ≡ c
column_named-last [] c d n h e = only (equal c.0 n) e
  where
    only : (b : Bool) → (if b then some c else none) ≡ some d → d ≡ c
    only true e = cc
    only false e = cc
column_named-last (a ∷ cs) c d n h e = later (equal a.0 n) (column_named-last cs c d n) h e
  where
    later :
        (b : Bool)
        → (column_named cs n ≡ none → column_named (cs ++ c ∷ []) n ≡ some d → d ≡ c)
        → (if b then some a else column_named cs n) ≡ none
        → (if b then some a else column_named (cs ++ c ∷ []) n) ≡ some d
        → d ≡ c
    later true k h e = cc
    later false k h e = k h e

pub reader-IsFirst : IsFirst reader
reader-IsFirst = record { before = column_named-before; last = column_named-last }

-- A client is made and closed.
abbrev pub clients : Clients Log
clients = record {
  new_client = calls (codes "connect") tt;
  close_client = λ log. codes "close" ∷ log;
}
