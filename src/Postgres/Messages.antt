-- ===== src/Postgres/Messages.antt =====
-- The messages of github.com/jackc/pgx/v5/pgproto3 that the loop receives and sends.
use milvus_sql_proxy.Base.{ℕ, Bool, List, Bytes, Option}
use milvus_sql_proxy.Error.{Error}
use milvus_sql_proxy.Resultset.{QueryResult}

pub data Target : Type 0 where
  statement portal invalid_target : Target

pub data Frontend : Type 0 where
  query : Bytes → Frontend
  -- name, query, parameter OIDs
  parse : Bytes → Bytes → List ℕ → Frontend
  describe : Target → Bytes → Frontend
  -- portal, statement, parameter formats, parameters, result formats
  bind : Bytes → Bytes → List ℕ → List (Option Bytes) → List ℕ → Frontend
  -- portal, maximum of rows (0 for all)
  execute : Bytes → ℕ → Frontend
  close : Target → Bytes → Frontend
  sync flush terminate other_message : Frontend

pub record Column : Type 0 where
  pub name : Bytes
  pub oid : ℕ
  -- the 16 bits of the size; -1 is 65535
  pub size : ℕ
  pub format : ℕ

pub data Backend : Type 0 where
  empty_query parse_complete bind_complete close_complete no_data portal_suspended : Backend
  ready_for_query : Backend
  error_response : Error → Backend
  parameter_description : List ℕ → Backend
  row_description : List Column → Backend
  data_row : List (Option Bytes) → Backend
  command_complete : Bytes → Backend

-- `pgStatement` and `pgPortal`
pub record Statement : Type 0 where
  pub query : Bytes
  pub oids : List ℕ

pub record Portal : Type 0 where
  pub query : Bytes
  pub formats : List ℕ
  pub result : Option QueryResult
  pub pos : ℕ
  pub completed : Bool
