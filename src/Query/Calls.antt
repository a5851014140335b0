-- ===== src/Query/Calls.antt =====
-- The calls of the Milvus client, and a property of the service that each of them keeps. Such a
-- property is kept by every statement, as the children show: a session has no other way to the
-- service.
pub mod Reads
pub mod Writes
pub mod Commands
pub mod Execute
use milvus_sql_proxy.Base.{ℕ, ◌-◌, ◌≡◌, Bytes, List}
use milvus_sql_proxy.Base.Exec.{opened}
use milvus_sql_proxy.Base.Exec.Keeps.{Keeps}
use milvus_sql_proxy.Ddl.{MilvusSchema}
use milvus_sql_proxy.Indexes.{Index}
use milvus_sql_proxy.Select.Run.Requests.{QueryRequest, SearchRequest}
use milvus_sql_proxy.Milvus.{Milvus}
use milvus_sql_proxy.Session.{Clients}
use milvus_sql_proxy.Query.{Backends}

pub record CallsKeep {W C : Type 0} (Q : W → Type 0) (up : Milvus W C) : Type 0 where
  pub describe_collection : (table : Bytes) → Keeps Q (up.reads.describe_collection table)
  pub query : (request : QueryRequest) → Keeps Q (up.reads.query request)
  pub search : (request : SearchRequest) → Keeps Q (up.reads.search request)
  pub service_describe_index :
      (table field : Bytes) → Keeps Q (up.reads.indexes.service_describe_index table field)
  pub describe_index : (table field : Bytes) → Keeps Q (up.reads.indexes.describe_index table field)
  pub upsert : (table : Bytes) (columns : List C) → Keeps Q (up.upsert table columns)
  pub insert : (table : Bytes) (columns : List C) → Keeps Q (up.insert table columns)
  pub delete : (table filter : Bytes) → Keeps Q (up.delete table filter)
  pub create_collection :
      (schema : MilvusSchema) → Keeps Q (up.collections.create_collection schema)
  pub drop_collection : (table : Bytes) → Keeps Q (up.collections.drop_collection table)
  pub list_databases : Keeps Q up.list_databases
  pub list_collections : Keeps Q up.list_collections
  pub create_database : (name : Bytes) → Keeps Q (up.create_database name)
  pub drop_database : (name : Bytes) → Keeps Q (up.drop_database name)
  pub using_database : (name : Bytes) → Keeps Q (up.using_database name)
  pub load_collection : (name : Bytes) → Keeps Q (up.load_collection name)
  pub release_collection : (name : Bytes) → Keeps Q (up.release_collection name)
  pub flush : (name : Bytes) → Keeps Q (up.flush name)
  pub create_partition : (table name : Bytes) → Keeps Q (up.create_partition table name)
  pub drop_partition : (table name : Bytes) → Keeps Q (up.drop_partition table name)
  pub load_partitions : (table name : Bytes) → Keeps Q (up.load_partitions table name)
  pub release_partitions : (table name : Bytes) → Keeps Q (up.release_partitions table name)
  pub show_partitions : (table : Bytes) → Keeps Q (up.show_partitions table)
  pub create_index :
      (table field : Bytes) (index : Index) → Keeps Q (up.create_index table field index)
  pub drop_index : (table name : Bytes) → Keeps Q (up.drop_index table name)

-- A count of the Milvus clients that are open: `new_client` opens one, unless it fails, and
-- `close_client` closes one; the calls of a client open and close none.
pub record CountsClients {W C : Type 0} (b : Backends W C) (clients : Clients W)
    (open_count : W → ℕ) : Type 0 where
  pub new_client :
      (w : W) → open_count (clients.new_client w).1 ≡ opened (clients.new_client w).0 (open_count w)
  pub close_client : (w : W) → open_count (clients.close_client w) ≡ open_count w - 1
  pub calls : (n : ℕ) → CallsKeep (λ w. open_count w ≡ n) b.milvus
