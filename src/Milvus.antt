-- ===== src/Milvus.antt =====
-- The libraries behind a SQL session: the calls of the Milvus client, the constructors of its
-- indexes, and Go's regular expressions. Nothing is assumed of them here.
use milvus_sql_proxy.Base.{ℤ, List, Bytes, Option, Result}
use milvus_sql_proxy.Base.Exec.{Exec}
use milvus_sql_proxy.Error.{Error}
use milvus_sql_proxy.Value.{Value}
use milvus_sql_proxy.Insert.{Upstream}
use milvus_sql_proxy.Resultset.{FieldType}
use milvus_sql_proxy.Indexes.{Index}
use milvus_sql_proxy.Ddl.Handlers.{Collections}
use milvus_sql_proxy.Select.Run.Requests.{SelectClient}

pub record Milvus (W C : Type 0) : Type 0 where
  pub reads : SelectClient W C
  pub upsert : Bytes → List C → Exec W (Option Value)
  pub insert : Bytes → List C → Exec W (Option Value)
  pub delete : Bytes → Bytes → Exec W (Unit {0})
  pub collections : Collections W
  -- the names of the databases and of the collections
  pub list_databases : Exec W (List Bytes)
  pub list_collections : Exec W (List Bytes)
  pub create_database : Bytes → Exec W (Unit {0})
  pub drop_database : Bytes → Exec W (Unit {0})
  pub using_database : Bytes → Exec W (Unit {0})
  pub load_collection : Bytes → Exec W (Unit {0})
  pub release_collection : Bytes → Exec W (Unit {0})
  pub flush : Bytes → Exec W (Unit {0})
  -- a collection and a partition
  pub create_partition : Bytes → Bytes → Exec W (Unit {0})
  pub drop_partition : Bytes → Bytes → Exec W (Unit {0})
  pub load_partitions : Bytes → Bytes → Exec W (Unit {0})
  pub release_partitions : Bytes → Bytes → Exec W (Unit {0})
  pub show_partitions : Bytes → Exec W (List Bytes)
  -- a collection, a field and the index
  pub create_index : Bytes → Bytes → Index → Exec W (Unit {0})
  -- a collection and the name of the index
  pub drop_index : Bytes → Bytes → Exec W (Unit {0})

-- The calls that an INSERT and a DELETE make.
abbrev pub writes : {W C : Type 0} → Milvus W C → Upstream W C
writes m = record {
  describe_collection = λ w table. m.reads.describe_collection table w;
  upsert = λ w table columns. m.upsert table columns w;
  insert = λ w table columns. m.insert table columns w;
  delete = λ w table filter. m.delete table filter w;
}

-- `NewIndexFlat`, `NewIndexHNSW`, `NewIndexIvfFlat` and `NewIndexAUTOINDEX` of package entity: the
-- parameters of the index that they return, or their error.
pub record IndexKinds : Type 0 where
  pub flat : Bytes → Result Error (List (Bytes × Bytes))
  pub hnsw : Bytes → ℤ → ℤ → Result Error (List (Bytes × Bytes))
  pub ivf_flat : Bytes → ℤ → Result Error (List (Bytes × Bytes))
  pub autoindex : Bytes → Result Error (List (Bytes × Bytes))

-- Package regexp: the submatches of the leftmost match of a pattern, the whole match first, and
-- the text with every match replaced.
pub record Regexps : Type 0 where
  pub find_submatch : Bytes → Bytes → Option (List Bytes)
  pub replace_all : Bytes → Bytes → Bytes → Bytes

-- `String` of an entity.FieldType, and `json.Marshal` of a `map[string]string`.
pub record Formats : Type 0 where
  pub type_name : FieldType → Bytes
  pub json_params : List (Bytes × Bytes) → Bytes
