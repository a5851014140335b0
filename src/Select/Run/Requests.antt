-- ===== src/Select/Run/Requests.antt =====
-- What a SELECT asks the Milvus client for.
use milvus_sql_proxy.Base.{
  ℕ, ◌+◌, ◌||◌, List, [], ◌∷◌, Bytes, codes, equal, to_upper, max, Option, if◌then◌else◌,
}
use milvus_sql_proxy.Base.Exec.{Exec}
use milvus_sql_proxy.Insert.Values.{FieldSchema}
use milvus_sql_proxy.Indexes.{IndexClient}
use milvus_sql_proxy.Select.Run.Rows.{ColumnReader, SearchResult}

-- The arguments of `Search`, with the search parameters.
pub record SearchRequest : Type 0 where
  pub table : Bytes
  pub filter : Bytes
  pub outputs : List Bytes
  pub vector : List ℕ
  pub vector_field : Bytes
  pub metric : Bytes
  pub params : List (Bytes × ℕ)
  pub limit : ℕ
  pub offset : ℕ

-- The arguments of `Query`; `page` is the limit and the offset, if they are given.
pub record QueryRequest : Type 0 where
  pub table : Bytes
  pub filter : Bytes
  pub outputs : List Bytes
  pub page : Option (ℕ × ℕ)

-- The calls of the Milvus client; a collection that is missing or has no schema is none.
pub record SelectClient (W C : Type 0) : Type 0 where
  pub describe_collection : Bytes → Exec W (Option (List FieldSchema))
  pub query : QueryRequest → Exec W (List C)
  pub search : SearchRequest → Exec W (List (SearchResult C))
  pub indexes : IndexClient W
  pub columns : ColumnReader C

-- The parameters of a search, by the kind of the index: `ef` is at least 64.
unfoldable pub search_params : Bytes → ℕ → ℕ → List (Bytes × ℕ)
unfolding equal
search_params kind limit offset =
    if equal (to_upper kind) (codes "HNSW")
    then (codes "ef", max 64 (limit + offset)) ∷ []
    else if equal (to_upper kind) (codes "IVF_FLAT")
        || equal (to_upper kind) (codes "IVF_SQ8")
        || equal (to_upper kind) (codes "IVF_PQ")
    then (codes "nprobe", 16) ∷ []
    else []
