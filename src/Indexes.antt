-- ===== src/Indexes.antt =====
-- pkg/indexes.go: the indexes of a table, from the description that the Milvus service returns.
use milvus_sql_proxy.Base.{
  ℕ, Bool, true, false, ◌&&◌, map, List, [], ◌∷◌, Bytes, codes, equal, ◌==◌, Option, none, some,
  if◌then◌else◌, Result, ok, err,
}
use milvus_sql_proxy.Base.Exec.{Exec, lift, ◌>>=◌}
use milvus_sql_proxy.Error.{Error, no_grpc_client, index_status}
use milvus_sql_proxy.Postgres.Dictionary.{lookup}
use milvus_sql_proxy.Insert.Values.{text_or_blank}

-- entity.Index
pub record Index : Type 0 where
  pub name : Bytes
  pub kind : Bytes
  pub params : List (Bytes × Bytes)

-- commonpb.ErrorCode, as far as it is compared.
pub data StatusCode : Type 0 where
  success index_not_exist other_code : StatusCode

pub record Status : Type 0 where
  pub error_code : StatusCode
  pub code : ℕ

-- milvuspb.IndexDescription, with the map of its parameters.
pub record IndexDescription : Type 0 where
  pub index_name : Bytes
  pub field_name : Bytes
  pub params : List (Bytes × Bytes)

pub record IndexResponse : Type 0 where
  pub status : Option Status
  pub descriptions : List IndexDescription

-- The Milvus client: whether it is the gRPC one, its service's DescribeIndex of a table and of a
-- field (the empty text for all), and its own DescribeIndex.
pub record IndexClient (W : Type 0) : Type 0 where
  pub is_grpc : Bool
  pub service_describe_index : Bytes → Bytes → Exec W IndexResponse
  pub describe_index : Bytes → Bytes → Exec W (List Index)

-- `entity.NewGenericIndex(d.IndexName, params["index_type"], params)`
unfoldable pub index_of : IndexDescription → Index
unfolding lookup
index_of d = record {
  name = d.index_name;
  kind = text_or_blank (lookup (codes "index_type") d.params);
  params = d.params;
}

abbrev pub is_success : StatusCode → Bool
is_success success = true
is_success _ = false

abbrev pub is_not_exist : StatusCode → Bool
is_not_exist index_not_exist = true
is_not_exist _ = false

abbrev pub is_missing_index : Option Status → Bool
is_missing_index none = false
is_missing_index (some st) = is_not_exist st.error_code

abbrev pub is_good : Option Status → Bool
is_good none = false
is_good (some st) = is_success st.error_code && st.code == 0

-- The descriptions of the field.
unfoldable pub of_field : Bytes → List IndexDescription → List IndexDescription
unfolding equal
of_field field [] = []
of_field field (d ∷ ds) =
    let rest = of_field field ds in if equal d.field_name field then d ∷ rest else rest

unfoldable pub listed : IndexResponse → Result Error (List Index)
unfolding index_of
listed resp =
    if is_missing_index resp.status
    then ok []
    else if is_good resp.status
    then ok (map index_of resp.descriptions)
    else err index_status

unfoldable pub matching : Bytes → IndexResponse → Result Error (List Index)
unfolding index_of of_field
matching field resp =
    if is_good resp.status
    then ok (map index_of (of_field field resp.descriptions))
    else err index_status

module _ {W : Type 0} (client : IndexClient W) where
  -- `listIndexes`
  unfoldable pub list_indexes : Bytes → Exec W (List Index)
  unfolding listed
  list_indexes table =
      if client.is_grpc
      then (client.service_describe_index table [] >>= λ resp. lift (listed resp))
      else lift (err no_grpc_client)

  -- `vectorIndexes`
  unfoldable pub vector_indexes : Bytes → Bytes → Exec W (List Index)
  unfolding matching
  vector_indexes table field =
      if client.is_grpc
      then (client.service_describe_index table field >>= λ resp. lift (matching field resp))
      else client.describe_index table field
