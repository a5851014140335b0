-- ===== src/Query/Calls/Commands.antt =====
-- The commands that the SQL parser does not know.
use milvus_sql_proxy.Base.{List, [], ◌∷◌, map, Bytes, codes, equal, to_upper}
use milvus_sql_proxy.Base.Exec.{Exec}
use milvus_sql_proxy.Base.Exec.Keeps.{Keeps, continue-Keeps, if-Keeps}
use milvus_sql_proxy.Resultset.{QueryResult}
use milvus_sql_proxy.Session.{ClientConn}
use milvus_sql_proxy.Milvus.{Milvus, IndexKinds, Regexps, Formats}
use milvus_sql_proxy.Commands.{
  lifecycle_call, lifecycle, describe_table, create_index, drop_index, show_indexes, partition_call,
  partition, show_partitions, plain_command, done, unless_described, describe_names, describe_row,
  index_names, index_row, one_cell,
}
use milvus_sql_proxy.Query.Handled.{HandledKeeps, none-Keeps, on_match-Keeps}
use milvus_sql_proxy.Query.Calls.{CallsKeep}
use milvus_sql_proxy.Query.Calls.Reads.{rows-Keeps, list_indexes-Keeps}

module _ {W C : Type 0} (Q : W → Type 0) (up : Milvus W C) (calls : CallsKeep Q up)
    (kinds : IndexKinds) (formats : Formats) (c : ClientConn) where
  done-Keeps : (m : Exec W (Unit {0})) → Keeps Q m → Keeps Q (done m)
  done-Keeps m k w h = continue-Keeps Q _ _ (λ r w' h'. h') (k w h)

  unless_described-Keeps : (m : Exec W QueryResult) → Keeps Q m → Keeps Q (unless_described c m)
  unless_described-Keeps m k = if-Keeps Q c.describe _ _ (λ w h. h) k

  lifecycle_call-Keeps : (verb name : Bytes) → Keeps Q (lifecycle_call up kinds formats c verb name)
  lifecycle_call-Keeps verb name =
      if-Keeps Q (equal verb (codes "LOAD")) _ _ (calls.load_collection name) (
        if-Keeps Q (equal verb (codes "RELEASE")) _ _ (calls.release_collection name)
          (if-Keeps Q (equal verb (codes "FLUSH")) _ _ (calls.flush name) (λ w h. h)))

  lifecycle-Keeps : (m : List Bytes) → Keeps Q (lifecycle up kinds formats c m)
  unfolding lifecycle
  lifecycle-Keeps m = unless_described-Keeps _ λ w h.
      continue-Keeps Q _ _
        (λ verb w1 h1.
          continue-Keeps Q _ _ (λ name. done-Keeps _ (lifecycle_call-Keeps (to_upper verb) name))
            h1)
        h

  describe_table-Keeps : (m : List Bytes) → Keeps Q (describe_table up kinds formats c m)
  unfolding describe_table
  describe_table-Keeps m =
      if-Keeps Q c.describe _ _ (λ w h. continue-Keeps Q _ _ (λ r w' h'. h') h)
        λ w h.
          continue-Keeps Q _ _
            (λ name w1 h1.
              continue-Keeps Q _ _
                (λ found w2 h2.
                  continue-Keeps Q _ _
                    (λ schema.
                      rows-Keeps Q up calls c (describe_names up kinds formats c)
                        (map (describe_row up kinds formats c) schema))
                    h2)
                (calls.describe_collection name w1 h1))
            h

  create_index-Keeps : (m : List Bytes) → Keeps Q (create_index up kinds formats c m)
  unfolding create_index
  create_index-Keeps m = unless_described-Keeps _ λ w h.
      continue-Keeps Q _ _
        (λ kind w1 h1.
          continue-Keeps Q _ _
            (λ options w2 h2.
              continue-Keeps Q _ _
                (λ params w3 h3.
                  continue-Keeps Q _ _
                    (λ built w4 h4.
                      continue-Keeps Q _ _
                        (λ name w5 h5.
                          continue-Keeps Q _ _
                            (λ table w6 h6.
                              continue-Keeps Q _ _
                                (λ field. done-Keeps _ (calls.create_index table field _)) h6)
                            h5)
                        h4)
                    h3)
                h2)
            h1)
        h

  drop_index-Keeps : (m : List Bytes) → Keeps Q (drop_index up kinds formats c m)
  unfolding drop_index
  drop_index-Keeps m = unless_described-Keeps _ λ w h.
      continue-Keeps Q _ _
        (λ name w1 h1.
          continue-Keeps Q _ _ (λ table. done-Keeps _ (calls.drop_index table name)) h1)
        h

  show_indexes-Keeps : (m : List Bytes) → Keeps Q (show_indexes up kinds formats c m)
  unfolding show_indexes
  show_indexes-Keeps m =
      if-Keeps Q c.describe _ _ (rows-Keeps Q up calls c (index_names up kinds formats c) []) λ w h.
        continue-Keeps Q _ _
          (λ table w1 h1.
            continue-Keeps Q _ _
              (λ indexes.
                rows-Keeps Q up calls c (index_names up kinds formats c)
                  (map (index_row up kinds formats c) indexes))
              (list_indexes-Keeps Q up calls c table w1 h1))
          h

  partition_call-Keeps :
      (verb table name : Bytes) → Keeps Q (partition_call up kinds formats c verb table name)
  partition_call-Keeps verb table name =
      if-Keeps Q (equal verb (codes "CREATE")) _ _ (calls.create_partition table name) (
        if-Keeps Q (equal verb (codes "DROP")) _ _ (calls.drop_partition table name) (
          if-Keeps Q (equal verb (codes "LOAD")) _ _ (calls.load_partitions table name) (
            if-Keeps Q (equal verb (codes "RELEASE")) _ _ (calls.release_partitions table name)
              (λ w h. h))))

  partition-Keeps : (m : List Bytes) → Keeps Q (partition up kinds formats c m)
  unfolding partition
  partition-Keeps m = unless_described-Keeps _ λ w h.
      continue-Keeps Q _ _
        (λ verb w1 h1.
          continue-Keeps Q _ _
            (λ name w2 h2.
              continue-Keeps Q _ _
                (λ table. done-Keeps _ (partition_call-Keeps (to_upper verb) table name)) h2)
            h1)
        h

  show_partitions-Keeps : (m : List Bytes) → Keeps Q (show_partitions up kinds formats c m)
  unfolding show_partitions
  show_partitions-Keeps m =
      if-Keeps Q c.describe _ _ (rows-Keeps Q up calls c (codes "Partition" ∷ []) []) λ w h.
        continue-Keeps Q _ _
          (λ table w1 h1.
            continue-Keeps Q _ _
              (λ names. rows-Keeps Q up calls c (codes "Partition" ∷ []) (map one_cell names))
              (calls.show_partitions table w1 h1))
          h

  pub plain_command-Keeps :
      (re : Regexps) (sql : Bytes) → HandledKeeps Q (plain_command up kinds formats c re sql)
  unfolding plain_command
  plain_command-Keeps re sql = on_match-Keeps Q _ _ _ lifecycle-Keeps (
      on_match-Keeps Q _ _ _ describe_table-Keeps (
        on_match-Keeps Q _ _ _ create_index-Keeps (
          on_match-Keeps Q _ _ _ drop_index-Keeps (
            on_match-Keeps Q _ _ _ show_indexes-Keeps (
              on_match-Keeps Q _ _ _ partition-Keeps
                (on_match-Keeps Q _ _ _ show_partitions-Keeps (none-Keeps Q QueryResult)))))))
