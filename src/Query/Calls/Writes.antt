-- ===== src/Query/Calls/Writes.antt =====
-- INSERT and DELETE, the tables and the databases, and USE.
use milvus_sql_proxy.Base.{
  List, Bytes, Option, none, some, codes, equal, Bool-cases, inl, inr, Result, ok, err,
}
use milvus_sql_proxy.Base.Exec.Keeps.{Keeps, continue-Keeps, if-Keeps}
use milvus_sql_proxy.Error.{Error}
use milvus_sql_proxy.Ast.{Insert, Delete}
use milvus_sql_proxy.Value.{Value, Library}
use milvus_sql_proxy.Insert.Values.{FieldSchema}
use milvus_sql_proxy.Insert.Columns.{ColumnApi}
use milvus_sql_proxy.Insert.{
  written, write_columns, insert_with, has_unsupported_insert, handle_insert, delete_planned,
  handle_delete, plan_delete,
}
use milvus_sql_proxy.Ddl.Statements.{Ddl}
use milvus_sql_proxy.Ddl.Handlers.{handle_create_table, handle_drop_table, handle_ddl}
use milvus_sql_proxy.Session.{ClientConn}
use milvus_sql_proxy.Query.Handlers.{handle_create_db, handle_drop_db, handle_db_ddl, handle_use_db}
use milvus_sql_proxy.Milvus.{Milvus, writes}
use milvus_sql_proxy.Query.Calls.{CallsKeep}

module _ {W C : Type 0} (Q : W → Type 0) (up : Milvus W C) (calls : CallsKeep Q up) where
  module _ (lib : Library) (api : ColumnApi C) where
    written-Keeps :
        (s : Insert) (x : Result Error (Option Value) × W)
        → Q x.1
        → Q (written lib api (writes up) s x).1
    written-Keeps s (err e, w) h = h
    written-Keeps s (ok id, w) h = h

    write_columns-Keeps :
        (s : Insert) (w : W) (columns : Result Error (List C))
        → Q w
        → Q (write_columns lib api (writes up) s w columns).1
    write_columns-Keeps s w (err e) h = h
    write_columns-Keeps s w (ok columns) h = elim (Bool-cases s.is_replace) [
      | inl e ↦
          rw e (written-Keeps s (up.upsert s.table columns w) (calls.upsert s.table columns w h))
      | inr e ↦
          rw e (written-Keeps s (up.insert s.table columns w) (calls.insert s.table columns w h))
    ]

    insert_with-Keeps :
        (s : Insert) (x : Result Error (Option (List FieldSchema)) × W)
        → Q x.1
        → Q (insert_with lib api (writes up) s x).1
    insert_with-Keeps s (err e, w) h = h
    insert_with-Keeps s (ok none, w) h = h
    insert_with-Keeps s (ok (some schema), w) h = write_columns-Keeps s w _ h

    pub handle_insert-Keeps : (s : Insert) → Keeps Q (handle_insert lib api (writes up) s)
    unfolding handle_insert
    handle_insert-Keeps s w h = elim (Bool-cases (has_unsupported_insert lib api (writes up) s)) [
      | inl e ↦ rw e h
      | inr e ↦ rw e (
          insert_with-Keeps s (up.reads.describe_collection s.table w)
            (calls.describe_collection s.table w h))
    ]

    delete_planned-Keeps :
        (w : W) (plan : Result Error (Bytes × Bytes))
        → Q w
        → Q (delete_planned lib api (writes up) w plan).1
    delete_planned-Keeps w (err e) h = h
    delete_planned-Keeps w (ok (table, filter)) h = calls.delete table filter w h

    pub handle_delete-Keeps : (s : Delete) → Keeps Q (handle_delete lib api (writes up) s)
    unfolding handle_delete
    handle_delete-Keeps s w h = delete_planned-Keeps w (plan_delete lib api (writes up) s) h

  pub handle_ddl-Keeps : (keyword : Bytes) (s : Ddl) → Keeps Q (handle_ddl up.collections keyword s)
  unfolding handle_ddl handle_create_table handle_drop_table
  handle_ddl-Keeps keyword s =
      if-Keeps Q (equal s.action (codes "create")) _ _
        (λ w h.
          continue-Keeps Q _ _
            (λ schema w1 h1.
              continue-Keeps Q _ _ (λ done w' h'. h') (calls.create_collection schema w1 h1))
            h)
        (if-Keeps Q (equal s.action (codes "drop")) _ _
          (λ w h.
            continue-Keeps Q _ _
              (λ allowed w1 h1.
                continue-Keeps Q _ _ (λ done w' h'. h') (calls.drop_collection s.table w1 h1))
              h)
          (λ w h. h))

  pub handle_db_ddl-Keeps :
      (c : ClientConn) (action name : Bytes) → Keeps Q (handle_db_ddl up c action name)
  unfolding handle_db_ddl handle_create_db handle_drop_db
  handle_db_ddl-Keeps c action name =
      if-Keeps Q (equal action (codes "create")) _ _
        (λ w h. continue-Keeps Q _ _ (λ done w' h'. h') (calls.create_database name w h))
        (if-Keeps Q (equal action (codes "drop")) _ _
          (λ w h. continue-Keeps Q _ _ (λ done w' h'. h') (calls.drop_database name w h))
          (λ w h. h))

  pub handle_use_db-Keeps : (c : ClientConn) (name : Bytes) → Keeps Q (handle_use_db up c name)
  unfolding handle_use_db
  handle_use_db-Keeps c name w h =
      continue-Keeps Q _ _ (λ done w' h'. h') (calls.using_database name w h)
