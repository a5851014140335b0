-- ===== src/Select/Run/Dual.antt =====
-- A SELECT that needs no collection.
use milvus_sql_proxy.Base.{
  Bool, false, not, ◌&&◌, ◌||◌, List, [], ◌∷◌, Bytes, codes, equal, to_lower, is_empty, Option,
  none, some, is_some, if◌then◌else◌, pos,
}
use milvus_sql_proxy.Value.{Value, string, signed, int64}
use milvus_sql_proxy.Ast.{Select, SelectExpr, TableExpr, is_blank}
use milvus_sql_proxy.Session.{ClientConn}
use milvus_sql_proxy.Select.Run.Columns.{Printer}

-- The row of a SELECT from `dual` that needs no collection, by the text of its expression.
unfoldable pub dual_row : ClientConn → Bytes → Option (Bytes × Value)
unfolding equal
dual_row c expr =
    if equal expr (codes "1")
    then some (codes "1", signed int64 (pos 1))
    else if equal expr (codes "version()")
    then some (codes "version", string (codes "milvus-sql-proxy"))
    else if equal expr (codes "database()") || equal expr (codes "current_database()")
    then some (codes "database", string c.db)
    else none

abbrev pub is_dual_table : Printer → List TableExpr → Bool
is_dual_table printer (t ∷ []) = equal (printer.table_expr t) (codes "dual")
is_dual_table printer _ = false

abbrev pub is_plain : Select → Bool
is_plain s =
    not (is_some s.where_expr)
    && not (is_some s.limit)
    && is_blank s.distinct
    && is_empty s.group_by
    && not (is_some s.having)
    && is_empty s.order_by
    && is_blank s.lock

abbrev pub dual_expr : Printer → ClientConn → List SelectExpr → Option (Bytes × Value)
dual_expr printer c (e ∷ []) = dual_row c (to_lower (printer.select_expr e))
dual_expr printer c _ = none

unfoldable pub dual : Printer → ClientConn → Select → Option (Bytes × Value)
unfolding dual_row
dual printer c s =
    if is_dual_table printer s.from && is_plain s then dual_expr printer c s.select_exprs else none
