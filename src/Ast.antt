-- ===== src/Ast.antt =====
-- The syntax trees of github.com/xwb1989/sqlparser, as far as package `pkg` takes them apart.
-- The parser itself is not modelled: a statement is an input. A node type that no switch of the
-- package names is `other`, and of a part that is only compared with nil its presence is kept.
use milvus_sql_proxy.Base.{ℕ, Bool, true, false, List, [], ◌∷◌, Option, Bytes}

pub data ValType : Type 0 where
  str_val int_val float_val other_val : ValType

mutual
  pub data Expr : Type 0 where
    and_expr or_expr : Expr → Expr → Expr
    not_expr paren_expr : Expr → Expr
    -- operator, left, right, and whether there is an ESCAPE
    comparison : Bytes → Expr → Expr → Bool → Expr
    -- the qualifier, empty if there is none, and the name
    col_name : Bytes → Bytes → Expr
    sql_val : ValType → Bytes → Expr
    bool_val : Bool → Expr
    unary : Bytes → Expr → Expr
    func : Bytes → SelectExprs → Expr
    val_tuple : Exprs → Expr
    other : Expr

  pub data Exprs : Type 0 where
    nil : Exprs
    cons : Expr → Exprs → Exprs

  pub data SelectExpr : Type 0 where
    -- the qualifier of a `*`
    star : Bytes → SelectExpr
    -- an expression and its alias, empty if there is none
    aliased : Expr → Bytes → SelectExpr
    other_select : SelectExpr

  pub data SelectExprs : Type 0 where
    done : SelectExprs
    then_select : SelectExpr → SelectExprs → SelectExprs

pub data SimpleTable : Type 0 where
  -- the qualifier and the name
  table_name : Bytes → Bytes → SimpleTable
  subquery : SimpleTable

pub data TableExpr : Type 0 where
  -- the table, its alias, and whether there are index hints
  aliased_table : SimpleTable → Bytes → Bool → TableExpr
  other_table : TableExpr

pub record Limit : Type 0 where
  pub rowcount : Expr
  pub offset : Option Expr

pub record Select : Type 0 where
  pub distinct : Bytes
  pub select_exprs : List SelectExpr
  pub from : List TableExpr
  pub where_expr : Option Expr
  pub group_by : List Expr
  pub having : Option Expr
  pub order_by : List Expr
  pub limit : Option Limit
  pub lock : Bytes

pub record Delete : Type 0 where
  pub targets : List Bytes
  pub table_exprs : List TableExpr
  pub partitions : List Bytes
  pub where_expr : Option Expr
  pub order_by : List Expr
  pub limit : Option Limit

pub data InsertRows : Type 0 where
  values : List (List Expr) → InsertRows
  other_rows : InsertRows

pub record Insert : Type 0 where
  pub is_replace : Bool
  pub ignore : Bytes
  pub qualifier : Bytes
  pub table : Bytes
  pub partitions : List Bytes
  pub columns : List Bytes
  pub rows : InsertRows
  -- the length of ON DUPLICATE KEY UPDATE
  pub on_dup : ℕ

-- `IsEmpty` of a name, and `!= nil` of a part.
abbrev pub is_blank : Bytes → Bool
is_blank [] = true
is_blank (c ∷ s) = false
