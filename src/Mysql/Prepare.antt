-- ===== src/Mysql/Prepare.antt =====
-- A statement that is prepared can be executed.
use milvus_sql_proxy.Base.{
  true, false, ◌≡◌, refl, ap, ◌∙◌, List, [], Bytes, length, ok, ok-injective, All,
}
use milvus_sql_proxy.Base.Exec.{continue}
use milvus_sql_proxy.Base.Exec.Ensures.{continue-eq-ok}
use milvus_sql_proxy.Value.{Value}
use milvus_sql_proxy.Bind.{mysql, bind_sql}
use milvus_sql_proxy.Bind.Describe.{IsBindable, bind_sql-of_describe}
use milvus_sql_proxy.Session.{ClientConn}
use milvus_sql_proxy.Query.{Backends}
use milvus_sql_proxy.Mysql.{BuildRows, Prepared, run, handle_stmt_prepare, handle_stmt_execute}

module _ {W C : Type 0} (b : Backends W C) (build : BuildRows) where
  prepared-described :
      (c : ClientConn) (q : Bytes) (w : W) (p : Prepared)
      → (handle_stmt_prepare b build c q w).0 ≡ ok p
      → (text : Bytes) × (bind_sql b.library q mysql [] true ≡ ok (text, p.parameters))
  unfolding handle_stmt_prepare
  prepared-described c q w p h =
      let ((text, n), _, e, h1) = continue-eq-ok _ _ h in
      let (r, _, _, h2) = continue-eq-ok _ _ h1 in
      (text, e ∙ ap (λ p. ok (text, p.parameters)) (ok-injective h2))

  -- If a statement is prepared and announces `n` parameters, then at any later time executing it
  -- with any `n` arguments of the types that a literal can be made of runs a text in which they are
  -- bound: it does not fail for its arguments.
  pub execute-of_prepare :
      (c later : ClientConn) (q : Bytes) (w now : W) (p : Prepared) (args : List Value)
      → (handle_stmt_prepare b build c q w).0 ≡ ok p
      → length args ≡ p.parameters
      → All IsBindable args
      → (text : Bytes) × (bind_sql b.library q mysql args false ≡ ok (text, p.parameters))
        × (handle_stmt_execute b build later q args now ≡ run b build later text true now)
  unfolding handle_stmt_execute continue
  execute-of_prepare c later q w now p args h same bindable =
      let (t, described) = prepared-described c q w p h in
      let (text, bound) = bind_sql-of_describe b.library q mysql args described same bindable in
      (text, bound, rw bound refl)
