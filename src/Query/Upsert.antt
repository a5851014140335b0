-- ===== src/Query/Upsert.antt =====
-- An UPSERT is handled by one further call: the fuel of `execute` is enough.
use milvus_sql_proxy.Base.{
  ℕ, suc, true, ◌≡◌, refl, Bytes, codes, Option, none, is_some, Bool-cases, inl, inr,
}
use milvus_sql_proxy.Session.{ClientConn}
use milvus_sql_proxy.Milvus.{Regexps}
use milvus_sql_proxy.Commands.Patterns.{upsert_pattern}
use milvus_sql_proxy.Commands.Options.{trim_space}
use milvus_sql_proxy.Commands.{Run, trim_statement, handle_milvus_command}
use milvus_sql_proxy.Query.{Backends, handle_query, execute}

-- In a statement that the pattern matches, what its leading words are replaced by does not match
-- again.
abbrev pub IsRewritten : Regexps → Type 0
IsRewritten re =
    (sql : Bytes)
    → is_some (re.find_submatch upsert_pattern sql) ≡ true
    → re.find_submatch upsert_pattern
        (trim_statement (trim_space (re.replace_all upsert_pattern sql (codes "REPLACE INTO"))))
      ≡ none

module _ {W C : Type 0} (b : Backends W C) (c : ClientConn) where
  command : (Bytes → Run W) → Bytes → Option (Run W)
  command again sql = handle_milvus_command b.milvus b.kinds b.formats c b.regexps again sql

  command-plain :
      (again other : Bytes → Run W) (sql : Bytes)
      → b.regexps.find_submatch upsert_pattern (trim_statement sql) ≡ none
      → command again sql ≡ command other sql
  unfolding command handle_milvus_command
  command-plain again other sql e = rw e refl

  handle_query-plain :
      (n m : ℕ) (sql : Bytes)
      → b.regexps.find_submatch upsert_pattern (trim_statement (trim_space sql)) ≡ none
      → handle_query b c (suc n) sql ≡ handle_query b c (suc m) sql
  unfolding handle_query command
  handle_query-plain n m sql e =
      rw (command-plain (handle_query b c n) (handle_query b c m) (trim_space sql) e) refl

  -- With a pattern that does not match what an UPSERT is replaced by, the two calls that are
  -- granted to a statement are enough: it has the result that any greater number of calls gives.
  pub handle_query-execute :
      IsRewritten b.regexps
      → (n : ℕ) (sql : Bytes) → handle_query b c (suc (suc n)) sql ≡ execute b c sql
  unfolding handle_query execute handle_milvus_command
  handle_query-execute rewritten n sql =
      let text = trim_statement (trim_space sql) in
      elim (Bool-cases (is_some (b.regexps.find_submatch upsert_pattern text))) [
        | inl e ↦
            rw
              (
                e,
                handle_query-plain n 0
                    (b.regexps.replace_all upsert_pattern text (codes "REPLACE INTO"))
                    (rewritten text e),
              )
              refl
        | inr e ↦ rw e refl
      ]
