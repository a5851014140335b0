-- ===== src/Commands/Steps.antt =====
-- What the commands share: their type, the text and the groups of a match, and what is described.
use milvus_sql_proxy.Base.{
  ℕ, ◌&&◌, List, [], ◌∷◌, Bytes, ◌==◌, is_empty, get_elem?, Option, none, some, if◌then◌else◌,
  Result, ok, err,
}
use milvus_sql_proxy.Base.Exec.{Exec, pure, ◌>>=◌, ◌>>◌}
use milvus_sql_proxy.Error.{Error, index_panic}
use milvus_sql_proxy.Value.{Value, string}
use milvus_sql_proxy.Resultset.{QueryResult, no_result}
use milvus_sql_proxy.Session.{ClientConn}
use milvus_sql_proxy.Commands.Options.{trim_space}

-- What a statement does to the session, the Milvus service, and its result.
abbrev pub Run : Type 0 → Type 0
Run W = Exec W (ClientConn × QueryResult)

abbrev pub keep : {W : Type 0} → ClientConn → Exec W QueryResult → Run W
keep c m = m >>= λ r. pure (c, r)

-- `strings.TrimSuffix(s, ";")`
unfoldable pub trim_semicolon : Bytes → Bytes
trim_semicolon [] = []
trim_semicolon (c ∷ s) =
    let rest = trim_semicolon s in if is_empty s && c == b';' then [] else c ∷ rest

unfoldable pub trim_statement : Bytes → Bytes
unfolding trim_space trim_semicolon
trim_statement sql = trim_space (trim_semicolon (trim_space sql))

-- `m[i]`
abbrev pub group : List Bytes → ℕ → Result Error Bytes
group m i = or_panic (get_elem? m i)
  where
    or_panic : Option Bytes → Result Error Bytes
    or_panic none = err index_panic
    or_panic (some s) = ok s

-- A call whose result is OK.
abbrev pub done : {W : Type 0} → Exec W (Unit {0}) → Exec W QueryResult
done m = m >> pure no_result

-- `if c.describe { return c.writeOK(nil) }`
abbrev pub unless_described : {W : Type 0} → ClientConn → Exec W QueryResult → Exec W QueryResult
unless_described c m = if c.describe then pure no_result else m

-- What a pattern matches, or what follows it.
unfoldable pub on_match :
    {A : Type 0} → Option (List Bytes) → (List Bytes → A) → Option A → Option A
on_match none f rest = rest
on_match (some m) f rest = some (f m)

abbrev pub one_cell : Bytes → List Value
one_cell s = string s ∷ []
