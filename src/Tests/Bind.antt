-- ===== src/Tests/Bind.antt =====
-- Runs of the binding of arguments.
use milvus_sql_proxy.Base.{
  ◌↔◌, equal, ◌⊎◌, true, false, ◌≡◌, ◌≢◌, refl, List, [], ◌∷◌, ◌++◌, Bytes, codes, length, negsuc,
  ok, err,
}
use milvus_sql_proxy.Error.{out_of_fuel}
use milvus_sql_proxy.Value.{Value, signed, string, int64}
use milvus_sql_proxy.Bind.{
  mysql, postgres, bind_sql, next_token, literal_text, split_line, line_token,
}
use milvus_sql_proxy.Bind.SqlLiteral.{sql_literal, string_literal, escape}
use milvus_sql_proxy.Bind.Describe.{bind_sql-iff_described}
use milvus_sql_proxy.Bind.Literal.{
  unescape, double_quotes, string_literal-token, postgres_string-token,
}
use milvus_sql_proxy.Bind.Progress.{bind_sql-ne-out_of_fuel}
use milvus_sql_proxy.Bind.LineComment.{bind_sql-line_comment}
use milvus_sql_proxy.Normalize.{normalize_types}
use milvus_sql_proxy.Normalize.Rewrites.{Renames, is_create_table, normalize_types-Renames}
use milvus_sql_proxy.Tests.{library}

abbrev two_marks : Bytes
two_marks = codes "a=? and '?'=?"

abbrev two_arguments : List Value
two_arguments = signed int64 (negsuc 6) ∷ string (codes "x'y") ∷ []

described : bind_sql library two_marks mysql [] true ≡ ok (codes "a=0 and '?'=0", 2)
unfolding bind_sql
described = refl

bound : bind_sql library two_marks mysql two_arguments false ≡ ok (codes "a=-7 and '?'='x\\'y'", 2)
unfolding bind_sql sql_literal
bound = refl

bind_sql-iff_described_example :
    ((out : Bytes) × (bind_sql library two_marks mysql two_arguments false ≡ ok (out, 2))) ↔ (
      (length two_arguments ≡ 2)
      × ((t : Bytes) × (bind_sql library two_marks mysql [] true ≡ ok (t, 2))))
bind_sql-iff_described_example =
    bind_sql-iff_described library two_marks mysql two_arguments 2 (tt, (tt, tt))

string_literal-token_example :
    (next_token mysql 0 b'\'' (escape (codes "a'\\") ++ b'\'' ∷ codes " or")
      ≡ ok (literal_text 0 (string_literal (codes "a'\\")) (codes " or")))
    × (unescape (escape (codes "a'\\")) ≡ codes "a'\\")
string_literal-token_example = string_literal-token 0 (codes "a'\\") (codes " or") refl

postgres_string-token_example :
    (next_token postgres 0 b'\'' (double_quotes (codes "a'\\") ++ b'\'' ∷ codes " or")
      ≡ ok (literal_text 0 (string_literal (codes "a'\\")) (codes " or")))
    × (unescape (escape (codes "a'\\")) ≡ codes "a'\\")
postgres_string-token_example = postgres_string-token 0 (codes "a'\\") (codes " or") refl

bind_sql-ne-out_of_fuel_example :
    bind_sql library (codes "a /* ' */ ?") mysql [] true ≢ err out_of_fuel
bind_sql-ne-out_of_fuel_example =
    bind_sql-ne-out_of_fuel library (codes "a /* ' */ ?") mysql [] true

abbrev before_mark : Bytes
before_mark = codes "select id from people where n = "

hidden :
    bind_sql library
      (before_mark ++ codes "-? and id = 1")
      mysql
      (signed int64 (negsuc 4) ∷ [])
      false
    ≡ ok (codes "select id from people where n = --5 and id = 1", 1)
unfolding bind_sql sql_literal
hidden = refl

bind_sql-line_comment_example :
    (u : Bytes) × (codes "select id from people where n = --5 and id = 1"
      ≡ before_mark ++ b'-' ∷ b'-' ∷ u)
    × (next_token mysql 0 b'-' (b'-' ∷ u) ≡ ok (line_token 0 (split_line (b'-' ∷ b'-' ∷ u))))
bind_sql-line_comment_example =
    bind_sql-line_comment library int64 4 [] before_mark (codes " and id = 1") refl hidden

abbrev create_table : Bytes
create_table = codes "create table t (a Bool default 'bool')"

renamed : normalize_types create_table ≡ ok (codes "create table t (a tinyint(1) default 'bool')")
unfolding normalize_types equal
renamed = refl

normalize_types-Renames_example :
    (out : Bytes) × (normalize_types create_table ≡ ok out)
    × ((is_create_table create_table ≡ true) × Renames create_table out
        ⊎ (is_create_table create_table ≡ false) × (out ≡ create_table))
normalize_types-Renames_example = normalize_types-Renames create_table
