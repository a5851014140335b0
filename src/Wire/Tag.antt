-- ===== src/Wire/Tag.antt =====
-- `pgTag` of pkg/postgres.go, the tag of a command that is complete, and `strings.Fields`, on ASCII
-- white space.
use milvus_sql_proxy.Base.{
  ℕ, Bool, ◌||◌, List, [], ◌∷◌, ◌++◌, Bytes, codes, equal, to_upper, length, between, ◌==◌, none,
  some, if◌then◌else◌,
}
use milvus_sql_proxy.Decimal.{format_uint}
use milvus_sql_proxy.Resultset.{QueryResult}

abbrev pub is_space : ℕ → Bool
is_space c = c == b' ' || between 9 13 c

-- The words of a text, the first of which goes on with `word` in front.
unfoldable pub words_onto : Bytes → Bytes → List Bytes
words_onto [] [] = []
words_onto (w ∷ word) [] = (w ∷ word) ∷ []
words_onto word (c ∷ s) =
    let ended = words_onto [] s in
    let longer = words_onto (word ++ c ∷ []) s in if is_space c then close word ended else longer
  where
    close : Bytes → List Bytes → List Bytes
    close [] ws = ws
    close (w ∷ word) ws = (w ∷ word) ∷ ws

-- `strings.Fields`
abbrev pub words : Bytes → List Bytes
words = words_onto []

abbrev pub verb_tag : Bytes → List Bytes → ℕ → Bytes
verb_tag verb rest affected =
    if equal verb (codes "INSERT") || equal verb (codes "UPSERT") || equal verb (codes "REPLACE")
    then codes "INSERT 0 " ++ format_uint affected
    else if equal verb (codes "DELETE")
    then codes "DELETE " ++ format_uint affected
    else if equal verb (codes "CREATE") || equal verb (codes "DROP")
    then two_words rest
    else verb
  where
    two_words : List Bytes → Bytes
    two_words [] = verb
    two_words (w ∷ ws) = verb ++ (codes " " ++ to_upper w)

abbrev pub tag_of : List Bytes → QueryResult → Bytes
tag_of [] r = []
tag_of (w ∷ ws) r = elim r.resultset [
  | none ↦ verb_tag (to_upper w) ws r.affected_rows
  | some rs ↦ codes "SELECT " ++ format_uint (length rs.values)
]

-- `pgTag`
unfoldable pub pg_tag : Bytes → QueryResult → Bytes
unfolding words_onto format_uint
pg_tag q r = tag_of (words q) r
