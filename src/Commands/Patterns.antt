-- ===== src/Commands/Patterns.antt =====
-- The regular expressions of pkg/commands.go, as their source text.
use milvus_sql_proxy.Base.{◌++◌, Bytes, codes}

abbrev pub ident : Bytes
ident = codes "([A-Za-z_][A-Za-z0-9_]*)"

abbrev pub lifecycle_pattern : Bytes
lifecycle_pattern = codes "(?i)^(LOAD|RELEASE|FLUSH) (?:TABLE|COLLECTION) " ++ (ident ++ codes "$")

abbrev pub describe_pattern : Bytes
describe_pattern = codes "(?i)^(?:DESCRIBE|DESC) " ++ (ident ++ codes "$")

abbrev pub create_index_pattern : Bytes
create_index_pattern =
    codes "(?i)^CREATE INDEX "
    ++ (ident
        ++ (codes " ON "
            ++ (ident
                ++ (codes "\\s*\\(\\s*"
                    ++ (ident
                        ++ codes
                            "\\s*\\) USING (FLAT|IVF_FLAT|HNSW|AUTOINDEX|INVERTED)(?: WITH\\s*\\((.*)\\))?$")))))

abbrev pub drop_index_pattern : Bytes
drop_index_pattern = codes "(?i)^DROP INDEX " ++ (ident ++ (codes " ON " ++ (ident ++ codes "$")))

abbrev pub show_indexes_pattern : Bytes
show_indexes_pattern = codes "(?i)^SHOW INDEXES FROM " ++ (ident ++ codes "$")

abbrev pub partition_pattern : Bytes
partition_pattern =
    codes "(?i)^(CREATE|DROP|LOAD|RELEASE) PARTITION "
    ++ (ident ++ (codes " ON " ++ (ident ++ codes "$")))

abbrev pub show_partitions_pattern : Bytes
show_partitions_pattern = codes "(?i)^SHOW PARTITIONS FROM " ++ (ident ++ codes "$")

abbrev pub upsert_pattern : Bytes
upsert_pattern = codes "(?i)^UPSERT\\s+INTO\\b"
