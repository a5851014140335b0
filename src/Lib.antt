-- ===== src/Lib.antt =====
-- milvus-sql-proxy: a proxy that takes SQL over the MySQL and the PostgreSQL protocol and runs
-- it against a Milvus vector database.
--
-- The program's parts, and the modules that model them. All paths are from the repository's
-- root.
--
-- Values and errors. `Value` is the `interface{}` of parameters and cells; `Error` has one
-- constructor for each message of the parts modelled here. `Base` and `Decimal` hold what the
-- parts share: lists over native numbers, byte texts, Go's pair of a value and an error as
-- `Result`, and the decimal text of strconv.
--
-- Binding (pkg/bind.go: `sqlLiteral`, `bindSQL`). `Bind` scans a query text in one of two
-- dialects and puts literals (`Bind.SqlLiteral`) in the place of its parameters. `next_token` is what one round of
-- the loop reads, `write_token` what it writes. `Bind.Describe`, `Bind.Literal`,
-- `Bind.Verbatim`, `Bind.Progress` and `Bind.LineComment` are about it.
--
-- `Normalize` is `normalizeTypes` of the same file, which renames two type aliases in the text
-- of a CREATE TABLE; its loop has the same fuel.
--
-- Planning (pkg/select_plan.go). `Select.Filter` is `scalarFilter` with its helpers,
-- `Select.Vector` is `extractVector`, `Select.Plan` is `planSelect`. The syntax trees are those
-- of the parser library (`Ast`). `Select.Filter.Meaning` says what a condition and a Milvus
-- filter mean: trees of AND, OR and NOT over comparisons, whose own meaning is a parameter.
--
-- Running a SELECT (pkg/select.go, pkg/indexes.go). `Select.Run` is `handleSelect`: the columns
-- and their types from the schema (`Select.Run.Columns`), a query or a vector search
-- (`Select.Run.Requests` says what the Milvus client is asked), and the rows from the columns
-- that come back (`Select.Run.Rows`). `Indexes` is `listIndexes` and `vectorIndexes`.
--
-- Writing (pkg/insert.go). `Insert.Values` is `literalText` and `fieldValue`, `Insert.Columns`
-- is `FillInsertColumns` and `emptyColumn`, `Insert` is `handleInsert` and `handleDelete`. The
-- Milvus client (`Upstream`) and its columns (`ColumnApi`) are parameters; what is relied on of
-- the columns is the record `Lawful` of `Insert.Columns.Filled`.
--
-- Tables (pkg/ddl.go, pkg/types.go). `Ddl` is `DDLToMilvusSchema` with `columnToMilvusField`,
-- `Ddl.Handlers` the handlers of CREATE TABLE and DROP TABLE, and `Ddl.Statements` the parser's
-- trees.
--
-- Commands (pkg/commands.go). `Commands` is `handleMilvusCommand`, `Commands.Options` the
-- options of CREATE INDEX and `buildIndex`, and `Commands.Patterns` the regular expressions, as
-- text.
--
-- A session (pkg/conn.go, pkg/conn_query.go, pkg/show.go, pkg/dbddl.go, pkg/use.go). `Session`
-- is what a session keeps, `Query` is `handleQuery`, which finds the handler of a statement,
-- with `Execute` and `Describe`; `Query.Handlers` has the short handlers. What a session takes
-- from other code is the record `Backends`: the Milvus client (`Milvus`), package regexp, the
-- parser and its printer. An operation on the session is of the type `Exec W`, a function on the
-- state `W` of the Milvus service that may fail (`Base.Exec`); `Base.Exec.Keeps` and
-- `Base.Exec.Ensures` are the rules for what it keeps and what it returns. `Query.Calls` lists the
-- calls of the Milvus client; what each of them keeps, every statement keeps.
--
-- Parameter types (pkg/parameters.go). `Parameters` is `parameterOIDs`; the order in which the
-- parser's walk shows the nodes of a statement is a parameter (`Syntax`).
--
-- Results (pkg/conn_resultvalue.go, `resultField` of pkg/select.go). `Resultset` has
-- `formatValue`, `formatField` and `buildResultset`.
--
-- PostgreSQL (pkg/postgres.go). `Wire` has the encodings of single values, formats and (`Wire.Tag`) tags,
-- `Postgres.Encoding` those of rows and parameters. `Postgres.Handlers` and `Postgres.Portals`
-- have one function for each case of the message loop, `Postgres.Loop` one turn of the loop
-- (`turn`) and runs of it (`serve`); `Postgres.Loop.Pages` is about the rows of a portal. The
-- state of a connection is the record `Conn`: the maps of statements and portals, the flag
-- `failed`, and the state of the SQL session, which is a parameter (`Session`). A handler uses
-- `Bind` for texts and `Wire` for values. `Postgres.Startup` is the handshake (`start`), and
-- `session_of` is the session of `Query` as the loop uses it. `Postgres.Connection` puts these
-- together (`serve_postgres`): handshake, loop, and the `Close` of the session.
--
-- MySQL (pkg/mysql.go). `Mysql` has the methods of the handler that the protocol library calls,
-- and `mysqlResult`; `Mysql.Connection` is `serveMySQL`, with the library as the record
-- `Protocol`. That the library acts on a session only by the methods of the handler is the
-- hypothesis `IsDriven`.
--
-- Server (pkg/server.go). `Server` is the map of connections, the wait group and `Close`, as
-- functions on one state; `Server.Steps` says which of them may follow which. `Server.Listeners`
-- has the listeners of `NewServer`, and `Server.Run` is `Run` over the results that the listeners
-- send, which are a parameter (`Events`), with the `Close` behind it; `Server.Serve` is the loop of a
-- listener over what `Accept` returns, and `Server.Goroutine` serves one connection in the mode of its
-- listener.
--
-- Command line (cmd/milvus-sql.go). `Main` is `main` and `run`: flags, configuration, log level and
-- log file, and a server that is made, run and closed.
--
-- Configuration (pkg/config.go). `Config` is `defaults`, and `ParseConfigFile` with its file and
-- its YAML reader as parameters.
--
-- Bounds and fuel. The loop of `bindSQL` runs on the length of the text as its fuel; each round
-- reads a byte at least, and the end of the fuel is never met. `Decimal.emit` has the number
-- itself as fuel. Integers of `w` bits wrap at `2 ^ w` where the code converts or adds them; lengths and
-- counters are native numbers without a bound. An index out of range is the error `index_panic`.
--
-- `handleQuery` calls itself for an UPSERT: it runs on the number of calls that are granted, two
-- in `execute`.
--
-- Not modelled: the SQL parser, the engine of regular expressions, the YAML reader, the Milvus
-- client and the wire libraries, which are parameters or inputs; decimal floats, Go quoting and
-- JSON, which are the record `Library`; sockets, deadlines and TLS; contexts and the lock of a
-- session; what is logged. A transport that fails ends a connection. A panic inside the handler of a
-- MySQL command is an error answer of it, where the code leaves the connection.
pub mod Base
pub mod Error
pub mod Decimal
pub mod Value
pub mod Bind
pub mod Ast
pub mod Select
pub mod Insert
pub mod Ddl
pub mod Indexes
pub mod Session
pub mod Milvus
pub mod Commands
pub mod Query
pub mod Parameters
pub mod Mysql
pub mod Resultset
pub mod Wire
pub mod Postgres
pub mod Server
pub mod Normalize
pub mod Config
pub mod Main
pub mod Tests
