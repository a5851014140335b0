-- ===== src/Error.antt =====
-- The errors of the modelled parts of package `pkg`, one constructor for each message, and those
-- of the libraries that they call. The text of a message is not modelled, its arguments are.
use milvus_sql_proxy.Base.{ℕ, ℤ, Bytes}

-- The codes of github.com/flike/kingshard/mysql that the package gives.
pub data MysqlCode : Type 0 where
  er_unknown_error er_cant_create_table er_cant_drop_field_or_key : MysqlCode
  er_aborting_connection er_database_name : MysqlCode

pub data Error : Type 0 where
  -- pkg/bind.go
  unterminated_quote unterminated_comment backtick_in_postgres dollar_quoted bad_parameter_number :
      Error
  unsupported_parameter_type : Error
  missing_parameter : ℕ → Error
  expected_parameters : ℕ → ℕ → Error
  -- the bound on rounds that stands for `for i < len(q)`
  out_of_fuel : Error
  -- pkg/select_plan.go
  unsupported_clause one_collection joins unsupported_table bad_star aliased_projection : Error
  qualified_projection limit_too_large not_integer_literal bad_limit : Error
  in_requires_list in_requires_literals like_requires_literal unsupported_escape : Error
  unsupported_where unsupported_value second_vector bad_vector_predicate : Error
  unsupported_operator : Bytes → Error
  -- pkg/insert.go
  no_schema unsupported_insert no_rows explicit_auto_id upsert_auto_id : Error
  unknown_field duplicate_field missing_field : Bytes → Error
  row_length : ℕ → ℕ → ℕ → Error
  bad_dimension unsupported_field_type not_literal bad_vector_call bad_vector_argument : Error
  non_finite not_string_literal too_long bad_json null_element : Error
  vector_dimension : ℕ → ℤ → Error
  -- `field %s row %d: %w`
  in_cell : Bytes → ℕ → Error → Error
  unsupported_delete unsupported_delete_target : Error
  -- pkg/ddl.go; a column's error carries its name
  unsupported_ddl : Bytes → Error
  no_table_spec unsupported_table_options duplicate_column reserved_distance bad_field_name : Error
  bad_primary_type bad_auto_id_type bad_collection unsupported_column_options : Error
  no_vector_length bad_vector_length unsupported_sql_type no_var_char_length : Error
  bad_var_char_length auto_increment_not_primary unsupported_key unsupported_drop : Error
  in_column : Bytes → Error → Error
  -- an error with a MySQL code
  mysql_error : MysqlCode → Error → Error
  -- pkg/select.go
  count_with_vector no_float_vector no_vector_index no_metric incomplete_scores : Error
  count_with_limit not_floats : Error
  missing_result_field : Bytes → Error
  -- pkg/conn_query.go, pkg/show.go, pkg/dbddl.go
  empty_statement unsupported_statement : Error
  unsupported_show : Bytes → Error
  -- pkg/commands.go, pkg/indexes.go
  bad_index_option duplicate_index_option bad_metric_type no_grpc_client index_status : Error
  unsupported_index_option unsupported_index_kind : Bytes → Error
  invalid_index_option : Bytes → Bytes → Error
  -- pkg/mysql.go
  no_field_list unsupported_command : Error
  -- pkg/postgres.go
  too_many_statements too_many_types statement_exists unknown_statement unknown_portal : Error
  bad_describe_target parameter_count bad_parameter_formats bad_result_formats : Error
  too_many_portals portal_exists bad_close_target unsupported_message expected_bool : Error
  bad_binary_parameter : ℕ → Error
  -- pkg/conn_resultvalue.go
  invalid_value unsupported_result_type invalid_argument : Error
  row_columns : ℕ → ℕ → ℕ → Error
  -- pkg/config.go
  bad_mode bad_timeout bad_tls_pair : Error
  -- cmd/milvus-sql.go: `configuration: %w`
  in_configuration : Error → Error
  -- an index out of range: a panic, which ends the connection
  index_panic : Error
  -- strconv, encoding/json, and the Milvus client
  bad_number json_error : Error
  library : ℕ → Error
