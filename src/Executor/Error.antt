-- ===== src/Executor/Error.antt =====
-- ExecError of src/executor/executor.h, and execErrorStr of src/executor/executor_helpers.cpp.
use microsql.Base.{Outcome, Text, codes}

pub data ExecError : Type 0 where
  table_schema_not_found error_getting_data type_mismatch division_by_zero : ExecError
  invalid_expression column_count_mismatch not_null_violation primary_key_violation : ExecError
  not_implemented duplicate_table internal_error : ExecError

unfoldable pub exec_error_str : ExecError → Text
exec_error_str table_schema_not_found = codes "table not found"
exec_error_str error_getting_data = codes "column not found"
exec_error_str type_mismatch = codes "type mismatch"
exec_error_str division_by_zero = codes "division by zero"
exec_error_str invalid_expression = codes "invalid expression"
exec_error_str column_count_mismatch = codes "column count mismatch"
exec_error_str not_null_violation = codes "NOT NULL constraint violated"
exec_error_str primary_key_violation = codes "duplicate primary key"
exec_error_str not_implemented = codes "not implemented"
exec_error_str duplicate_table = codes "duplicate table"
exec_error_str internal_error = codes "internal error"

abbrev pub Exec : Type 0 → Type 0
Exec A = Outcome ExecError A
