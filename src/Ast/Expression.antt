-- ===== src/Ast/Expression.antt =====
-- src/ast/expression.h: the tagged struct as a data type, with the fields that each kind uses.
-- Children are indices into the list of expressions.
use microsql.Base.{ℕ, Bool, Text}
use microsql.Base.Int.{ℤ}

pub data BinaryOperator : Type 0 where
  equal not_equal less_than less_than_or_equal greater_than greater_than_or_equal : BinaryOperator
  and or add subtract multiply divide is is_not : BinaryOperator

pub data UnaryOperator : Type 0 where
  not negate : UnaryOperator

pub data Expression : Type 0 where
  literal_int : ℤ → Expression
  -- a `double` by its 64 bits
  literal_float : ℕ → Expression
  literal_text : Text → Expression
  literal_bool : Bool → Expression
  literal_null : Expression
  column_ref : (column_name table_prefix : Text) → Expression
  binary : BinaryOperator → (left_index right_index : ℕ) → Expression
  unary : UnaryOperator → (operand_index : ℕ) → Expression
  star : Expression
