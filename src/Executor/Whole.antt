-- ===== src/Executor/Whole.antt =====
-- A `double` for tests, whose bits are natural numbers.
use microsql.Base.{◌+◌, ◌-◌, ◌*◌, ◌/◌, ltb, ◌==◌}
use microsql.Executor.Values.{Double}

abbrev pub whole : Double
whole = record {
  plus = λ a b. a + b;
  minus = λ a b. a - b;
  times = λ a b. a * b;
  over = λ a b. a / b;
  neg = λ a. a;
  eq = λ a b. a == b;
  lt = λ a b. ltb a b;
}
