-- ===== src/Llm/Breaker.antt =====
-- The circuit breaker (internal/llm/error_handling/circuit_breaker.go). The operation is the result
-- that it gives if it is run, and the two clock readings of a call are arguments; a call says
-- whether it ran the operation. `failCount` is an int that a success resets, kept as a number.
use feishu_agent_mem.Prelude.{
  ℕ, ◌+◌, String, Option, some, none, Bool, true, false, ltb, leb, List, [], ◌∷◌, if◌then◌else◌,
}

pub data BreakerState : Type 0 where
  closed open_ half_open : BreakerState

pub record CircuitBreaker : Type 0 where
  pub timeout : ℕ
  pub max_retries : ℕ
  pub state : BreakerState
  pub fail_count : ℕ
  pub last_fail : ℕ

unfoldable pub new_circuit_breaker : ℕ → ℕ → CircuitBreaker
new_circuit_breaker timeout max_retries = record {
  timeout = timeout;
  max_retries = max_retries;
  state = closed;
  fail_count = 0;
  last_fail = 0;
}

unfoldable pub record_failure : ℕ → CircuitBreaker → CircuitBreaker
record_failure now cb =
    let counted = record cb { fail_count = cb.fail_count + 1; last_fail = now } in
    if leb cb.max_retries counted.fail_count then record counted { state = open_ } else counted

unfoldable pub record_success : CircuitBreaker → CircuitBreaker
record_success cb = record cb { fail_count = 0; state = closed }

-- What a call returned, nil or an error, whether it ran the operation, and the breaker after it.
pub record Executed : Type 0 where
  pub error : Option String
  pub ran : Bool
  pub after : CircuitBreaker

-- One call: when it starts, what the operation returns if it is run, and when that returns.
pub record Attempt : Type 0 where
  pub start : ℕ
  pub result : Option String
  pub finish : ℕ

unfoldable pub run_operation : Attempt → CircuitBreaker → Executed
unfolding record_failure record_success
run_operation a cb = elim a.result [
  | some x ↦ record { error = some x; ran = true; after = record_failure a.finish cb }
  | none ↦ record { error = none; ran = true; after = record_success cb }
]

-- The test `cb.state == "open"` and what follows it.
unfoldable pub execute_in : BreakerState → Attempt → CircuitBreaker → Executed
unfolding run_operation
execute_in open_ a cb =
    if ltb (cb.last_fail + cb.timeout) a.start
    then run_operation a (record cb { state = half_open })
    else record { error = none; ran = false; after = cb }
execute_in closed a cb = run_operation a cb
execute_in half_open a cb = run_operation a cb

unfoldable pub execute : Attempt → CircuitBreaker → Executed
unfolding execute_in
execute a cb = execute_in cb.state a cb

unfoldable pub execute_all : List Attempt → CircuitBreaker → CircuitBreaker
unfolding execute
execute_all [] cb = cb
execute_all (a ∷ attempts) cb = execute_all attempts (execute a cb).after
