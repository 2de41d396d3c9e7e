-- ===== src/Llm/Breaking.antt =====
-- The circuit breaker over sequences of calls (internal/llm/error_handling/circuit_breaker.go).
use feishu_agent_mem.Prelude.{
  ℕ, ◌+◌, ◌≤◌, ◌<◌, none, true, List, [], ◌∷◌, ◌≡◌, ◌≢◌, ◌↔◌, arith, ◌&&◌, not, known,
  if◌then◌else◌,
}
use feishu_agent_mem.Llm.Breaker.{
  closed, open_, half_open, CircuitBreaker, new_circuit_breaker, Attempt, execute, execute_all,
}

-- Open exactly when the count of failures is at the limit, and not half open.
pub record IsSettled (cb : CircuitBreaker) : Type 0 where
  pub open_when : (cb.state ≡ open_) ↔ (cb.max_retries ≤ cb.fail_count)
  pub not_half_open : cb.state ≢ half_open

execute-IsSettled :
    (a : Attempt) (cb : CircuitBreaker)
    → 0 < cb.max_retries
    → IsSettled cb
    → IsSettled (execute a cb).after
unfolding execute
execute-IsSettled a cb pos s = record {
  open_when =
      (λ h. ground (arith, s.open_when.0), λ h. ground (arith, s.open_when.0, s.open_when.1));
  not_half_open = ground (arith, s.open_when.0, s.not_half_open);
}

max_retries-execute :
    (a : Attempt) (cb : CircuitBreaker) → (execute a cb).after.max_retries ≡ cb.max_retries
unfolding execute
max_retries-execute a cb = ground arith

execute_all-keeps :
    (attempts : List Attempt) (cb : CircuitBreaker)
    → 0 < cb.max_retries
    → IsSettled cb
    → IsSettled (execute_all attempts cb)
unfolding execute_all
execute_all-keeps [] cb pos s = s
execute_all-keeps (a ∷ attempts) cb pos s =
    execute_all-keeps attempts (execute a cb).after (omega (arith, max_retries-execute a cb))
      (execute-IsSettled a cb pos s)

-- A new breaker with a positive limit, after any calls with any results at any times, is open exactly
-- when its count of failures has reached the limit, and is never left half open.
pub execute_all-IsSettled :
    (timeout max_retries : ℕ) (attempts : List Attempt)
    → 0 < max_retries
    → IsSettled (execute_all attempts (new_circuit_breaker timeout max_retries))
unfolding new_circuit_breaker
execute_all-IsSettled timeout max_retries attempts pos =
    execute_all-keeps attempts (new_circuit_breaker timeout max_retries) pos
      (record { open_when = (λ h. cc, λ h. absurd (omega arith)); not_half_open = λ h. cc })

-- A call on an open breaker whose failures have reached the limit runs the operation exactly when
-- more than the timeout has passed since the last failure. Its error is the operation's if it ran it,
-- and none if it did not. A run that succeeds closes the breaker with no failures counted; otherwise
-- it stays open, and a failed run counts and starts a new timeout when it ends.
pub execute_open :
    (a : Attempt) (cb : CircuitBreaker)
    → cb.state ≡ open_
    → cb.max_retries ≤ cb.fail_count
    → let r = execute a cb in
      ((r.ran ≡ true) ↔ (cb.last_fail + cb.timeout < a.start))
      × (r.error ≡ (if r.ran then a.result else none))
      × (r.after.state ≡ (if r.ran && not (known a.result) then closed else open_))
      × (r.after.fail_count
          ≡ (if r.ran then (if known a.result then cb.fail_count + 1 else 0) else cb.fail_count))
      × (r.after.last_fail ≡ (if r.ran && known a.result then a.finish else cb.last_fail))
unfolding execute
execute_open a cb o full =
    ((λ h. ground arith, λ h. ground arith), ground arith, ground arith, ground arith, ground arith)
