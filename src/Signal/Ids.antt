-- ===== src/Signal/Ids.antt =====
-- The ids of decisions and objections (internal/signal/state_machine.go). The counter is an int64 that
-- a call adds one to under its lock; as it never passes 2^63, it is a number here. `stamp` is the text
-- of the clock, which counts whole seconds.
use feishu_agent_mem.Prelude.{ℕ, ◌+◌, ◌%◌, ◌==◌, String, str_append, if◌then◌else◌}

-- string([]byte{byte('0' + k)}) for one digit
unfoldable pub digit : ℕ → String
digit k =
    if k == 0
    then "0"
    else if k == 1
    then "1"
    else if k == 2
    then "2"
    else if k == 3
    then "3"
    else if k == 4
    then "4"
    else if k == 5
    then "5"
    else if k == 6
    then "6"
    else if k == 7
    then "7"
    else if k == 8
    then "8"
    else "9"

-- The id and the counter afterwards; the counter is read again behind the lock, here by the same call.
unfoldable pub generate_sdr_id : String → ℕ → String × ℕ
unfolding digit
generate_sdr_id stamp id_counter =
    let next = id_counter + 1 in
    (str_append "DEC-" (str_append stamp (str_append "-" (digit (next % 10)))), next)

unfoldable pub generate_objection_id : String → ℕ → String × ℕ
unfolding digit
generate_objection_id stamp id_counter =
    let next = id_counter + 1 in
    (str_append "OBJ-" (str_append stamp (str_append "-" (digit (next % 10)))), next)
