-- ===== src/Prelude/Words.antt =====
-- Go's int on 64 bits, as its two's complement pattern below 2 ^ 64.
use Prim.Native.Nat.{ℕ, ◌+◌, ◌-◌, ◌%◌}
use mathlib.Core.Bool.{Bool}
use feishu_agent_mem.Prelude.Tests.{leb}

-- 2 ^ 64 and 2 ^ 63
abbrev pub word_size : ℕ
word_size = 18446744073709551616

abbrev pub sign_bit : ℕ
sign_bit = 9223372036854775808

-- a + b
abbrev pub add_int : ℕ → ℕ → ℕ
add_int a b = (a + b) % word_size

-- a - b
abbrev pub sub_int : ℕ → ℕ → ℕ
sub_int a b = (a + (word_size - b)) % word_size

-- a <= b, on the signed values
abbrev pub int_leb : ℕ → ℕ → Bool
int_leb a b = leb ((a + sign_bit) % word_size) ((b + sign_bit) % word_size)
