-- ===== src/Contracts/Yul.antt =====
-- The instructions of Yul on 256-bit words, which wrap around.
use lend_core.Prelude.{ℕ, ◌+◌, ◌-◌, ◌*◌, ◌/◌, ◌%◌, ◌^◌}

abbrev pub word_mod : ℕ
word_mod = 2 ^ 256

-- `not(0)`, `type(uint256).max`
abbrev pub max_word : ℕ
max_word = 2 ^ 256 - 1

abbrev pub add : ℕ → ℕ → ℕ
add a b = (a + b) % word_mod

abbrev pub mul : ℕ → ℕ → ℕ
mul a b = a * b % word_mod

abbrev pub sub : ℕ → ℕ → ℕ
sub a b = (a + word_mod - b) % word_mod

-- Division by zero is zero, as on the native numbers.
abbrev pub div : ℕ → ℕ → ℕ
div a b = a / b
