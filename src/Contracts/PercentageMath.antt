-- ===== src/Contracts/PercentageMath.antt =====
-- contracts/protocol/libraries/math/PercentageMath.sol, instruction by instruction.
use lend_core.Prelude.{ℕ, ◌==◌, ltb, not, ◌||◌, Option, none, some, if◌then◌else◌}
use lend_core.Constants.{percentage_factor, half_percentage}
use lend_core.Contracts.Yul.{max_word}
use lend_core.Contracts.Yul

unfoldable pub percent_mul : ℕ → ℕ → Option ℕ
percent_mul value percentage =
    if not
      (percentage == 0 || not (ltb (Yul.div (Yul.sub max_word half_percentage) percentage) value))
    then none
    else some (Yul.div (Yul.add (Yul.mul value percentage) half_percentage) percentage_factor)

unfoldable pub percent_div : ℕ → ℕ → Option ℕ
percent_div value percentage =
    if percentage == 0
      || not (not (ltb (Yul.div (Yul.sub max_word (Yul.div percentage 2)) percentage_factor) value))
    then none
    else some
        (Yul.div (Yul.add (Yul.mul value percentage_factor) (Yul.div percentage 2)) percentage)
