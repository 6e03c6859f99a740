-- ===== src/Comparison/Tolerance.antt =====
-- The tolerance of the comparison, for every BigNumber that keeps to its documentation.
use lend_core.Prelude.{◌≡◌, ◌↔◌, false}
use lend_core.Prelude.Result.{ok}
use lend_core.BigNumber.{BigNumberApi, Documented, Documented-integers}
use lend_core.Types.{ReserveData, UserReserveData}
use lend_core.Comparison.{Conversions, expect_equal, reserve_object, user_object}
use lend_core.Comparison.Accepted.{IsClose, IsCloseUser, reserves-IsClose, users-IsCloseUser}

module _ ⦃big : BigNumberApi⦄ (doc : Documented big) (conversions : Conversions) where
  -- The comparison of two reserves returns exactly if each of the seventeen numbers that it
  -- compares is there in both and differs by at most three, and the address is the same; that of
  -- two positions of a user exactly if each of ten numbers is there in both and differs by at most
  -- three, and the use as collateral is the same.
  pub expect_equal-IsClose :
      (expected actual : ReserveData) (user_expected user_actual : UserReserveData)
      → ((expect_equal conversions false (reserve_object actual) (reserve_object expected) ≡ ok tt)
          ↔ IsClose expected actual)
        × ((expect_equal conversions false (user_object user_actual) (user_object user_expected)
              ≡ ok tt)
            ↔ IsCloseUser user_expected user_actual)
  expect_equal-IsClose expected actual user_expected user_actual =
      rw (Documented-integers big doc) (
        reserves-IsClose conversions expected actual,
        users-IsCloseUser conversions user_expected user_actual,
      )
