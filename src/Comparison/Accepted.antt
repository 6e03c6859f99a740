-- ===== src/Comparison/Accepted.antt =====
-- The data of a reserve and of a user that the comparison accepts.
use Prim.Native.String.{String}
use package.text.Mathlib.TextEquality.{eq_iff}
use lend_core.Prelude.{List, [], ◌∷◌, ◌≡◌, refl, ◌↔◌, Option, none, some, Bool, true, false}
use lend_core.Prelude.Int.{ℤ, pos, ◌-ℤ◌, abs_ℤ, leb_ℤ}
use lend_core.Prelude.Result.{Result, ok, err, ◌>>◌, expect}
use lend_core.BigNumber.{integers}
use lend_core.Types.{ReserveData, UserReserveData}
use lend_core.Comparison.{
  Conversions, number, text, flag, valued, check_property, expect_equal, almost_equal_or_equal,
  lookup, is_accessory, reserve_object, user_object,
}
use lend_core.Comparison.Close.{almost_equal-abs}

-- Both numbers are there, and their distance is at most three.
pub Near : Option ℤ → Option ℤ → Type 0
Near expected actual =
    (e a : ℤ) × (expected ≡ some e) × (actual ≡ some a) × (leb_ℤ (abs_ℤ (a -ℤ e)) (pos 3) ≡ true)

-- Both are there, and they are the same.
pub Same : {A : Type 0} → Option A → Option A → Type 0
Same {A = A} expected actual = (a : A) × (expected ≡ some a) × (actual ≡ some a)

-- The pairs are near, and `P` holds.
abbrev pub AllNear : List (Option ℤ × Option ℤ) → Type 0 → Type 0
AllNear [] P = P
AllNear ((expected, actual) ∷ rest) P = Near expected actual × AllNear rest P

-- The numbers of two reserves that are compared: all but those of the accessory data
abbrev pub numbers : ReserveData → ReserveData → List (Option ℤ × Option ℤ)
numbers expected actual =
    (expected.reserve_factor, actual.reserve_factor)
    ∷ (expected.unbacked, actual.unbacked)
    ∷ (expected.accrued_to_treasury_scaled, actual.accrued_to_treasury_scaled)
    ∷ (expected.available_liquidity, actual.available_liquidity)
    ∷ (expected.total_liquidity, actual.total_liquidity)
    ∷ (expected.borrow_usage_ratio, actual.borrow_usage_ratio)
    ∷ (expected.supply_usage_ratio, actual.supply_usage_ratio)
    ∷ (expected.total_stable_debt, actual.total_stable_debt)
    ∷ (expected.total_variable_debt, actual.total_variable_debt)
    ∷ (expected.liquidity_rate, actual.liquidity_rate)
    ∷ (expected.variable_borrow_rate, actual.variable_borrow_rate)
    ∷ (expected.stable_borrow_rate, actual.stable_borrow_rate)
    ∷ (expected.average_stable_borrow_rate, actual.average_stable_borrow_rate)
    ∷ (expected.liquidity_index, actual.liquidity_index)
    ∷ (expected.variable_borrow_index, actual.variable_borrow_index)
    ∷ (expected.principal_stable_debt, actual.principal_stable_debt)
    ∷ (expected.scaled_variable_debt, actual.scaled_variable_debt)
    ∷ []

abbrev pub user_numbers : UserReserveData → UserReserveData → List (Option ℤ × Option ℤ)
user_numbers expected actual =
    (expected.scaled_h_token_balance, actual.scaled_h_token_balance)
    ∷ (expected.current_h_token_balance, actual.current_h_token_balance)
    ∷ (expected.current_stable_debt, actual.current_stable_debt)
    ∷ (expected.current_variable_debt, actual.current_variable_debt)
    ∷ (expected.principal_stable_debt, actual.principal_stable_debt)
    ∷ (expected.scaled_variable_debt, actual.scaled_variable_debt)
    ∷ (expected.stable_borrow_rate, actual.stable_borrow_rate)
    ∷ (expected.liquidity_rate, actual.liquidity_rate)
    ∷ []

pub IsClose : ReserveData → ReserveData → Type 0
IsClose expected actual = AllNear (numbers expected actual) (Same expected.address actual.address)

pub IsCloseUser : UserReserveData → UserReserveData → Type 0
IsCloseUser expected actual = AllNear (user_numbers expected actual) (
    Same expected.usage_as_collateral_enabled actual.usage_as_collateral_enabled
    × (Near expected.stable_rate_last_updated actual.stable_rate_last_updated
        × Near expected.wallet_balance actual.wallet_balance))

then_iff :
    {P Q : Type 0} (m rest : Result (Unit {0}))
    → ((m ≡ ok tt) ↔ P)
    → ((rest ≡ ok tt) ↔ Q)
    → ((m >> rest) ≡ ok tt) ↔ (P × Q)
then_iff (ok done) rest p q = (λ h. (p.0 refl, q.0 h), λ (a, b). q.1 b)
then_iff (err e) rest p q = (λ h. cc, λ (a, b). p.1 a)

abbrev finished : Result (Unit {0})
finished = ok tt

last_iff :
    {P : Type 0} (m : Result (Unit {0})) → ((m ≡ ok tt) ↔ P) → ((m >> finished) ≡ finished) ↔ P
last_iff (ok done) p = (λ h. p.0 refl, λ a. refl)
last_iff (err e) p = (λ h. cc, λ a. p.1 a)

expect_iff : (b : Bool) → (expect b ≡ ok tt) ↔ (b ≡ true)
expect_iff true = (λ h. refl, λ h. refl)
expect_iff false = (λ h. cc, λ h. cc)

number_iff :
    (c : Conversions) (e a : Option ℤ)
    → (check_property c (valued number e) (valued number a) ≡ ok tt) ↔ Near e a
unfolding check_property Near
number_iff c e none = (λ h. cc, λ (x, y, p, q, r). cc)
number_iff c none (some a) = (λ h. cc, λ (x, y, p, q, r). cc)
number_iff c (some e) (some a) =
    rw (almost_equal-abs c e a)
      ((λ h. (e, a, refl, refl, (expect_iff _).0 h)), (λ (x, y, p, q, r). (expect_iff _).1 cc))

text_iff :
    (c : Conversions) (e a : Option String)
    → (check_property c (valued text e) (valued text a) ≡ ok tt) ↔ Same e a
unfolding check_property Same
text_iff c e none = (λ h. cc, λ (x, p, q). cc)
text_iff c none (some a) = (λ h. cc, λ (x, p, q). cc)
text_iff c (some e) (some a) = (
  (λ h. let same : a ≡ e = (eq_iff a e).0 ((expect_iff _).0 h) in (a, cc, refl)),
  (λ (x, p, q). (expect_iff _).1 ((eq_iff a e).1 cc)),
)

flag_iff :
    (c : Conversions) (e a : Option Bool)
    → (check_property c (valued flag e) (valued flag a) ≡ ok tt) ↔ Same e a
unfolding check_property Same
flag_iff c e none = (λ h. cc, λ (x, p, q). cc)
flag_iff c none (some true) = (λ h. cc, λ (x, p, q). cc)
flag_iff c none (some false) = (λ h. cc, λ (x, p, q). cc)
flag_iff c (some true) (some true) = (λ h. (true, refl, refl), λ h. refl)
flag_iff c (some false) (some false) = (λ h. (false, refl, refl), λ h. refl)
flag_iff c (some true) (some false) = (λ h. cc, λ (x, p, q). cc)
flag_iff c (some false) (some true) = (λ h. cc, λ (x, p, q). cc)

abbrev check_numbers :
    Conversions → List (Option ℤ × Option ℤ) → Result (Unit {0}) → Result (Unit {0})
check_numbers c [] rest = rest
check_numbers c ((e, a) ∷ more) rest =
    check_property c (valued number e) (valued number a) >> check_numbers c more rest

numbers_iff :
    {P : Type 0} (c : Conversions) (pairs : List (Option ℤ × Option ℤ)) (rest : Result (Unit {0}))
    → ((rest ≡ ok tt) ↔ P)
    → (check_numbers c pairs rest ≡ ok tt) ↔ AllNear pairs P
numbers_iff c [] rest p = p
numbers_iff c ((e, a) ∷ more) rest p = then_iff _ _ (number_iff c e a) (numbers_iff c more rest p)

pub reserves-IsClose :
    (c : Conversions) (e a : ReserveData)
    → (expect_equal c false (reserve_object a) (reserve_object e) ≡ ok tt) ↔ IsClose e a
unfolding IsClose expect_equal almost_equal_or_equal lookup is_accessory reserve_object
reserves-IsClose c e a = numbers_iff c (numbers e a) _ (last_iff _ (text_iff c e.address a.address))

pub users-IsCloseUser :
    (c : Conversions) (e a : UserReserveData)
    → (expect_equal c false (user_object a) (user_object e) ≡ ok tt) ↔ IsCloseUser e a
unfolding IsCloseUser expect_equal almost_equal_or_equal lookup is_accessory user_object
users-IsCloseUser c e a = numbers_iff c (user_numbers e a) _ (
    then_iff _ _ (flag_iff c e.usage_as_collateral_enabled a.usage_as_collateral_enabled) (
      then_iff _ _ (number_iff c e.stable_rate_last_updated a.stable_rate_last_updated)
        (last_iff _ (number_iff c e.wallet_balance a.wallet_balance))))
