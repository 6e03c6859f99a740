-- ===== src/Comparison/Close.antt =====
-- What the comparison accepts.
use lend_core.Prelude.{◌≡◌, ℕ, Bool, arith, ◌||◌, ◌==◌, ◌+◌, ◌<◌, ◌≤◌, ◌⊎◌, inl, inr}
use lend_core.Prelude.Int.{ℤ, pos, negsuc, ◌+ℤ◌, ◌-ℤ◌, abs_ℤ, eqb_ℤ, leb_ℤ, sub_ℕ}
use lend_core.BigNumber.{integers}
use lend_core.Comparison.{Conversions, almost_equal}

-- The seven tests on natural numbers, and on the negative numbers that lie below them
abbrev tests : ℕ → ℕ → Bool
tests e a =
    a == e || a + 1 == e || a == e + 1 || a + 2 == e || a == e + 2 || a + 3 == e || a == e + 3

apart : (e a : ℕ) → (a + 3 < e) ⊎ ((e + 3 < a) ⊎ ((e ≤ a + 3) × (a ≤ e + 3)))
apart e a = ground arith

tests-leb : (e a : ℕ) → tests e a ≡ leb_ℤ (abs_ℤ (sub_ℕ a e)) (pos 3)
tests-leb e a = elim (apart e a) [
  | inl h ↦ ground arith
  | inr (inl h) ↦ ground arith
  | inr (inr h) ↦ ground arith
]

mirrored-leb :
    (e a : ℕ)
    → (a == e || a == e + 1 || a + 1 == e || a == e + 2 || a + 2 == e || a == e + 3 || a + 3 == e)
      ≡ leb_ℤ (abs_ℤ (sub_ℕ e a)) (pos 3)
mirrored-leb e a = elim (apart e a) [
  | inl h ↦ ground arith
  | inr (inl h) ↦ ground arith
  | inr (inr h) ↦ ground arith
]

eqb_negsuc_left : (a e k : ℕ) → eqb_ℤ (negsuc a +ℤ pos k) (negsuc e) ≡ (a == e + k)
eqb_negsuc_left a e k = ground arith

eqb_negsuc_right : (a e k : ℕ) → eqb_ℤ (negsuc a) (negsuc e +ℤ pos k) ≡ (a + k == e)
eqb_negsuc_right a e k = ground arith

-- The seven tests come to one: the distance is at most three.
pub almost_equal-abs :
    (c : Conversions) (e a : ℤ) → almost_equal c e a ≡ leb_ℤ (abs_ℤ (a -ℤ e)) (pos 3)
unfolding almost_equal
almost_equal-abs c (pos e) (pos a) = tests-leb e a
almost_equal-abs c (negsuc e) (pos a) = ground arith
almost_equal-abs c (pos e) (negsuc a) = ground arith
almost_equal-abs c (negsuc e) (negsuc a) =
    rw
      (
        eqb_negsuc_left a e 1,
        eqb_negsuc_right a e 1,
        eqb_negsuc_left a e 2,
        eqb_negsuc_right a e 2,
        eqb_negsuc_left a e 3,
        eqb_negsuc_right a e 3,
      )
      (mirrored-leb e a)
