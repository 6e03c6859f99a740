-- ===== src/Events/Minting.antt =====
-- The expected transfers and the balances, on the integers.
use Prim.Native.String.{String}
use package.text.Mathlib.Text.{◌==◌ as str_eq}
use package.text.Mathlib.TextEquality.{eq_iff}
use lend_core.Prelude.{
  ◌≡◌, refl, ap, subst, ◌∙◌, arith, List, [], ◌∷◌, Bool, true, false, if◌then◌else◌,
}
use lend_core.Prelude.Int.{ℤ, pos, negsuc, ◌+ℤ◌, ◌-ℤ◌, neg_ℤ, ltb_ℤ}
use lend_core.Prelude.Result.{Result, ok, >>=-inverse}
use lend_core.BigNumber.{integers}
use lend_core.WadRay.{ray_div}
use lend_core.Events.Tokens.{
  Token, underlying_token, h_token, debt_token, Expected, zero_address, address_arg, number_arg,
  transfer_of, get_balance_increase, supply, withdraw, variable_borrow, repay_variable_borrow,
}
use lend_core.Events.Balances.{
  moved, minted, is_issued, TokenAction, supplying, withdrawing, borrowing, repaying, events_of,
  Moves,
}

plus_zero : (z : ℤ) → z +ℤ pos 0 ≡ z
plus_zero (pos a) = ap pos (omega arith)
plus_zero (negsuc a) = ground arith

neg_difference : (x y : ℤ) → neg_ℤ (x -ℤ y) ≡ y -ℤ x
neg_difference (pos a) (pos b) = ground arith
neg_difference (pos a) (negsuc b) = ground arith
neg_difference (negsuc a) (pos b) = ground arith
neg_difference (negsuc a) (negsuc b) = ground arith

same_text : (s : String) → str_eq s s ≡ true
same_text s = (eq_iff s s).1 refl

moved-mint :
    (owner : String) (value rest : ℤ)
    → moved owner (address_arg zero_address ∷ address_arg owner ∷ number_arg value ∷ []) rest
      ≡ value +ℤ rest
unfolding moved
moved-mint owner value rest = rw (same_text owner)

moved-burn :
    (owner : String) (value rest : ℤ)
    → str_eq owner zero_address ≡ false
    → moved owner (address_arg owner ∷ address_arg zero_address ∷ number_arg value ∷ []) rest
      ≡ neg_ℤ value +ℤ rest
unfolding moved
moved-burn owner value rest h = rw (h, same_text owner)

-- A transfer of the underlying token, one from or to the zero address, and an event of another name
mint_ends :
    (underlying from to emitter owner : String) (amount value : ℤ) (issued : Token)
    (last : Expected)
    → (is_issued issued ≡ true)
    → (str_eq last.name "Transfer" ≡ false)
    → minted owner (
        transfer_of underlying_token underlying from to amount
        ∷ transfer_of issued emitter zero_address owner value
        ∷ last
        ∷ [])
      ≡ value
unfolding minted
mint_ends underlying from to emitter owner amount value issued last t l =
    rw (l, t, moved-mint owner value (pos 0)) (plus_zero value)

burn_ends :
    (underlying from to emitter owner : String) (amount value : ℤ) (issued : Token)
    (last : Expected)
    → (is_issued issued ≡ true)
    → (str_eq last.name "Transfer" ≡ false)
    → str_eq owner zero_address ≡ false
    → minted owner (
        transfer_of underlying_token underlying from to amount
        ∷ transfer_of issued emitter owner zero_address value
        ∷ last
        ∷ [])
      ≡ neg_ℤ value
unfolding minted
burn_ends underlying from to emitter owner amount value issued last t l h =
    rw (l, t, moved-burn owner value (pos 0) h) (plus_zero (neg_ℤ value))

either_way :
    (b : Bool) (owner : String) (increase amount : ℤ) (first : Expected)
    (up down es : List Expected)
    → minted owner (first ∷ up) ≡ increase -ℤ amount
    → minted owner (first ∷ down) ≡ neg_ℤ (amount -ℤ increase)
    → ok (first ∷ (if b then up else down)) ≡ ok es
    → minted owner es ≡ increase -ℤ amount
either_way true owner increase amount first up down es u d h = cc
either_way false owner increase amount first up down es u d h =
    let e : first ∷ down ≡ es = cc in
    subst (λ l. minted owner l ≡ neg_ℤ (amount -ℤ increase)) e d ∙ neg_difference amount increase

listed :
    (owner : String) (listing es : List Expected) (value : ℤ)
    → ok listing ≡ ok es
    → minted owner listing ≡ value
    → minted owner es ≡ value
listed owner listing es value h e = cc

module _ (owner other underlying h_address debt : String) (amount before after scaled : ℤ)
    (es : List Expected) (real : str_eq owner zero_address ≡ false) where
  abbrev increase_of : ℤ → Result ℤ
  increase_of scaled_balance = get_balance_increase scaled_balance before after

  pub events-Moves :
      (action : TokenAction)
      → events_of owner other underlying h_address debt amount before after scaled action ≡ ok es
      → Moves owner other underlying h_address debt amount before after scaled action es
  unfolding events_of Moves supply withdraw variable_borrow repay_variable_borrow
  events-Moves supplying h =
      let (added, e, h1) = >>=-inverse (ray_div amount after) _ es h in
      let (increase, f, h2) = >>=-inverse (increase_of (scaled -ℤ added)) _ es h1 in
      (
        added,
        increase,
        e,
        f,
        listed owner _ es (amount +ℤ increase) h2 (
            mint_ends underlying other h_address h_address owner amount (amount +ℤ increase) h_token
              _ refl refl),
      )
  events-Moves borrowing h =
      let (added, e, h1) = >>=-inverse (ray_div amount after) _ es h in
      let (increase, f, h2) = >>=-inverse (increase_of (scaled -ℤ added)) _ es h1 in
      (
        added,
        increase,
        e,
        f,
        listed owner _ es (amount +ℤ increase) h2 (
            mint_ends underlying h_address other debt owner amount (amount +ℤ increase) debt_token _
              refl refl),
      )
  events-Moves withdrawing h =
      let (added, e, h1) = >>=-inverse (ray_div amount after) _ es h in
      let (increase, f, h2) = >>=-inverse (increase_of (scaled +ℤ added)) _ es h1 in
      (
        added,
        increase,
        e,
        f,
        either_way (ltb_ℤ amount increase) owner increase amount _ _ _ es
            (mint_ends underlying h_address other h_address owner amount (increase -ℤ amount)
              h_token _ refl refl)
            (burn_ends underlying h_address other h_address owner amount (amount -ℤ increase)
              h_token _ refl refl real)
            h2,
      )
  events-Moves repaying h =
      let (added, e, h1) = >>=-inverse (ray_div amount after) _ es h in
      let (increase, f, h2) = >>=-inverse (increase_of (scaled +ℤ added)) _ es h1 in
      (
        added,
        increase,
        e,
        f,
        either_way (ltb_ℤ amount increase) owner increase amount _ _ _ es
            (mint_ends underlying other h_address debt owner amount (increase -ℤ amount) debt_token
              _ refl refl)
            (burn_ends underlying other h_address debt owner amount (amount -ℤ increase) debt_token
              _ refl refl real)
            h2,
      )
