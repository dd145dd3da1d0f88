-- ===== src/Pricing/Signs.antt =====
-- The sign of a cost.
use kovern.Prelude.{
  ℕ, ◌≤◌, ◌<◌, ◌≡◌, refl, Bool, true, ◌&&◌, ltb, leb, List, [], ◌∷◌, All, arith, Bool-cases, inl,
  inr,
}
use kovern.Prelude.Int.{ℤ, pos, ◌≤ℤ◌}
use kovern.Prelude.Text.{Text}
use kovern.Float.{Float64, IsIeee, ◌≼◌}
use kovern.Pricing.{
  ModelPrice, PriceEntry, cost, estimate, estimate_from, new_estimator, table, default_prices,
  new_default_estimator, price, fallback_price,
}
use kovern.Pricing.Globs.{matches}
use kovern.Pricing.Tables.{All-resort}

-- Constants of a price table: from 1 to 1000 units, of at most 22 decimals.
abbrev is_plain : ℕ → ℕ → ℕ → Bool
is_plain m n k = (ltb 0 m && leb m 1000) && ((ltb 0 n && leb n 1000) && leb k 22)

plain_bounds :
    (m n k : ℕ) → is_plain m n k ≡ true → (0 < m) × (m ≤ 1000) × (0 < n) × (n ≤ 1000) × (k ≤ 22)
plain_bounds m n k plain = ground arith

module _ {F : Type 0} ⦃f : Float64 F⦄ (laws : IsIeee F) where
  -- The price charges no tokens with a negative cost, or with one that is not a number.
  abbrev ChargesSome : ModelPrice F → Type 0
  ChargesSome p =
      (input output : ℤ) → pos 0 ≤ℤ input → pos 0 ≤ℤ output → f.zero ≼ cost p input output

  thousandth : (n : ℤ) → pos 0 ≤ℤ n → f.zero ≼ f.div (f.of_int n) (f.of_int (pos 1000))
  thousandth n h =
      let step =
        laws.div_mono (f.of_int (pos 0)) (f.of_int n) 1000 (omega arith)
          (laws.of_int_mono (pos 0) n h) in
      rw (laws.zero-of_int, laws.zero_div 1000 (omega arith)) at (step)

  price-ChargesSome : (m n k : ℕ) → is_plain m n k ≡ true → ChargesSome (price m n k)
  unfolding cost
  price-ChargesSome m n k plain input output h h' =
      let (m_pos, m_le, n_pos, n_le, k_le) = plain_bounds m n k plain in
      let left = laws.mul_literal _ m k m_pos m_le k_le (thousandth input h) in
      let right = laws.mul_literal _ n k n_pos n_le k_le (thousandth output h') in
      laws.le_trans f.zero _ _ left (laws.add_ge _ _ left right)

  entries-ChargeSome : All (λ (e : PriceEntry F). ChargesSome e.price) (table default_prices)
  unfolding table default_prices
  entries-ChargeSome =
      let quoted : (m n k : ℕ) → is_plain m n k ≡ true → ChargesSome (price m n k) =
        price-ChargesSome in
      (
        quoted 25 125 5 refl,
        (
          quoted 25 125 5 refl,
          (
            quoted 3 15 3 refl,
            (
              quoted 15 75 3 refl,
              (
                quoted 75 300 6 refl,
                (quoted 125 500 5 refl, (quoted 15 60 5 refl, (quoted 25 100 4 refl, tt))),
              ),
            ),
          ),
        ),
      )

  estimate_from-zero-le :
      (es : List (PriceEntry F)) (fallback : ModelPrice F) (model : Text) (input output : ℤ)
      → All (λ (e : PriceEntry F). ChargesSome e.price) es
      → ChargesSome fallback
      → pos 0 ≤ℤ input
      → pos 0 ≤ℤ output
      → f.zero ≼ (estimate_from es fallback model input output).0
  unfolding estimate_from
  estimate_from-zero-le [] fallback model input output all other h h' = other input output h h'
  estimate_from-zero-le (e ∷ es) fallback model input output (first, rest) other h h' =
      elim (Bool-cases (matches e.pattern model)) [
        | inl hit ↦ rw hit (first input output h h')
        | inr miss ↦ rw miss (estimate_from-zero-le es fallback model input output rest other h h')
      ]

  -- The estimate with the built-in prices of a call without negative token counts is not negative,
  -- and it is a number, for every model.
  pub default-zero-le :
      (model : Text) (input output : ℤ)
      → pos 0 ≤ℤ input
      → pos 0 ≤ℤ output
      → f.zero ≼ (estimate new_default_estimator model input output).0
  unfolding estimate new_default_estimator new_estimator
  default-zero-le model input output =
      estimate_from-zero-le _ fallback_price model input output
        (All-resort _ (table default_prices) entries-ChargeSome) (price-ChargesSome 3 15 3 refl)
