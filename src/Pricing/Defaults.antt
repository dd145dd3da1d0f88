-- ===== src/Pricing/Defaults.antt =====
-- The built-in price table.
use mathlib.Core.List.{Memᴰ}
use mathlib.Core.List.Memᴰ.{head, tail}
use kovern.Prelude.{ℕ, ◌≡◌, ◌↔◌, ◌∙◌, sym, refl, ap, List, [], ◌∷◌, All, ◌==◌, if◌then◌else◌}
use kovern.Prelude.Int.{ℤ}
use kovern.Prelude.Text.{Text, len}
use kovern.Prelude.Dict.{Dict}
use kovern.Float.{Float64}
use kovern.Pricing.{
  ModelPrice, PriceEntry, estimate, new_estimator, table, default_prices, new_default_estimator,
  price,
}
use kovern.Pricing.Choices.{IsUnambiguous, estimate_any_order}

module _ {F : Type 0} ⦃f : Float64 F⦄ where
  -- The price of the built-in patterns of a length.
  abbrev price_of_len : ℕ → ModelPrice F
  price_of_len n =
      if n == 17
      then price 25 125 5
      else if n == 16
      then price 3 15 3
      else if n == 14
      then price 15 75 3
      else if n == 15
      then price 75 300 6
      else if n == 13
      then price 125 500 5
      else if n == 12
      then price 15 60 5
      else price 25 100 4

  by_len :
      (x : PriceEntry F) → Memᴰ x (table default_prices) → x.price ≡ price_of_len (len x.pattern)
  unfolding table default_prices len
  by_len x m =
      go (table default_prices) (refl, (refl, (refl, (refl, (refl, (refl, (refl, (refl, tt)))))))) m
    where
      go :
          (es : List (PriceEntry F))
          → All (λ e. e.price ≡ price_of_len (len e.pattern)) es
          → Memᴰ x es
          → x.price ≡ price_of_len (len x.pattern)
      go (e ∷ es) (first, rest) (head same) =
          ap (λ (y : PriceEntry F). y.price) same
          ∙ first
          ∙ sym (ap (λ (y : PriceEntry F). price_of_len (len y.pattern)) same)
      go (e ∷ es) (first, rest) (tail m') = go es rest m'
      go [] _ m' = elim m' [ ]

  defaults-IsUnambiguous : (model : Text) → IsUnambiguous {F = F} (table default_prices) model
  defaults-IsUnambiguous model x y m m' h h' same =
      by_len x m ∙ ap price_of_len same ∙ sym (by_len y m')

  -- In whatever order Go's map yields the built-in prices, the estimate for every model is the same.
  default_any_order :
      (prices : Dict (ModelPrice F)) (model : Text) (input output : ℤ)
      → ((x : PriceEntry F) → Memᴰ x (table default_prices) ↔ Memᴰ x (table prices))
      → estimate new_default_estimator model input output
        ≡ estimate (new_estimator prices) model input output
  unfolding new_default_estimator
  default_any_order prices model input output same =
      estimate_any_order default_prices prices model input output same
        (defaults-IsUnambiguous model)
