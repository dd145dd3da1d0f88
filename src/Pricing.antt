-- ===== src/Pricing.antt =====
-- internal/pricing/pricing.go: the cost of a call of a model, from a table of patterns.
pub mod Globs
pub mod Tables
pub mod Overrides
pub mod Choices
pub mod Defaults
pub mod Signs
pub mod Families
use kovern.Prelude.{ℕ, ◌*◌, ◌+◌, Bool, true, false, List, [], ◌∷◌, ◌++◌, if◌then◌else◌, ltb}
use kovern.Prelude.Int.{ℤ, pos}
use kovern.Prelude.Text.{Text, codes, text_eq, len}
use kovern.Prelude.Dict.{Dict}
use kovern.Float.{Float64}
use kovern.Pricing.Globs.{matches}

pub record ModelPrice (F : Type 0) : Type 0 where
  pub input_per_1k : F
  pub output_per_1k : F

pub record PriceEntry (F : Type 0) : Type 0 where
  pub pattern : Text
  pub price : ModelPrice F

pub record Estimator (F : Type 0) : Type 0 where
  pub entries : List (PriceEntry F)
  pub fallback : ModelPrice F

module _ {F : Type 0} where
  -- The order of `resort`: longer patterns first.
  abbrev pub comes_before : PriceEntry F → PriceEntry F → Bool
  comes_before a b = ltb (len b.pattern) (len a.pattern)

  -- `sort.SliceStable`: an entry goes before those that it does not come after.
  unfoldable pub place : PriceEntry F → List (PriceEntry F) → List (PriceEntry F)
  place a [] = a ∷ []
  place a (b ∷ bs) = let rest = place a bs in if comes_before b a then b ∷ rest else a ∷ b ∷ bs

  unfoldable pub resort : List (PriceEntry F) → List (PriceEntry F)
  resort [] = []
  resort (a ∷ es) = place a (resort es)

  -- The loop of `NewEstimator` over the map, in the order in which it yields its entries.
  unfoldable pub table : Dict (ModelPrice F) → List (PriceEntry F)
  table [] = []
  table ((k, v) ∷ prices) = record { pattern = k; price = v } ∷ table prices

  -- The loop of `Set`, where an entry has the pattern.
  unfoldable pub has_pattern : Text → List (PriceEntry F) → Bool
  has_pattern pattern [] = false
  has_pattern pattern (e ∷ es) = if text_eq e.pattern pattern then true else has_pattern pattern es

  unfoldable pub reprice : Text → ModelPrice F → List (PriceEntry F) → List (PriceEntry F)
  reprice pattern price [] = []
  reprice pattern price (e ∷ es) =
      if text_eq e.pattern pattern
      then record e { price = price } ∷ es
      else e ∷ reprice pattern price es

  unfoldable pub set : Text → ModelPrice F → Estimator F → Estimator F
  set pattern price e =
      if has_pattern pattern e.entries
      then record e { entries = reprice pattern price e.entries }
      else record e {
        entries = resort (e.entries ++ (record { pattern = pattern; price = price } ∷ []));
      }

module _ {F : Type 0} ⦃f : Float64 F⦄ where
  unfoldable pub cost : ModelPrice F → ℤ → ℤ → F
  cost p input output =
      let thousand = f.of_int (pos 1000) in
      f.add (f.mul (f.div (f.of_int input) thousand) p.input_per_1k)
        (f.mul (f.div (f.of_int output) thousand) p.output_per_1k)

  abbrev pub fallback_price : ModelPrice F
  fallback_price = record { input_per_1k = f.literal 3 3; output_per_1k = f.literal 15 3 }

  unfoldable pub new_estimator : Dict (ModelPrice F) → Estimator F
  new_estimator prices = record { entries = resort (table prices); fallback = fallback_price }

  -- The loop of `Estimate`.
  unfoldable pub estimate_from : List (PriceEntry F) → ModelPrice F → Text → ℤ → ℤ → F × Bool
  estimate_from [] fallback model input output = (cost fallback input output, false)
  estimate_from (e ∷ es) fallback model input output =
      if matches e.pattern model
      then (cost e.price input output, true)
      else estimate_from es fallback model input output

  unfoldable pub estimate : Estimator F → Text → ℤ → ℤ → F × Bool
  estimate e model input output = estimate_from e.entries e.fallback model input output

  abbrev pub price : ℕ → ℕ → ℕ → ModelPrice F
  price input output decimals = record {
    input_per_1k = f.literal input decimals;
    output_per_1k = f.literal output decimals;
  }

  unfoldable pub default_prices : Dict (ModelPrice F)
  default_prices =
      (codes "claude-haiku-4-5*", price 25 125 5)
      ∷ (codes "claude-haiku-4.5*", price 25 125 5)
      ∷ (codes "claude-sonnet-5*", price 3 15 3)
      ∷ (codes "claude-opus-5*", price 15 75 3)
      ∷ (codes "gemini-*-flash*", price 75 300 6)
      ∷ (codes "gemini-*-pro*", price 125 500 5)
      ∷ (codes "gpt-4o-mini*", price 15 60 5)
      ∷ (codes "gpt-4o*", price 25 100 4)
      ∷ []

  unfoldable pub new_default_estimator : Estimator F
  new_default_estimator = new_estimator default_prices
