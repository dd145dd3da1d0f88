-- ===== src/Pricing/Families.antt =====
-- The price of a family of models in the built-in table.
use kovern.Prelude.{
  ◌≡◌, refl, true, false, List, [], ◌∷◌, ◌++◌, All, if◌then◌else◌, Bool-cases, inl, inr,
}
use kovern.Prelude.Int.{ℤ}
use kovern.Prelude.Text.{Text, codes, len}
use kovern.Float.{Float64}
use kovern.Pricing.{
  cost, estimate, estimate_from, new_estimator, table, resort, place, default_prices,
  new_default_estimator, price, ModelPrice, fallback_price,
}
use kovern.Pricing.Globs.{matches, no_slash}

-- The names of a family of models start with a text, and the family has a price.
pub record Family (F : Type 0) : Type 0 where
  pub prefix : Text
  pub unit_price : ModelPrice F

abbrev family : {F : Type 0} → Text → ModelPrice F → Family F
family prefix unit_price = record { prefix = prefix; unit_price = unit_price }

module _ {F : Type 0} ⦃f : Float64 F⦄ where
  -- The families that the built-in patterns with one star name by a text in front of it, but for that
  -- of gpt-4o, which holds another one.
  abbrev pub families : List (Family F)
  families =
      family (codes "claude-haiku-4-5") (price 25 125 5)
      ∷ family (codes "claude-haiku-4.5") (price 25 125 5)
      ∷ family (codes "claude-sonnet-5") (price 3 15 3)
      ∷ family (codes "claude-opus-5") (price 15 75 3)
      ∷ family (codes "gpt-4o-mini") (price 15 60 5)
      ∷ []

  -- The built-in table charges every model of the families claude-haiku-4-5, claude-haiku-4.5,
  -- claude-sonnet-5, claude-opus-5 and gpt-4o-mini the family's price, whatever follows in its name,
  -- and gpt-4o-mini not that of gpt-4o, whose pattern it also matches; only a name with a slash after
  -- the family's is not found, and charged the fallback price.
  pub estimate-families :
      (rest : Text) (input output : ℤ)
      → All
          (λ (m : Family F). estimate new_default_estimator (m.prefix ++ rest) input output ≡ (
            if no_slash rest
            then (cost m.unit_price input output, true)
            else (cost fallback_price input output, false)))
          families
  unfolding new_default_estimator new_estimator default_prices table resort place len estimate
      estimate_from matches
  estimate-families rest input output = elim (Bool-cases (no_slash rest)) [
    | inl plain ↦ rw plain (refl, (refl, (refl, (refl, (refl, tt)))))
    | inr slashed ↦ rw slashed (refl, (refl, (refl, (refl, (refl, tt)))))
  ]
