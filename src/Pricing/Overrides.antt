-- ===== src/Pricing/Overrides.antt =====
-- `Estimator.Set` on the table of prices.
use mathlib.Core.Bool.{true≢false}
use kovern.Prelude.{
  ◌≤◌, ◌≡◌, refl, true, false, some, List, [], ◌∷◌, ◌++◌, All, arith, if◌then◌else◌, Bool-cases,
  inl, inr,
}
use kovern.Prelude.Text.{Text, text_eq, text_eq→eq, text_eq_refl, len}
use kovern.Pricing.{PriceEntry, ModelPrice, Estimator, has_pattern, reprice, set}
use kovern.Pricing.Tables.{IsSorted, price_of, resort-IsSorted, price_of-resort}

module _ {F : Type 0} (pattern : Text) (price : ModelPrice F) where
  All-reprice :
      (a : PriceEntry F) (es : List (PriceEntry F))
      → All (λ b. len b.pattern ≤ len a.pattern) es
      → All (λ b. len b.pattern ≤ len a.pattern) (reprice pattern price es)
  unfolding reprice
  All-reprice a [] all = tt
  All-reprice a (e ∷ es) (first, rest) = elim (Bool-cases (text_eq e.pattern pattern)) [
    | inl same ↦ rw same (first, rest)
    | inr differ ↦ rw differ (first, All-reprice a es rest)
  ]

  reprice-IsSorted : (es : List (PriceEntry F)) → IsSorted es → IsSorted (reprice pattern price es)
  unfolding reprice
  reprice-IsSorted [] s = tt
  reprice-IsSorted (e ∷ es) (above, s) = elim (Bool-cases (text_eq e.pattern pattern)) [
    | inl same ↦ rw same (above, s)
    | inr differ ↦ rw differ (All-reprice e es above, reprice-IsSorted es s)
  ]

  price_of-reprice :
      (q : Text) (es : List (PriceEntry F))
      → has_pattern pattern es ≡ true
      → price_of q (reprice pattern price es)
        ≡ (if text_eq pattern q then some price else price_of q es)
  unfolding reprice has_pattern
  price_of-reprice q [] has = cc has
  price_of-reprice q (e ∷ es) has = elim (Bool-cases (text_eq e.pattern pattern)) [
    | inl same ↦ rw same (rw (text_eq→eq e.pattern pattern same) (ground arith))
    | inr differ ↦ rw differ (
        rw (price_of-reprice q es (rw differ at has))
          (ground (arith, text_eq→eq e.pattern q, text_eq→eq pattern q, text_eq_refl q)))
  ]

  price_of-snoc :
      (q : Text) (es : List (PriceEntry F))
      → has_pattern pattern es ≡ false
      → price_of q (es ++ (record { pattern = pattern; price = price } ∷ []))
        ≡ (if text_eq pattern q then some price else price_of q es)
  unfolding has_pattern
  price_of-snoc q [] absent = refl
  price_of-snoc q (e ∷ es) absent = elim (Bool-cases (text_eq e.pattern pattern)) [
    | inl same ↦ absurd (true≢false (rw same at absent))
    | inr differ ↦
        rw (price_of-snoc q es (rw differ at absent))
          (ground (arith, text_eq→eq e.pattern q, text_eq→eq pattern q, text_eq_refl q))
  ]

  -- `Set` keeps longer patterns first.
  set-IsSorted : (e : Estimator F) → IsSorted e.entries → IsSorted (set pattern price e).entries
  unfolding set
  set-IsSorted e s = elim (Bool-cases (has_pattern pattern e.entries)) [
    | inl has ↦ rw has (reprice-IsSorted e.entries s)
    | inr absent ↦ rw absent (resort-IsSorted _)
  ]

  -- After `Set` the table has the new price for its pattern, whether it replaced one or added the
  -- pattern, and every other pattern's price as before.
  pub price_of-set :
      (e : Estimator F) (q : Text)
      → price_of q (set pattern price e).entries
        ≡ (if text_eq pattern q then some price else price_of q e.entries)
  unfolding set
  price_of-set e q = elim (Bool-cases (has_pattern pattern e.entries)) [
    | inl has ↦ rw has (price_of-reprice q e.entries has)
    | inr absent ↦ rw absent (rw price_of-resort (price_of-snoc q e.entries absent))
  ]
