-- ===== src/Pricing/Choices.antt =====
-- Which price `Estimate` takes.
use mathlib.Core.List.{Memᴰ}
use mathlib.Core.List.Memᴰ.{head, tail}
use mathlib.Core.Bool.{false≢true, true≢false}
use kovern.Prelude.{
  ◌≤◌, ◌≡◌, ◌∙◌, sym, refl, ap, Bool, true, false, List, [], ◌∷◌, All, arith, Bool-cases, inl, inr,
  ◌↔◌,
}
use kovern.Prelude.Int.{ℤ}
use kovern.Prelude.Text.{Text, len}
use kovern.Prelude.Dict.{Dict}
use kovern.Float.{Float64}
use kovern.Pricing.{
  PriceEntry, ModelPrice, cost, estimate, estimate_from, new_estimator, table, resort,
  fallback_price,
}
use kovern.Pricing.Globs.{matches}
use kovern.Pricing.Tables.{IsSorted, resort-IsSorted, resort-mem, mem-resort}

module _ {F : Type 0} where
  -- No pattern of the table that matches the model is longer than that of the entry, which matches.
  pub record IsBest (es : List (PriceEntry F)) (model : Text) (e : PriceEntry F) : Type 0 where
    pub member : Memᴰ e es
    pub matching : matches e.pattern model ≡ true
    pub longest :
        (x : PriceEntry F)
        → Memᴰ x es
        → matches x.pattern model ≡ true
        → len x.pattern ≤ len e.pattern

  abbrev pub NoneMatches : List (PriceEntry F) → Text → Type 0
  NoneMatches es model = (x : PriceEntry F) → Memᴰ x es → matches x.pattern model ≡ false

  -- Entries of equal length that both match have one price.
  abbrev pub IsUnambiguous : List (PriceEntry F) → Text → Type 0
  IsUnambiguous es model =
      (x y : PriceEntry F)
      → Memᴰ x es
      → Memᴰ y es
      → matches x.pattern model ≡ true
      → matches y.pattern model ≡ true
      → len x.pattern ≡ len y.pattern
      → x.price ≡ y.price

  mem_le :
      (a x : PriceEntry F) (es : List (PriceEntry F))
      → All (λ b. len b.pattern ≤ len a.pattern) es
      → Memᴰ x es
      → len x.pattern ≤ len a.pattern
  mem_le a x [] _ m = elim m [ ]
  mem_le a x (e ∷ es) (first, rest) (head same) =
      let eq = ap (λ (y : PriceEntry F). len y.pattern) same in omega (arith, first, eq)
  mem_le a x (e ∷ es) (first, rest) (tail m) = mem_le a x es rest m

module _ {F : Type 0} ⦃f : Float64 F⦄ where
  -- The cost of a best entry, or the fallback's cost where no pattern matches.
  pub data Choice (es : List (PriceEntry F)) (fallback : ModelPrice F) (model : Text)
      (input output : ℤ) (r : F × Bool) : Type 0 where
    priced :
        (e : PriceEntry F)
        → IsBest es model e
        → r ≡ (cost e.price input output, true)
        → Choice es fallback model input output r
    unpriced :
        NoneMatches es model
        → r ≡ (cost fallback input output, false)
        → Choice es fallback model input output r

  pub estimate_from-Choice :
      (es : List (PriceEntry F)) (fallback : ModelPrice F) (model : Text) (input output : ℤ)
      → IsSorted es
      → Choice es fallback model input output (estimate_from es fallback model input output)
  unfolding estimate_from
  estimate_from-Choice [] fallback model input output s = unpriced (λ x m. elim m [ ]) refl
  estimate_from-Choice (e ∷ es) fallback model input output (above, s) =
      elim (Bool-cases (matches e.pattern model)) [
        | inl hit ↦ rw hit (priced e (first hit) refl)
        | inr miss ↦ rw miss (skip miss (estimate_from-Choice es fallback model input output s))
      ]
    where
      le_first : (x : PriceEntry F) → Memᴰ x (e ∷ es) → len x.pattern ≤ len e.pattern
      le_first x (head same) =
          let eq = ap (λ (y : PriceEntry F). len y.pattern) same in omega (arith, eq)
      le_first x (tail m) = mem_le e x es above m

      first : matches e.pattern model ≡ true → IsBest (e ∷ es) model e
      first hit = record { member = head refl; matching = hit; longest = λ x m also. le_first x m }

      skip :
          {r : F × Bool}
          → matches e.pattern model ≡ false
          → Choice es fallback model input output r
          → Choice (e ∷ es) fallback model input output r
      skip miss (priced b best same) =
          priced b
            (record {
              member = tail best.member;
              matching = best.matching;
              longest = λ x m also. elim m [
                | head same' ↦ absurd (
                    false≢true (
                      sym miss
                      ∙ sym (ap (λ (y : PriceEntry F). matches y.pattern model) same')
                      ∙ also))
                | tail m' ↦ best.longest x m' also
              ];
            })
            same
      skip miss (unpriced nothing same) =
          unpriced
            (λ x m. elim m [
              | head same' ↦ ap (λ (y : PriceEntry F). matches y.pattern model) same' ∙ miss
              | tail m' ↦ nothing x m'
            ])
            same

  -- Tables with the same members give the same choice.
  Choice_of_members :
      (es es' : List (PriceEntry F)) {fallback : ModelPrice F} {model : Text} {input output : ℤ}
      {r : F × Bool}
      → ((x : PriceEntry F) → Memᴰ x es ↔ Memᴰ x es')
      → Choice es fallback model input output r
      → Choice es' fallback model input output r
  Choice_of_members es es' same (priced e best eq) =
      priced e
        (record {
          member = (same e).0 best.member;
          matching = best.matching;
          longest = λ x m also. best.longest x ((same x).1 m) also;
        })
        eq
  Choice_of_members es es' same (unpriced nothing eq) =
      unpriced (λ x m. nothing x ((same x).1 m)) eq

  -- Where the table is unambiguous for the model, there is one choice.
  Choice_unique :
      (es : List (PriceEntry F)) (fallback : ModelPrice F) (model : Text) (input output : ℤ)
      {r r' : F × Bool}
      → IsUnambiguous es model
      → Choice es fallback model input output r
      → Choice es fallback model input output r'
      → r ≡ r'
  Choice_unique es fallback model i o clear (priced e b eq) (priced e' b' eq') =
      let le = b.longest e' b'.member b'.matching in
      let ge = b'.longest e b.member b.matching in
      let one = clear e e' b.member b'.member b.matching b'.matching (omega (arith, le, ge)) in
      eq ∙ ap (λ p. (cost p i o, true)) one ∙ sym eq'
  Choice_unique es fallback model i o clear (priced e b eq) (unpriced nothing eq') =
      absurd (true≢false (sym b.matching ∙ nothing e b.member))
  Choice_unique es fallback model i o clear (unpriced nothing eq) (priced e b eq') =
      absurd (true≢false (sym b.matching ∙ nothing e b.member))
  Choice_unique es fallback model i o clear (unpriced _ eq) (unpriced _ eq') = eq ∙ sym eq'

  -- An estimator made from a table of prices charges the price of a longest pattern of the table
  -- that matches the model, and reports a match; where no pattern matches, it charges the fallback
  -- price and reports none. So no model is free by missing from the table.
  pub new_estimator-Choice :
      (prices : Dict (ModelPrice F)) (model : Text) (input output : ℤ)
      → Choice
          (table prices)
          fallback_price
          model
          input
          output
          (estimate (new_estimator prices) model input output)
  unfolding new_estimator estimate
  new_estimator-Choice prices model input output =
      Choice_of_members (resort (table prices)) (table prices)
        (λ x. (resort-mem x (table prices), mem-resort x (table prices)))
        (estimate_from-Choice (resort (table prices)) fallback_price model input output
          (resort-IsSorted (table prices)))

  -- If patterns of equal length that match a model have one price, the order in which the map of
  -- prices yields its entries makes no difference to the estimate for the model.
  pub estimate_any_order :
      (prices prices' : Dict (ModelPrice F)) (model : Text) (input output : ℤ)
      → ((x : PriceEntry F) → Memᴰ x (table prices) ↔ Memᴰ x (table prices'))
      → IsUnambiguous (table prices) model
      → estimate (new_estimator prices) model input output
        ≡ estimate (new_estimator prices') model input output
  estimate_any_order prices prices' model input output same clear =
      Choice_unique (table prices) fallback_price model input output clear
        (new_estimator-Choice prices model input output)
        (Choice_of_members (table prices') (table prices) (λ x. ((same x).1, (same x).0))
          (new_estimator-Choice prices' model input output))
