-- ===== src/Tests/Prices.antt =====
-- The price tables.
use kovern.Prelude.{ℕ, ◌≡◌, refl, true, false, [], ◌∷◌, ◌++◌, if◌then◌else◌, All}
use kovern.Prelude.Int.{pos}
use kovern.Prelude.Text.{Text, codes}
use kovern.Prelude.Dict.{Dict}
use kovern.Float.Fixed.{Fixed, fixed_float}
use kovern.Pricing.Families.{Family, families, estimate-families}
use kovern.Pricing.{
  ModelPrice, cost, estimate, new_estimator, new_default_estimator, table, fallback_price,
}
use kovern.Pricing.Globs.{matches, no_slash}
use kovern.Pricing.Choices.{Choice, new_estimator-Choice}
use kovern.Pricing.{Estimator, set}
use kovern.Pricing.Overrides.{price_of-set}
use kovern.Pricing.Tables.{price_of}
use kovern.Prelude.{some}
use kovern.Prelude.Text.{text_eq}
use kovern.Tests.Fixtures.{usd}

abbrev flat : ℕ → ModelPrice Fixed
flat n = record { input_per_1k = usd n; output_per_1k = usd n }

abbrev broad : Text
broad = codes "gpt-4*"

abbrev narrow : Text
narrow = codes "gpt-4o-mini*"

abbrev single : Text
single = codes "gpt-?o"

abbrev model : Text
model = codes "gpt-4o"

broad_hits : matches broad model ≡ true
unfolding matches
broad_hits = refl

single_hits : matches single model ≡ true
unfolding matches
single_hits = refl

-- A class of a range, an escape, and a star that does not cross a slash.
class_hits : matches (codes "[a-f]\\*b*") (codes "c*bd") ≡ true
unfolding matches
class_hits = refl

slash_stops : matches (codes "a*c") (codes "ab/c") ≡ false
unfolding matches
slash_stops = refl

abbrev prices : Dict (ModelPrice Fixed)
prices = (broad, flat 3) ∷ (narrow, flat 1) ∷ []

new_estimator-Choice_example :
    Choice
      (table prices)
      fallback_price
      model
      (pos 10)
      (pos 20)
      (estimate (new_estimator prices) model (pos 10) (pos 20))
new_estimator-Choice_example = new_estimator-Choice prices model (pos 10) (pos 20)

abbrev table_of_two : Estimator Fixed
table_of_two = new_estimator prices

price_of-set_example :
    price_of narrow (set broad (flat 7) table_of_two).entries
    ≡ (if text_eq broad narrow then some (flat 7) else price_of narrow table_of_two.entries)
price_of-set_example = price_of-set broad (flat 7) table_of_two narrow

-- A star stops between the bytes of a character, and not after its last one twice.
inside_a_character : matches (codes "*??") (0x3042 ∷ []) ≡ true
unfolding matches
inside_a_character = refl

not_inside_ascii : matches (codes "*??") (codes "a") ≡ false
unfolding matches
not_inside_ascii = refl

three_bytes : matches (codes "*???") (0x1F600 ∷ []) ≡ true
unfolding matches
three_bytes = refl

not_four_bytes : matches (codes "*????") (0x1F600 ∷ []) ≡ false
unfolding matches
not_four_bytes = refl

estimate-families_example :
    All
      (λ (m : Family Fixed).
        estimate new_default_estimator (m.prefix ++ codes "-2026") (pos 10) (pos 20) ≡ (
          if no_slash (codes "-2026")
          then (cost m.unit_price (pos 10) (pos 20), true)
          else (cost fallback_price (pos 10) (pos 20), false)))
      families
estimate-families_example = estimate-families (codes "-2026") (pos 10) (pos 20)
