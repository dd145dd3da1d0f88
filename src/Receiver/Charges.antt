-- ===== src/Receiver/Charges.antt =====
-- The spends of spans without negative token counts.
use kovern.Prelude.{ℕ, suc, Bool, true, false, Option, none, some, List, [], ◌∷◌, All, arith}
use kovern.Prelude.Int.{ℤ, pos, ◌≤ℤ◌}
use kovern.Prelude.Text.{codes}
use kovern.Float.{Float64, IsIeee, ◌≼◌}
use kovern.Time.{Time}
use kovern.Ledger.Keys.{SlashFree}
use kovern.Ledger.Runs.{Call, namespace_of}
use kovern.Ledger.Exhaustion.{IsCharge}
use kovern.Pricing.{new_default_estimator}
use kovern.Pricing.Signs.{default-zero-le}
use kovern.Receiver.{Clock, usage, priced}
use kovern.Receiver.Attributes.{OtlpSpan, attr_int64}
use kovern.Receiver.Visits.{Visit, with_spend, spends_of}
use kovern.Receiver.Calls.{NamesAreSlashFree}

-- The number, if there is one, is not negative.
abbrev pub NotNegative : Option ℤ → Type 0
NotNegative none = Unit
NotNegative (some n) = pos 0 ≤ℤ n

module _ {F : Type 0} ⦃f : Float64 F⦄ where
  -- The token counts that the span reports are not negative.
  pub record CountsUp (span : OtlpSpan F) : Type 0 where
    pub input : NotNegative (attr_int64 span.attributes (codes "gen_ai.usage.input_tokens"))
    pub output : NotNegative (attr_int64 span.attributes (codes "gen_ai.usage.output_tokens"))

  abbrev pub AllCountUp : List (Visit F) → Type 0
  AllCountUp = All (λ v. CountsUp v.span)

  -- Where there is a cost, it is not negative.
  abbrev PaysIn : Option (F × ℤ) → Type 0
  PaysIn none = Unit
  PaysIn (some (usd, tokens)) = f.zero ≼ usd

  module _ (laws : IsIeee F) where
    priced-PaysIn :
        (span : OtlpSpan F) (input output : Option ℤ)
        → NotNegative input
        → NotNegative output
        → PaysIn (priced new_default_estimator span input output)
    priced-PaysIn span none none _ _ = tt
    priced-PaysIn span none (some n) _ h = default-zero-le laws _ (pos 0) n (omega arith) h
    priced-PaysIn span (some m) none h _ = default-zero-le laws _ m (pos 0) h (omega arith)
    priced-PaysIn span (some m) (some n) h h' = default-zero-le laws _ m n h h'

    usage-PaysIn : (span : OtlpSpan F) → CountsUp span → PaysIn (usage new_default_estimator span)
    unfolding usage
    usage-PaysIn span up = priced-PaysIn span _ _ up.input up.output

    -- A call that records a spend that is not negative, in a namespace without a slash.
    abbrev pub PlainCharge : {Q : Type 0} → Call F Q → Type 0
    PlainCharge call = SlashFree (namespace_of call) × IsCharge call

    with_spend-PlainCharge :
        {Q : Type 0} (clock : Clock) (b : Bool) (now : Time) (v : Visit F) (u : Option (F × ℤ))
        (calls : List (Call F Q))
        → SlashFree v.namespace
        → PaysIn u
        → All PlainCharge calls
        → All PlainCharge (with_spend clock b now v u calls)
    with_spend-PlainCharge clock true now v u calls slash pays all = all
    with_spend-PlainCharge clock false now v none calls slash pays all = all
    with_spend-PlainCharge clock false now v (some (usd, tokens)) calls slash pays all =
        ((slash, pays), all)

    pub spends_of-PlainCharge :
        (Q : Type 0) (clock : Clock) (n : ℕ) (vs : List (Visit F))
        → NamesAreSlashFree vs
        → AllCountUp vs
        → All (PlainCharge {Q = Q}) (spends_of clock new_default_estimator n vs)
    spends_of-PlainCharge Q clock n [] _ _ = tt
    spends_of-PlainCharge Q clock n (v ∷ vs) (slash, slashes) (up, ups) =
        with_spend-PlainCharge clock _ _ v _ _ slash (usage-PaysIn v.span up)
          (spends_of-PlainCharge Q clock (suc n) vs slashes ups)
