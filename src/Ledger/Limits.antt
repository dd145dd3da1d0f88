-- ===== src/Ledger/Limits.antt =====
-- The enforcement state against the budget: `computeState` under the laws of the arithmetic.
use kovern.Prelude.{ℕ, ◌<◌, ◌≤◌, ◌≡◌, ap, arith}
use kovern.Prelude.Int.{ℤ, pos}
use kovern.Float.{Float64, IsIeee, ◌≼◌}
use kovern.Time.{Time}
use kovern.Api.{QuotaState, soft_limit, exceeded}
use kovern.Ledger.{Entry, compute_state, spend}

-- How severe a state is.
abbrev pub severity : QuotaState → ℕ
severity soft_limit = 1
severity exceeded = 2
severity _ = 0

module _ {F : Type 0} ⦃f : Float64 F⦄ where
  -- The entry's positive budget of `m` dollars is spent, and its state says so.
  pub record UsedUp (m : ℕ) (e : Entry F) : Type 0 where
    pub positive : 0 < m
    pub budget : e.max_usd ≡ f.of_int (pos m)
    pub spent : f.of_int (pos m) ≼ e.spent_usd
    pub refused : e.state ≡ exceeded

module _ {F : Type 0} ⦃f : Float64 F⦄ (laws : IsIeee F) where
  open laws use {
    le_trans, zero-of_int, of_int_mono, of_int_pos, add_ge, div_mono, mul_mono, ratio_one,
    num_of_le,
  }

  abbrev percent : Entry F → F
  percent e = f.mul (f.div e.spent_usd e.max_usd) (f.of_int (pos 100))

  percent_mono :
      (x y : F) (m : ℕ)
      → 0 < m
      → x ≼ y
      → f.mul (f.div x (f.of_int (pos m))) (f.of_int (pos 100))
        ≼ f.mul (f.div y (f.of_int (pos m))) (f.of_int (pos 100))
  percent_mono x y m h le = mul_mono _ _ 100 (omega arith) (div_mono x y m h le)

  -- A positive budget spent in full, or more, is at least 100 percent of it.
  percent-ge :
      (x : F) (m : ℕ)
      → 0 < m
      → f.of_int (pos m) ≼ x
      → f.of_int (pos 100) ≼ f.mul (f.div x (f.of_int (pos m))) (f.of_int (pos 100))
  percent-ge x m h over = rw (ratio_one m 100 h) at (percent_mono (f.of_int (pos m)) x m h over)

  -- Spending the whole of a positive budget, or more, is `Exceeded`, whatever the soft limit.
  pub compute_state-exceeded :
      (e : Entry F) (m : ℕ)
      → 0 < m
      → e.max_usd ≡ f.of_int (pos m)
      → e.max_usd ≼ e.spent_usd
      → compute_state e ≡ exceeded
  unfolding compute_state
  compute_state-exceeded e m h budget over =
      let full = percent-ge e.spent_usd m h (rw budget at over) in
      ground (
        arith,
        full,
        of_int_pos m h,
        ap (λ b. f.mul (f.div e.spent_usd b) (f.of_int (pos 100))) budget,
      )

  graded_mono :
      (e : Entry F) (x : F)
      → percent e ≼ f.mul (f.div x e.max_usd) (f.of_int (pos 100))
      → severity (compute_state e) ≤ severity (compute_state (record e { spent_usd = x }))
  unfolding compute_state
  graded_mono e x up =
      let p' = f.mul (f.div x e.max_usd) (f.of_int (pos 100)) in
      ground (
        arith,
        le_trans (f.of_int (pos 100)) (percent e) p',
        le_trans (f.of_int e.soft_limit_pct) (percent e) p',
      )

  -- Within the same positive budget and soft limit, spending more never makes the state milder.
  pub severity_mono :
      (e : Entry F) (x : F) (m : ℕ)
      → 0 < m
      → e.max_usd ≡ f.of_int (pos m)
      → e.spent_usd ≼ x
      → severity (compute_state e) ≤ severity (compute_state (record e { spent_usd = x }))
  severity_mono e x m h budget more =
      graded_mono e x (rw budget (percent_mono e.spent_usd x m h more))

  -- A spend that reaches the budget uses the entry up, whatever its state was.
  pub spend-UsedUp :
      (now : Time) (usd : F) (tokens : ℤ) (e : Entry F) (m : ℕ)
      → 0 < m
      → e.max_usd ≡ f.of_int (pos m)
      → f.of_int (pos m) ≼ f.add e.spent_usd usd
      → UsedUp m (spend now usd tokens e)
  unfolding spend
  spend-UsedUp now usd tokens e m h budget reached = record {
    positive = h;
    budget = budget;
    spent = reached;
    refused = compute_state-exceeded _ m h budget (rw budget reached);
  }

  -- A spend that is not negative keeps a used-up entry used up.
  pub spend_keeps-UsedUp :
      (now : Time) (usd : F) (tokens : ℤ) (e : Entry F) (m : ℕ)
      → f.zero ≼ usd
      → UsedUp m e
      → UsedUp m (spend now usd tokens e)
  spend_keeps-UsedUp now usd tokens e m h u =
      let nonneg : f.zero ≼ f.of_int (pos m) =
        rw zero-of_int at (of_int_mono (pos 0) (pos m) (omega arith)) in
      spend-UsedUp now usd tokens e m u.positive u.budget
        (le_trans _ _ _ u.spent (add_ge _ _ (le_trans _ _ _ nonneg u.spent) h))
