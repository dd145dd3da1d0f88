-- ===== src/Ledger/Counts.antt =====
-- Token and run totals over any interleaving of calls.
use kovern.Prelude.{
  ◌≡◌, refl, sym, ap, ◌∙◌, Bool, true, some, List, [], ◌∷◌, keep, All, All-keep, length,
}
use kovern.Prelude.Int.{
  ℤ, pos, ◌+ℤ◌, wrap64, wrap64_of_Fits64, Fits64, wrap64-add64, add64-Fits64, pos-suc, +ℤ_zero,
}
use kovern.Prelude.Text.{Text}
use kovern.Float.{Float64}
use kovern.Ledger.{Cache, Entry, get, spend}
use kovern.Ledger.Keys.{SlashFree}
use kovern.Ledger.Runs.{
  Call, syncs, spends, resets, removes, names, NamespacesAreSlashFree, run, effects, get-run,
}

module _ {F Q : Type 0} where
  abbrev pub IsSpend : Call F Q → Type 0
  IsSpend (spends now ns sa usd tokens) = Unit
  IsSpend _ = ⊥

  abbrev pub tokens_of : Call F Q → ℤ
  tokens_of (spends now ns sa usd tokens) = tokens
  tokens_of _ = pos 0

  abbrev pub total_tokens : List (Call F Q) → ℤ
  total_tokens [] = pos 0
  total_tokens (call ∷ calls) = tokens_of call +ℤ total_tokens calls

  -- Of the calls that name the account, every one records a spend.
  abbrev pub OnlySpends : Text → Text → List (Call F Q) → Type 0
  OnlySpends ns sa = All (λ call. names ns sa call ≡ true → IsSpend call)

  -- An entry whose totals are those of `e` and of the calls.
  pub record Counted (e : Entry F) (calls : List (Call F Q)) (e' : Entry F) : Type 0 where
    pub tokens : e'.spent_tokens ≡ wrap64 (e.spent_tokens +ℤ total_tokens calls)
    pub runs : e'.run_count ≡ wrap64 (e.run_count +ℤ pos (length calls))

module _ {F Q : Type 0} ⦃f : Float64 F⦄ (as_int64 : Q → ℤ × Bool) where
  effects-Counted :
      (e : Entry F) (calls : List (Call F Q))
      → Fits64 e.spent_tokens
      → Fits64 e.run_count
      → All IsSpend calls
      → (e' : Entry F) × (effects as_int64 (some e) calls ≡ some e') × Counted e calls e'
  unfolding effects spend
  effects-Counted e [] t r all = (e, refl, record { tokens = whole t; runs = whole r })
    where
      whole : {n : ℤ} → Fits64 n → n ≡ wrap64 (n +ℤ pos 0)
      whole {n} h = rw (+ℤ_zero n) (sym (wrap64_of_Fits64 n h))
  effects-Counted e (spends now ns sa usd tokens ∷ calls) t r (_, all) =
      let (e', same, counted) =
        effects-Counted (spend now usd tokens e) calls (add64-Fits64 e.spent_tokens tokens)
          (add64-Fits64 e.run_count (pos 1)) all in
      (
        e',
        same,
        record {
          tokens = counted.tokens ∙ wrap64-add64 e.spent_tokens tokens (total_tokens calls);
          runs =
              counted.runs
              ∙ wrap64-add64 e.run_count (pos 1) (pos (length calls))
              ∙ ap (λ n. wrap64 (e.run_count +ℤ n)) (pos-suc (length calls));
        },
      )
  effects-Counted e (syncs now tq ∷ calls) t r (no_spend, _) = absurd no_spend
  effects-Counted e (resets now ns sa ∷ calls) t r (no_spend, _) = absurd no_spend
  effects-Counted e (removes ns sa ∷ calls) t r (no_spend, _) = absurd no_spend

  -- If the calls about an account with an entry all record spends, then after any interleaving with
  -- calls about other accounts the account still has an entry. Its token total has grown by the sum
  -- of the recorded tokens and its run total by the number of the records, both in `int64`
  -- arithmetic.
  pub run-Counted :
      (c : Cache F) (calls : List (Call F Q)) (ns sa : Text) {e : Entry F}
      → SlashFree ns
      → NamespacesAreSlashFree calls
      → get c ns sa ≡ some e
      → Fits64 e.spent_tokens
      → Fits64 e.run_count
      → OnlySpends ns sa calls
      → (e' : Entry F) × (get (run as_int64 c calls) ns sa ≡ some e')
        × Counted e (keep (names ns sa) calls) e'
  run-Counted c calls ns sa {e} h all found t r only =
      let (e', same, counted) =
        effects-Counted e (keep (names ns sa) calls) t r
          (All-keep IsSpend (names ns sa) calls only) in
      (e', rw (get-run as_int64 c calls ns sa h all, found) same, counted)
