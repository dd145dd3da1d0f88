-- ===== src/Ledger.antt =====
-- internal/ledger/cache.go: the in-memory quota ledger. A method takes the clock's reading `now`
-- where the code calls `c.now()`, and returns the new cache beside its result. Each method holds
-- the cache's lock from its first to its last line, so a run of the program is a sequence of calls.
pub mod Keys
pub mod Lookups
pub mod Limits
pub mod Runs
pub mod Counts
pub mod Exhaustion
pub mod Budgets
pub mod Views
use kovern.Prelude.{
  ℕ, zero, suc, Bool, true, false, not, ◌&&◌, Option, none, some, [], ◌∷◌, ◌++◌, if◌then◌else◌,
  length,
}
use kovern.Prelude.Int.{ℤ, pos, add64}
use kovern.Prelude.Text.{Text, codes, is_empty}
use kovern.Prelude.Dict.{Dict, lookup, insert, delete}
use kovern.Float.{Float64}
use kovern.Time.{Time, after, is_zero}
use kovern.Api
use kovern.Api.{
  TokenQuotaSpec, QuotaState, unset, active, soft_limit, exceeded, EnforcementAction, TokenQuota,
  TokenQuotaStatus,
}

pub record Entry (F : Type 0) : Type 0 where
  pub max_usd : F
  pub soft_limit_pct : ℤ
  pub spent_usd : F
  pub spent_tokens : ℤ
  pub run_count : ℤ
  pub state : QuotaState
  pub next_renewal : Time
  pub enforcement_action : EnforcementAction
  pub updated_at : Time

-- `namespace + "/" + serviceAccount`
unfoldable pub key : Text → Text → Text
key namespace service_account = namespace ++ (b'/' ∷ service_account)

pub record Cache (F : Type 0) : Type 0 where
  pub entries : Dict (Entry F)

unfoldable pub new : {F : Type 0} → Cache F
new = record { entries = [] }

-- `Status.State != ""`
abbrev pub is_set : QuotaState → Bool
is_set unset = false
is_set (Api.other_state s) = not (is_empty s)
is_set _ = true

-- `n == 0` on an `int`.
abbrev is_zero_ℤ : ℤ → Bool
is_zero_ℤ (pos zero) = true
is_zero_ℤ _ = false

module _ {F : Type 0} where
  -- `Check`; its error is always nil.
  unfoldable pub check_entry : Time → Option (Entry F) → QuotaState
  check_entry now none = active
  check_entry now (some e) =
      if not (is_zero e.next_renewal) && after now e.next_renewal then active else e.state

  unfoldable pub check : Time → Cache F → Text → Text → QuotaState × Option Text
  unfolding check_entry
  check now c namespace service_account =
      (check_entry now (lookup (key namespace service_account) c.entries), none)

  -- `Get`: a copy of the entry, or nil.
  unfoldable pub get : Cache F → Text → Text → Option (Entry F)
  get c namespace service_account = lookup (key namespace service_account) c.entries

  unfoldable pub remove : Cache F → Text → Text → Cache F
  remove c namespace service_account = record {
    entries = delete (key namespace service_account) c.entries;
  }

  unfoldable pub size : Cache F → ℕ
  size c = length c.entries

module _ {F : Type 0} ⦃f : Float64 F⦄ where
  -- `computeState`
  unfoldable pub compute_state : Entry F → QuotaState
  compute_state e =
      let pct = f.mul (f.div e.spent_usd e.max_usd) (f.of_int (pos 100)) in
      let soft = f.of_int e.soft_limit_pct in
      if f.le e.max_usd f.zero
      then active
      else if f.le (f.of_int (pos 100)) pct
      then exceeded
      else if f.lt f.zero soft && f.le soft pct
      then soft_limit
      else active

  -- The entry that `Sync` starts from when there is none: `&Entry{State: QuotaStateActive}`.
  unfoldable pub fresh : Entry F
  fresh = record {
    max_usd = f.zero;
    soft_limit_pct = pos 0;
    spent_usd = f.zero;
    spent_tokens = pos 0;
    run_count = pos 0;
    state = active;
    next_renewal = 0;
    enforcement_action = Api.other_enforcement [];
    updated_at = 0;
  }

  abbrev pub or_old : F → Option F → F
  or_old old none = old
  or_old old (some x) = x

  -- The assignments of `Sync` from the status, made when its state is set.
  abbrev pub sync_status : TokenQuotaStatus → Entry F → Entry F
  sync_status st e =
      if is_set st.state
      then record e {
        state = st.state;
        spent_tokens = st.spent_tokens;
        run_count = st.run_count;
        spent_usd = or_old e.spent_usd (f.parse st.spent_usd);
      }
      else e

  abbrev pub sync_renewal : Option Time → Entry F → Entry F
  sync_renewal none e = e
  sync_renewal (some t) e = record e { next_renewal = t }

  abbrev pub or_fresh : Option (Entry F) → Entry F
  or_fresh none = fresh
  or_fresh (some e) = e

  -- The body of `RecordSpend` on the entry that it finds.
  unfoldable pub spend : Time → F → ℤ → Entry F → Entry F
  spend now usd tokens e =
      let e' : Entry F = record e {
        spent_usd = f.add e.spent_usd usd;
        spent_tokens = add64 e.spent_tokens tokens;
        run_count = add64 e.run_count (pos 1);
        updated_at = now;
      } in
      record e' { state = compute_state e' }

  unfoldable pub record_spend :
      Time → Cache F → Text → Text → F → ℤ → Cache F × QuotaState × Option Text
  record_spend now c namespace service_account usd tokens =
      let k = key namespace service_account in
      elim (lookup k c.entries) [
        | none ↦ (c, active, some (codes "no quota entry for " ++ k))
        | some e ↦
            let e' = spend now usd tokens e in
            (record { entries = insert k e' c.entries }, e'.state, none)
      ]

  unfoldable pub cleared : Time → Entry F → Entry F
  cleared now e = record e {
    spent_usd = f.zero;
    spent_tokens = pos 0;
    run_count = pos 0;
    state = active;
    updated_at = now;
  }

  unfoldable pub reset : Time → Cache F → Text → Text → Cache F
  reset now c namespace service_account =
      let k = key namespace service_account in
      elim (lookup k c.entries) [
        | none ↦ c
        | some e ↦ record { entries = insert k (cleared now e) c.entries }
      ]

  module _ {Q : Type 0} (as_int64 : Q → ℤ × Bool) where
    -- The assignments of `Sync` from the specification: the second result of `AsInt64` is dropped,
    -- and a soft limit of 0 stands for 80.
    abbrev pub sync_spec : TokenQuotaSpec Q → Entry F → Entry F
    sync_spec spec e =
        let scope = spec.billing_scope in
        record e {
          max_usd = f.of_int (as_int64 scope.max_financial_budget).0;
          soft_limit_pct = if is_zero_ℤ scope.soft_limit_pct then pos 80 else scope.soft_limit_pct;
          enforcement_action = spec.enforcement_action;
        }

    -- What `Sync` makes of the entry that it finds or creates.
    unfoldable pub synced : Time → TokenQuota Q → Entry F → Entry F
    synced now tq e =
        record (sync_renewal tq.status.next_renewal (sync_status tq.status (sync_spec tq.spec e))) {
          updated_at = now;
        }

    unfoldable pub sync : Time → Cache F → TokenQuota Q → Cache F
    unfolding fresh
    sync now c tq =
        let k = key tq.namespace tq.spec.target_ref.name in
        record { entries = insert k (synced now tq (or_fresh (lookup k c.entries))) c.entries }
