-- ===== src/Operator/Promises.antt =====
-- The budget's promise over any sequence of the operator's operations.
use kovern.Prelude.{ℕ, ◌<◌, ◌≤◌, ◌≡◌, refl, Bool, true, some, List, [], ◌∷◌, ◌⊎◌, All}
use kovern.Prelude.Int.{ℤ}
use kovern.Prelude.Text.{Text}
use kovern.Prelude.Result.{Result, ok}
use kovern.Float.{Float64, IsIeee}
use kovern.Time.{Time}
use kovern.Ledger.{Entry, get}
use kovern.Ledger.Keys.{SlashFree}
use kovern.Ledger.Limits.{UsedUp}
use kovern.Cluster.{Pod}
use kovern.Cluster.Client.{Client}
use kovern.Quota.Calls.{reconcile-run}
use kovern.Receiver.Attributes.{TraceRequest}
use kovern.Webhook.{Request, create, account}
use kovern.Webhook.Decisions.{is_denied}
use kovern.Operator.{System, review, reconcile_quota, engine_tick}
use kovern.Operator.Requests.{receive-ledger}
use kovern.Operator.Refusals.{IsFair, any_amount, receive-OnlyCharges}
use kovern.Operator.Safety.{Held, run-Held, Held-denied}
use kovern.Operator.Events.{Event, receives, reconciles, ticks, changes, happen, all_happen}
use kovern.Operator.Budgets.{IsHarmless, reconcile-Held}

-- What leaves the account's budget used up, as long as its renewal time has not passed.
abbrev pub AreHarmless :
    {F K Q B : Type 0} ⦃f : Float64 F⦄
    → IsIeee F
    → (Q → ℤ × Bool)
    → (B → Result (TraceRequest F))
    → ℕ
    → Time
    → Text
    → Text
    → Event K Q B
    → Type 0
AreHarmless laws as_int64 decode m until ns sa (receives clock req) = IsFair laws decode req
AreHarmless {F} laws as_int64 decode m until ns sa (reconciles r answer ns' name found) =
    IsHarmless F as_int64 m until ns sa r ns' name found
AreHarmless laws as_int64 decode m until ns sa (ticks now) = Unit
AreHarmless laws as_int64 decode m until ns sa (changes k) = Unit

module _ {F K S P Q B : Type 0} ⦃f : Float64 F⦄ (laws : IsIeee F) (client : Client K S P)
    (as_int64 : Q → ℤ × Bool) (decode : B → Result (TraceRequest F)) (m : ℕ) (until : Time)
    (positive : 0 < m) (ns sa : Text) (slash : SlashFree ns) where
  abbrev Harmless : Event K Q B → Type 0
  Harmless = AreHarmless laws as_int64 decode m until ns sa

  happen-Held :
      (e : Event K Q B) (s : System F K)
      → Harmless e
      → Held m ns sa until s.ledger
      → Held m ns sa until (happen client as_int64 decode e s).ledger
  unfolding happen reconcile_quota engine_tick
  happen-Held (receives clock req) s fair held =
      let (free, charges) = receive-OnlyCharges laws clock decode ns sa req fair in
      rw (receive-ledger any_amount clock decode req s)
        (run-Held laws any_amount m ns sa slash s.ledger _ free charges held)
  happen-Held (reconciles r answer ns' name found) s harmless held =
      rw (reconcile-run as_int64 r answer s.ledger ns' name found) (
        reconcile-Held laws as_int64 m until positive ns sa slash r s.ledger ns' name found harmless
          held)
  happen-Held (ticks now) s _ held = held
  happen-Held (changes k) s _ held = held

  all_happen-Held :
      (es : List (Event K Q B)) (s : System F K)
      → All Harmless es
      → Held m ns sa until s.ledger
      → Held m ns sa until (all_happen client as_int64 decode es s).ledger
  unfolding all_happen
  all_happen-Held [] s _ held = held
  all_happen-Held (e ∷ es) s (first, others) held =
      all_happen-Held es (happen client as_int64 decode e s) others (happen-Held e s first held)

module _ {F K S P Q B R : Type 0} ⦃f : Float64 F⦄ (laws : IsIeee F) (client : Client K S P)
    (as_int64 : Q → ℤ × Bool) (decode_trace : B → Result (TraceRequest F))
    (decode : R → Result Pod) where
  -- Once a service account's positive budget is used up, its pods are refused up to the renewal time
  -- of its entry, or for good where none is set, after any operations of the operator in any order:
  -- requests with traces whose spans report no negative token counts, ticks of the engine, changes
  -- elsewhere in the cluster, and reconciliations, whatever the API answers to their updates, that
  -- read another account's quota, or the account's own with the state `Exceeded`, a spend of the
  -- budget or more and the same renewal time, not yet passed, or that read no quota, unless the
  -- object is gone and was spelled like the account. (No namespace holds a slash.)
  pub review-all_happen :
      (s : System F K) (es : List (Event K Q B)) (now : Time) (req : Request R) (pod : Pod) (m : ℕ)
      {e : Entry F}
      → SlashFree req.namespace
      → get s.ledger req.namespace (account pod) ≡ some e
      → UsedUp m e
      → All (AreHarmless laws as_int64 decode_trace m e.next_renewal req.namespace (account pod)) es
      → req.operation ≡ create
      → decode req.object ≡ ok pod
      → (e.next_renewal ≡ 0) ⊎ (now ≤ e.next_renewal)
      → is_denied (review decode now req (all_happen client as_int64 decode_trace es s)) ≡ true
  review-all_happen s es now req pod m {e} slash found u harmless op decoded current =
      Held-denied decode _ now req pod m
        (all_happen-Held laws client as_int64 decode_trace m e.next_renewal u.positive req.namespace
          (account pod) slash es s harmless
          record { entry = e; found = found; used_up = u; same = refl })
        op decoded current
