-- ===== src/Operator/Safety.antt =====
-- The budget's promise in the running operator.
use kovern.Prelude.{ℕ, ◌≤◌, ◌≡◌, ◌∙◌, refl, Bool, true, some, List, [], ◌∷◌, ◌⊎◌, inl}
use kovern.Prelude.Int.{ℤ}
use kovern.Prelude.Text.{Text}
use kovern.Prelude.Result.{Result, ok}
use kovern.Float.{Float64, IsIeee}
use kovern.Time.{Time}
use kovern.Ledger.{Cache, Entry, get}
use kovern.Ledger.Keys.{SlashFree}
use kovern.Ledger.Limits.{UsedUp}
use kovern.Ledger.Runs.{Call, names, namespace_of, NamespacesAreSlashFree, run, step}
use kovern.Ledger.Exhaustion.{IsCharge, OnlyCharges, run-UsedUp}
use kovern.Cluster.{Pod}
use kovern.Cluster.Client.{Client}
use kovern.Webhook.{Request, create, account, handle}
use kovern.Webhook.Decisions.{is_denied, handle_denies_iff}
use kovern.Operator.{System, review}
use kovern.Operator.Steps.{Step, Steps}

-- The call is about another account, or records a spend that is not negative.
abbrev pub Spares : {F Q : Type 0} → ⦃f : Float64 F⦄ → Text → Text → Call F Q → Type 0
Spares ns sa call = SlashFree (namespace_of call) × (names ns sa call ≡ true → IsCharge call)

-- The account has a used-up budget, which is renewed at the time.
pub record Held {F : Type 0} ⦃f : Float64 F⦄ (m : ℕ) (ns sa : Text) (until : Time) (c : Cache F)
    : Type 0 where
  pub entry : Entry F
  pub found : get c ns sa ≡ some entry
  pub used_up : UsedUp m entry
  pub same : entry.next_renewal ≡ until

module _ {F Q : Type 0} ⦃f : Float64 F⦄ (laws : IsIeee F) (as_int64 : Q → ℤ × Bool) (m : ℕ)
    (ns sa : Text) (slash : SlashFree ns) where
  pub run-Held :
      {until : Time} (c : Cache F) (calls : List (Call F Q))
      → NamespacesAreSlashFree calls
      → OnlyCharges ns sa calls
      → Held m ns sa until c
      → Held m ns sa until (run as_int64 c calls)
  run-Held c calls free charges h =
      let (e, found, u, same) =
        run-UsedUp laws as_int64 m c calls ns sa slash free h.found h.used_up charges in
      record { entry = e; found = found; used_up = u; same = same ∙ h.same }

module _ {F K S P Q : Type 0} ⦃f : Float64 F⦄ (laws : IsIeee F) (client : Client K S P)
    (as_int64 : Q → ℤ × Bool) (m : ℕ) (ns sa : Text) (slash : SlashFree ns) where
  step-Held :
      {until : Time} (c : Cache F) (call : Call F Q)
      → Spares ns sa call
      → Held m ns sa until c
      → Held m ns sa until (step as_int64 c call)
  unfolding run
  step-Held c call (free, charges) h =
      run-Held laws as_int64 m ns sa slash c (call ∷ []) (free, tt) (charges, tt) h

  Steps-Held :
      {until : Time} (s : System F K) {t : System F K}
      → Steps client as_int64 (Spares ns sa) s t
      → Held m ns sa until s.ledger
      → Held m ns sa until t.ledger
  Steps-Held s Steps.here h = h
  Steps-Held s (Steps.later rest (Step.calls call spares)) h =
      step-Held _ call spares (Steps-Held s rest h)
  Steps-Held s (Steps.later rest (Step.records ns pod tool ts)) h = Steps-Held s rest h
  Steps-Held s (Steps.later rest (Step.trims now)) h = Steps-Held s rest h
  Steps-Held s (Steps.later rest (Step.examines otel pod policy)) h = Steps-Held s rest h
  Steps-Held s (Steps.later rest (Step.elsewhere k)) h = Steps-Held s rest h

module _ {F R : Type 0} ⦃f : Float64 F⦄ (decode : R → Result Pod) where
  pub Held-denied :
      {until : Time} (c : Cache F) (now : Time) (req : Request R) (pod : Pod) (m : ℕ)
      → Held m req.namespace (account pod) until c
      → req.operation ≡ create
      → decode req.object ≡ ok pod
      → (until ≡ 0) ⊎ (now ≤ until)
      → is_denied (handle decode now c req) ≡ true
  Held-denied c now req pod m h op decoded current = (handle_denies_iff decode now c req).1 (
    pod,
    op,
    decoded,
    h.entry,
    h.found,
    record { current = rw h.same current; blocking = inl h.used_up.refused },
  )

module _ {F K S P Q R : Type 0} ⦃f : Float64 F⦄ (laws : IsIeee F) (client : Client K S P)
    (as_int64 : Q → ℤ × Bool) (decode : R → Result Pod) where
  -- Once a service account's positive budget is used up, the running operator refuses its pods up to
  -- the renewal time of the account's entry, or for good where none is set: whatever the receiver,
  -- the reconciler, the engine and the rest of the cluster do in between and in whatever order, as
  -- long as the calls of the ledger that name the account only record spends that are not negative.
  -- (No namespace holds a slash.)
  pub review-Steps :
      (s : System F K) {t : System F K} (now : Time) (req : Request R) (pod : Pod) (m : ℕ)
      {e : Entry F}
      → SlashFree req.namespace
      → Steps client as_int64 (Spares req.namespace (account pod)) s t
      → get s.ledger req.namespace (account pod) ≡ some e
      → UsedUp m e
      → req.operation ≡ create
      → decode req.object ≡ ok pod
      → (e.next_renewal ≡ 0) ⊎ (now ≤ e.next_renewal)
      → is_denied (review decode now req t) ≡ true
  review-Steps s {t} now req pod m {e} slash steps found u op decoded current =
      let h =
        Steps-Held laws client as_int64 m req.namespace (account pod) slash s steps
          record { entry = e; found = found; used_up = u; same = refl } in
      Held-denied decode t.ledger now req pod m h op decoded current
