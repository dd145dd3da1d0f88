-- ===== src/Operator/Events.antt =====
-- The life of the operator as a sequence of its operations.
use kovern.Prelude.{Bool, List, [], ◌∷◌}
use kovern.Prelude.Int.{ℤ}
use kovern.Prelude.Text.{Text}
use kovern.Prelude.Result.{Result}
use kovern.Prelude.{ℕ}
use kovern.Float.{Float64}
use kovern.Time.{Time}
use kovern.Api.{TokenQuota}
use kovern.Cluster.Client.{Client}
use kovern.Quota.{Readings, Update, Fetch}
use kovern.Receiver.{Clock, HttpRequest}
use kovern.Receiver.Attributes.{TraceRequest}
use kovern.Operator.{System, receive, reconcile_quota, engine_tick}

-- A request with traces, a reconciliation with what the API answers, a tick of the engine, or a change
-- elsewhere in the cluster.
pub data Event (K Q B : Type 0) : Type 0 where
  receives : Clock → HttpRequest B → Event K Q B
  reconciles :
      Readings → (ℕ → TokenQuota Q → Update) → Text → Text → Fetch (TokenQuota Q) → Event K Q B
  ticks : Time → Event K Q B
  changes : K → Event K Q B

module _ {F K S P Q B : Type 0} ⦃f : Float64 F⦄ (client : Client K S P) (as_int64 : Q → ℤ × Bool)
    (decode : B → Result (TraceRequest F)) where
  unfoldable pub happen : Event K Q B → System F K → System F K
  happen (receives clock req) s = (receive clock decode req s).1
  happen (reconciles r answer ns name found) s =
      (reconcile_quota as_int64 r answer ns name found s).1
  happen (ticks now) s = (engine_tick client now s).1
  happen (changes k) s = record s { cluster = k }

  unfoldable pub all_happen : List (Event K Q B) → System F K → System F K
  unfolding happen
  all_happen [] s = s
  all_happen (e ∷ es) s = all_happen es (happen e s)
