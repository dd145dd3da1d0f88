-- ===== src/Heuristic/Remediations.antt =====
-- When the engine remediates a pod.
use kovern.Prelude.{
  ◌≡◌, ◌≤◌, ◌↔◌, refl, suc, false, true, length, arith, Bool-cases, inl, inr, List, ℕ, ◌*◌, Option,
  none, some,
}
use kovern.Prelude.Int.{ℤ, ◌≤ℤ◌, leb_ℤ, ltb_ℤ, pos}
use kovern.Time.{Time, sub, nano_per_second}
use kovern.Prelude.Text.{Text}
use kovern.Prelude.Dict.{lookup}
use kovern.Api.{LivelockPolicy, OtelCriteria}
use kovern.Ledger.{key}
use kovern.Spans.{window, SpanStore, ToolCall}
use kovern.Cluster.{Pod, PodPhase, running, other_phase}
use kovern.Cluster.Client.{Client}
use kovern.Heuristic.{
  Engine, is_short, elapsed, detect, examine, evaluate_pod, max_same_tool_count, recent_calls,
}
use kovern.Heuristic.Tallies.{calls_to, max_same_tool_count_greatest}

leb_ℤ→≤ℤ : (a b : ℤ) → leb_ℤ a b ≡ true → a ≤ℤ b
leb_ℤ→≤ℤ a b h = ground arith

≤ℤ→leb_ℤ : (a b : ℤ) → a ≤ℤ b → leb_ℤ a b ≡ true
≤ℤ→leb_ℤ a b h = ground arith

≤ℤ_of_not_lt : (a b : ℤ) → ltb_ℤ a b ≡ false → b ≤ℤ a
≤ℤ_of_not_lt a b h = ground arith

not_lt_of_≤ℤ : (a b : ℤ) → b ≤ℤ a → ltb_ℤ a b ≡ false
not_lt_of_≤ℤ a b h = ground arith

pub pos_mono : (a : ℤ) (m n : ℕ) → m ≤ n → a ≤ℤ pos m → a ≤ℤ pos n
pos_mono a m n h le = omega (arith, h, le)

-- Some tool has at least `max` of the calls.
abbrev pub Loops : ℤ → List ToolCall → Type 0
Loops max calls = (tool : Text) × (max ≤ℤ pos (calls_to tool calls))

module _ {W S P : Type 0} (c : Client W S P) (store : W → SpanStore) where
  -- The pod runs, its last remediation, where there is one, is two minutes old or more, and some tool has reached
  -- the maximum in the window.
  pub record IsDue (otel : OtelCriteria) (pod : Pod) (e : Engine) (w : W) : Type 0 where
    pub runs : pod.phase ≡ running
    pub rested :
        (last : Time)
        → lookup (key pod.namespace pod.name) e.cooldown ≡ some last
        → pos (120 * nano_per_second) ≤ℤ sub (c.now w).0 last
    pub loops :
        let (since, w1) = elapsed c (lookup (key pod.namespace pod.name) e.cooldown) w in
        let (now, w2) = c.now w1 in
        Loops otel.max_same_tool_calls
          (window now (store w2) pod.namespace pod.name otel.window_seconds)

  rested_of_long :
      (o : Option Time) (w : W)
      → is_short (elapsed c o w).0 ≡ false
      → (last : Time) → o ≡ some last
      → pos (120 * nano_per_second) ≤ℤ sub (c.now w).0 last
  rested_of_long none w long last is = cc is
  rested_of_long (some t) w long last is =
      let same : t ≡ last = cc is in
      rw (← same) (≤ℤ_of_not_lt (sub (c.now w).0 t) (pos (120 * nano_per_second)) long)

  long_of_rested :
      (o : Option Time) (w : W)
      → ((last : Time) → o ≡ some last → pos (120 * nano_per_second) ≤ℤ sub (c.now w).0 last)
      → is_short (elapsed c o w).0 ≡ false
  long_of_rested none w rested = refl
  long_of_rested (some t) w rested =
      not_lt_of_≤ℤ (sub (c.now w).0 t) (pos (120 * nano_per_second)) (rested t refl)

  pub looping_iff :
      (max : ℤ) (calls : List ToolCall)
      → Loops max calls ↔ (leb_ℤ max (pos (max_same_tool_count calls)) ≡ true)
  looping_iff max calls =
      let (above, (tool, most)) = max_same_tool_count_greatest calls in
      (
        λ (t, le). ≤ℤ→leb_ℤ max (pos (max_same_tool_count calls)) (pos_mono max _ _ (above t) le),
        λ h. (tool, rw most (leb_ℤ→≤ℤ max (pos (max_same_tool_count calls)) h)),
      )

  examine_running_iff :
      (otel : OtelCriteria) (pod : Pod) (e : Engine) (policy : LivelockPolicy S) (w : W)
      → pod.phase ≡ running
      → (length (examine c store running otel pod e policy w).0.0.detections
          ≡ suc (length e.detections))
        ↔ IsDue otel pod e w
  unfolding detect
  examine_running_iff otel pod e policy w runs =
      let last = lookup (key pod.namespace pod.name) e.cooldown in
      let (since, w') = elapsed c last w in
      let calls = (recent_calls c store otel pod w').0 in
      let max = otel.max_same_tool_calls in
      elim (Bool-cases (is_short since)) [
        | inl short ↦ rw short (λ h. ground arith, λ d. cc (short, long_of_rested last w d.rested))
        | inr long ↦ rw long (elim (Bool-cases (leb_ℤ max (pos (max_same_tool_count calls)))) [
          | inl many ↦ rw many (
            λ h. record {
              runs = runs;
              rested = rested_of_long last w long;
              loops = (looping_iff max calls).1 many;
            },
            λ d. refl,
          )
          | inr few ↦ rw few (λ h. ground arith, λ d. cc (few, (looping_iff max calls).0 d.loops))
        ])
      ]

  -- A detection of a pod is logged exactly when the pod runs, its last
  -- remediation, if there is one, was two minutes ago or more, and some tool has at least
  -- `maxSameToolCalls` calls in the policy's window. The two minutes do not depend on the window.
  pub evaluate_pod_detects_iff :
      (otel : OtelCriteria) (pod : Pod) (e : Engine) (policy : LivelockPolicy S) (w : W)
      → (length (evaluate_pod c store otel pod e policy w).0.0.detections
          ≡ suc (length e.detections))
        ↔ IsDue otel pod e w
  unfolding evaluate_pod
  evaluate_pod_detects_iff otel pod e policy w = go pod.phase refl
    where
      go :
          (phase : PodPhase)
          → pod.phase ≡ phase
          → (length (examine c store phase otel pod e policy w).0.0.detections
              ≡ suc (length e.detections))
            ↔ IsDue otel pod e w
      go running is = examine_running_iff otel pod e policy w is
      go other_phase is = (λ h. ground arith, λ d. cc (is, d.runs))
