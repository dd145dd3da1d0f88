-- ===== src/Heuristic/Tallies.antt =====
-- The greatest count of one tool, against its definition.
use kovern.Prelude.{
  ℕ, ◌+◌, ◌≤◌, ◌≡◌, ◌⊎◌, inl, inr, refl, ap, ◌∙◌, true, false, some, List, [], ◌∷◌, arith, ltb,
  if◌then◌else◌, count_if, Bool-cases,
}
use kovern.Prelude.Text.{Text, text_eq, text_eq_refl, text_eq→eq}
use kovern.Prelude.Dict.{Dict, lookup, lookup-insert, Distinct, insert-Distinct}
use kovern.Spans.{ToolCall}
use kovern.Heuristic.{or_zero, tally, greatest, max_same_tool_count}

-- How many of the calls are calls of the tool.
abbrev pub calls_to : Text → List ToolCall → ℕ
calls_to tool = count_if (λ c. text_eq c.tool_name tool)

lookup-tally :
    (calls : List ToolCall) (counts : Dict ℕ) (tool : Text)
    → or_zero (lookup tool (tally calls counts))
      ≡ or_zero (lookup tool counts) + calls_to tool calls
unfolding tally
lookup-tally [] counts tool = omega arith
lookup-tally (c ∷ cs) counts tool =
    lookup-tally cs _ tool
    ∙ rw (lookup-insert c.tool_name tool (or_zero (lookup c.tool_name counts) + 1) counts)
        (go (Bool-cases (text_eq c.tool_name tool)))
  where
    go :
        (text_eq c.tool_name tool ≡ true) ⊎ (text_eq c.tool_name tool ≡ false)
        → or_zero (
              if text_eq c.tool_name tool
              then some (or_zero (lookup c.tool_name counts) + 1)
              else lookup tool counts)
            + calls_to tool cs
          ≡ or_zero (lookup tool counts) + calls_to tool (c ∷ cs)
    go (inl e) = rw (e, text_eq→eq c.tool_name tool e) (omega arith)
    go (inr e) = rw e (omega arith)

tally-Distinct :
    (calls : List ToolCall) (counts : Dict ℕ) → Distinct counts → Distinct (tally calls counts)
unfolding tally
tally-Distinct [] counts d = d
tally-Distinct (c ∷ cs) counts d = tally-Distinct cs _ (insert-Distinct _ _ counts d)

le-greatest : (max : ℕ) (counts : Dict ℕ) → max ≤ greatest max counts
unfolding greatest
le-greatest max [] = omega arith
le-greatest max ((k, n) ∷ counts) =
    ground (arith, le-greatest (if ltb max n then n else max) counts)

lookup-le-greatest :
    (tool : Text) (max : ℕ) (counts : Dict ℕ) → or_zero (lookup tool counts) ≤ greatest max counts
unfolding greatest lookup
lookup-le-greatest tool max [] = omega arith
lookup-le-greatest tool max ((k, n) ∷ counts) =
    let m = if ltb max n then n else max in
    ground (arith, le-greatest m counts, lookup-le-greatest tool m counts)

-- The greatest count is the first one or stands in the map.
greatest_cases :
    (max : ℕ) (counts : Dict ℕ)
    → Distinct counts
    → (greatest max counts ≡ max)
      ⊎ ((tool : Text) × (lookup tool counts ≡ some (greatest max counts)))
unfolding greatest lookup
greatest_cases max [] d = inl refl
greatest_cases max ((k, n) ∷ counts) (absent, d) = elim (Bool-cases (ltb max n)) [
  | inl more ↦ rw more (elim (greatest_cases n counts d) [
    | inl e ↦ inr (k, rw (text_eq_refl k, e))
    | inr (tool, found) ↦ inr (tool, rw (ne tool found) found)
  ])
  | inr less ↦ rw less (elim (greatest_cases max counts d) [
    | inl e ↦ inl e
    | inr (tool, found) ↦ inr (tool, rw (ne tool found) found)
  ])
]
  where
    ne : {v : ℕ} (tool : Text) → lookup tool counts ≡ some v → text_eq k tool ≡ false
    ne tool found = elim (Bool-cases (text_eq k tool)) [
      | inl same ↦ cc (rw (← text_eq→eq k tool same) at found)
      | inr other ↦ other
    ]

-- The result is the number of calls of some tool, and no tool has more calls. So the engine's test
-- `maxSameToolCount(calls) >= max` holds exactly when some tool has at least `max` calls.
pub max_same_tool_count_greatest :
    (calls : List ToolCall)
    → ((tool : Text) → calls_to tool calls ≤ max_same_tool_count calls)
      × ((tool : Text) × (calls_to tool calls ≡ max_same_tool_count calls))
unfolding max_same_tool_count lookup
max_same_tool_count_greatest calls = (
  λ tool. omega (arith, lookup-tally calls [] tool, lookup-le-greatest tool 0 (tally calls [])),
  elim (greatest_cases 0 (tally calls []) (tally-Distinct calls [] tt)) [
    | inl e ↦
        ([], omega (arith, lookup-tally calls [] [], lookup-le-greatest [] 0 (tally calls [])))
    | inr (tool, found) ↦ (tool, omega (arith, lookup-tally calls [] tool, ap or_zero found))
  ],
)
