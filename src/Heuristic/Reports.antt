-- ===== src/Heuristic/Reports.antt =====
-- The calls that a request reports, at every time of a later evaluation.
use kovern.Prelude.{◌≤◌, ◌≡◌, true, List, [], ◌∷◌, keep, arith, Bool}
use kovern.Prelude.Int.{ℤ}
use kovern.Prelude.Text.{Text}
use kovern.Time.{Time, add}
use kovern.Spans.{SpanStore, ToolCall, is_recent, cutoff, window, calls_of}
use kovern.Heuristic.Tallies.{calls_to}

calls_to-keep_mono :
    (tool : Text) (p q : ToolCall → Bool) (cs : List ToolCall)
    → ((c : ToolCall) → p c ≡ true → q c ≡ true)
    → calls_to tool (keep p cs) ≤ calls_to tool (keep q cs)
calls_to-keep_mono tool p q [] h = omega arith
calls_to-keep_mono tool p q (c ∷ cs) h = ground (arith, calls_to-keep_mono tool p q cs h, h c)

cutoff_mono : (t u : Time) (n : ℤ) → t ≤ u → cutoff t n ≤ cutoff u n
unfolding cutoff add
cutoff_mono t u n le = ground arith

-- An earlier window reaches back further.
pub calls_to-window_mono :
    (tool : Text) (t u : Time) (s : SpanStore) (ns pod : Text) (n : ℤ)
    → t ≤ u
    → calls_to tool (window u s ns pod n) ≤ calls_to tool (window t s ns pod n)
unfolding window
calls_to-window_mono tool t u s ns pod n le =
    let older = cutoff_mono t u n le in
    calls_to-keep_mono tool (is_recent (cutoff u n)) (is_recent (cutoff t n)) (calls_of s ns pod)
      (λ c h. ground (arith, older))
