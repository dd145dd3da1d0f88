-- ===== src/Spans/Windows.antt =====
-- What a window holds after recordings and trims.
use kovern.Prelude.{
  ℕ, ltb, zero, suc, All, ◌<◌, ◌+◌, ◌*◌, ◌≤◌, ◌≡◌, refl, ap, ◌∙◌, Bool, true, false, ◌&&◌, ◌⊎◌,
  none, some, List, [], ◌∷◌, ◌++◌, arith, if◌then◌else◌, keep, keep-append, inl, inr, Bool-cases,
}
use mathlib.Core.List.{append-nil}
use kovern.Prelude.Int.{ℤ, pos, wrap64, ◌+ℤ◌, ◌*ℤ◌}
use kovern.Prelude.Text.{Text, text_eq, text_eq→eq}
use kovern.Prelude.Dict.{Dict, lookup, lookup-insert, Distinct, insert-Distinct}
use kovern.Time.{Time, Duration, add, seconds, after, nano_per_second}
use kovern.Ledger.{key}
use kovern.Ledger.Keys.{SlashFree, text_eq-key}
use kovern.Spans.{
  ToolCall, SpanStore, new, calls_of, add_call, is_recent, cutoff, window, trim_records, trim,
  trim_limit, or_nil, with_calls,
}

-- Keys of a store are distinct.
pub record IsValid (s : SpanStore) : Type 0 where
  pub distinct : Distinct s.records

pub new-IsValid : IsValid new
unfolding new
new-IsValid = record { distinct = tt }

pub add_call-IsValid :
    (s : SpanStore) (ns pod tool : Text) (ts : Time)
    → IsValid s
    → IsValid (add_call s ns pod tool ts)
unfolding add_call
add_call-IsValid s ns pod tool ts v = record { distinct = insert-Distinct _ _ _ v.distinct }

lookup-with_calls :
    (k j : Text) (calls : List ToolCall) (m : Dict (List ToolCall))
    → (text_eq j k ≡ true → or_nil (lookup k m) ≡ [])
    → or_nil (lookup k (with_calls j calls m))
      ≡ (if text_eq j k then calls else or_nil (lookup k m))
unfolding lookup
lookup-with_calls k j [] m empty = elim (Bool-cases (text_eq j k)) [
  | inl e ↦ rw e (empty e)
  | inr e ↦ rw e
]
lookup-with_calls k j (c ∷ cs) m empty = elim (Bool-cases (text_eq j k)) [
  | inl e ↦ rw e
  | inr e ↦ rw e
]

lookup-trim_records :
    (limit : Time) (k : Text) (m : Dict (List ToolCall))
    → Distinct m
    → or_nil (lookup k (trim_records limit m)) ≡ keep (is_recent limit) (or_nil (lookup k m))
unfolding lookup trim_records
lookup-trim_records limit k [] d = refl
lookup-trim_records limit k ((j, calls) ∷ m) (absent, d) =
    let ih = lookup-trim_records limit k m d in
    rw
      (lookup-with_calls k j (keep (is_recent limit) calls) (trim_records limit m)
        (λ e. rw ih (rw (← text_eq→eq j k e, absent))))
      (elim (Bool-cases (text_eq j k)) [ inl e ↦ rw e | inr e ↦ rw e ih ])

lookup-with_calls_ne :
    (k j : Text) (calls : List ToolCall) (m : Dict (List ToolCall))
    → text_eq j k ≡ false
    → lookup k (with_calls j calls m) ≡ lookup k m
unfolding lookup
lookup-with_calls_ne k j [] m ne = refl
lookup-with_calls_ne k j (c ∷ cs) m ne = rw ne

lookup-trim_none :
    (limit : Time) (k : Text) (m : Dict (List ToolCall))
    → lookup k m ≡ none
    → lookup k (trim_records limit m) ≡ none
unfolding lookup trim_records
lookup-trim_none limit k [] absent = refl
lookup-trim_none limit k ((j, calls) ∷ m) absent = elim (Bool-cases (text_eq j k)) [
  | inl e ↦ cc (rw e at absent)
  | inr e ↦
      lookup-with_calls_ne k j (keep (is_recent limit) calls) (trim_records limit m) e
      ∙ lookup-trim_none limit k m (rw e at absent)
]

trim_records-Distinct :
    (limit : Time) (m : Dict (List ToolCall)) → Distinct m → Distinct (trim_records limit m)
unfolding trim_records
trim_records-Distinct limit [] d = tt
trim_records-Distinct limit ((j, calls) ∷ m) (absent, d) =
    go (trim_records-Distinct limit m d) (keep (is_recent limit) calls)
  where
    go :
        Distinct (trim_records limit m)
        → (kept : List ToolCall) → Distinct (with_calls j kept (trim_records limit m))
    go d' [] = d'
    go d' (c ∷ cs) = (lookup-trim_none limit j m absent, d')

pub trim-IsValid :
    (now : Time) (s : SpanStore) (age : Duration) → IsValid s → IsValid (trim now s age)
unfolding trim
trim-IsValid now s age v = record { distinct = trim_records-Distinct _ _ v.distinct }

keep-keep :
    (p q : Time) (calls : List ToolCall)
    → p ≤ q
    → keep (is_recent q) (keep (is_recent p) calls) ≡ keep (is_recent q) calls
keep-keep p q [] h = refl
keep-keep p q (c ∷ cs) h = ground (arith, keep-keep p q cs)

-- Trimming never changes what a window shows, as long as the window does not reach further back than
-- the trim.
pub window-trim :
    (now now' : Time) (s : SpanStore) (ns pod : Text) (age : Duration) (n : ℤ)
    → IsValid s
    → trim_limit now age ≤ cutoff now' n
    → window now' (trim now s age) ns pod n ≡ window now' s ns pod n
unfolding window trim calls_of
window-trim now now' s ns pod age n v h =
    ap (keep (is_recent (cutoff now' n))) (lookup-trim_records _ _ s.records v.distinct)
    ∙ keep-keep (trim_limit now age) (cutoff now' n) _ h

abbrev pub call_of : Text → Time → ToolCall
call_of tool ts = record { tool_name = tool; timestamp = ts }

calls_of-add_call :
    (s : SpanStore) (ns pod ns' pod' tool : Text) (ts : Time)
    → SlashFree ns
    → SlashFree ns'
    → calls_of (add_call s ns pod tool ts) ns' pod'
      ≡ calls_of s ns' pod'
        ++ (if text_eq ns ns' && text_eq pod pod' then call_of tool ts ∷ [] else [])
unfolding add_call calls_of
calls_of-add_call s ns pod ns' pod' tool ts h h' =
    rw (lookup-insert, text_eq-key ns ns' pod pod' h h')
      (go (Bool-cases (text_eq ns ns')) (Bool-cases (text_eq pod pod')))
  where
    old : Text → Text → List ToolCall
    old a b = or_nil (lookup (key a b) s.records)

    go :
        (text_eq ns ns' ≡ true) ⊎ (text_eq ns ns' ≡ false)
        → (text_eq pod pod' ≡ true) ⊎ (text_eq pod pod' ≡ false)
        → or_nil (
            if text_eq ns ns' && text_eq pod pod'
            then some (old ns pod ++ (call_of tool ts ∷ []))
            else lookup (key ns' pod') s.records)
          ≡ old ns' pod'
            ++ (if text_eq ns ns' && text_eq pod pod' then call_of tool ts ∷ [] else [])
    go (inl p) (inl q) = rw (p, q, text_eq→eq ns ns' p, text_eq→eq pod pod' q)
    go (inl p) (inr q) = rw (p, q, append-nil)
    go (inr p) q = rw (p, append-nil)

keep-if :
    (limit : Time) (b : Bool) (tool : Text) (ts : Time)
    → keep (is_recent limit) (if b then call_of tool ts ∷ [] else [])
      ≡ (if b && after ts limit then call_of tool ts ∷ [] else [])
keep-if limit true tool ts = refl
keep-if limit false tool ts = refl

pub window-add_call_from_cutoff :
    (now : Time) (s : SpanStore) (ns pod ns' pod' tool : Text) (ts : Time) (n : ℤ)
    → SlashFree ns
    → SlashFree ns'
    → window now (add_call s ns pod tool ts) ns' pod' n
      ≡ window now s ns' pod' n
        ++ (if (text_eq ns ns' && text_eq pod pod') && after ts (cutoff now n)
            then call_of tool ts ∷ []
            else [])
unfolding window
window-add_call_from_cutoff now s ns pod ns' pod' tool ts n h h' =
    let p = is_recent (cutoff now n) in
    ap (keep p) (calls_of-add_call s ns pod ns' pod' tool ts h h')
    ∙ keep-append p (calls_of s ns' pod') _
    ∙ ap (λ l. keep p (calls_of s ns' pod') ++ l) (keep-if (cutoff now n) _ tool ts)

-- A call is in the window of `k` seconds exactly when less than `k` seconds have passed since.
after-cutoff :
    (now ts : Time) (k : ℕ)
    → k ≤ 9_000_000_000
    → k * nano_per_second ≤ now
    → after ts (cutoff now (pos k)) ≡ ltb now (ts + k * nano_per_second)
unfolding cutoff add seconds ◌+ℤ◌ wrap64 ◌*ℤ◌
after-cutoff now ts zero h begun = ground arith
after-cutoff now ts (suc k) h begun = ground arith

-- After a recording, a window of `k` seconds shows the new call at its end if it is of the same pod
-- and less than `k` seconds have passed since its time, and is otherwise as before. (No namespace
-- holds a slash, and `k` is at most nine billion and so small that the window begins after the year
-- 0.)
pub window-add_call :
    (now : Time) (s : SpanStore) (ns pod ns' pod' tool : Text) (ts : Time) (k : ℕ)
    → SlashFree ns
    → SlashFree ns'
    → k ≤ 9_000_000_000
    → k * nano_per_second ≤ now
    → window now (add_call s ns pod tool ts) ns' pod' (pos k)
      ≡ window now s ns' pod' (pos k)
        ++ (if (text_eq ns ns' && text_eq pod pod') && ltb now (ts + k * nano_per_second)
            then call_of tool ts ∷ []
            else [])
window-add_call now s ns pod ns' pod' tool ts k h h' short begun =
    rw (← after-cutoff now ts k short begun)
      (window-add_call_from_cutoff now s ns pod ns' pod' tool ts (pos k) h h')

-- The age that the engine trims by.
abbrev pub ten_minutes : Duration
ten_minutes = pos (600 * nano_per_second)

above_limit : (now ts : Time) → trim_limit now ten_minutes < ts → now < ts + 600 * nano_per_second
unfolding trim_limit add ◌+ℤ◌ wrap64
above_limit now ts h = ground arith

trim_limit-le-cutoff :
    (now now' : Time) (k : ℕ)
    → k ≤ 600
    → now ≤ now'
    → trim_limit now ten_minutes ≤ cutoff now' (pos k)
unfolding trim_limit cutoff add seconds ◌+ℤ◌ wrap64 ◌*ℤ◌
trim_limit-le-cutoff now now' zero h later = ground arith
trim_limit-le-cutoff now now' (suc k) h later = ground arith

-- The engine's trim of ten minutes never changes what a later window of at most 600 seconds shows.
pub window-trim-ten_minutes :
    (now now' : Time) (s : SpanStore) (ns pod : Text) (k : ℕ)
    → IsValid s
    → k ≤ 600
    → now ≤ now'
    → window now' (trim now s ten_minutes) ns pod (pos k) ≡ window now' s ns pod (pos k)
window-trim-ten_minutes now now' s ns pod k v h later =
    window-trim now now' s ns pod ten_minutes (pos k) v (trim_limit-le-cutoff now now' k h later)

All-keep_of :
    (p q : Time) (calls : List ToolCall)
    → All (λ call. p < call.timestamp) (keep (is_recent q) (keep (is_recent p) calls))
All-keep_of p q [] = tt
All-keep_of p q (c ∷ cs) = ground (arith, All-keep_of p q cs)

below_limit :
    (now : Time) (calls : List ToolCall)
    → All (λ call. trim_limit now ten_minutes < call.timestamp) calls
    → All (λ call. now < call.timestamp + 600 * nano_per_second) calls
below_limit now [] h = tt
below_limit now (c ∷ cs) (first, rest) =
    (above_limit now c.timestamp first, below_limit now cs rest)

-- After the engine's trim no window, however long, shows a call of ten minutes before the trim or
-- earlier.
pub window-trim_recent :
    (now now' : Time) (s : SpanStore) (ns pod : Text) (n : ℤ)
    → IsValid s
    → All
        (λ call. now < call.timestamp + 600 * nano_per_second)
        (window now' (trim now s ten_minutes) ns pod n)
unfolding window trim calls_of
window-trim_recent now now' s ns pod n v =
    rw (lookup-trim_records (trim_limit now ten_minutes) (key ns pod) s.records v.distinct)
      (below_limit now _ (All-keep_of (trim_limit now ten_minutes) (cutoff now' n) _))
