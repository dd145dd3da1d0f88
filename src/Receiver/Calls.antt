-- ===== src/Receiver/Calls.antt =====
-- The tool calls of a pod that a request reports, and what a window shows of them.
use mathlib.Core.List.{append-nil, append_assoc}
use kovern.Prelude.{
  ℕ, suc, ◌≡◌, ◌∙◌, sym, refl, ap, Bool, ◌&&◌, All, List, [], ◌∷◌, ◌++◌, if◌then◌else◌, keep,
  keep-append, Bool-cases, inl, inr,
}
use kovern.Prelude.Int.{ℤ}
use kovern.Prelude.Text.{Text, text_eq, is_empty}
use kovern.Float.{Float64}
use kovern.Time.{Time}
use kovern.Ledger.Keys.{SlashFree}
use kovern.Spans.{ToolCall, SpanStore, window, is_recent, cutoff}
use kovern.Spans.Windows.{IsValid, add_call-IsValid, window-add_call_from_cutoff}
use kovern.Receiver.{Clock, recorded}
use kovern.Receiver.Attributes.{OtlpSpan, extract_tool_name, parse_nano}
use kovern.Receiver.Visits.{Visit, stored}

abbrev of_pod : {F : Type 0} → Text → Text → Visit F → Bool
of_pod ns pod v = text_eq v.namespace ns && text_eq v.pod pod

-- The call that a span reports, where it has a tool name.
abbrev call_in : {F : Type 0} → Time → OtlpSpan F → List ToolCall
call_in now span =
    if is_empty (extract_tool_name span)
    then []
    else record {
      tool_name = extract_tool_name span;
      timestamp = parse_nano now span.start_time_unix_nano;
    }
      ∷ []

module _ {F : Type 0} where
  abbrev pub NamesAreSlashFree : List (Visit F) → Type 0
  NamesAreSlashFree = All (λ v. SlashFree v.namespace)

  -- The calls that the spans from the n-th on report of a pod.
  abbrev pub reported : Clock → Text → Text → ℕ → List (Visit F) → List ToolCall
  reported clock ns pod n [] = []
  reported clock ns pod n (v ∷ vs) =
      let rest = reported clock ns pod (suc n) vs in
      (if of_pod ns pod v then call_in (clock.parsed_at n) v.span else []) ++ rest

module _ {F : Type 0} ⦃f : Float64 F⦄ where
  window-recorded :
      (now parsed : Time) (s : SpanStore) (v : Visit F) (ns pod : Text) (n : ℤ)
      → SlashFree v.namespace
      → SlashFree ns
      → window now (recorded parsed s v.namespace v.pod v.span) ns pod n
        ≡ window now s ns pod n
          ++ keep (is_recent (cutoff now n)) (if of_pod ns pod v then call_in parsed v.span else [])
  unfolding recorded
  window-recorded now parsed s v ns pod n h h' =
      let tool = extract_tool_name v.span in
      let ts = parse_nano parsed v.span.start_time_unix_nano in
      let same = Bool-cases (of_pod ns pod v) in
      elim (Bool-cases (is_empty tool)) [
        | inl unnamed ↦
            rw unnamed
              (elim same [ inl e ↦ rw e (sym (append-nil _)) | inr e ↦ rw e (sym (append-nil _)) ])
        | inr named ↦
            rw (named, window-add_call_from_cutoff now s v.namespace v.pod ns pod tool ts n h h')
              (elim same [ inl e ↦ rw e refl | inr e ↦ rw e refl ])
      ]

  -- After the spans of a request a window shows the calls that they report of its pod behind the
  -- ones that it showed, as far as they are recent.
  pub window-stored :
      (clock : Clock) (now : Time) (k : ℕ) (vs : List (Visit F)) (s : SpanStore) (ns pod : Text)
      (n : ℤ)
      → SlashFree ns
      → NamesAreSlashFree vs
      → window now (stored clock k vs s) ns pod n
        ≡ window now s ns pod n ++ keep (is_recent (cutoff now n)) (reported clock ns pod k vs)
  window-stored clock now k [] s ns pod n h _ = sym (append-nil _)
  window-stored clock now k (v ∷ vs) s ns pod n h (h', hs) =
      let recent = keep (is_recent (cutoff now n)) in
      let rest = reported clock ns pod (suc k) vs in
      let first = if of_pod ns pod v then call_in (clock.parsed_at k) v.span else [] in
      window-stored clock now (suc k) vs _ ns pod n h hs
      ∙ ap (λ l. l ++ recent rest) (window-recorded now (clock.parsed_at k) s v ns pod n h' h)
      ∙ append_assoc (window now s ns pod n) (recent first) (recent rest)
      ∙ ap (λ l. window now s ns pod n ++ l)
          (sym (keep-append (is_recent (cutoff now n)) first rest))

  recorded-IsValid :
      (now : Time) (s : SpanStore) (ns pod : Text) (span : OtlpSpan F)
      → IsValid s
      → IsValid (recorded now s ns pod span)
  unfolding recorded
  recorded-IsValid now s ns pod span v =
      let tool = extract_tool_name span in
      elim (Bool-cases (is_empty tool)) [
        | inl unnamed ↦ rw unnamed v
        | inr named ↦
            rw named (add_call-IsValid s ns pod tool (parse_nano now span.start_time_unix_nano) v)
      ]

  pub stored-IsValid :
      (clock : Clock) (k : ℕ) (vs : List (Visit F)) (s : SpanStore)
      → IsValid s
      → IsValid (stored clock k vs s)
  stored-IsValid clock k [] s valid = valid
  stored-IsValid clock k (v ∷ vs) s valid =
      stored-IsValid clock (suc k) vs _
        (recorded-IsValid (clock.parsed_at k) s v.namespace v.pod v.span valid)
