-- ===== src/Receiver/Attributes.antt =====
-- internal/otelreceiver/receiver.go: the OTLP JSON types, and the reading of span attributes.
use kovern.Prelude.{Option, none, some, List, [], ◌∷◌, if◌then◌else◌}
use kovern.Prelude.Int.{ℤ}
use kovern.Prelude.Text.{Text, codes, text_eq, is_empty, parse_int}
use kovern.Float.{Float64}
use kovern.Time.{Time, unix}

pub record AnyValue (F : Type 0) : Type 0 where
  pub string_value : Option Text
  pub int_value : Option Text
  pub double_value : Option F

pub record KeyValue (F : Type 0) : Type 0 where
  pub name : Text
  pub value : AnyValue F

pub record OtlpSpan (F : Type 0) : Type 0 where
  pub name : Text
  pub start_time_unix_nano : Text
  pub attributes : List (KeyValue F)

pub record ScopeSpans (F : Type 0) : Type 0 where
  pub spans : List (OtlpSpan F)

pub record ResourceSpans (F : Type 0) : Type 0 where
  pub resource_attributes : List (KeyValue F)
  pub scope_spans : List (ScopeSpans F)

pub record TraceRequest (F : Type 0) : Type 0 where
  pub resource_spans : List (ResourceSpans F)

abbrev or_else : Text → Text → Text
or_else v other = if is_empty v then other else v

abbrev pub first_some {ℓ} : {A : Type ℓ} → Option A → Option A → Option A
first_some none o = o
first_some (some x) o = some x

module _ {F : Type 0} where
  unfoldable pub attr_str : List (KeyValue F) → Text → Text
  attr_str [] key = []
  attr_str (a ∷ attrs) key =
      let rest = attr_str attrs key in
      if text_eq a.name key then elim a.value.string_value [ some s ↦ s | none ↦ rest ] else rest

  unfoldable pub extract_tool_name : OtlpSpan F → Text
  extract_tool_name span =
      or_else (attr_str span.attributes (codes "gen_ai.tool.name"))
        (or_else (attr_str span.attributes (codes "tool.name")) span.name)

-- `strconv.ParseInt` of an optional text.
abbrev parsed : Option Text → Option ℤ
parsed none = none
parsed (some s) = parse_int s

abbrev start_or : Time → Option ℤ → Time
start_or now none = now
start_or now (some ns) = unix ns

-- `parseNano`; the empty text does not parse.
unfoldable pub parse_nano : Time → Text → Time
unfolding parse_int
parse_nano now s = start_or now (parse_int s)

module _ {F : Type 0} ⦃f : Float64 F⦄ where
  abbrev truncated : Option F → Option ℤ
  truncated none = none
  truncated (some x) = some (f.to_int x)

  -- The number that one attribute holds.
  unfoldable pub number_of : AnyValue F → Option ℤ
  number_of v =
      first_some (parsed v.int_value)
        (first_some (truncated v.double_value) (parsed v.string_value))

  -- `attrInt64`; `none` stands for (0, false).
  unfoldable pub attr_int64 : List (KeyValue F) → Text → Option ℤ
  attr_int64 [] key = none
  attr_int64 (a ∷ attrs) key =
      let rest = attr_int64 attrs key in
      if text_eq a.name key then first_some (number_of a.value) rest else rest
