-- ===== src/Receiver/Usage.antt =====
-- Which spans are billed, and for how many tokens.
use mathlib.Core.Bool.{true≢false}
use kovern.Prelude.{
  ◌≡◌, ◌↔◌, ◌∙◌, sym, refl, ap, true, none, some, List, [], ◌∷◌, ◌++◌, All, Bool-cases,
  Option-cases, inl, inr,
}
use kovern.Prelude.Int.{ℤ}
use kovern.Prelude.Text.{Text, text_eq}
use kovern.Float.{Float64}
use kovern.Receiver.Attributes.{KeyValue, number_of, attr_int64}

module _ {F : Type 0} ⦃f : Float64 F⦄ where
  -- No attribute of the name holds a number.
  abbrev pub HasNoNumber : Text → List (KeyValue F) → Type 0
  HasNoNumber key = All (λ a. text_eq a.name key ≡ true → number_of a.value ≡ none)

  -- The first attribute of the name that holds a number.
  pub record IsFirstNumber (key : Text) (attrs : List (KeyValue F)) (n : ℤ) : Type 0 where
    pub before : List (KeyValue F)
    pub attribute : KeyValue F
    pub after : List (KeyValue F)
    pub split : attrs ≡ before ++ (attribute ∷ after)
    pub named : text_eq attribute.name key ≡ true
    pub number : number_of attribute.value ≡ some n
    pub first : HasNoNumber key before

  first_later :
      (key : Text) (a : KeyValue F) (attrs : List (KeyValue F)) (n : ℤ)
      → (text_eq a.name key ≡ true → number_of a.value ≡ none)
      → IsFirstNumber key attrs n
      → IsFirstNumber key (a ∷ attrs) n
  first_later key a attrs n skipped i = record {
    before = a ∷ i.before;
    attribute = i.attribute;
    after = i.after;
    split = ap (λ l. a ∷ l) i.split;
    named = i.named;
    number = i.number;
    first = (skipped, i.first);
  }

  number_first :
      (key : Text) (attrs : List (KeyValue F)) (n : ℤ)
      → attr_int64 attrs key ≡ some n
      → IsFirstNumber key attrs n
  unfolding attr_int64
  number_first key [] n h = cc h
  number_first key (a ∷ attrs) n h = elim (Bool-cases (text_eq a.name key)) [
    | inr other ↦
        first_later key a attrs n (λ same. absurd (true≢false (sym same ∙ other)))
          (number_first key attrs n (rw other at h))
    | inl named ↦ elim (Option-cases (number_of a.value)) [
      | inl empty ↦
          first_later key a attrs n (λ _. empty) (number_first key attrs n (rw (named, empty) at h))
      | inr (m, e) ↦ record {
        before = [];
        attribute = a;
        after = attrs;
        split = refl;
        named = named;
        number = e ∙ (rw (named, e) at h);
        first = tt;
      }
    ]
  ]

  first_number :
      (key : Text) (before : List (KeyValue F)) (a : KeyValue F) (after : List (KeyValue F)) (n : ℤ)
      → HasNoNumber key before
      → text_eq a.name key ≡ true
      → number_of a.value ≡ some n
      → attr_int64 (before ++ (a ∷ after)) key ≡ some n
  unfolding attr_int64
  first_number key [] a after n none_before named number = rw (named, number) refl
  first_number key (b ∷ before) a after n (skipped, none_before) named number =
      elim (Bool-cases (text_eq b.name key)) [
        | inl same ↦
            rw (same, skipped same) (first_number key before a after n none_before named number)
        | inr other ↦ rw other (first_number key before a after n none_before named number)
      ]

  -- The value of a numeric attribute is that of the first attribute of its name that holds a number,
  -- which is an integer text, a double, or a text that reads as an integer.
  attr_int64_iff :
      (key : Text) (attrs : List (KeyValue F)) (n : ℤ)
      → (attr_int64 attrs key ≡ some n) ↔ IsFirstNumber key attrs n
  attr_int64_iff key attrs n = (
    number_first key attrs n,
    λ i. rw i.split (first_number key i.before i.attribute i.after n i.first i.named i.number),
  )
