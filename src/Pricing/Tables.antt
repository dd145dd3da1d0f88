-- ===== src/Pricing/Tables.antt =====
-- The sorted table of prices: `resort` and `Set`.
use mathlib.Core.List.{Memᴰ}
use mathlib.Core.List.Memᴰ.{head, tail}
use kovern.Prelude.{
  ◌≤◌, ◌≡◌, refl, ap, true, false, Option, none, some, List, [], ◌∷◌, All, arith, if◌then◌else◌,
  Bool-cases, inl, inr, ◌⊎◌,
}
use kovern.Prelude.Text.{Text, text_eq, text_eq→eq, len}
use kovern.Pricing.{PriceEntry, ModelPrice, comes_before, place, resort}

module _ {F : Type 0} where
  -- Longer patterns stand first.
  abbrev pub IsSorted : List (PriceEntry F) → Type 0
  IsSorted [] = Unit
  IsSorted (a ∷ es) = All (λ b. len b.pattern ≤ len a.pattern) es × IsSorted es

  -- The price of the first entry with the pattern.
  abbrev pub price_of : Text → List (PriceEntry F) → Option (ModelPrice F)
  price_of q [] = none
  price_of q (e ∷ es) = if text_eq e.pattern q then some e.price else price_of q es

  All-place :
      (P : PriceEntry F → Type 0) (a : PriceEntry F) (es : List (PriceEntry F))
      → P a
      → All P es
      → All P (place a es)
  unfolding place
  All-place P a [] h all = (h, tt)
  All-place P a (b ∷ bs) h (first, rest) = elim (Bool-cases (comes_before b a)) [
    | inl e ↦ rw e (first, All-place P a bs h rest)
    | inr e ↦ rw e (h, (first, rest))
  ]

  pub All-resort :
      (P : PriceEntry F → Type 0) (es : List (PriceEntry F)) → All P es → All P (resort es)
  unfolding resort
  All-resort P [] all = tt
  All-resort P (a ∷ es) (first, rest) = All-place P a (resort es) first (All-resort P es rest)

  All-le :
      (a b : PriceEntry F) (es : List (PriceEntry F))
      → len b.pattern ≤ len a.pattern
      → All (λ x. len x.pattern ≤ len b.pattern) es
      → All (λ x. len x.pattern ≤ len a.pattern) es
  All-le a b [] h all = tt
  All-le a b (x ∷ es) h (first, rest) = (omega (arith, h, first), All-le a b es h rest)

  place-IsSorted :
      (a : PriceEntry F) (es : List (PriceEntry F)) → IsSorted es → IsSorted (place a es)
  unfolding place
  place-IsSorted a [] s = (tt, tt)
  place-IsSorted a (b ∷ bs) (above, s) = elim (Bool-cases (comes_before b a)) [
    | inl e ↦ rw e (
      All-place (λ x. len x.pattern ≤ len b.pattern) a bs (ground arith) above,
      place-IsSorted a bs s,
    )
    | inr e ↦
        let le : len b.pattern ≤ len a.pattern = ground arith in
        rw e ((le, All-le a b bs le above), (above, s))
  ]

  pub resort-IsSorted : (es : List (PriceEntry F)) → IsSorted (resort es)
  unfolding resort
  resort-IsSorted [] = tt
  resort-IsSorted (a ∷ es) = place-IsSorted a (resort es) (resort-IsSorted es)

  -- Sorting keeps the members of the table.
  place-mem :
      (x a : PriceEntry F) (es : List (PriceEntry F)) → Memᴰ x (place a es) → Memᴰ x (a ∷ es)
  unfolding place
  place-mem x a [] m = m
  place-mem x a (b ∷ bs) m = elim (Bool-cases (comes_before b a)) [
    | inl e ↦ elim (rw e at m) [
      | head same ↦ tail (head same)
      | tail m' ↦ elim (place-mem x a bs m') [ head same ↦ head same | tail m'' ↦ tail (tail m'') ]
    ]
    | inr e ↦ rw e at m
  ]

  mem-place :
      (x a : PriceEntry F) (es : List (PriceEntry F)) → Memᴰ x (a ∷ es) → Memᴰ x (place a es)
  unfolding place
  mem-place x a [] m = m
  mem-place x a (b ∷ bs) m = elim (Bool-cases (comes_before b a)) [
    | inl e ↦ rw e (elim m [
      | head same ↦ tail (mem-place x a bs (head same))
      | tail (head same) ↦ head same
      | tail (tail m') ↦ tail (mem-place x a bs (tail m'))
    ])
    | inr e ↦ rw e m
  ]

  pub resort-mem : (x : PriceEntry F) (es : List (PriceEntry F)) → Memᴰ x (resort es) → Memᴰ x es
  unfolding resort
  resort-mem x [] m = m
  resort-mem x (a ∷ es) m = elim (place-mem x a (resort es) m) [
    | head same ↦ head same
    | tail m' ↦ tail (resort-mem x es m')
  ]

  pub mem-resort : (x : PriceEntry F) (es : List (PriceEntry F)) → Memᴰ x es → Memᴰ x (resort es)
  unfolding resort
  mem-resort x [] m = m
  mem-resort x (a ∷ es) (head same) = mem-place x a (resort es) (head same)
  mem-resort x (a ∷ es) (tail m) = mem-place x a (resort es) (tail (mem-resort x es m))

  -- A stable sort keeps the first entry of each pattern.
  price_of-place :
      (q : Text) (a : PriceEntry F) (es : List (PriceEntry F))
      → price_of q (place a es) ≡ price_of q (a ∷ es)
  unfolding place
  price_of-place q a [] = refl
  price_of-place q a (b ∷ bs) = elim (Bool-cases (comes_before b a)) [
    | inl e ↦ rw e (rw (price_of-place q a bs) (later (Bool-cases _) (Bool-cases _) e))
    | inr e ↦ rw e
  ]
    where
      later :
          (text_eq a.pattern q ≡ true) ⊎ (text_eq a.pattern q ≡ false)
          → (text_eq b.pattern q ≡ true) ⊎ (text_eq b.pattern q ≡ false)
          → comes_before b a ≡ true
          → (if text_eq b.pattern q then some b.price else price_of q (a ∷ bs))
            ≡ price_of q (a ∷ b ∷ bs)
      later (inl same) (inl same') e =
          let eq = ap len (text_eq→eq a.pattern q same) in
          let eq' = ap len (text_eq→eq b.pattern q same') in ground arith
      later (inr differ) other e = rw differ
      later (inl same) (inr differ) e = rw (differ, same)

  pub price_of-resort :
      (q : Text) (es : List (PriceEntry F)) → price_of q (resort es) ≡ price_of q es
  unfolding resort
  price_of-resort q [] = refl
  price_of-resort q (a ∷ es) = rw (price_of-place q a (resort es), price_of-resort q es)
