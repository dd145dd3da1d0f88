-- ===== src/Memory/Layouts.antt =====
-- What a stored structure stands for: a layout relates it to a value, through the cells of an
-- interval of addresses, which are all that it reaches.
use kovern.Prelude.{ℕ, ◌≤◌, ◌<◌, Option, none, some, List, [], ◌∷◌, ◌≡◌, sym, ◌∙◌, arith}
use kovern.Memory.{get_elem?, Slot}

-- Two memories with the same cells from `lo` up to `hi`.
abbrev pub Kept : {K : Type 0} → ℕ → ℕ → List K → List K → Type 0
Kept lo hi h h' = (p : ℕ) → lo ≤ p → p < hi → get_elem? h p ≡ get_elem? h' p

pub record Layout (K A V : Type 0) : Type 1 where
  pub holds : (lo hi : ℕ) → List K → A → V → Type 0
  pub keeps :
      (lo hi lo' hi' : ℕ) (h h' : List K) (a : A) (v : V)
      → lo' ≤ lo
      → hi ≤ hi'
      → Kept lo hi h h'
      → holds lo hi h a v
      → holds lo' hi' h' a v

module _ {K A : Type 0} where
  -- A value with no pointers.
  abbrev pub plain : Layout K A A
  plain = record { holds = λ lo hi h a v. a ≡ v; keeps = λ lo hi lo' hi' h h' a v _ _ _ e. e }

module _ {K A V S T : Type 0} where
  -- A field of a structure.
  abbrev pub field : Layout K A V → (S → A) → (T → V) → Layout K S T
  field l f g = record {
    holds = λ lo hi h s t. l.holds lo hi h (f s) (g t);
    keeps = λ lo hi lo' hi' h h' s t. l.keeps lo hi lo' hi' h h' (f s) (g t);
  }

module _ {K S T : Type 0} where
  -- Two parts of a structure.
  infixr 20 ◌&◌
  abbrev pub ◌&◌ : Layout K S T → Layout K S T → Layout K S T
  l & m = record {
    holds = λ lo hi h s t. l.holds lo hi h s t × m.holds lo hi h s t;
    keeps = λ lo hi lo' hi' h h' s t below above kept (x, y). (
      l.keeps lo hi lo' hi' h h' s t below above kept x,
      m.keeps lo hi lo' hi' h h' s t below above kept y,
    );
  }

module _ {K A V B W : Type 0} where
  abbrev pub pair : Layout K A V → Layout K B W → Layout K (A × B) (V × W)
  pair l m = field l (λ x. x.0) (λ t. t.0) & field m (λ x. x.1) (λ t. t.1)

module _ {K A V : Type 0} where
  abbrev pub AddressHolds : Slot K A → Layout K A V → ℕ → ℕ → List K → ℕ → V → Type 0
  AddressHolds s l lo hi h p v =
      (a : A) × (lo ≤ p) × (p < hi) × (get_elem? h p ≡ some (s.hold a)) × l.holds lo hi h a v

  pub AddressHolds-keeps :
      (s : Slot K A) (l : Layout K A V) (lo hi lo' hi' : ℕ) (h h' : List K) (p : ℕ) (v : V)
      → lo' ≤ lo
      → hi ≤ hi'
      → Kept lo hi h h'
      → AddressHolds s l lo hi h p v
      → AddressHolds s l lo' hi' h' p v
  AddressHolds-keeps s l lo hi lo' hi' h h' p v below above kept (a, from, to, found, rest) = (
    a,
    omega arith,
    omega arith,
    sym (kept p from to) ∙ found,
    l.keeps lo hi lo' hi' h h' a v below above kept rest,
  )

  -- A pointer to a cell.
  abbrev pub address : Slot K A → Layout K A V → Layout K ℕ V
  address s l = record { holds = AddressHolds s l; keeps = AddressHolds-keeps s l }

  abbrev pub ItemsHold : Layout K A V → ℕ → ℕ → List K → List A → List V → Type 0
  ItemsHold l lo hi h [] [] = Unit
  ItemsHold l lo hi h [] (v ∷ vs) = ⊥
  ItemsHold l lo hi h (a ∷ as') [] = ⊥
  ItemsHold l lo hi h (a ∷ as') (v ∷ vs) = l.holds lo hi h a v × ItemsHold l lo hi h as' vs

  pub ItemsHold-keeps :
      (l : Layout K A V) (lo hi lo' hi' : ℕ) (h h' : List K) (xs : List A) (vs : List V)
      → lo' ≤ lo
      → hi ≤ hi'
      → Kept lo hi h h'
      → ItemsHold l lo hi h xs vs
      → ItemsHold l lo' hi' h' xs vs
  ItemsHold-keeps l lo hi lo' hi' h h' [] [] below above kept x = tt
  ItemsHold-keeps l lo hi lo' hi' h h' [] (v ∷ vs) below above kept x = absurd x
  ItemsHold-keeps l lo hi lo' hi' h h' (a ∷ as') [] below above kept x = absurd x
  ItemsHold-keeps l lo hi lo' hi' h h' (a ∷ as') (v ∷ vs) below above kept (x, xs) = (
    l.keeps lo hi lo' hi' h h' a v below above kept x,
    ItemsHold-keeps l lo hi lo' hi' h h' as' vs below above kept xs,
  )

  -- The elements of an array.
  abbrev pub items : Layout K A V → Layout K (List A) (List V)
  items l = record { holds = ItemsHold l; keeps = ItemsHold-keeps l }

  abbrev pub OptionHolds : Layout K A V → ℕ → ℕ → List K → Option A → Option V → Type 0
  OptionHolds l lo hi h none none = Unit
  OptionHolds l lo hi h none (some v) = ⊥
  OptionHolds l lo hi h (some a) none = ⊥
  OptionHolds l lo hi h (some a) (some v) = l.holds lo hi h a v

  pub OptionHolds-keeps :
      (l : Layout K A V) (lo hi lo' hi' : ℕ) (h h' : List K) (a : Option A) (v : Option V)
      → lo' ≤ lo
      → hi ≤ hi'
      → Kept lo hi h h'
      → OptionHolds l lo hi h a v
      → OptionHolds l lo' hi' h' a v
  OptionHolds-keeps l lo hi lo' hi' h h' none none below above kept x = tt
  OptionHolds-keeps l lo hi lo' hi' h h' none (some v) below above kept x = absurd x
  OptionHolds-keeps l lo hi lo' hi' h h' (some a) none below above kept x = absurd x
  OptionHolds-keeps l lo hi lo' hi' h h' (some a) (some v) below above kept x =
      l.keeps lo hi lo' hi' h h' a v below above kept x

  -- A pointer that may be nil.
  abbrev pub optional : Layout K A V → Layout K (Option A) (Option V)
  optional l = record { holds = OptionHolds l; keeps = OptionHolds-keeps l }

  abbrev pub SliceHolds : Layout K A (List V) → ℕ → ℕ → List K → Option A → List V → Type 0
  SliceHolds l lo hi h none [] = Unit
  SliceHolds l lo hi h none (v ∷ vs) = ⊥
  SliceHolds l lo hi h (some a) vs = l.holds lo hi h a vs

  pub SliceHolds-keeps :
      (l : Layout K A (List V)) (lo hi lo' hi' : ℕ) (h h' : List K) (a : Option A) (vs : List V)
      → lo' ≤ lo
      → hi ≤ hi'
      → Kept lo hi h h'
      → SliceHolds l lo hi h a vs
      → SliceHolds l lo' hi' h' a vs
  SliceHolds-keeps l lo hi lo' hi' h h' none [] below above kept x = tt
  SliceHolds-keeps l lo hi lo' hi' h h' none (v ∷ vs) below above kept x = absurd x
  SliceHolds-keeps l lo hi lo' hi' h h' (some a) vs below above kept x =
      l.keeps lo hi lo' hi' h h' a vs below above kept x

  -- A slice, which is nil or refers to its array. Its spare capacity plays no part in a copy.
  abbrev pub slice : Layout K A (List V) → Layout K (Option A) (List V)
  slice l = record { holds = SliceHolds l; keeps = SliceHolds-keeps l }
