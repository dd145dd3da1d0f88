-- ===== src/Memory.antt =====
-- Memory as Go's pointers see it, for the deep copies of api/v1alpha1: cells at addresses, which
-- `new` and `make` add at the end. A read of an address with no such cell is a fault, `none`.
pub mod Layouts
pub mod Copies
pub mod Writes
use mathlib.Core.Option
use kovern.Prelude.{ℕ, zero, suc, List, [], ◌∷◌, ◌++◌, Option, none, some, ◌≡◌, length}

module _ {K : Type 0} where
  abbrev pub get_elem? : List K → ℕ → Option K
  get_elem? [] p = none
  get_elem? (k ∷ ks) zero = some k
  get_elem? (k ∷ ks) (suc p) = get_elem? ks p

  abbrev pub set : List K → ℕ → K → List K
  set [] p k' = []
  set (k ∷ ks) zero k' = k' ∷ ks
  set (k ∷ ks) (suc p) k' = k ∷ set ks p k'

  -- Assignments through pointers, in order.
  unfoldable pub write_all : List (ℕ × K) → List K → List K
  write_all [] h = h
  write_all ((p, k) ∷ ws) h = write_all ws (set h p k)

abbrev pub Run : Type 0 → Type 0 → Type 0
Run K A = List K → Option (A × List K)

module _ {K A : Type 0} where
  abbrev pub pure : A → Run K A
  pure a h = some (a, h)

module _ {K A B : Type 0} where
  abbrev pub and_then : Option (A × List K) → (A → Run K B) → Option (B × List K)
  and_then none f = none
  and_then (some (a, h)) f = f a h

  infixl 5 ◌>>=◌
  abbrev pub ◌>>=◌ : Run K A → (A → Run K B) → Run K B
  (m >>= f) h = and_then (m h) f

-- How cells hold the values of one type.
pub record Slot (K A : Type 0) : Type 0 where
  pub hold : A → K
  pub read : K → Option A
  pub read-hold : (a : A) → read (hold a) ≡ some a

module _ {K A : Type 0} where
  abbrev pub read_cell : Slot K A → Option K → List K → Option (A × List K)
  read_cell s none h = none
  read_cell s (some k) h = Option.map (λ a. (a, h)) (s.read k)

  unfoldable pub load : Slot K A → ℕ → Run K A
  load s p h = read_cell s (get_elem? h p) h

  -- `new`, with the value that the new cell is given.
  unfoldable pub alloc : Slot K A → A → Run K ℕ
  alloc s a h = some (length h, h ++ s.hold a ∷ [])

  -- A copy of what a pointer refers to, in a cell of its own. The cell is taken once its value is
  -- made; Go takes it before, which no reader can tell.
  unfoldable pub copy_pointer : Slot K A → (A → Run K A) → ℕ → Run K ℕ
  copy_pointer s into p = do a ← load s p; a' ← into a; alloc s a'

  -- `if in != nil { ... }`
  unfoldable pub if_set : (A → Run K A) → Option A → Run K (Option A)
  if_set copy none = pure none
  if_set copy (some a) = do a' ← copy a; pure (some a')

  -- `for i := range *in { (*in)[i].DeepCopyInto(&(*out)[i]) }`
  unfoldable pub copy_items : (A → Run K A) → List A → Run K (List A)
  copy_items into [] = pure []
  copy_items into (a ∷ as') = do a' ← into a; rest ← copy_items into as'; pure (a' ∷ rest)
