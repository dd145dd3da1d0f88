-- ===== src/Prelude/Dict.antt =====
-- Go's `map[string]V` as an association list without repeated keys: a write replaces the value in
-- place or adds an entry at the end.
use kovern.Prelude.{
  ◌≡◌, refl, Option, none, some, List, [], ◌∷◌, inl, inr, arith, if◌then◌else◌, Bool-cases,
}
use kovern.Prelude.Text.{Text, text_eq, text_eq_refl, text_eq_sym, text_eq→eq}

abbrev pub Dict {ℓ} : Type ℓ → Type ℓ
Dict V = List (Text × V)

module _ {ℓ} {V : Type ℓ} where
  unfoldable pub lookup : Text → Dict V → Option V
  lookup k [] = none
  lookup k ((j, v) ∷ m) = if text_eq j k then some v else lookup k m

  unfoldable pub insert : Text → V → Dict V → Dict V
  insert k v [] = (k, v) ∷ []
  insert k v ((j, w) ∷ m) = if text_eq j k then (k, v) ∷ m else (j, w) ∷ insert k v m

  unfoldable pub delete : Text → Dict V → Dict V
  delete k [] = []
  delete k ((j, w) ∷ m) = if text_eq j k then delete k m else (j, w) ∷ delete k m

  pub lookup-insert :
      (k j : Text) (v : V) (m : Dict V)
      → lookup j (insert k v m) ≡ (if text_eq k j then some v else lookup j m)
  unfolding lookup insert
  lookup-insert k j v [] = refl
  lookup-insert k j v ((i, w) ∷ m) = elim (Bool-cases (text_eq i k)) [
    | inl e ↦ rw (text_eq→eq i k e) (rw (text_eq_refl k) (ground arith))
    | inr e ↦ rw e (
        rw (lookup-insert k j v m) (ground (arith, text_eq→eq i j, text_eq→eq k j, text_eq_refl k)))
  ]

  pub lookup-delete :
      (k j : Text) (m : Dict V) → lookup j (delete k m) ≡ (if text_eq k j then none else lookup j m)
  unfolding lookup delete
  lookup-delete k j [] = ground arith
  lookup-delete k j ((i, w) ∷ m) = elim (Bool-cases (text_eq i k)) [
    | inl e ↦ rw (e, lookup-delete k j m, text_eq→eq i k e) (ground arith)
    | inr e ↦
        rw e (
          rw (lookup-delete k j m) (ground (arith, text_eq→eq i j, text_eq→eq k j, text_eq_refl k)))
  ]

  -- The last write to a key is the one that stays.
  pub insert-insert : (k : Text) (v w : V) (m : Dict V) → insert k v (insert k w m) ≡ insert k v m
  unfolding insert
  insert-insert k v w [] = rw (text_eq_refl k)
  insert-insert k v w ((i, x) ∷ m) = elim (Bool-cases (text_eq i k)) [
    | inl e ↦ rw e (rw (text_eq_refl k))
    | inr e ↦ rw e (rw e (rw (insert-insert k v w m)))
  ]

  pub lookup-insert_self : (k : Text) (v : V) (m : Dict V) → lookup k (insert k v m) ≡ some v
  lookup-insert_self k v m = rw (lookup-insert, text_eq_refl k)

  -- No key stands twice.
  abbrev pub Distinct : Dict V → Type ℓ
  Distinct [] = Unit
  Distinct ((k, v) ∷ m) = (lookup k m ≡ none) × Distinct m

  pub insert-Distinct : (k : Text) (v : V) (m : Dict V) → Distinct m → Distinct (insert k v m)
  unfolding insert lookup
  insert-Distinct k v [] d = (refl, tt)
  insert-Distinct k v ((i, w) ∷ m) (absent, d) = elim (Bool-cases (text_eq i k)) [
    | inl e ↦ rw e (rw (← text_eq→eq i k e) absent, d)
    | inr e ↦ rw e (rw (lookup-insert k i v m, text_eq_sym k i, e) absent, insert-Distinct k v m d)
  ]

  lookup-delete_absent :
      (k j : Text) (m : Dict V) → lookup j m ≡ none → lookup j (delete k m) ≡ none
  lookup-delete_absent k j m absent = rw (lookup-delete k j m, absent) (ground arith)

  pub delete-Distinct : (k : Text) (m : Dict V) → Distinct m → Distinct (delete k m)
  unfolding delete
  delete-Distinct k [] d = tt
  delete-Distinct k ((i, w) ∷ m) (absent, d) = elim (Bool-cases (text_eq i k)) [
    | inl e ↦ rw e (delete-Distinct k m d)
    | inr e ↦ rw e (lookup-delete_absent k i m absent, delete-Distinct k m d)
  ]
