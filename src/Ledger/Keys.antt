-- ===== src/Ledger/Keys.antt =====
-- Keys of the ledger: the name of a Kubernetes namespace holds no slash, and then a key names one
-- pair of a namespace and a service account.
use kovern.Prelude.{
  ◌≡◌, refl, Bool, true, false, ◌&&◌, [], ◌∷◌, arith, ◌==◌, inl, inr, ◌⊎◌, Bool-cases,
  if◌then◌else◌,
}
use kovern.Prelude.Text.{Text, text_eq, text_eq→eq}
use kovern.Ledger.{key}

abbrev pub has_slash : Text → Bool
has_slash [] = false
has_slash (c ∷ s) = if c == b'/' then true else has_slash s

-- A namespace's name, as Kubernetes admits it.
abbrev pub SlashFree : Text → Type 0
SlashFree ns = has_slash ns ≡ false

-- Keys of slash-free namespaces are equal exactly when both their parts are.
pub text_eq-key :
    (ns ns' sa sa' : Text)
    → SlashFree ns
    → SlashFree ns'
    → text_eq (key ns sa) (key ns' sa') ≡ (text_eq ns ns' && text_eq sa sa')
unfolding key text_eq
text_eq-key [] [] sa sa' h h' = refl
text_eq-key [] (d ∷ t) sa sa' h h' = ground arith
text_eq-key (c ∷ s) [] sa sa' h h' = ground arith
text_eq-key (c ∷ s) (d ∷ t) sa sa' h h' = ground (arith, text_eq-key s t sa sa')

-- A value found under an equal key is the one found under the pair.
pub if_key {ℓ κ} :
    {A : Type ℓ} {B : Type κ} (found : Text → Text → A) (g : A → B) (other : B)
    (ns ns' sa sa' : Text)
    → SlashFree ns
    → SlashFree ns'
    → (if text_eq (key ns sa) (key ns' sa') then g (found ns sa) else other)
      ≡ (if text_eq ns ns' && text_eq sa sa' then g (found ns' sa') else other)
if_key found g other ns ns' sa sa' h h' =
    rw (text_eq-key ns ns' sa sa' h h')
      (go (Bool-cases (text_eq ns ns')) (Bool-cases (text_eq sa sa')))
  where
    go :
        (text_eq ns ns' ≡ true) ⊎ (text_eq ns ns' ≡ false)
        → (text_eq sa sa' ≡ true) ⊎ (text_eq sa sa' ≡ false)
        → (if text_eq ns ns' && text_eq sa sa' then g (found ns sa) else other)
          ≡ (if text_eq ns ns' && text_eq sa sa' then g (found ns' sa') else other)
    go (inl p) (inl q) = rw (text_eq→eq ns ns' p, text_eq→eq sa sa' q) refl
    go (inl p) (inr q) = rw (p, q)
    go (inr p) q = rw p
