-- ===== src/Memory/Writes.antt =====
-- Assignments through pointers, and what they leave alone.
use kovern.Prelude.{ℕ, zero, suc, ◌≤◌, ◌<◌, ◌≢◌, List, [], ◌∷◌, ◌≡◌, refl, ◌∙◌, length, All, arith}
use kovern.Memory.{get_elem?, set, write_all}
use kovern.Memory.Layouts.{Kept, Layout}
use kovern.Memory.Copies.{Copied}

module _ {K : Type 0} where
  get_elem?-set_other :
      (h : List K) (p q : ℕ) (k : K) → p ≢ q → get_elem? h p ≡ get_elem? (set h q k) p
  get_elem?-set_other [] p q k ne = refl
  get_elem?-set_other (x ∷ h) zero zero k ne = absurd (ne refl)
  get_elem?-set_other (x ∷ h) zero (suc q) k ne = refl
  get_elem?-set_other (x ∷ h) (suc p) zero k ne = refl
  get_elem?-set_other (x ∷ h) (suc p) (suc q) k ne = get_elem?-set_other h p q k (omega (arith, ne))

  -- Assignments to other cells.
  abbrev pub Outside : ℕ → ℕ → List (ℕ × K) → Type 0
  Outside lo hi ws = All (λ w. (p : ℕ) → lo ≤ p → p < hi → p ≢ w.0) ws

  pub write_all-Kept :
      (lo hi : ℕ) (ws : List (ℕ × K)) (h : List K)
      → Outside lo hi ws
      → Kept lo hi h (write_all ws h)
  unfolding write_all
  write_all-Kept lo hi [] h _ = λ p _ _. refl
  write_all-Kept lo hi ((q, k) ∷ ws) h (other, others) = λ p from to.
      get_elem?-set_other h p q k (other p from to)
      ∙ write_all-Kept lo hi ws (set h q k) others p from to

  -- Assignments to the cells of the memory `h`, and to cells that it does not have.
  abbrev pub Older : List K → List (ℕ × K) → Type 0
  Older h ws = All (λ w. w.0 < length h) ws

  abbrev pub Newer : List K → List (ℕ × K) → Type 0
  Newer h ws = All (λ w. length h ≤ w.0) ws

  Older-Outside : (h : List K) (hi : ℕ) (ws : List (ℕ × K)) → Older h ws → Outside (length h) hi ws
  Older-Outside h hi [] _ = tt
  Older-Outside h hi ((q, k) ∷ ws) (old, olds) =
      (λ p from _ e. omega (arith, e), Older-Outside h hi ws olds)

  Newer-Outside : (h : List K) (ws : List (ℕ × K)) → Newer h ws → Outside 0 (length h) ws
  Newer-Outside h [] _ = tt
  Newer-Outside h ((q, k) ∷ ws) (new, news) =
      (λ p _ to e. omega (arith, e), Newer-Outside h ws news)

module _ {K A V : Type 0} (l : Layout K A V) where
  -- A copy that was made in the memory `h`, and its original: whatever is assigned to the cells that
  -- `h` had, the copy stands for the value, and whatever is assigned to others, the original does.
  pub record Apart (h : List K) (ws vs : List (ℕ × K)) (a b : A) (h' : List K) (v : V)
      : Type 0 where
    pub copied : l.holds (length h) (length h') (write_all ws h') b v
    pub original : l.holds 0 (length h) (write_all vs h') a v

  pub Copied-Apart :
      (h : List K) (ws vs : List (ℕ × K)) (a : A) (v : V) (c : Copied l h v)
      → l.holds 0 (length h) h a v
      → Older h ws
      → Newer h vs
      → Apart h ws vs a c.copy c.after v
  Copied-Apart h ws vs a v c x old new = record {
    copied =
        l.keeps (length h) (length c.after) (length h) (length c.after) c.after
          (write_all ws c.after) c.copy v (omega arith) (omega arith)
          (write_all-Kept (length h) (length c.after) ws c.after
            (Older-Outside h (length c.after) ws old))
          c.fresh;
    original =
        l.keeps 0 (length h) 0 (length h) h (write_all vs c.after) a v (omega arith) (omega arith)
          (λ p from to.
            c.extends.kept p from to
            ∙ write_all-Kept 0 (length h) vs c.after (Newer-Outside h vs new) p from to)
          x;
  }
