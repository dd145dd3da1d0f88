-- ===== src/Memory/Copies.antt =====
-- When a routine makes deep copies, and how such routines compose.
use kovern.Prelude.{
  ℕ, zero, suc, ◌≤◌, ◌<◌, none, some, List, [], ◌∷◌, ◌++◌, ◌≡◌, refl, ◌∙◌, length, length-append,
  arith,
}
use kovern.Memory.{get_elem?, Run, pure, Slot, load, alloc, copy_pointer, if_set, copy_items}
use kovern.Memory.Layouts.{Kept, Layout, plain, pair, address, optional, slice, items}

-- Only new cells are added.
pub record Extends {K : Type 0} (h h' : List K) : Type 0 where
  pub grows : length h ≤ length h'
  pub kept : Kept 0 (length h) h h'

module _ {K : Type 0} where
  Extends-refl : (h : List K) → Extends h h
  Extends-refl h = record { grows = omega arith; kept = λ p _ _. refl }

  pub Extends-trans : {h h' h'' : List K} → Extends h h' → Extends h' h'' → Extends h h''
  Extends-trans e f = record {
    grows = let a = e.grows in let b = f.grows in omega arith;
    kept = λ p from to. let a = e.grows in e.kept p from to ∙ f.kept p (omega arith) (omega arith);
  }

  get_elem?-append_left :
      (h ks : List K) (p : ℕ) → p < length h → get_elem? h p ≡ get_elem? (h ++ ks) p
  get_elem?-append_left [] ks p below = absurd (omega arith)
  get_elem?-append_left (k ∷ h) ks zero below = refl
  get_elem?-append_left (k ∷ h) ks (suc p) below = get_elem?-append_left h ks p (omega arith)

  get_elem?-append_end : (h : List K) (k : K) → get_elem? (h ++ k ∷ []) (length h) ≡ some k
  get_elem?-append_end [] k = refl
  get_elem?-append_end (x ∷ h) k = get_elem?-append_end h k

  Extends-append : (h ks : List K) → Extends h (h ++ ks)
  Extends-append h ks = record {
    grows = omega (arith, length-append h ks);
    kept = λ p _ below. get_elem?-append_left h ks p below;
  }

module _ {K A V : Type 0} where
  -- A copy, made in the memory `h`, that stands for `v` and reaches new cells only.
  pub record Copied (l : Layout K A V) (h : List K) (v : V) : Type 0 where
    pub copy : A
    pub after : List K
    pub extends : Extends h after
    pub fresh : l.holds (length h) (length after) after copy v

  -- A routine makes a deep copy of whatever stands for a value, and returns it.
  abbrev pub Copies : Layout K A V → (A → Run K A) → Type 0
  Copies l f =
      (h : List K) (a : A) (v : V)
      → l.holds 0 (length h) h a v
      → (c : Copied l h v) × (f a h ≡ some (c.copy, c.after))

  -- What an older memory holds, a newer one does.
  pub held :
      (l : Layout K A V) {h h' : List K} (lo : ℕ) (a : A) (v : V)
      → Extends h h'
      → l.holds lo (length h) h a v
      → l.holds lo (length h') h' a v
  held l {h} {h'} lo a v e x =
      l.keeps lo (length h) lo (length h') h h' a v (omega arith) e.grows
        (λ p from to. e.kept p (omega arith) to) x

  -- What reaches new cells only does so from the view of an older memory.
  pub since :
      (l : Layout K A V) {h h' : List K} (hi : ℕ) (m : List K) (a : A) (v : V)
      → Extends h h'
      → l.holds (length h') hi m a v
      → l.holds (length h) hi m a v
  since l {h} {h'} hi m a v e x =
      l.keeps (length h') hi (length h) hi m m a v e.grows (omega arith) (λ p _ _. refl) x

module _ {K A V B W : Type 0} (l : Layout K A V) (m : Layout K B W) where
  -- The second of two copies, after the first.
  pub next :
      (g : B → Run K B)
      → Copies m g
      → {h : List K} {v : V} (b : B) (w : W) (c : Copied l h v) → m.holds 0 (length h) h b w
      → (d : Copied m c.after w) × (g b c.after ≡ some (d.copy, d.after))
  next g copies b w c x = copies c.after b w (held m 0 b w c.extends x)

  -- Two copies, one after the other, as one.
  abbrev pub joined :
      {h : List K} {v : V} {w : W} (c : Copied l h v)
      → Copied m c.after w
      → Copied (pair l m) h (v, w)
  joined {h} {v} {w} c d = record {
    copy = (c.copy, d.copy);
    after = d.after;
    extends = Extends-trans c.extends d.extends;
    fresh = (
      held l (length h) c.copy v d.extends c.fresh,
      since m (length d.after) d.after d.copy w c.extends d.fresh,
    );
  }

module _ {K A : Type 0} where
  pub pure-Copies : Copies (plain {K = K}) (pure {A = A})
  pure-Copies h a v e = (record { copy = a; after = h; extends = Extends-refl h; fresh = e }, refl)

  load-held :
      (s : Slot K A) (h : List K) (p : ℕ) (a : A)
      → get_elem? h p ≡ some (s.hold a)
      → load s p h ≡ some (a, h)
  unfolding load
  load-held s h p a found = rw (found, s.read-hold a)

module _ {K A V : Type 0} where
  pub copy_pointer-Copies :
      (s : Slot K A) (l : Layout K A V) (into : A → Run K A)
      → Copies l into
      → Copies (address s l) (copy_pointer s into)
  unfolding copy_pointer alloc
  copy_pointer-Copies s l into copies h p v (a, from, to, found, rest) =
      let (c, made) = copies h a v rest in
      let more = Extends-append c.after (s.hold c.copy ∷ []) in
      let grows = c.extends.grows in
      let r : Copied (address s l) h v = record {
        copy = length c.after;
        after = c.after ++ s.hold c.copy ∷ [];
        extends = Extends-trans c.extends more;
        fresh = (
          c.copy,
          grows,
          omega (arith, length-append c.after (s.hold c.copy ∷ [])),
          get_elem?-append_end c.after (s.hold c.copy),
          held l (length h) c.copy v more c.fresh,
        );
      } in
      (r, rw (load-held s h p a found, made))

  pub if_set-Copies :
      (l : Layout K A V) (f : A → Run K A) → Copies l f → Copies (optional l) (if_set f)
  unfolding if_set
  if_set-Copies l f copies h none none x =
      (record { copy = none; after = h; extends = Extends-refl h; fresh = tt }, refl)
  if_set-Copies l f copies h none (some v) x = absurd x
  if_set-Copies l f copies h (some a) none x = absurd x
  if_set-Copies l f copies h (some a) (some v) x =
      let (c, made) = copies h a v x in
      (
        record { copy = some c.copy; after = c.after; extends = c.extends; fresh = c.fresh },
        rw made,
      )

  pub if_set-Copies-slice :
      (l : Layout K A (List V)) (f : A → Run K A) → Copies l f → Copies (slice l) (if_set f)
  unfolding if_set
  if_set-Copies-slice l f copies h none [] x =
      (record { copy = none; after = h; extends = Extends-refl h; fresh = tt }, refl)
  if_set-Copies-slice l f copies h none (v ∷ vs) x = absurd x
  if_set-Copies-slice l f copies h (some a) vs x =
      let (c, made) = copies h a vs x in
      (
        record { copy = some c.copy; after = c.after; extends = c.extends; fresh = c.fresh },
        rw made,
      )

  pub copy_items-Copies :
      (l : Layout K A V) (into : A → Run K A) → Copies l into → Copies (items l) (copy_items into)
  unfolding copy_items
  copy_items-Copies l into copies h [] [] x =
      (record { copy = []; after = h; extends = Extends-refl h; fresh = tt }, refl)
  copy_items-Copies l into copies h [] (v ∷ vs) x = absurd x
  copy_items-Copies l into copies h (a ∷ as') [] x = absurd x
  copy_items-Copies l into copies h (a ∷ as') (v ∷ vs) (x, xs) =
      let (c, made) = copies h a v x in
      let (d, rest_made) =
        copy_items-Copies l into copies c.after as' vs (held (items l) 0 as' vs c.extends xs) in
      let cd = joined l (items l) c d in
      (
        record { copy = c.copy ∷ d.copy; after = d.after; extends = cd.extends; fresh = cd.fresh },
        rw (made, rest_made),
      )
