-- ===== src/Float/Fixed.antt =====
-- An arithmetic that meets the laws: integers that count millionths, with products and quotients
-- cut off towards zero. Texts are read and printed as whole numbers.
use kovern.Prelude.{
  ℕ, zero, suc, ◌+◌, ◌*◌, ◌/◌, ◌%◌, ◌^◌, ◌≤◌, ◌<◌, ◌≡◌, refl, sym, ap, true, [], ◌∷◌, ◌++◌, arith,
  ltb, leb→le, le→leb, if◌then◌else◌,
}
use kovern.Prelude.Int.{
  ℤ, pos, negsuc, pos_part, neg_part, ◌+ℤ◌, ◌*ℤ◌, ◌≤ℤ◌, ltb_ℤ, leb_ℤ, sub_ℕ, sub_ℕ_parts,
  eq_of_parts,
}
use kovern.Prelude.Text.{Text, parse_int}
use native.Mathlib.Nat.{
  le-div_iff_mul-le, div-mul-le_self, le_trans, le_refl, zero-lt-suc, zero-div, div-zero,
  mul-le-mul_right, mul_comm, mul-div_cancel,
}
use kovern.Float.{Float64, IsIeee}

abbrev pub Fixed : Type 0
Fixed = ℤ

abbrev scale : ℕ
scale = 1_000_000

-- The integer -n.
negate : ℕ → ℤ
negate zero = pos 0
negate (suc n) = negsuc n

negate_parts : (n : ℕ) → (pos_part (negate n) ≡ 0) × (neg_part (negate n) ≡ n)
unfolding negate
negate_parts zero = (refl, refl)
negate_parts (suc n) = (refl, refl)

-- Division of an integer by a natural number, towards zero.
div_ℕ : ℤ → ℕ → ℤ
unfolding negate
div_ℕ (pos a) n = pos (a / n)
div_ℕ (negsuc a) n = negate (suc a / n)

neg : ℤ → ℤ
neg a = sub_ℕ (neg_part a) (pos_part a)

unfoldable pub quotient : ℤ → ℤ → ℤ
unfolding div_ℕ neg negate
quotient a (pos n) = div_ℕ a n
quotient a (negsuc n) = neg (div_ℕ a (suc n))

unfoldable pub times : ℤ → ℕ → ℤ
unfolding negate
times (pos a) n = pos (a * n)
times (negsuc a) n = negate (suc a * n)

-- Decimal digits, least significant first, on fuel.
digits : ℕ → ℕ → Text
digits zero n = []
digits (suc f) n =
    let rest = digits f (n / 10) in if ltb n 10 then (48 + n) ∷ [] else rest ++ ((48 + n % 10) ∷ [])

unfoldable pub print : ℤ → Text
unfolding digits
print (pos n) = digits 40 n
print (negsuc n) = b'-' ∷ digits 40 (suc n)

instance abbrev pub fixed_float : Float64 Fixed
fixed_float = record {
  zero = pos 0;
  add = ◌+ℤ◌;
  mul = λ a b. quotient (a *ℤ b) (pos scale);
  div = λ a b. quotient (times a scale) b;
  le = leb_ℤ;
  lt = ltb_ℤ;
  of_int = λ n. times n scale;
  to_int = λ a. quotient a (pos scale);
  literal = λ m k. pos (m * scale / 10 ^ k);
  parse = λ s. parse_int s;
  format6 = print;
}

div_mono_ℕ : (a b n : ℕ) → a ≤ b → a / n ≤ b / n
div_mono_ℕ a b zero h = rw (div-zero a, div-zero b) (le_refl 0)
div_mono_ℕ a b (suc n) h =
    (le-div_iff_mul-le (zero-lt-suc n)).1 (le_trans (div-mul-le_self a (suc n)) h)

div_ℕ_parts :
    (a : ℤ) (n : ℕ)
    → (pos_part (div_ℕ a n) ≡ pos_part a / n) × (neg_part (div_ℕ a n) ≡ neg_part a / n)
unfolding div_ℕ
div_ℕ_parts (pos a) n = (refl, sym (zero-div n))
div_ℕ_parts (negsuc a) n = rw (zero-div n) (negate_parts (suc a / n))

times_parts :
    (a : ℤ) (n : ℕ)
    → (pos_part (times a n) ≡ pos_part a * n) × (neg_part (times a n) ≡ neg_part a * n)
unfolding times
times_parts (pos a) n = (refl, omega arith)
times_parts (negsuc a) n = let (p, q) = negate_parts (suc a * n) in (omega arith, q)

-- A monotone function of both parts is monotone.
mono_of_parts :
    (f : ℕ → ℕ) (a b : ℤ) (fa fb : ℤ)
    → ((m n : ℕ) → m ≤ n → f m ≤ f n)
    → (pos_part fa ≡ f (pos_part a)) × (neg_part fa ≡ f (neg_part a))
    → (pos_part fb ≡ f (pos_part b)) × (neg_part fb ≡ f (neg_part b))
    → a ≤ℤ b
    → fa ≤ℤ fb
mono_of_parts f (pos a) (pos b) fa fb mono ha hb h = omega (arith, mono a b)
mono_of_parts f (pos a) (negsuc b) fa fb mono ha hb h = absurd (omega arith)
mono_of_parts f (negsuc a) (pos b) fa fb mono ha hb h =
    omega (arith, mono 0 b (omega arith), mono 0 (suc a) (omega arith))
mono_of_parts f (negsuc a) (negsuc b) fa fb mono ha hb h = omega (arith, mono (suc b) (suc a))

div_ℕ_mono : (a b : ℤ) (n : ℕ) → a ≤ℤ b → div_ℕ a n ≤ℤ div_ℕ b n
div_ℕ_mono a b n =
    mono_of_parts (λ m. m / n) a b _ _ (λ k l. div_mono_ℕ k l n) (div_ℕ_parts a n) (div_ℕ_parts b n)

times_mono : (a b : ℤ) (n : ℕ) → a ≤ℤ b → times a n ≤ℤ times b n
times_mono a b n =
    mono_of_parts (λ m. m * n) a b _ _ (λ k l h. mul-le-mul_right n h) (times_parts a n)
      (times_parts b n)

*ℤ_pos : (a : ℤ) (n : ℕ) → a *ℤ pos n ≡ times a n
unfolding ◌*ℤ◌
*ℤ_pos a n = eq_of_parts (a *ℤ pos n) (times a n) (
    omega (
      arith,
      times_parts a n,
      sub_ℕ_parts (pos_part a * n + neg_part a * 0) (pos_part a * 0 + neg_part a * n),
    ))

by_le : (x y : ℤ) → x ≤ℤ y → leb_ℤ x y ≡ true
by_le x y h = le→leb _ _ h

to_le : (x y : ℤ) → leb_ℤ x y ≡ true → x ≤ℤ y
to_le x y h = leb→le _ _ h

div_of_int_mono :
    (x y : ℤ) (n : ℕ)
    → x ≤ℤ y
    → quotient (times x scale) (times (pos n) scale)
      ≤ℤ quotient (times y scale) (times (pos n) scale)
unfolding quotient times
div_of_int_mono x y n h = div_ℕ_mono _ _ (n * scale) (times_mono x y scale h)

mul_of_int_mono :
    (x y : ℤ) (n : ℕ)
    → x ≤ℤ y
    → quotient (x *ℤ pos (n * scale)) (pos scale) ≤ℤ quotient (y *ℤ pos (n * scale)) (pos scale)
unfolding quotient
mul_of_int_mono x y n h =
    rw (*ℤ_pos x (n * scale), *ℤ_pos y (n * scale))
      (div_ℕ_mono (times x (n * scale)) (times y (n * scale)) scale (times_mono x y (n * scale) h))

mul-div_scale : (m : ℕ) → 0 < m → m * scale * scale / (m * scale) ≡ scale
mul-div_scale m h = rw (mul_comm (m * scale) scale) (mul-div_cancel scale (omega arith))

ratio_one_lem :
    (m n : ℕ)
    → 0 < m
    → quotient (quotient (pos (m * scale * scale)) (pos (m * scale)) *ℤ pos (n * scale)) (pos scale)
      ≡ pos (n * scale)
unfolding quotient div_ℕ times
ratio_one_lem m n h =
    rw (*ℤ_pos (pos (m * scale * scale / (m * scale))) (n * scale), mul-div_scale m h)
      (ap pos (omega arith))

zero_div_lem : (n : ℕ) → 0 < n → quotient (times (pos 0) scale) (times (pos n) scale) ≡ pos 0
unfolding quotient div_ℕ times
zero_div_lem n h = ap pos (zero-div (n * scale))

pub mul_pos_ge : (x : ℤ) (n : ℕ) → pos 0 ≤ℤ x → pos 0 ≤ℤ quotient (x *ℤ pos n) (pos scale)
unfolding quotient times
mul_pos_ge (pos x) n h = rw (*ℤ_pos (pos x) n, div_ℕ) (omega arith)
mul_pos_ge (negsuc x) n h = absurd (omega (arith, h))

pub Fixed-IsIeee : IsIeee Fixed
unfolding times ◌+ℤ◌
Fixed-IsIeee = record {
  num_of_le = λ x y h. (le→leb _ _ (omega arith), le→leb _ _ (omega arith));
  le_trans = λ x y z p q. by_le x z (omega (arith, to_le x y p, to_le y z q));
  le_total = λ x y _ _. ground arith;
  lt-eq-not-le = λ x y _ _. ground arith;
  zero-of_int = refl;
  of_int_mono = λ m n h. by_le (times m scale) (times n scale) (times_mono m n scale h);
  of_int_pos = λ n h. ground arith;
  add_ge = λ x y p q. ground arith;
  div_mono = λ x y n _ h. le→leb _ _ (div_of_int_mono x y n (to_le x y h));
  mul_mono = λ x y n _ h. le→leb _ _ (mul_of_int_mono x y n (to_le x y h));
  zero_div = zero_div_lem;
  mul_literal = λ x m k _ _ _ h. by_le (pos 0) _ (mul_pos_ge x _ (to_le (pos 0) x h));
  ratio_one = ratio_one_lem;
}
