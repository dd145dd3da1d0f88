-- ===== src/Float/Extended.antt =====
-- An arithmetic with infinities and NaN that meets the laws: the fixed-point numbers with three more
-- values. Products and quotients of infinities follow IEEE 754: 0 times an infinity is NaN.
use mathlib.Core.Bool.{false≢true}
use kovern.Prelude.{
  ℕ, ◌*◌, ◌/◌, ◌^◌, ◌<◌, ◌≡◌, refl, Bool, true, false, not, ◌&&◌, ◌||◌, Option, none, some, arith,
  ltb, ◌==◌, if◌then◌else◌, ap, ◌⊎◌, leb→le, le→leb,
}
use kovern.Prelude.Int.{ℤ, pos, negsuc, leb_ℤ}
use kovern.Prelude.Text.{Text, codes}
use kovern.Float.{Float64, IsIeee}
use kovern.Float.Fixed.{Fixed, fixed_float, Fixed-IsIeee, times, mul_pos_ge}

pub data Extended : Type 0 where
  nan minus_infinity infinity : Extended
  finite : Fixed → Extended

abbrev is_num : Extended → Bool
is_num nan = false
is_num _ = true

abbrev rank : Extended → ℕ
rank (finite a) = 1
rank infinity = 2
rank _ = 0

abbrev value : Extended → ℤ
value (finite a) = a
value _ = pos 0

abbrev le : Extended → Extended → Bool
le x y =
    (is_num x && is_num y)
    && (ltb (rank x) (rank y) || ((rank x == rank y) && leb_ℤ (value x) (value y)))

abbrev lt : Extended → Extended → Bool
lt x y = (is_num x && is_num y) && not (le y x)

abbrev opposite : Extended → Extended
opposite infinity = minus_infinity
opposite minus_infinity = infinity
opposite x = x

-- An infinity times a number: of the number's sign, and NaN for 0.
abbrev signed : ℤ → Extended
signed (pos n) = if ltb 0 n then infinity else nan
signed (negsuc n) = minus_infinity

abbrev add : Extended → Extended → Extended
add nan y = nan
add (finite a) (finite b) = finite (fixed_float.add a b)
add (finite a) y = y
add infinity nan = nan
add infinity minus_infinity = nan
add infinity y = infinity
add minus_infinity nan = nan
add minus_infinity infinity = nan
add minus_infinity y = minus_infinity

abbrev mul : Extended → Extended → Extended
mul nan y = nan
mul (finite a) nan = nan
mul (finite a) infinity = signed a
mul (finite a) minus_infinity = opposite (signed a)
mul (finite a) (finite b) = finite (fixed_float.mul a b)
mul infinity nan = nan
mul infinity infinity = infinity
mul infinity minus_infinity = minus_infinity
mul infinity (finite b) = signed b
mul minus_infinity nan = nan
mul minus_infinity infinity = minus_infinity
mul minus_infinity minus_infinity = infinity
mul minus_infinity (finite b) = opposite (signed b)

-- A number over a natural number of millionths; over 0 it is NaN or an infinity.
abbrev over : ℤ → ℤ → Extended
over a (pos n) = if ltb 0 n then finite (fixed_float.div a (pos n)) else signed a
over a (negsuc n) = finite (fixed_float.div a (negsuc n))

abbrev div : Extended → Extended → Extended
div nan y = nan
div (finite a) nan = nan
div (finite a) (finite b) = over a b
div (finite a) y = finite (pos 0)
div infinity (finite (pos n)) = infinity
div infinity (finite (negsuc n)) = minus_infinity
div infinity y = nan
div minus_infinity (finite (pos n)) = minus_infinity
div minus_infinity (finite (negsuc n)) = infinity
div minus_infinity y = nan

abbrev parsed : Option Fixed → Option Extended
parsed none = none
parsed (some a) = some (finite a)

abbrev print : Extended → Text
print nan = codes "NaN"
print infinity = codes "+Inf"
print minus_infinity = codes "-Inf"
print (finite a) = fixed_float.format6 a

abbrev at_least_one : ℕ → ℕ
at_least_one n = if ltb 0 n then n else 1

instance abbrev extended_float : Float64 Extended
extended_float = record {
  zero = finite (pos 0);
  add = add;
  mul = mul;
  div = div;
  le = le;
  lt = lt;
  of_int = λ n. finite (times n 1_000_000);
  to_int = λ x. fixed_float.to_int (value x);
  literal = λ m k. finite (pos (at_least_one (m * 1_000_000 / 10 ^ k)));
  parse = λ s. parsed (fixed_float.parse s);
  format6 = print;
}

-- 0 times an infinity is NaN, which no value is comparable to.
zero_times_infinity : mul infinity (extended_float.of_int (pos 0)) ≡ nan
unfolding times
zero_times_infinity = refl

positive : (n : ℕ) → 0 < n → ltb 0 (n * 1_000_000) ≡ true
positive n h = ground arith

num_of_le_lem : (x y : Extended) → le x y ≡ true → (le x x ≡ true) × (le y y ≡ true)
num_of_le_lem x y h = (ground arith, ground arith)

le_trans_lem : (x y z : Extended) → le x y ≡ true → le y z ≡ true → le x z ≡ true
le_trans_lem x y z p q = ground arith

le_total_lem : (x y : Extended) → le x x ≡ true → le y y ≡ true → (le x y ≡ true) ⊎ (le y x ≡ true)
le_total_lem x y p q = ground arith

lt_lem : (x y : Extended) → le x x ≡ true → le y y ≡ true → lt x y ≡ not (le y x)
lt_lem x y p q = ground arith

add_ge_lem :
    (x y : Extended)
    → le (finite (pos 0)) x ≡ true
    → le (finite (pos 0)) y ≡ true
    → le x (add x y) ≡ true
add_ge_lem nan y p q = absurd (false≢true p)
add_ge_lem minus_infinity y p q = absurd (false≢true p)
add_ge_lem infinity nan p q = absurd (false≢true q)
add_ge_lem infinity minus_infinity p q = absurd (false≢true q)
add_ge_lem infinity infinity p q = refl
add_ge_lem infinity (finite b) p q = refl
add_ge_lem (finite a) nan p q = absurd (false≢true q)
add_ge_lem (finite a) minus_infinity p q = absurd (false≢true q)
add_ge_lem (finite a) infinity p q = refl
add_ge_lem (finite a) (finite b) p q = Fixed-IsIeee.add_ge a b p q

-- A function of infinities and finite values that keeps their order, and nothing else, is monotone.
mono_lem :
    (g : Extended → Extended) (h : ℤ → ℤ)
    → g minus_infinity ≡ minus_infinity
    → g infinity ≡ infinity
    → ((a : ℤ) → g (finite a) ≡ finite (h a))
    → ((a b : ℤ) → leb_ℤ a b ≡ true → leb_ℤ (h a) (h b) ≡ true)
    → (x y : Extended) → le x y ≡ true
    → le (g x) (g y) ≡ true
mono_lem g h below above inside mono nan y le_xy = absurd (false≢true le_xy)
mono_lem g h below above inside mono minus_infinity nan le_xy = absurd (false≢true le_xy)
mono_lem g h below above inside mono minus_infinity minus_infinity le_xy = rw below refl
mono_lem g h below above inside mono minus_infinity infinity le_xy = rw (below, above) refl
mono_lem g h below above inside mono minus_infinity (finite b) le_xy = rw (below, inside b) refl
mono_lem g h below above inside mono infinity nan le_xy = absurd (false≢true le_xy)
mono_lem g h below above inside mono infinity minus_infinity le_xy = absurd (false≢true le_xy)
mono_lem g h below above inside mono infinity infinity le_xy = rw above refl
mono_lem g h below above inside mono infinity (finite b) le_xy = absurd (false≢true le_xy)
mono_lem g h below above inside mono (finite a) nan le_xy = absurd (false≢true le_xy)
mono_lem g h below above inside mono (finite a) minus_infinity le_xy = absurd (false≢true le_xy)
mono_lem g h below above inside mono (finite a) infinity le_xy = rw (inside a, above) refl
mono_lem g h below above inside mono (finite a) (finite b) le_xy =
    rw (inside a, inside b) (mono a b le_xy)

div_mono_lem :
    (x y : Extended) (n : ℕ)
    → 0 < n
    → le x y ≡ true
    → le (div x (finite (times (pos n) 1_000_000))) (div y (finite (times (pos n) 1_000_000)))
      ≡ true
unfolding times
div_mono_lem x y n above le_xy =
    mono_lem (λ x. div x (finite (pos (n * 1_000_000))))
      (λ a. fixed_float.div a (pos (n * 1_000_000))) refl refl (λ a. rw (positive n above) refl)
      (λ a b. Fixed-IsIeee.div_mono a b n above) x y le_xy

mul_mono_lem :
    (x y : Extended) (n : ℕ)
    → 0 < n
    → le x y ≡ true
    → le (mul x (finite (times (pos n) 1_000_000))) (mul y (finite (times (pos n) 1_000_000)))
      ≡ true
unfolding times
mul_mono_lem x y n above le_xy =
    mono_lem (λ x. mul x (finite (pos (n * 1_000_000))))
      (λ a. fixed_float.mul a (pos (n * 1_000_000))) (rw (positive n above) refl)
      (rw (positive n above) refl) (λ a. refl) (λ a b. Fixed-IsIeee.mul_mono a b n above) x y le_xy

zero_div_lem :
    (n : ℕ) → 0 < n → div (finite (pos 0)) (finite (times (pos n) 1_000_000)) ≡ finite (pos 0)
unfolding times
zero_div_lem n above = rw (positive n above) (ap finite (Fixed-IsIeee.zero_div n above))

at_least_one_positive : (n : ℕ) → ltb 0 (at_least_one n) ≡ true
at_least_one_positive n = ground arith

mul_literal_lem :
    (x : Extended) (n : ℕ)
    → ltb 0 n ≡ true
    → le (finite (pos 0)) x ≡ true
    → le (finite (pos 0)) (mul x (finite (pos n))) ≡ true
mul_literal_lem nan n above h = absurd (false≢true h)
mul_literal_lem minus_infinity n above h = absurd (false≢true h)
mul_literal_lem infinity n above h = rw above refl
mul_literal_lem (finite a) n above h = le→leb _ _ (mul_pos_ge a n (leb→le _ _ h))

ratio_one_lem :
    (m n : ℕ)
    → 0 < m
    → mul
        (div (finite (times (pos m) 1_000_000)) (finite (times (pos m) 1_000_000)))
        (finite (times (pos n) 1_000_000))
      ≡ finite (times (pos n) 1_000_000)
unfolding times
ratio_one_lem m n above = rw (positive m above) (ap finite (Fixed-IsIeee.ratio_one m n above))

Extended-IsIeee : IsIeee Extended
Extended-IsIeee = record {
  num_of_le = num_of_le_lem;
  le_trans = le_trans_lem;
  le_total = le_total_lem;
  lt-eq-not-le = lt_lem;
  zero-of_int = ap finite Fixed-IsIeee.zero-of_int;
  of_int_mono = λ m n. Fixed-IsIeee.of_int_mono m n;
  of_int_pos = λ n. Fixed-IsIeee.of_int_pos n;
  add_ge = add_ge_lem;
  div_mono = div_mono_lem;
  mul_mono = mul_mono_lem;
  zero_div = zero_div_lem;
  mul_literal =
      λ x m k _ _ _ h. mul_literal_lem x _ (at_least_one_positive (m * 1_000_000 / 10 ^ k)) h;
  ratio_one = ratio_one_lem;
}
