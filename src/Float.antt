-- ===== src/Float.antt =====
-- Go's `float64`, as the program uses it: a type of values with the operations that the code calls,
-- among them `strconv.ParseFloat(s, 64)` and `strconv.FormatFloat(x, 'f', 6, 64)`. The laws are those
-- of IEEE 754 arithmetic with rounding that respects the order, NaN and the infinities included.
pub mod Fixed
pub mod Extended
use kovern.Prelude.{ℕ, ◌≤◌, ◌<◌, ◌≡◌, Bool, true, not, ◌⊎◌, Option}
use kovern.Prelude.Int.{ℤ, pos, ◌≤ℤ◌}
use kovern.Prelude.Text.{Text}

pub record Float64 (F : Type 0) : Type 0 where
  pub zero : F
  pub add : F → F → F
  pub mul : F → F → F
  pub div : F → F → F
  -- `a <= b` and `a < b`, false where either is NaN.
  pub le : F → F → Bool
  pub lt : F → F → Bool
  -- `float64(n)`, of the nearest `int64` where `n` is none, so that it is finite, and `int64(x)`.
  pub of_int : ℤ → F
  pub to_int : F → ℤ
  -- The constant `m / 10^k` of a source text.
  pub literal : ℕ → ℕ → F
  -- `none` is a syntax or range error.
  pub parse : Text → Option F
  pub format6 : F → Text

infix 4 ◌≼◌
abbrev pub ◌≼◌ : {F : Type 0} ⦃f : Float64 F⦄ → F → F → Type 0
◌≼◌ ⦃f⦄ x y = f.le x y ≡ true

-- A value that is not NaN is `<=` itself.
abbrev pub IsNum : {F : Type 0} ⦃f : Float64 F⦄ → F → Type 0
IsNum x = x ≼ x

pub record IsIeee (F : Type 0) ⦃f : Float64 F⦄ : Type 0 where
  pub num_of_le : (x y : F) → x ≼ y → IsNum x × IsNum y
  pub le_trans : (x y z : F) → x ≼ y → y ≼ z → x ≼ z
  pub le_total : (x y : F) → IsNum x → IsNum y → (x ≼ y) ⊎ (y ≼ x)
  pub lt-eq-not-le : (x y : F) → IsNum x → IsNum y → f.lt x y ≡ not (f.le y x)
  pub zero-of_int : f.of_int (pos 0) ≡ f.zero
  pub of_int_mono : (m n : ℤ) → m ≤ℤ n → f.of_int m ≼ f.of_int n
  -- `float64` of a whole number from 1 on is above zero.
  pub of_int_pos : (n : ℕ) → 0 < n → f.le (f.of_int (pos n)) f.zero ≡ not true
  -- Adding something that is not negative to something that is not negative loses nothing.
  pub add_ge : (x y : F) → f.zero ≼ x → f.zero ≼ y → x ≼ f.add x y
  -- Division by a positive whole number, and multiplication by a positive one, keep the order. (At 0
  -- they do not: the product of an infinity and 0 is NaN.)
  pub div_mono :
      (x y : F) (n : ℕ) → 0 < n → x ≼ y → f.div x (f.of_int (pos n)) ≼ f.div y (f.of_int (pos n))
  pub mul_mono :
      (x y : F) (n : ℕ) → 0 < n → x ≼ y → f.mul x (f.of_int (pos n)) ≼ f.mul y (f.of_int (pos n))
  pub zero_div : (n : ℕ) → 0 < n → f.div f.zero (f.of_int (pos n)) ≡ f.zero
  -- A positive constant of at most 1000 with at most 22 decimals is finite and above zero, and the
  -- product with it is not negative.
  pub mul_literal :
      (x : F) (m k : ℕ) → 0 < m → m ≤ 1000 → k ≤ 22 → f.zero ≼ x → f.zero ≼ f.mul x (f.literal m k)
  -- A positive whole number over itself is exactly 1, and 1 * n is n.
  pub ratio_one :
      (m n : ℕ)
      → 0 < m
      → f.mul (f.div (f.of_int (pos m)) (f.of_int (pos m))) (f.of_int (pos n)) ≡ f.of_int (pos n)
