-- ===== src/Base/Int.antt =====
-- C++ `int` values, as far as the code compares them with zero and with one another.
use smithproxy.Base.{ℕ, suc, ◌+◌, ◌≤◌, ◌≡◌, ap, Bool, true, ltb, leb, ◌==◌, arith}

-- `negsuc n` is -(n + 1).
pub data ℤ : Type 0 where
  pos : ℕ → ℤ
  negsuc : ℕ → ℤ

abbrev pub pos_part : ℤ → ℕ
pos_part (pos n) = n
pos_part (negsuc n) = 0

abbrev pub neg_part : ℤ → ℕ
neg_part (pos n) = 0
neg_part (negsuc n) = suc n

abbrev pub minus_one : ℤ
minus_one = negsuc 0

infix 50 ◌≤ℤ◌
abbrev pub ◌≤ℤ◌ : ℤ → ℤ → Type 0
a ≤ℤ b = pos_part a + neg_part b ≤ pos_part b + neg_part a

abbrev pub ltb_ℤ : ℤ → ℤ → Bool
ltb_ℤ a b = ltb (pos_part a + neg_part b) (pos_part b + neg_part a)

abbrev pub leb_ℤ : ℤ → ℤ → Bool
leb_ℤ a b = leb (pos_part a + neg_part b) (pos_part b + neg_part a)

abbrev pub eqb_ℤ : ℤ → ℤ → Bool
eqb_ℤ a b = (pos_part a + neg_part b) == (pos_part b + neg_part a)

pub eqb_ℤ_pos : (a : ℤ) (n : ℕ) → eqb_ℤ a (pos n) ≡ true → a ≡ pos n
eqb_ℤ_pos (pos k) n h = ap pos (ground arith)
eqb_ℤ_pos (negsuc k) n h = absurd (ground arith)
