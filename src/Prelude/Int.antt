-- ===== src/Prelude/Int.antt =====
-- Signed integers over the native numbers, under the library's names.
use Prim.Native.Nat.{ℕ, suc, ◌+◌, ◌-◌}
use mathlib.Core.Bool.{Bool, ◌&&◌}
use realm_mesh.Prelude.Tests.{leb, ◌==◌}

-- `negsuc n` is -(n + 1).
pub data ℤ : Type 0 where
  pos : ℕ → ℤ
  negsuc : ℕ → ℤ

abbrev pub pos_part : ℤ → ℕ
pos_part (pos n) = n
pos_part (negsuc n) = 0

abbrev pub neg_part : ℤ → ℕ
neg_part (pos n) = 0
neg_part (negsuc n) = suc n

-- |a - b|
abbrev pub distance : ℤ → ℤ → ℕ
distance a b =
    let p = pos_part a + neg_part b in let q = pos_part b + neg_part a in (p - q) + (q - p)

abbrev pub eq_ℤ : ℤ → ℤ → Bool
eq_ℤ a b = pos_part a == pos_part b && neg_part a == neg_part b

abbrev pub is_between : ℕ → ℕ → ℤ → Bool
is_between lo hi a = leb (lo + neg_part a) (pos_part a) && leb (pos_part a) hi
