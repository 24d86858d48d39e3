-- ===== src/Go/Integer.antt =====
-- Go's int where a value below zero is possible.
use deploy_os.Base.{ℕ, Bool, true, false}
use Prim.Native.Nat.{zero, suc}

pub data ℤ : Type 0 where
  pos : ℕ → ℤ
  -- `negsuc n` is -1 - n
  negsuc : ℕ → ℤ

-- 0 < n
abbrev pub is_positive : ℤ → Bool
is_positive (pos zero) = false
is_positive (pos (suc n)) = true
is_positive (negsuc n) = false
