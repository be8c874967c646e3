-- ===== src/Base/Int.antt =====
-- Go's signed integers, whose values the source only compares and prints.
use Prim.Native.Nat.{ℕ, zero, suc, ◌/◌, ◌%◌, compare, Ordering}
use Prim.Native.String.{String}
use Prim.Native.String
use mathlib.Core.Bool.{Bool, true, false}

-- `negsuc n` is -(n + 1).
pub data ℤ : Type 0 where
  pos : ℕ → ℤ
  negsuc : ℕ → ℤ

-- `a <= b`.
abbrev pub ◌≤?◌ : ℤ → ℤ → Bool
◌≤?◌ (pos a) (pos b) = elim (compare a b) [ Ordering.gt ↦ false | _ ↦ true ]
◌≤?◌ (pos a) (negsuc b) = false
◌≤?◌ (negsuc a) (pos b) = true
◌≤?◌ (negsuc a) (negsuc b) = elim (compare b a) [ Ordering.gt ↦ false | _ ↦ true ]

infix 50 ◌≤?◌
abbrev pub is_zero : ℤ → Bool
is_zero (pos zero) = true
is_zero (pos (suc n)) = false
is_zero (negsuc n) = false

digit : ℕ → String
digit zero = "0"
digit (suc zero) = "1"
digit (suc (suc zero)) = "2"
digit (suc (suc (suc zero))) = "3"
digit (suc (suc (suc (suc zero)))) = "4"
digit (suc (suc (suc (suc (suc zero))))) = "5"
digit (suc (suc (suc (suc (suc (suc zero)))))) = "6"
digit (suc (suc (suc (suc (suc (suc (suc zero))))))) = "7"
digit (suc (suc (suc (suc (suc (suc (suc (suc zero)))))))) = "8"
digit _ = "9"

-- A number has fewer digits than `suc n`.
digits : ℕ → ℕ → String
unfolding digit
digits zero n = ""
digits (suc fuel) n = elim (n / 10) [
  | zero ↦ digit n
  | suc _ ↦ String.◌++◌ (digits fuel (n / 10)) (digit (n % 10))
]

-- `%d`.
unfoldable pub decimal : ℤ → String
unfolding digits
decimal (pos n) = digits (suc n) n
decimal (negsuc n) = String.◌++◌ "-" (digits (suc (suc n)) (suc n))
