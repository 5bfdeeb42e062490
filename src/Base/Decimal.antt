-- ===== src/Base/Decimal.antt =====
-- A number as `{}` prints it: its decimal digits, no sign and no leading zero.
use Prim.Native.Nat.{◌/◌, ◌%◌, ◌*◌}
use contract_conformance_tes.Base.{
  ℕ, zero, suc, ◌+◌, ◌-◌, ◌≤◌, ◌<◌, ◌≡◌, leb, if◌then◌else◌, [], ◌∷◌, All, Text, arith,
}

-- The digits in front of `out`, the last one first. Each round divides by ten, so that a fuel
-- above the number is enough.
unfoldable pub digits : ℕ → ℕ → Text → Text
digits zero n out = out
digits (suc fuel) n out =
    let more = digits fuel (n / 10) ((b'0' + n % 10) ∷ out) in
    if leb n 9 then (b'0' + n) ∷ out else more

unfoldable pub decimal : ℕ → Text
decimal n = digits (suc n) n []

-- The number that digits stand for, behind a number that was read already.
abbrev pub value_from : ℕ → Text → ℕ
value_from n [] = n
value_from n (b ∷ s) = value_from (n * 10 + (b - b'0')) s

abbrev pub IsDigit : ℕ → Type 0
IsDigit b = (b'0' ≤ b) × (b ≤ b'9')

value_from-digits :
    (fuel n : ℕ) (out : Text) → n < fuel → value_from 0 (digits fuel n out) ≡ value_from n out
unfolding digits
value_from-digits zero n out h = absurd (omega arith)
value_from-digits (suc fuel) n out h =
    ground (arith, value_from-digits fuel (n / 10) ((b'0' + n % 10) ∷ out))

-- The digits of a number stand for it.
pub value_from-decimal : (n : ℕ) → value_from 0 (decimal n) ≡ n
unfolding decimal
value_from-decimal n = value_from-digits (suc n) n [] (omega arith)

digits-IsDigit : (fuel n : ℕ) (out : Text) → All IsDigit out → All IsDigit (digits fuel n out)
unfolding digits
digits-IsDigit zero n out h = h
digits-IsDigit (suc fuel) n out h =
    ground (arith, digits-IsDigit fuel (n / 10) ((b'0' + n % 10) ∷ out))

pub decimal-IsDigit : (n : ℕ) → All IsDigit (decimal n)
unfolding decimal
decimal-IsDigit n = digits-IsDigit (suc n) n [] tt
