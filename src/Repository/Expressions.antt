-- ===== src/Repository/Expressions.antt =====
-- The three regular expressions of the check.
use contract_conformance_tes.Base.{ℕ, Bool, ◌&&◌, ◌||◌, ◌==◌, leb, bytes}
use contract_conformance_tes.Repository.Patterns.{
  Regex, one, seq, alt, star, times, at_least, literal,
}

abbrev pub is_digit : ℕ → Bool
is_digit b = leb b'0' b && leb b b'9'

abbrev pub is_upper : ℕ → Bool
is_upper b = leb b'A' b && leb b b'Z'

abbrev pub is_alphanumeric : ℕ → Bool
is_alphanumeric b = is_digit b || (is_upper b || leb b'a' b && leb b b'z')

-- `^(<{7}|={7}|>{7})`, without the `^`
abbrev pub marker : Regex
marker =
    alt (times 7 (literal (bytes "<")))
      (alt (times 7 (literal (bytes "="))) (times 7 (literal (bytes ">"))))

-- `gh[pousr]_[A-Za-z0-9]{20,}|lin_api_[A-Za-z0-9]{20,}|BEGIN [A-Z ]*PRIVATE KEY`
abbrev pub credential : Regex
credential =
    alt
      (seq (literal (bytes "gh")) (
        seq (one (λ b. b == b'p' || (b == b'o' || (b == b'u' || (b == b's' || b == b'r')))))
          (seq (literal (bytes "_")) (at_least 20 (one is_alphanumeric)))))
      (alt (seq (literal (bytes "lin_api_")) (at_least 20 (one is_alphanumeric))) (
        seq (literal (bytes "BEGIN "))
          (seq (star (one (λ b. is_upper b || b == b' '))) (literal (bytes "PRIVATE KEY")))))

abbrev pub is_name_byte : ℕ → Bool
is_name_byte b = is_alphanumeric b || (b == b'_' || (b == b'.' || b == b'-'))

abbrev pub is_hex : ℕ → Bool
is_hex b = is_digit b || leb b'a' b && leb b b'f'

-- `[A-Za-z0-9_.-]+/[A-Za-z0-9_.-]+@[0-9a-f]{40}`
abbrev pub action_name : Regex
action_name = at_least 1 (one is_name_byte)

abbrev pub action_pattern : Regex
action_pattern = seq action_name (
    seq (literal (bytes "/")) (seq action_name (seq (literal (bytes "@")) (times 40 (one is_hex)))))
