-- ===== src/Store/Trace/Names.antt =====
-- The names of a trace differ by their numbers.
use contract_conformance_tes.Base.{
  ℕ, ◌≡◌, ◌≢◌, sym, ap, ◌∙◌, false, [], ◌∷◌, ◌++◌, Text, bytes, text_eq, text_eq_ne, arith,
}
use contract_conformance_tes.Base.Decimal.{decimal, value_from, value_from-decimal}
use contract_conformance_tes.Store.Trace.{entity_name, step_key}

append-cancel : (s t u : Text) → s ++ t ≡ s ++ u → t ≡ u
append-cancel [] t u h = h
append-cancel (b ∷ s) t u h = append-cancel s t u (ground (arith, h))

-- A number is determined by its digits.
decimal-injective : (m n : ℕ) → decimal m ≡ decimal n → m ≡ n
decimal-injective m n h = sym (value_from-decimal m) ∙ ap (value_from 0) h ∙ value_from-decimal n

module _ (seed m n : ℕ) (differ : m ≢ n) where
  pub entity_name-ne : text_eq (entity_name seed m) (entity_name seed n) ≡ false
  unfolding entity_name
  entity_name-ne = text_eq_ne _ _ (λ e. differ (
      decimal-injective m n (
        append-cancel (b'-' ∷ []) (decimal m) (decimal n) (
          append-cancel (decimal seed) (b'-' ∷ decimal m) (b'-' ∷ decimal n)
            (append-cancel (bytes "entity-") _ _ e)))))

  pub step_key-ne : text_eq (step_key seed m) (step_key seed n) ≡ false
  unfolding step_key
  step_key-ne = text_eq_ne _ _ (λ e. differ (
      decimal-injective m n (
        append-cancel (bytes "-step-") (decimal m) (decimal n) (
          append-cancel (decimal seed) (bytes "-step-" ++ decimal m) (bytes "-step-" ++ decimal n)
            (append-cancel (bytes "seed-") _ _ e)))))
