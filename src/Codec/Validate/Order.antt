-- ===== src/Codec/Validate/Order.antt =====
-- The order of the rows: `validate` reads it only for which error it reports.
use mathlib.Core.List.{Perm, Permᴰ}
use mathlib.Core.List.Perm
use mathlib.Core.List.Permᴰ
use mathlib.Core.Logic.{∥∥₁_elim}
use mathlib.Core.HLevel.{⊥_prop}
use contract_conformance_tes.Base.{
  Any-Permᴰ, All-Permᴰ, Distinct-Permᴰ, ◌≡◌, ◌↔◌, inl, inr, Result-cases, List, All-imp, ok, Text,
  keys,
}
use contract_conformance_tes.Codec.Matrix.{Row, CaseShape}
use contract_conformance_tes.Codec.Validate.{Codecs, validate}
use contract_conformance_tes.Codec.Validate.Tables.{HasShape, Covers}
use contract_conformance_tes.Codec.Validate.Accepts.{IsHardened, validate-IsHardened}

module _ {codecs : Codecs} {cases : List Text} {shapes : List CaseShape} {rows others : List Row}
    (p : Permᴰ rows others) where
  IsHardened-Permᴰ : IsHardened codecs cases shapes rows → IsHardened codecs cases shapes others
  unfolding Permᴰ.map
  IsHardened-Permᴰ h =
      let named = Permᴰ.map (λ (r : Row). r.case_name) p in
      record {
        distinct = Distinct-Permᴰ named h.distinct;
        sound = All-Permᴰ _ p h.sound;
        required = All-imp (λ c. Any-Permᴰ (λ x. x ≡ c) named) cases h.required;
        shaped = All-imp (λ s. Any-Permᴰ (HasShape s) p) shapes h.shaped;
        covered = All-imp (λ key. Any-Permᴰ (Covers key) p) (keys codecs) h.covered;
      }

-- Whether `validate` accepts rows does not depend on their order.
pub validate-Perm :
    (rows others : List Row)
    → Perm rows others
    → (validate rows ≡ ok tt) ↔ (validate others ≡ ok tt)
validate-Perm rows others p = (forward rows others p, forward others rows (Perm.symm p))
  where
    forward :
        (rows others : List Row)
        → Perm rows others
        → validate rows ≡ ok tt
        → validate others ≡ ok tt
    forward rows others p h = elim (Result-cases (validate others)) [
      | inl (done, passed) ↦ passed
      | inr (e, refused) ↦ absurd (
          ∥∥₁_elim p ⊥_prop (λ d.
            let hardened = IsHardened-Permᴰ d ((validate-IsHardened rows).0 h) in
            cc (refused, (validate-IsHardened others).1 hardened)))
    ]
