-- ===== src/Codec/Validate/Coverage.antt =====
-- The error on the coverage of the codecs, and the set that its message shows.
use contract_conformance_tes.Base.{
  ◌≡◌, ◌↔◌, inl, inr, refl, Bool-cases, List, [], ◌∷◌, All, Any, err, Text, Has, has, has_iff, keys,
  collect-IsSorted, IsSorted, All-imp, arith, get, Option, some, none, Avoids, Avoids-append,
  FirstFault, FirstFault-behind,
}
use contract_conformance_tes.Codec.Matrix.{
  CodecSpec, Row, CaseShape, incomplete_coverage, canonical_codecs,
}
use contract_conformance_tes.Codec.Validate.{Codecs, positive_codecs, canonical_positive, validate}
use contract_conformance_tes.Codec.Validate.Rejects.{validate-Rejected}
use contract_conformance_tes.Codec.Validate.Rules.{
  codec_rules, row_rules, rows_rules, case_rules, drift_rules, shape_rules, coverage_rules,
  hardening_rules,
}
use contract_conformance_tes.Codec.Cases.{required_cases, required_case_shapes}
use contract_conformance_tes.Codec.Validate.Tables.{Covers, Has-canonical_positive}

-- No rule before the one on the coverage has its error.
codec_rules-Avoids :
    (found : Option CodecSpec) (row : Row) (shown : List Text)
    → Avoids (incomplete_coverage shown) (codec_rules found row)
codec_rules-Avoids none row shown = (λ e. cc, tt)
codec_rules-Avoids (some spec) row shown = (λ e. cc, (λ e. cc, tt))

module _ (shown : List Text) where
  rows_rules-Avoids :
      (codecs : Codecs) (earlier : List Text) (rows : List Row)
      → Avoids (incomplete_coverage shown) (rows_rules codecs earlier rows)
  rows_rules-Avoids codecs earlier [] = tt
  rows_rules-Avoids codecs earlier (row ∷ rows) =
      Avoids-append _ (row_rules codecs earlier row) _
        (
          λ e. cc,
          (
            λ e. cc,
            Avoids-append _ (codec_rules (get codecs row.codec) row) _
                (codec_rules-Avoids (get codecs row.codec) row shown)
                (λ e. cc, (λ e. cc, (λ e. cc, tt))),
          ),
        )
        (rows_rules-Avoids codecs (row.case_name ∷ earlier) rows)

  case_rules-Avoids :
      (rows : List Row) (cases : List Text)
      → Avoids (incomplete_coverage shown) (case_rules rows cases)
  case_rules-Avoids rows [] = tt
  case_rules-Avoids rows (c ∷ cases) = (λ e. cc, case_rules-Avoids rows cases)

  drift_rules-Avoids :
      (s : CaseShape) (rows : List Row) → Avoids (incomplete_coverage shown) (drift_rules s rows)
  drift_rules-Avoids s [] = tt
  drift_rules-Avoids s (row ∷ rows) = (λ e. cc, drift_rules-Avoids s rows)

  shape_rules-Avoids :
      (rows : List Row) (shapes : List CaseShape)
      → Avoids (incomplete_coverage shown) (shape_rules rows shapes)
  shape_rules-Avoids rows [] = tt
  shape_rules-Avoids rows (s ∷ shapes) = (
    λ e. cc,
    Avoids-append _ (drift_rules s rows) _ (drift_rules-Avoids s rows)
        (shape_rules-Avoids rows shapes),
  )

  uncovered_rule :
      (codecs : Codecs) (cases : List Text) (shapes : List CaseShape) (rows : List Row)
      → FirstFault (hardening_rules codecs cases shapes rows) (incomplete_coverage shown)
      → FirstFault (coverage_rules codecs rows) (incomplete_coverage shown)
  uncovered_rule codecs cases shapes rows first =
      FirstFault-behind (shape_rules rows shapes) _ _ (shape_rules-Avoids rows shapes) (
        FirstFault-behind (case_rules rows cases) _ _ (case_rules-Avoids rows cases) (
          FirstFault-behind (rows_rules codecs [] rows) _ _ (rows_rules-Avoids codecs [] rows)
            first))

-- Some name is not among the others, if not all are.
missing_of : (xs ys : List Text) → ¬ All (Has ys) xs → (x : Text) × Has xs x × (¬ Has ys x)
missing_of [] ys n = absurd (n tt)
missing_of (x ∷ xs) ys n = elim (Bool-cases (has ys x)) [
  | inl there ↦
      let (z, m, absent) = missing_of xs ys (λ h. n ((has_iff ys x).0 there, h)) in
      (z, inr m, absent)
  | inr missing ↦ (x, inl refl, λ m. ground (arith, has_iff ys x))
]

shown_of : (xs ys : List Text) → incomplete_coverage xs ≡ incomplete_coverage ys → xs ≡ ys
shown_of xs ys h = cc

-- The set that the error on the coverage shows: the canonical codecs that a valid row names, in
-- ascending order, of which one is missing.
pub record Uncovered (codecs : Codecs) (rows : List Row) (names : List Text) : Type 0 where
  pub sorted : IsSorted names
  pub listed : (key : Text) → Has names key ↔ (Has (keys codecs) key × Any (Covers key) rows)
  pub missing : Text
  pub is_canonical : Has (keys codecs) missing
  pub is_missing : ¬ Has names missing

canonical_positive-Uncovered :
    (codecs : Codecs) (rows : List Row)
    → ¬ All (λ key. Any (Covers key) rows) (keys codecs)
    → Uncovered codecs rows (canonical_positive codecs rows)
unfolding canonical_positive
canonical_positive-Uncovered codecs rows n =
    let (key, known, absent) =
      missing_of (keys codecs) (canonical_positive codecs rows) (λ h. n (covers_of h)) in
    record {
      sorted = collect-IsSorted (positive_codecs codecs rows);
      listed = Has-canonical_positive codecs rows;
      missing = key;
      is_canonical = known;
      is_missing = absent;
    }
  where
    covers_of :
        All (Has (canonical_positive codecs rows)) (keys codecs)
        → All (λ key. Any (Covers key) rows) (keys codecs)
    covers_of h =
        All-imp (λ key m. ((Has-canonical_positive codecs rows key).0 m).1) (keys codecs) h

FirstFault-Uncovered :
    (codecs : Codecs) (rows : List Row) (names : List Text)
    → FirstFault (coverage_rules codecs rows) (incomplete_coverage names)
    → Uncovered codecs rows names
FirstFault-Uncovered codecs rows names (inl (n, same)) =
    rw (shown_of names (canonical_positive codecs rows) same)
      (canonical_positive-Uncovered codecs rows n)
FirstFault-Uncovered codecs rows names (inr (covers, later)) = absurd later

-- When `validate` fails on the coverage, the set that its error shows is, in ascending order, the
-- canonical codecs that a valid row names, and a canonical codec is missing from it.
pub validate-Uncovered :
    (rows : List Row) (names : List Text)
    → validate rows ≡ err (incomplete_coverage names)
    → Uncovered canonical_codecs rows names
validate-Uncovered rows names h = FirstFault-Uncovered canonical_codecs rows names (
    uncovered_rule names canonical_codecs required_cases required_case_shapes rows
      ((validate-Rejected rows (incomplete_coverage names)).0 h))
