-- ===== src/Zpkg/Canary/Laws.antt =====
-- What a caller can rely on: which reports get the finding on `package.kind`, how many issues the
-- audit adds, and that it keeps what was there.
use mathlib.Core.List.{append-nil}
use contract_conformance_tes.Base.{
  ◌+◌, ◌≤◌, ◌≡◌, ◌≢◌, ◌↔◌, ◌⊎◌, inl, inr, refl, sym, ap, ◌∙◌, true, if◌then◌else◌, Bool-cases, List,
  [], ◌∷◌, ◌++◌, Any, Any-append_right, length, length-append, bytes, arith,
}
use contract_conformance_tes.Zpkg.Platform.{Platform}
use contract_conformance_tes.Zpkg.Canary.{
  Finding, CommandReport, push, insert_metadata, issues, issue_count, RepositoryAuditOptions,
  noncanonical_kind, has_kind, augment_zpkg_manifest_audit, is_issue,
}
use contract_conformance_tes.Zpkg.Canary.Effect.{
  Inspects, HasKind, has_kind_iff, Audited, absent, not_inspected, irregular, not_read, not_parsed,
  inspected, augment-Audited,
}

-- A finding on `package.kind`.
abbrev pub IsKindFinding : {Json : Type 0} → Finding Json → Type 0
IsKindFinding f = f.code ≡ bytes "zpkg-package-kind-noncanonical"

Any-append {ℓ} :
    {A : Type ℓ} (P : A → Type 0) (xs ys : List A) → Any P (xs ++ ys) → Any P xs ⊎ Any P ys
Any-append P [] ys h = inr h
Any-append P (x ∷ xs) ys (inl q) = inl (inl q)
Any-append P (x ∷ xs) ys (inr h) = elim (Any-append P xs ys h) [
  | inl m ↦ inl (inr m)
  | inr m ↦ inr m
]

-- The last finding decides, if none before it is on `package.kind`.
kind_of_last :
    {Json : Type 0} (fs : List (Finding Json)) (f : Finding Json)
    → ¬ Any IsKindFinding fs
    → Any IsKindFinding (fs ++ (f ∷ []))
    → IsKindFinding f
kind_of_last fs f clear h = elim (Any-append IsKindFinding fs (f ∷ []) h) [
  | inl old ↦ absurd (clear old)
  | inr (inl new) ↦ new
  | inr (inr x) ↦ absurd x
]

issues-append :
    {Json : Type 0} (fs gs : List (Finding Json)) → issues (fs ++ gs) ≡ issues fs ++ issues gs
issues-append [] gs = refl
issues-append (f ∷ fs) gs = elim (Bool-cases (is_issue f.severity)) [
  | inl yes' ↦ rw yes' (ap (λ l. f ∷ l) (issues-append fs gs))
  | inr no' ↦ rw no' (issues-append fs gs)
]

issue_count-push :
    {Json : Type 0} (r : CommandReport Json) (f : Finding Json)
    → is_issue f.severity ≡ true
    → issue_count (push r f) ≡ issue_count r + 1
issue_count-push r f h =
    ap length (issues-append r.findings (f ∷ []))
    ∙ length-append (issues r.findings) (issues (f ∷ []))
    ∙ rw h

-- The report is the old one, or has one more finding, which is an issue.
pub record Keeps {Json : Type 0} (report result : CommandReport Json) : Type 0 where
  pub added : List (Finding Json)
  pub extends : result.findings ≡ report.findings ++ added
  pub few : length added ≤ 1
  pub counted : issue_count result ≡ issue_count report + length added

-- A finding with another code adds none on `package.kind`.
not_kind :
    {Json : Type 0} (report result : CommandReport Json) (f : Finding Json)
    → length f.code ≢ length (bytes "zpkg-package-kind-noncanonical")
    → result ≡ push report f
    → ¬ Any IsKindFinding report.findings
    → ¬ Any IsKindFinding result.findings
not_kind report result f other same clear h =
    other (ap (λ s. length s) (kind_of_last report.findings f clear (rw same at h)))

-- A pushed issue keeps the report.
push-Keeps :
    {Json : Type 0} (report : CommandReport Json) (f : Finding Json)
    → is_issue f.severity ≡ true
    → Keeps report (push report f)
push-Keeps report f h = record {
  added = f ∷ [];
  extends = refl;
  few = omega arith;
  counted = issue_count-push report f h;
}

same-Keeps :
    {Json : Type 0} (report result : CommandReport Json)
    → result.findings ≡ report.findings
    → Keeps report result
same-Keeps report result same = record {
  added = [];
  extends = same ∙ sym (append-nil report.findings);
  few = omega arith;
  counted = ap (λ fs. length (issues fs)) same ∙ omega arith;
}

module _ (p : Platform) (options : RepositoryAuditOptions p.FilePath)
    (report : CommandReport p.Json) where
  kind_of_document :
      (document : p.Document) (result : CommandReport p.Json)
      → result ≡ (
          let marked = insert_metadata report (bytes "zpkgManifestInspected") (p.json_bool true) in
          if has_kind p document then push marked (noncanonical_kind p) else marked)
      → ¬ Any IsKindFinding report.findings
      → Any IsKindFinding result.findings ↔ HasKind p options document
  kind_of_document document result same clear = elim (Bool-cases (has_kind p document)) [
    | inl kind ↦ (
      (λ h. (has_kind_iff p options document).0 kind),
      λ k. rw (same, kind) (Any-append_right IsKindFinding report.findings _ (inl refl)),
    )
    | inr plain ↦ (
      (λ h. absurd (clear (rw (same, plain) at h))),
      λ k. let kind = (has_kind_iff p options document).1 k in cc,
    )
  ]

  Audited-kind :
      (result : CommandReport p.Json)
      → Audited p options report result
      → ¬ Any IsKindFinding report.findings
      → Any IsKindFinding result.findings
      → (document : p.Document) × Inspects p options document × HasKind p options document
  Audited-kind result (absent gone same) clear h = absurd (clear (rw same at h))
  Audited-kind result (not_inspected e failed other same) clear h =
      absurd (not_kind report result _ (omega arith) same clear h)
  Audited-kind result (irregular m found other same) clear h =
      absurd (not_kind report result _ (omega arith) same clear h)
  Audited-kind result (not_read m e found refused same) clear h =
      absurd (not_kind report result _ (omega arith) same clear h)
  Audited-kind result (not_parsed m source e found read refused same) clear h =
      absurd (not_kind report result _ (omega arith) same clear h)
  Audited-kind result (inspected document seen same) clear h =
      (document, seen, (kind_of_document document result same clear).0 h)

  Audited-Inspects :
      (result : CommandReport p.Json) (document : p.Document)
      → Audited p options report result
      → Inspects p options document
      → HasKind p options document
      → ¬ Any IsKindFinding report.findings
      → Any IsKindFinding result.findings
  Audited-Inspects result document (absent gone same) seen kind clear =
      absurd (ground (arith, gone.failed, seen.found))
  Audited-Inspects result document (not_inspected e failed other same) seen kind clear =
      absurd (ground (arith, seen.found))
  Audited-Inspects result document (irregular m found other same) seen kind clear =
      absurd (ground (arith, seen.found, seen.not_link, seen.is_file))
  Audited-Inspects result document (not_read m e found refused same) seen kind clear =
      absurd (ground (arith, seen.read))
  Audited-Inspects result document (not_parsed m source e found read refused same) seen kind clear =
      absurd (ground (arith, seen.read, seen.parsed))
  Audited-Inspects result document (inspected d other same) seen kind clear =
      let one : d ≡ document = ground (arith, seen.read, seen.parsed, other.read, other.parsed) in
      (kind_of_document d result same clear).1 (rw one kind)

  -- For a report with no finding on `package.kind`, the audited report has one exactly when the
  -- manifest is a regular file that can be read and holds a document whose table `package` has a
  -- key `kind`.
  pub augment-rejects_kind :
      ¬ Any IsKindFinding report.findings
      → Any IsKindFinding (augment_zpkg_manifest_audit p options report).findings
        ↔ ((document : p.Document) × Inspects p options document × HasKind p options document)
  augment-rejects_kind clear =
      let audited = augment-Audited p options report in
      (
        Audited-kind _ audited clear,
        λ (document, seen, kind). Audited-Inspects _ document audited seen kind clear,
      )

  Audited-Keeps :
      (result : CommandReport p.Json) → Audited p options report result → Keeps report result
  Audited-Keeps result (absent gone same) = same-Keeps report result (ap (λ r. r.findings) same)
  Audited-Keeps result (not_inspected e failed other same) = rw same (push-Keeps report _ refl)
  Audited-Keeps result (irregular m found other same) = rw same (push-Keeps report _ refl)
  Audited-Keeps result (not_read m e found refused same) = rw same (push-Keeps report _ refl)
  Audited-Keeps result (not_parsed m source e found read refused same) =
      rw same (push-Keeps report _ refl)
  Audited-Keeps result (inspected document seen same) = elim (Bool-cases (has_kind p document)) [
    | inl kind ↦ rw (same, kind) (marked_Keeps (push-Keeps _ _ refl))
    | inr plain ↦ rw (same, plain) (same-Keeps report _ refl)
  ]
    where
      marked_Keeps :
          {r : CommandReport p.Json}
          → Keeps (insert_metadata report (bytes "zpkgManifestInspected") (p.json_bool true)) r
          → Keeps report r
      marked_Keeps k = record {
        added = k.added;
        extends = k.extends;
        few = k.few;
        counted = k.counted;
      }

  -- The audit keeps the findings of the report in order, adds at most one behind them, and
  -- counts one issue more for it: whatever it adds is an issue.
  pub augment-Keeps : Keeps report (augment_zpkg_manifest_audit p options report)
  augment-Keeps = Audited-Keeps _ (augment-Audited p options report)
