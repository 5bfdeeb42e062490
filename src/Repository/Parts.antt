-- ===== src/Repository/Parts.antt =====
-- Each part of the check decides its rules.
use contract_conformance_tes.Base.{
  ℕ, sym, subst, ◌∙◌, ◌≤◌, length, All, ◌≡◌, ◌↔◌, ◌⊎◌, inl, inr, refl, ap, Bool, true, false, not,
  ◌||◌, leb, Bool-cases, Option-cases, Option, none, some, List, [], ◌∷◌, ◌++◌, all_iff, Decides,
  Decides-nil, Decides-err, Decides-if, Decides-then, Decides-reject_if, Decides-under, Result,
  ◌>>=◌, Text, bytes, text_eq, text_eq_iff, contains, contains_iff, has, has_iff, arith,
}
use contract_conformance_tes.Repository.{
  Document, mapping, unmapped, no_mapping, Json, string, other, Content, decoded, undecodable,
  unreadable, Entry, RepositoryError, no_metadata, no_content, check_content, check_entry,
  check_entries, check_phrases, actions, check_workflow, is_text, show, is_key, check_metadata,
  content_of, metadata_of,
}
use contract_conformance_tes.Repository.Expressions.{marker, credential, action_pattern}
use contract_conformance_tes.Repository.Lines.{ends_with}
use contract_conformance_tes.Repository.Secrets.{marker_iff, credential_iff}
use contract_conformance_tes.Repository.Forms.{IsPinned, fullmatch-IsPinned}
use contract_conformance_tes.Repository.Patterns.{fullmatch, search, search_lines}
use contract_conformance_tes.Repository.Patterns.Matching.{search_iff, search_lines_iff}
use contract_conformance_tes.Repository.Uses.Laws.{actions_iff}
use contract_conformance_tes.Repository.Rules.{
  RepositoryRules, EndsWith, HasMarker, HasCredential, EndsWithTest, content_rules, IsExamined,
  entries_rules, phrases_rules, workflow_rules, IsKey, metadata_rules, reading,
}

clear_iff : (b : Bool) (P : Type 0) → (b ≡ true) ↔ P → (b ≡ false) ↔ (¬ P)
clear_iff b P iff = ground (arith, iff)

pub unmet_iff : (b : Bool) (P : Type 0) → (b ≡ true) ↔ P → (not b ≡ false) ↔ P
unmet_iff b P iff = ground (arith, iff)

HasMarker-iff : (text : Text) → (search_lines true marker text ≡ true) ↔ HasMarker text
HasMarker-iff text =
    let (to, from) = search_lines_iff true marker text in
    (
      λ h.
          let (before, rest, e, start, m) = to h in (before, rest, e, start, (marker_iff rest).0 m),
      λ (before, rest, e, start, m). from (before, rest, e, start, (marker_iff rest).1 m),
    )

HasCredential-iff : (text : Text) → (search credential text ≡ true) ↔ HasCredential text
HasCredential-iff text =
    let (to, from) = search_iff credential text in
    (
      λ h.
          let (before, rest, e, (found, after, f, m)) = to h in
          (before, found, after, e ∙ ap (λ r. before ++ r) f, (credential_iff found).0 m),
      λ (before, found, after, e, m).
          from (before, found ++ after, e, (found, after, refl, (credential_iff found).1 m)),
    )

content-Decides :
    (path : Text) (c : Content) → Decides (check_content path c) (content_rules path c)
unfolding check_content
content-Decides path unreadable = Decides-err (no_content path)
content-Decides path undecodable = Decides-nil tt
content-Decides path (decoded t) =
    Decides-then (Decides-reject_if _ _ _ (clear_iff _ _ (HasMarker-iff t)))
      (Decides-reject_if _ _ _ (clear_iff _ _ (HasCredential-iff t)))

IsExamined-iff :
    (entry : Entry)
    → ((not entry.is_file || (has entry.parts (bytes ".git") || not (leb entry.size 1000000)))
        ≡ false)
      ↔ IsExamined entry
IsExamined-iff entry = ground (arith, has_iff entry.parts (bytes ".git"))

pub entries-Decides :
    (entries : List Entry) → Decides (check_entries entries) (entries_rules entries)
unfolding check_entries check_entry
entries-Decides [] = Decides-nil tt
entries-Decides (entry ∷ entries) =
    Decides-then
      (Decides-under tt _ (IsExamined entry) (IsExamined-iff entry)
        (content-Decides entry.path entry.content))
      (entries-Decides entries)

EndsWith-cons : (b : ℕ) (s t : Text) → EndsWith (b ∷ s) t → (b ∷ s ≡ t) ⊎ EndsWith s t
EndsWith-cons b s t ([], h) = inl h
EndsWith-cons b s t (c ∷ before, h) = inr (before, ground (arith, h))

ends_with_iff : (s t : Text) → (ends_with s t ≡ true) ↔ EndsWith s t
unfolding ends_with
ends_with_iff [] t =
    (λ h. ([], (text_eq_iff [] t).0 h), λ (before, h). (text_eq_iff [] t).1 (ends_empty before t h))
  where
    ends_empty : (before t : Text) → [] ≡ before ++ t → [] ≡ t
    ends_empty [] t h = h
    ends_empty (b ∷ before) t h = cc
ends_with_iff (b ∷ s) t = (
  λ h. elim (Bool-cases (text_eq (b ∷ s) t)) [
    | inl whole ↦ ([], (text_eq_iff (b ∷ s) t).0 whole)
    | inr part ↦
        let (before, e) = (ends_with_iff s t).0 (rw part at h) in (b ∷ before, ap (λ l. b ∷ l) e)
  ],
  λ ends. elim (EndsWith-cons b s t ends) [
    | inl whole ↦ let same = (text_eq_iff (b ∷ s) t).1 whole in rw same refl
    | inr part ↦ let later = (ends_with_iff s t).1 part in ground arith
  ],
)

pub phrases-Decides :
    (agents : Text) (texts : List Text)
    → Decides (check_phrases agents texts) (phrases_rules agents texts)
unfolding check_phrases
phrases-Decides agents [] = Decides-nil tt
phrases-Decides agents (t ∷ texts) =
    Decides-if (contains agents t) _ _ (contains_iff agents t) (phrases-Decides agents texts)

pub workflow-Decides :
    (workflow : Text) → Decides (check_workflow workflow) (workflow_rules workflow)
unfolding check_workflow
workflow-Decides workflow =
    let pinned =
      all_iff IsPinned (fullmatch action_pattern) fullmatch-IsPinned (actions workflow) in
    Decides-then
      (Decides-reject_if _ _ _ (
        ground (
          arith,
          contains_iff workflow (bytes "permissions:\n  contents: read"),
          contains_iff workflow (bytes "pull_request_target"),
        )))
      (Decides-reject_if _ _ _ (
        (λ h.
            let (enough, each) : (2 ≤ length (actions workflow)) × All IsPinned (actions workflow) =
              ground (arith, pinned) in
            (actions workflow, (actions_iff workflow (actions workflow)).0 refl, enough, each)),
        (λ (used, named, enough, each).
            let same = sym ((actions_iff workflow used).1 named) in
            let count : 2 ≤ length (actions workflow) = subst (λ l. 2 ≤ length l) same enough in
            let all_pinned = pinned.1 (subst (All IsPinned) same each) in ground arith),
      ))

is_text_iff :
    (t : Text) (value : Option Json) → (is_text t value ≡ true) ↔ (value ≡ some (string t))
is_text_iff t none = ((λ h. cc), λ h. cc)
is_text_iff t (some (other s)) = ((λ h. cc), λ h. cc)
is_text_iff t (some (string s)) = ground (arith, text_eq_iff s t)

is_key_iff :
    (metadata : Text → Option Json) (key : Text) → (is_key metadata key ≡ true) ↔ IsKey metadata key
is_key_iff metadata key = elim (Option-cases (metadata key)) [
  | inl absent ↦ rw (is_key, absent) ((λ h. cc), λ (v, e). cc)
  | inr (v, found) ↦ rw (is_key, found) ((λ h. (v, refl)), λ h. refl)
]

EndsWith-nothing : (t : Text) → EndsWith [] t → t ≡ []
EndsWith-nothing t ([], h) = sym h
EndsWith-nothing t (b ∷ before, h) = cc

EndsWithTest-iff :
    (value : Option Json) → (ends_with (show value) (bytes "-test") ≡ true) ↔ EndsWithTest value
EndsWithTest-iff none = (
  λ h. cc (EndsWith-nothing (bytes "-test") ((ends_with_iff [] (bytes "-test")).0 h)),
  λ (t, e, h). elim e [ inl e ↦ cc | inr e ↦ cc ],
)
EndsWithTest-iff (some (string s)) = (
  λ h. (s, inl refl, (ends_with_iff s (bytes "-test")).0 h),
  λ (t, e, h). elim e [
    | inl e ↦
        (ends_with_iff s (bytes "-test")).1
          (subst (λ u. EndsWith u (bytes "-test")) (ground arith) h)
    | inr e ↦ cc
  ],
)
EndsWithTest-iff (some (other s)) = (
  λ h. (s, inr refl, (ends_with_iff s (bytes "-test")).0 h),
  λ (t, e, h). elim e [
    | inl e ↦ cc
    | inr e ↦
        (ends_with_iff s (bytes "-test")).1
          (subst (λ u. EndsWith u (bytes "-test")) (ground arith) h)
  ],
)

pub metadata-Decides :
    (metadata : Document) → Decides (check_metadata metadata) (metadata_rules metadata)
unfolding check_metadata
metadata-Decides unmapped = Decides-err no_mapping
metadata-Decides (mapping metadata) =
    Decides-then
      (Decides-reject_if _ _ _
        (unmet_iff _ _ (is_text_iff _ (metadata (bytes "bootstrap_operation")))))
      (Decides-then
        (Decides-reject_if _ _ _
          (unmet_iff _ _ (EndsWithTest-iff (metadata (bytes "organization")))))
        (Decides-then (Decides-reject_if _ _ _ (unmet_iff _ _ (is_key_iff metadata _))) (
          Decides-then (Decides-reject_if _ _ _ (unmet_iff _ _ (is_key_iff metadata _)))
            (Decides-reject_if _ _ _ (unmet_iff _ _ (is_key_iff metadata _))))))

pub reading-Decides :
    (path : Text) (c : Content) (f : Text → Result (Unit {0}) RepositoryError)
    (rules : Text → RepositoryRules)
    → ((t : Text) → Decides (f t) (rules t))
    → Decides (content_of path c >>= f) (reading path c rules)
reading-Decides path (decoded t) f rules d = d t
reading-Decides path undecodable f rules d = Decides-err (no_content path)
reading-Decides path unreadable f rules d = Decides-err (no_content path)

pub metadata_of-Decides :
    (m : Option Document) (f : Document → Result (Unit {0}) RepositoryError)
    (rules : Document → RepositoryRules)
    → ((metadata : Document) → Decides (f metadata) (rules metadata))
    → Decides
        (metadata_of m >>= f)
        (elim m [ none ↦ (⊥, no_metadata) ∷ [] | some metadata ↦ rules metadata ])
metadata_of-Decides none f rules d = Decides-err no_metadata
metadata_of-Decides (some metadata) f rules d = d metadata
