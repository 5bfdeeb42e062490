-- ===== src/Repository/Secrets.antt =====
-- What the expressions for conflict markers and for credentials match, in words.
use contract_conformance_tes.Base.{
  ℕ, zero, suc, ◌≡◌, ◌≤◌, ◌↔◌, ◌⊎◌, ◌||◌, ◌==◌, inl, inr, refl, ap, ◌∙◌, Bool, true, [], ◌∷◌, ◌++◌,
  All, length, Text, bytes, Begins, arith,
}
use contract_conformance_tes.Repository.Expressions.{marker, credential, is_alphanumeric, is_upper}
use contract_conformance_tes.Repository.Forms.{
  AllOf-iff, IsFrom, IsAlphanumeric, is_alphanumeric_iff, Matches-literal, Matches-at_least,
  Matches-star,
}
use contract_conformance_tes.Repository.Patterns.{
  Regex, one, seq, star, times, at_least, literal, Matches,
}
use contract_conformance_tes.Repository.Patterns.Matching.{MatchesFront}

-- Seven of one of the three signs of a conflict.
abbrev pub BeginsMarker : Text → Type 0
BeginsMarker s =
    Begins s (bytes "<<<<<<<") ⊎ (Begins s (bytes "=======") ⊎ Begins s (bytes ">>>>>>>"))

copies : ℕ → Text → Text
copies zero t = []
copies (suc n) t = t ++ copies n t

Matches-copies : (n : ℕ) (t s : Text) → Matches (times n (literal t)) s ↔ (s ≡ copies n t)
unfolding copies
Matches-copies zero t s = ((λ h. h), λ h. h)
Matches-copies (suc n) t s = (
  λ (a, c, h, m, rest).
      h
      ∙ ap (λ x. x ++ c) ((Matches-literal t a).0 m)
      ∙ ap (λ x. t ++ x) ((Matches-copies n t c).0 rest),
  λ h. (t, copies n t, h, (Matches-literal t t).1 refl, (Matches-copies n t (copies n t)).1 refl),
)

pub marker_iff : (s : Text) → MatchesFront marker s ↔ BeginsMarker s
unfolding copies
marker_iff s = (
  λ (a, after, h, m). elim m [
    | inl left ↦ inl (after, h ∙ ap (λ x. x ++ after) ((Matches-copies 7 (bytes "<") a).0 left))
    | inr (inl middle) ↦
        inr (inl (after, h ∙ ap (λ x. x ++ after) ((Matches-copies 7 (bytes "=") a).0 middle)))
    | inr (inr right) ↦
        inr (inr (after, h ∙ ap (λ x. x ++ after) ((Matches-copies 7 (bytes ">") a).0 right)))
  ],
  elim [
    | inl (after, h) ↦
        (bytes "<<<<<<<", after, h, inl ((Matches-copies 7 (bytes "<") (bytes "<<<<<<<")).1 refl))
    | inr (inl (after, h)) ↦ (
      bytes "=======",
      after,
      h,
      inr (inl ((Matches-copies 7 (bytes "=") (bytes "=======")).1 refl)),
    )
    | inr (inr (after, h)) ↦ (
      bytes ">>>>>>>",
      after,
      h,
      inr (inr ((Matches-copies 7 (bytes ">") (bytes ">>>>>>>")).1 refl)),
    )
  ],
)

-- A key of at least 20 letters and digits.
abbrev pub IsKeyText : Text → Type 0
IsKeyText key = (20 ≤ length key) × All IsAlphanumeric key

-- The kinds of GitHub tokens.
abbrev pub IsKind : ℕ → Type 0
IsKind b = (b ≡ b'p') ⊎ ((b ≡ b'o') ⊎ ((b ≡ b'u') ⊎ ((b ≡ b's') ⊎ (b ≡ b'r'))))

-- A capital letter or a space.
abbrev pub IsLabel : ℕ → Type 0
IsLabel b = IsFrom b'A' b'Z' b ⊎ (b ≡ b' ')

-- A GitHub token; a Linear key; the head of a private key, with capital letters and spaces in it.
abbrev pub IsCredential : Text → Type 0
IsCredential s =
    ((kind : ℕ) × (key : Text) × (s ≡ bytes "gh" ++ (kind ∷ (bytes "_" ++ key)))
      × IsKind kind
      × IsKeyText key)
    ⊎ (((key : Text) × (s ≡ bytes "lin_api_" ++ key) × IsKeyText key)
        ⊎ ((kind : Text) × (s ≡ bytes "BEGIN " ++ (kind ++ bytes "PRIVATE KEY"))
            × All IsLabel kind))

-- A literal in front, and what follows.
Matches-behind :
    (t : Text) (r : Regex) (s : Text)
    → Matches (seq (literal t) r) s ↔ ((rest : Text) × (s ≡ t ++ rest) × Matches r rest)
Matches-behind t r s = (
  λ (a, c, h, m, rest). (c, h ∙ ap (λ x. x ++ c) ((Matches-literal t a).0 m), rest),
  λ (c, h, rest). (t, c, h, (Matches-literal t t).1 refl, rest),
)

key_iff : (key : Text) → Matches (at_least 20 (one is_alphanumeric)) key ↔ IsKeyText key
key_iff key =
    let (to, from) = Matches-at_least is_alphanumeric 20 key in
    let (all, each) = AllOf-iff is_alphanumeric IsAlphanumeric key is_alphanumeric_iff in
    (λ h. let (enough, k) = to h in (enough, all k), λ (enough, k). from (enough, each k))

abbrev is_kind : ℕ → Bool
is_kind b = b == b'p' || (b == b'o' || (b == b'u' || (b == b's' || b == b'r')))

is_kind_iff : (b : ℕ) → (is_kind b ≡ true) ↔ IsKind b
is_kind_iff b = ground arith

abbrev is_label : ℕ → Bool
is_label b = is_upper b || b == b' '

is_label_iff : (b : ℕ) → (is_label b ≡ true) ↔ IsLabel b
is_label_iff b = ground arith

-- What follows the literals.
abbrev key_pattern : Regex
key_pattern = at_least 20 (one is_alphanumeric)

abbrev token : Regex
token = seq (one is_kind) (seq (literal (bytes "_")) key_pattern)

abbrev label : Regex
label = seq (star (one is_label)) (literal (bytes "PRIVATE KEY"))

credential_sound : (s : Text) → Matches credential s → IsCredential s
credential_sound s (inl h) =
    let (c, e₁, (k, d, e₂, (b, single, good), m)) = (Matches-behind (bytes "gh") token s).0 h in
    let (key, e₃, n) = (Matches-behind (bytes "_") key_pattern d).0 m in
    inl (
      b,
      key,
      e₁ ∙ ap (λ x. bytes "gh" ++ x) (e₂ ∙ ap (λ x. x ++ d) single ∙ ap (λ x. b ∷ x) e₃),
      (is_kind_iff b).0 good,
      (key_iff key).0 n,
    )
credential_sound s (inr (inl h)) =
    let (key, e, n) = (Matches-behind (bytes "lin_api_") key_pattern s).0 h in
    inr (inl (key, e, (key_iff key).0 n))
credential_sound s (inr (inr h)) =
    let (c, e₁, (kind, d, e₂, m, last)) = (Matches-behind (bytes "BEGIN ") label s).0 h in
    inr (
      inr (
        kind,
        e₁
            ∙ ap (λ x. bytes "BEGIN " ++ x)
                (e₂ ∙ ap (λ x. kind ++ x) ((Matches-literal (bytes "PRIVATE KEY") d).0 last)),
        (AllOf-iff is_label IsLabel kind is_label_iff).0 ((Matches-star is_label kind).0 m),
      ))

credential_complete : (s : Text) → IsCredential s → Matches credential s
credential_complete s (inl (b, key, e, kind, n)) = inl (
    (Matches-behind (bytes "gh") token s).1 (
      b ∷ (bytes "_" ++ key),
      e,
      (
        b ∷ [],
        bytes "_" ++ key,
        refl,
        (b, refl, (is_kind_iff b).1 kind),
        (Matches-behind (bytes "_") key_pattern (bytes "_" ++ key)).1
            (key, refl, (key_iff key).1 n),
      ),
    ))
credential_complete s (inr (inl (key, e, n))) =
    inr (inl ((Matches-behind (bytes "lin_api_") key_pattern s).1 (key, e, (key_iff key).1 n)))
credential_complete s (inr (inr (kind, e, all))) = inr (
    inr (
      (Matches-behind (bytes "BEGIN ") label s).1 (
        kind ++ bytes "PRIVATE KEY",
        e,
        (
          kind,
          bytes "PRIVATE KEY",
          refl,
          (Matches-star is_label kind).1 ((AllOf-iff is_label IsLabel kind is_label_iff).1 all),
          (Matches-literal (bytes "PRIVATE KEY") (bytes "PRIVATE KEY")).1 refl,
        ),
      )))

pub credential_iff : (s : Text) → Matches credential s ↔ IsCredential s
credential_iff s = (credential_sound s, credential_complete s)
