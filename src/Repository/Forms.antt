-- ===== src/Repository/Forms.antt =====
-- What the expressions match, in words: literals, runs, and the name of a pinned action.
use contract_conformance_tes.Base.{
  ℕ, zero, suc, ◌≡◌, ◌≤◌, ◌↔◌, ◌⊎◌, refl, ap, ◌∙◌, Bool, true, List, [], ◌∷◌, ◌++◌, All, All-append,
  length, length-append, Text, bytes, ==_iff, arith,
}
use contract_conformance_tes.Repository.Expressions.{
  is_alphanumeric, is_name_byte, is_hex, action_pattern,
}
use contract_conformance_tes.Repository.Patterns.{
  one, star, times, at_least, literal, Matches, join, fullmatch,
}
use contract_conformance_tes.Repository.Patterns.Matching.{fullmatch_iff}

pub Matches-literal : (t s : Text) → Matches (literal t) s ↔ (s ≡ t)
Matches-literal [] s = ((λ h. h), λ h. h)
Matches-literal (b ∷ t) s = (
  λ (a, c, h, (d, single, same), rest).
      let byte : d ≡ b = (==_iff d b).0 same in
      let tail : c ≡ t = (Matches-literal t c).0 rest in
      h ∙ ap (λ l. l ++ c) single ∙ ap (λ x. x ∷ c) byte ∙ ap (λ l. b ∷ l) tail,
  λ h. (b ∷ [], t, h, (b, refl, (==_iff b b).1 refl), (Matches-literal t t).1 refl),
)

-- A text of bytes of a class.
abbrev pub AllOf : (ℕ → Bool) → Text → Type 0
AllOf p s = All (λ b. p b ≡ true) s

module _ (p : ℕ → Bool) where
  times_counted : (n : ℕ) (s : Text) → Matches (times n (one p)) s → (length s ≡ n) × AllOf p s
  times_counted zero s h = rw h (refl, tt)
  times_counted (suc n) s (a, c, h, (d, single, good), m) =
      let (count, all) = times_counted n c m in
      rw (h ∙ ap (λ l. l ++ c) single) (ap suc count, (good, all))

  times_complete : (n : ℕ) (s : Text) → length s ≡ n → AllOf p s → Matches (times n (one p)) s
  times_complete zero [] h all = refl
  times_complete zero (b ∷ s) h all = absurd (omega (arith, h))
  times_complete (suc n) [] h all = absurd (omega (arith, h))
  times_complete (suc n) (b ∷ s) h (good, all) =
      (b ∷ [], s, refl, (b, refl, good), times_complete n s (omega (arith, h)) all)

  parts_counted : (parts : List Text) → All (Matches (one p)) parts → AllOf p (join parts)
  parts_counted [] h = tt
  parts_counted (part ∷ parts) ((b, single, good), h) = rw single (good, parts_counted parts h)

  star_complete : (s : Text) → AllOf p s → Matches (star (one p)) s
  star_complete [] all = ([], refl, tt)
  star_complete (b ∷ s) (good, all) =
      let (parts, h, m) = star_complete s all in
      ((b ∷ []) ∷ parts, ap (λ l. b ∷ l) h, ((b, refl, good), m))

  pub Matches-star : (s : Text) → Matches (star (one p)) s ↔ AllOf p s
  Matches-star s = ((λ (parts, h, ms). rw h (parts_counted parts ms)), star_complete s)

  least_complete : (n : ℕ) (s : Text) → n ≤ length s → AllOf p s → Matches (at_least n (one p)) s
  least_complete zero s h all = ([], s, refl, refl, star_complete s all)
  least_complete (suc n) [] h all = absurd (omega (arith, h))
  least_complete (suc n) (b ∷ s) h (good, all) =
      let (a, c, split, m, rest) = least_complete n s (omega (arith, h)) all in
      (b ∷ a, c, ap (λ l. b ∷ l) split, (b ∷ [], a, refl, (b, refl, good), m), rest)

  pub Matches-times :
      (n : ℕ) (s : Text) → Matches (times n (one p)) s ↔ ((length s ≡ n) × AllOf p s)
  Matches-times n s = (times_counted n s, λ (h, all). times_complete n s h all)

  pub Matches-at_least :
      (n : ℕ) (s : Text) → Matches (at_least n (one p)) s ↔ ((n ≤ length s) × AllOf p s)
  Matches-at_least n s = (
    λ (a, c, h, m, (parts, k, ms)).
        let (count, all) = times_counted n a m in
        let rest : AllOf p c = rw k (parts_counted parts ms) in
        rw h (omega (arith, length-append a c, count), All-append (λ b. p b ≡ true) a c all rest),
    λ (h, all). least_complete n s h all,
  )

-- Bytes from one to another; digits, capital letters, letters and digits, and what a name and a
-- commit consist of.
abbrev pub IsFrom : ℕ → ℕ → ℕ → Type 0
IsFrom low high b = (low ≤ b) × (b ≤ high)

abbrev pub IsAlphanumeric : ℕ → Type 0
IsAlphanumeric b = IsFrom b'0' b'9' b ⊎ (IsFrom b'A' b'Z' b ⊎ IsFrom b'a' b'z' b)

abbrev pub IsNameByte : ℕ → Type 0
IsNameByte b = IsAlphanumeric b ⊎ ((b ≡ b'_') ⊎ ((b ≡ b'.') ⊎ (b ≡ b'-')))

abbrev pub IsHexadecimal : ℕ → Type 0
IsHexadecimal b = IsFrom b'0' b'9' b ⊎ IsFrom b'a' b'f' b

pub is_alphanumeric_iff : (b : ℕ) → (is_alphanumeric b ≡ true) ↔ IsAlphanumeric b
is_alphanumeric_iff b = ground arith

is_name_byte_iff : (b : ℕ) → (is_name_byte b ≡ true) ↔ IsNameByte b
is_name_byte_iff b = ground arith

is_hex_iff : (b : ℕ) → (is_hex b ≡ true) ↔ IsHexadecimal b
is_hex_iff b = ground arith

pub AllOf-iff :
    (p : ℕ → Bool) (P : ℕ → Type 0) (s : Text)
    → ((b : ℕ) → (p b ≡ true) ↔ P b)
    → AllOf p s ↔ All P s
AllOf-iff p P [] iff = ((λ h. tt), λ h. tt)
AllOf-iff p P (b ∷ s) iff =
    let (to, from) = AllOf-iff p P s iff in
    ((λ (h, rest). ((iff b).0 h, to rest)), λ (h, rest). ((iff b).1 h, from rest))

-- A name is a run of letters, digits, "_", "." and "-", not empty.
abbrev pub IsName : Text → Type 0
IsName s = (1 ≤ length s) × All IsNameByte s

IsName-iff : (s : Text) → ((1 ≤ length s) × AllOf is_name_byte s) ↔ IsName s
IsName-iff s =
    let (to, from) = AllOf-iff is_name_byte IsNameByte s is_name_byte_iff in
    ((λ (some_byte, h). (some_byte, to h)), λ (some_byte, h). (some_byte, from h))

-- `owner/name@commit`, by the 40 hexadecimal digits of the commit.
pub record IsPinned (action : Text) : Type 0 where
  pub owner : Text
  pub name : Text
  pub commit : Text
  pub written : action ≡ owner ++ (bytes "/" ++ (name ++ (bytes "@" ++ commit)))
  pub owner_name : IsName owner
  pub own_name : IsName name
  pub digits : length commit ≡ 40
  pub hexadecimal : All IsHexadecimal commit

IsPinned-sound : (action : Text) → Matches action_pattern action → IsPinned action
IsPinned-sound action
      (owner, a, e₁, o, (slash, b, e₂, l, (name, c, e₃, m, (at, commit, e₄, k, h)))) =
    record {
      owner = owner;
      name = name;
      commit = commit;
      written =
          e₁
          ∙ ap (λ x. owner ++ x)
              (e₂
                ∙ ap (λ x. x ++ b) ((Matches-literal (bytes "/") slash).0 l)
                ∙ ap (λ x. bytes "/" ++ x)
                    (e₃
                      ∙ ap (λ x. name ++ x)
                          (e₄ ∙ ap (λ x. x ++ commit) ((Matches-literal (bytes "@") at).0 k))));
      owner_name = (IsName-iff owner).0 ((Matches-at_least is_name_byte 1 owner).0 o);
      own_name = (IsName-iff name).0 ((Matches-at_least is_name_byte 1 name).0 m);
      digits = ((Matches-times is_hex 40 commit).0 h).0;
      hexadecimal =
          (AllOf-iff is_hex IsHexadecimal commit is_hex_iff).0
            ((Matches-times is_hex 40 commit).0 h).1;
    }

IsPinned-complete : (action : Text) → IsPinned action → Matches action_pattern action
IsPinned-complete action p = (
  p.owner,
  bytes "/" ++ (p.name ++ (bytes "@" ++ p.commit)),
  p.written,
  (Matches-at_least is_name_byte 1 p.owner).1 ((IsName-iff p.owner).1 p.owner_name),
  (
    bytes "/",
    p.name ++ (bytes "@" ++ p.commit),
    refl,
    (Matches-literal (bytes "/") (bytes "/")).1 refl,
    (
      p.name,
      bytes "@" ++ p.commit,
      refl,
      (Matches-at_least is_name_byte 1 p.name).1 ((IsName-iff p.name).1 p.own_name),
      (
        bytes "@",
        p.commit,
        refl,
        (Matches-literal (bytes "@") (bytes "@")).1 refl,
        (Matches-times is_hex 40 p.commit).1
            (p.digits, (AllOf-iff is_hex IsHexadecimal p.commit is_hex_iff).1 p.hexadecimal),
      ),
    ),
  ),
)

-- `action_pattern.fullmatch` accepts exactly the pinned actions.
pub fullmatch-IsPinned :
    (action : Text) → (fullmatch action_pattern action ≡ true) ↔ IsPinned action
fullmatch-IsPinned action =
    let (to, from) = fullmatch_iff action_pattern action in
    ((λ h. IsPinned-sound action (to h)), λ p. from (IsPinned-complete action p))
