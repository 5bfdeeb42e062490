-- ===== src/Repository/Paths.antt =====
-- The required paths, and the test modules.
use contract_conformance_tes.Base.{
  ◌≡◌, ◌≢◌, ◌↔◌, inl, inr, refl, Bool, true, false, not, ◌||◌, Bool-cases, List, [], ◌∷◌, All, Text,
  Has, Has-collect, All-of_Has, All-Has_elem, collect, collect-IsSorted, IsSorted, arith,
}
use contract_conformance_tes.Repository.{Checkout, required, absent_of, is_nil, missing}

absent_of_iff :
    (exists : Text → Bool) (paths : List Text) (p : Text)
    → Has (absent_of exists paths) p ↔ (Has paths p × (exists p ≡ false))
absent_of_iff exists [] p = ((λ h. absurd h), λ h. absurd h.0)
absent_of_iff exists (path ∷ paths) p =
    let (found, kept) = absent_of_iff exists paths p in
    elim (Bool-cases (exists path)) [
      | inl there ↦ rw there (
        (λ m. (inr (found m).0, (found m).1)),
        λ (h, e). elim h [ inl same ↦ cc (there, same, e) | inr m ↦ kept (m, e) ],
      )
      | inr gone ↦ rw gone (
        (elim [ inl same ↦ (inl same, rw (← same) gone) | inr m ↦ (inr (found m).0, (found m).1) ]),
        λ (h, e). elim h [ inl same ↦ inl same | inr m ↦ inr (kept (m, e)) ],
      )
    ]

is_nil_iff : (xs : List Text) → (is_nil xs ≡ true) ↔ ((p : Text) → ¬ Has xs p)
is_nil_iff [] = ((λ h p m. m), λ h. refl)
is_nil_iff (x ∷ xs) = ((λ h. cc), λ h. absurd (h x (inl refl)))

pub nothing_missing :
    (exists : Text → Bool) (paths : List Text)
    → (is_nil (collect (absent_of exists paths)) ≡ true) ↔ All (λ path. exists path ≡ true) paths
nothing_missing exists paths =
    let (none_left, all_there) = is_nil_iff (collect (absent_of exists paths)) in
    (
      λ h.
          All-of_Has (λ path. exists path ≡ true) paths
            (λ p m. elim (Bool-cases (exists p)) [
              | inl there ↦ there
              | inr gone ↦ absurd (
                  none_left h p (
                    (Has-collect (absent_of exists paths) p).1
                      ((absent_of_iff exists paths p).1 (m, gone))))
            ]),
      λ h. all_there (λ p m.
          let (listed, gone) =
            (absent_of_iff exists paths p).0 ((Has-collect (absent_of exists paths) p).0 m) in
          let there = All-Has_elem (λ path. exists path ≡ true) paths p h listed in
          cc (there, gone)),
    )

pub modules_iff :
    (b : Bool) (modules : List Text)
    → ((not b || is_nil modules) ≡ false) ↔ ((b ≡ true) × (modules ≢ []))
modules_iff b [] = ground arith
modules_iff b (x ∷ modules) = ground arith

module _ (root : Checkout) where
  -- The error on missing paths shows, in ascending order, the required paths that do not exist.
  pub missing_iff :
      IsSorted (missing root)
      × ((p : Text) → Has (missing root) p ↔ (Has required p × (root.exists p ≡ false)))
  missing_iff = (
    collect-IsSorted (absent_of root.exists required),
    λ p. ground (
      arith,
      Has-collect (absent_of root.exists required) p,
      absent_of_iff root.exists required p,
    ),
  )
