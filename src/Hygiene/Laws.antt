-- ===== src/Hygiene/Laws.antt =====
-- Which paths the check reports.
use contract_conformance_tes.Base.{
  ◌≡◌, ◌≢◌, ◌⊎◌, ◌↔◌, inl, inr, refl, sym, subst, Bool, true, false, Bool-cases, if◌then◌else◌,
  ◌||◌, List, [], ◌∷◌, ◌++◌, any_iff, Any, Text, text_eq, text_eq_iff, starts_with, starts_with_iff,
  Begins, has, has_iff, Has, Has-collect, collect-IsSorted, IsSorted, is_empty_iff, arith,
}
use contract_conformance_tes.Codec.Parse.{split}
use contract_conformance_tes.Hygiene.{
  PathLibrary, transient_dirs, transient_names, fixture_markers, normalize, tracked_from,
  tracked_files, is_fixture, in_transient_dir, is_violation, violations_from, find_violations,
  status, main,
}

-- The guards of the loop, in their order.
guards_iff :
    (a b c : Bool) (A B C : Type 0)
    → (a ≡ true) ↔ A
    → (b ≡ true) ↔ B
    → (c ≡ true) ↔ C
    → ((if a then false else if b then true else c) ≡ true) ↔ ((¬ A) × (B ⊎ C))
guards_iff true b c A B C f g h = ((λ e. cc), λ k. absurd (k.0 (f.0 refl)))
guards_iff false true c A B C f g h = ((λ e. ((λ x. cc (f.1 x)), inl (g.0 refl))), λ k. refl)
guards_iff false false c A B C f g h =
    ((λ e. ((λ x. cc (f.1 x)), inr (h.0 e))), λ k. elim k.1 [ inl x ↦ cc (g.1 x) | inr x ↦ h.1 x ])

module _ (library : PathLibrary) where
  open library use {parts, name, lower}

  -- A part of the path marks it as a fixture.
  abbrev pub IsFixture : Text → Type 0
  IsFixture path = Any (λ part. Has fixture_markers (lower part)) (parts path)

  -- It is one of the directories, or lies in one.
  abbrev pub InTransientDir : Text → Type 0
  InTransientDir path = Any (λ d. (path ≡ d) ⊎ Begins path (d ++ b'/' ∷ [])) transient_dirs

  abbrev pub IsTransient : Text → Type 0
  IsTransient raw =
      (¬ IsFixture (normalize raw))
      × (InTransientDir (normalize raw) ⊎ Has transient_names (lower (name (normalize raw))))

  is_fixture_iff : (path : Text) → (is_fixture library path ≡ true) ↔ IsFixture path
  is_fixture_iff path =
      any_iff (λ part. Has fixture_markers (lower part)) (λ part. has fixture_markers (lower part))
        (λ part. has_iff fixture_markers (lower part)) (parts path)

  in_transient_dir_iff :
      (path : Text) → (in_transient_dir library path ≡ true) ↔ InTransientDir path
  in_transient_dir_iff path =
      any_iff (λ d. (path ≡ d) ⊎ Begins path (d ++ b'/' ∷ []))
        (λ d. text_eq path d || starts_with path (d ++ b'/' ∷ []))
        (λ d. ground (arith, text_eq_iff path d, starts_with_iff path (d ++ b'/' ∷ [])))
        transient_dirs

  is_violation_iff : (raw : Text) → (is_violation library raw ≡ true) ↔ IsTransient raw
  unfolding is_violation
  is_violation_iff raw =
      let path = normalize raw in
      guards_iff (is_fixture library path) (in_transient_dir library path)
        (has transient_names (lower (name path))) (IsFixture path) (InTransientDir path)
        (Has transient_names (lower (name path))) (is_fixture_iff path) (in_transient_dir_iff path)
        (has_iff transient_names (lower (name path)))

  Has-violations_from :
      (P : Text → Type 0) (iff : (raw : Text) → (is_violation library raw ≡ true) ↔ P raw)
      (paths : List Text) (p : Text)
      → Has (violations_from library paths) p ↔ (Has paths p × P p)
  Has-violations_from P iff [] p = ((λ h. absurd h), λ h. absurd h.0)
  Has-violations_from P iff (raw ∷ paths) p =
      let (found, kept) = Has-violations_from P iff paths p in
      elim (Bool-cases (is_violation library raw)) [
        | inl yes_it ↦ rw yes_it (
          (λ h. elim h [
            | inl e ↦ (inl e, subst P e ((iff raw).0 yes_it))
            | inr m ↦ (inr (found m).0, (found m).1)
          ]),
          λ (h, x). elim h [ inl e ↦ inl e | inr m ↦ inr (kept (m, x)) ],
        )
        | inr no_it ↦ rw no_it (
          (λ m. (inr (found m).0, (found m).1)),
          λ (h, x). elim h [
            | inl e ↦ cc (no_it, (iff raw).1 (subst P (sym e) x))
            | inr m ↦ kept (m, x)
          ],
        )
      ]

  -- The check reports, in ascending order and each once, the tracked files that are generated
  -- evidence by their directory or by their name, whatever its case, and have no part that marks a fixture.
  pub find_violations_iff :
      (paths : List Text)
      → IsSorted (find_violations library paths)
        × ((p : Text) → Has (find_violations library paths) p ↔ (Has paths p × IsTransient p))
  unfolding find_violations
  find_violations_iff paths = (
    collect-IsSorted (violations_from library paths),
    λ p.
        let (found, kept) = Has-violations_from IsTransient is_violation_iff paths p in
        let (into, back) = Has-collect (violations_from library paths) p in
        ((λ h. found (into h)), λ h. back (kept h)),
  )

  -- No path that git prints is generated evidence.
  abbrev pub HasNoEvidence : Text → Type 0
  HasNoEvidence raw = (p : Text) → Has (split 0 raw) p → p ≢ [] → ¬ IsTransient p

  status_iff : (paths : List Text) → (status library paths ≡ 0) ↔ ((p : Text) → ¬ Has paths p)
  status_iff [] = ((λ e p h. absurd h), λ n. refl)
  status_iff (x ∷ paths) = ((λ e p h. absurd (omega (arith, e))), λ n. absurd (n x (inl refl)))

  Has-tracked_from :
      (paths : List Text) (p : Text) → Has (tracked_from paths) p ↔ (Has paths p × (p ≢ []))
  Has-tracked_from [] p = ((λ h. absurd h), λ h. absurd h.0)
  Has-tracked_from (x ∷ paths) p = ground (arith, is_empty_iff x, Has-tracked_from paths p)

  -- The program exits with status 0 exactly if no path that git prints (between its null bytes,
  -- none of them empty) is generated evidence.
  pub main-HasNoEvidence : (raw : Text) → (main library raw ≡ 0) ↔ HasNoEvidence raw
  unfolding main tracked_files
  main-HasNoEvidence raw =
      let (exits, clean) = status_iff (find_violations library (tracked_files raw)) in
      let reported = (find_violations_iff (tracked_files raw)).1 in
      let tracked = λ (p : Text). Has-tracked_from (split 0 raw) p in
      (
        (λ e p h n bad. exits e p ((reported p).1 ((tracked p).1 (h, n), bad))),
        λ good. clean (λ p m.
            let (listed, bad) = (reported p).0 m in
            let (h, n) = (tracked p).0 listed in good p h n bad),
      )
