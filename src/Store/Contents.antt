-- ===== src/Store/Contents.antt =====
-- What a store holds, whatever the order in which it came: stores up to their contents, which is
-- what a snapshot shows.
use mathlib.Core.Quot
use mathlib.Core.Quot.{Quot, Quot-set}
use contract_conformance_tes.Base.{
  ℕ, ◌≡◌, ◌↔◌, inl, inr, sym, ap, ◌∙◌, Bool-cases, List, Text, get, has, has_iff, Has-collect,
  collect, collect-IsSorted, IsSorted, keys,
}
use contract_conformance_tes.Store.{ReferenceStore, Digests, snapshot}
use contract_conformance_tes.Store.Snapshot.{
  get-sorted_items, sorted_items-IsSorted, snapshot_canonical,
}

-- The same revision, the same value of each entity, and the same tombstones.
pub record SameContents (s t : ReferenceStore) : Type 0 where
  pub revision : s.revision ≡ t.revision
  pub values : (e : Text) → get s.values e ≡ get t.values e
  pub tombstones : (e : Text) → has s.tombstones e ≡ has t.tombstones e

-- The text of a snapshot determines what it shows, where names and keys are in ascending order,
-- each once.
abbrev pub IsFaithful : Digests → Type 0
IsFaithful digests =
    (m n : ℕ) (xs ys : List Text) (a b : List (Text × Text))
    → IsSorted xs
    → IsSorted ys
    → IsSorted (keys a)
    → IsSorted (keys b)
    → digests.dumps_snapshot m xs a ≡ digests.dumps_snapshot n ys b
    → (m ≡ n) × (xs ≡ ys) × (a ≡ b)

has-collect : (xs : List Text) (x : Text) → has (collect xs) x ≡ has xs x
has-collect xs x = elim (Bool-cases (has xs x)) [
  | inl found ↦
      (has_iff (collect xs) x).1 ((Has-collect xs x).1 ((has_iff xs x).0 found)) ∙ sym found
  | inr missing ↦ elim (Bool-cases (has (collect xs) x)) [
    | inl found ↦ cc ((has_iff xs x).1 ((Has-collect xs x).0 ((has_iff (collect xs) x).0 found)))
    | inr absent ↦ absent ∙ sym missing
  ]
]

module _ (digests : Digests) where
  shows : (s t : ReferenceStore) → SameContents s t → snapshot digests s ≡ snapshot digests t
  shows s t same = snapshot_canonical digests s t same.revision same.values same.tombstones

  -- Stores up to their contents, and the snapshot of one.
  abbrev pub Contents : Type 0
  Contents = Quot SameContents

  Text_set : IsSet Text
  Text_set = hlevel

  pub shown : Contents → Text
  shown = Quot.lift Text_set (snapshot digests) shows

  module _ (faithful : IsFaithful digests) where
    reads_back : (s t : ReferenceStore) → snapshot digests s ≡ snapshot digests t → SameContents s t
    unfolding snapshot
    reads_back s t h =
        let (revision, names, entries) =
          faithful _ _ _ _ _ _ (collect-IsSorted s.tombstones) (collect-IsSorted t.tombstones)
            (sorted_items-IsSorted s.values) (sorted_items-IsSorted t.values) h in
        record {
          revision = revision;
          values = λ e.
              sym (get-sorted_items s.values e)
              ∙ ap (λ m. get m e) entries
              ∙ get-sorted_items t.values e;
          tombstones = λ e.
              sym (has-collect s.tombstones e)
              ∙ ap (λ xs. has xs e) names
              ∙ has-collect t.tombstones e;
        }

    -- If the text of a snapshot determines what it shows, for names and keys in ascending order and
    -- each once, two stores have the same snapshot exactly if they have the same revision, the same values and the same tombstones, whatever
    -- the order in which these came.
    pub snapshot_iff :
        (s t : ReferenceStore) → (snapshot digests s ≡ snapshot digests t) ↔ SameContents s t
    snapshot_iff s t = (reads_back s t, shows s t)

    -- A snapshot shows all of the contents: those with one snapshot are the same.
    pub shown-injective : (a b : Contents) → shown a ≡ shown b → a ≡ b
    unfolding shown
    shown-injective =
        Quot.ind (λ a x y i b h. Quot-set a b (x b h) (y b h) i)
          (λ s.
            Quot.ind (λ b x y i h. Quot-set (Quot.mk s) b (x h) (y h) i)
              (λ t h. Quot.sound (reads_back s t h)))
