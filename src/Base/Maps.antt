-- ===== src/Base/Maps.antt =====
-- `BTreeMap` with texts for keys: its entries in ascending order of the keys.
use Prim.Native.Nat.Ordering.{lt, eq, gt}
use mathlib.Core.Path.{◌≡◌}
use mathlib.Core.Logic.{◌≢◌, ◌↔◌}
use mathlib.Core.Bool.{Bool, true, false}
use mathlib.Core.Option.{Option, none, some}
use mathlib.Core.List.{List, [], ◌∷◌}
use native.Mathlib.Omega.{arith}
use contract_conformance_tes.Base.Tests.{if◌then◌else◌}
use contract_conformance_tes.Base.Strings.{Text, text_eq, text_eq_iff}
use contract_conformance_tes.Base.Sets.{Has}
use contract_conformance_tes.Base.Order.{compare_text, compare_text_refl, compare_text-eq}

module _ {V : Type 0} where
  -- `map.insert(key, value)`: an entry at the key is replaced.
  unfoldable pub insert_entry : Text → V → List (Text × V) → List (Text × V)
  insert_entry key value [] = (key, value) ∷ []
  insert_entry key value ((k, v) ∷ entries) =
      let rest = insert_entry key value entries in
      elim (compare_text key k) [
        | lt ↦ (key, value) ∷ ((k, v) ∷ entries)
        | eq ↦ (key, value) ∷ entries
        | gt ↦ (k, v) ∷ rest
      ]

  -- The entries of a list, inserted from first to last.
  unfoldable pub insert_entries : List (Text × V) → List (Text × V) → List (Text × V)
  unfolding insert_entry
  insert_entries map [] = map
  insert_entries map ((key, value) ∷ entries) = insert_entries (insert_entry key value map) entries

  -- `map.get(name)`
  unfoldable pub get : List (Text × V) → Text → Option V
  get [] name = none
  get ((key, value) ∷ entries) name =
      let rest = get entries name in if text_eq key name then some value else rest

  -- `map.keys()`
  abbrev pub keys : List (Text × V) → List Text
  keys [] = []
  keys ((key, _) ∷ entries) = key ∷ keys entries

  abbrev pub is_known : Option V → Bool
  is_known none = false
  is_known (some _) = true

  pub is_known-get :
      (entries : List (Text × V)) (name : Text)
      → (is_known (get entries name) ≡ true) ↔ Has (keys entries) name
  unfolding get
  is_known-get [] name = ground arith
  is_known-get ((key, value) ∷ entries) name =
      ground (arith, text_eq_iff key name, is_known-get entries name)

  -- What an insertion leaves at its key, and at the other keys.
  pub get-insert_entry :
      (key : Text) (value : V) (entries : List (Text × V))
      → get (insert_entry key value entries) key ≡ some value
  unfolding get insert_entry
  get-insert_entry key value [] = ground (arith, text_eq_iff key key)
  get-insert_entry key value ((k, v) ∷ entries) = ground (
    arith,
    text_eq_iff key key,
    text_eq_iff k key,
    compare_text_refl key,
    get-insert_entry key value entries,
  )

  pub get-insert_entry_other :
      (key : Text) (value : V) (entries : List (Text × V)) (other : Text)
      → key ≢ other
      → get (insert_entry key value entries) other ≡ get entries other
  unfolding get insert_entry
  get-insert_entry_other key value [] other n = ground (arith, text_eq_iff key other)
  get-insert_entry_other key value ((k, v) ∷ entries) other n = ground (
    arith,
    text_eq_iff key other,
    text_eq_iff k other,
    compare_text-eq key k,
    get-insert_entry_other key value entries other n,
  )
