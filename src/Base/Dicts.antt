-- ===== src/Base/Dicts.antt =====
-- `dict` and `set` of Python with texts: the entries in the order of their insertion, each key
-- once. A set is read by membership only.
use mathlib.Core.Path.{◌≡◌, ap}
use mathlib.Core.Bool.{not, ◌&&◌, ◌||◌}
use mathlib.Core.Option.{none, some}
use mathlib.Core.List.{List, [], ◌∷◌}
use native.Mathlib.Omega.{arith}
use contract_conformance_tes.Base.Tests.{if◌then◌else◌}
use contract_conformance_tes.Base.Strings.{Text, text_eq, text_eq_iff}
use contract_conformance_tes.Base.Sets.{has}
use contract_conformance_tes.Base.Maps.{get}

module _ {V : Type 0} where
  -- `entries[key] = value`
  unfoldable pub put : Text → V → List (Text × V) → List (Text × V)
  put key value [] = (key, value) ∷ []
  put key value ((k, v) ∷ entries) =
      let rest = put key value entries in
      if text_eq k key then (k, value) ∷ entries else (k, v) ∷ rest

  -- `del entries[key]`
  unfoldable pub remove : Text → List (Text × V) → List (Text × V)
  remove key [] = []
  remove key ((k, v) ∷ entries) =
      let rest = remove key entries in if text_eq k key then rest else (k, v) ∷ rest

  pub get-put :
      (key : Text) (value : V) (entries : List (Text × V)) (name : Text)
      → get (put key value entries) name
        ≡ (if text_eq key name then some value else get entries name)
  unfolding get put
  get-put key value [] name = ground arith
  get-put key value ((k, v) ∷ entries) name = ground (
    arith,
    text_eq_iff key name,
    text_eq_iff k key,
    text_eq_iff k name,
    get-put key value entries name,
  )

  pub get-remove :
      (key : Text) (entries : List (Text × V)) (name : Text)
      → get (remove key entries) name ≡ (if text_eq key name then none else get entries name)
  unfolding get remove
  get-remove key [] name = ground arith
  get-remove key ((k, v) ∷ entries) name = ground (
    arith,
    text_eq_iff key name,
    text_eq_iff k key,
    text_eq_iff k name,
    get-remove key entries name,
  )

-- `names.add(name)`
unfoldable pub add : Text → List Text → List Text
add name names = if has names name then names else name ∷ names

-- `names.discard(name)`, and `names.remove(name)` of a name that is there
unfoldable pub discard : Text → List Text → List Text
discard name [] = []
discard name (x ∷ names) =
    let rest = discard name names in if text_eq x name then rest else x ∷ rest

pub has-add :
    (name : Text) (names : List Text) (x : Text)
    → has (add name names) x ≡ (text_eq name x || has names x)
unfolding add has
has-add name names x =
    let same = λ (e : name ≡ x). ap (has names) e in ground (arith, text_eq_iff name x, same)

pub has-discard :
    (name : Text) (names : List Text) (x : Text)
    → has (discard name names) x ≡ (not (text_eq name x) && has names x)
unfolding discard has
has-discard name [] x = ground arith
has-discard name (y ∷ names) x =
    ground
      (arith, text_eq_iff y name, text_eq_iff name x, text_eq_iff y x, has-discard name names x)
