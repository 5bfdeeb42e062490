-- ===== src/Examples/Json.antt =====
-- An instance of `dumps_snapshot`: the JSON of a snapshot, with the keys of each dictionary sorted,
-- for texts without control characters and characters beyond ASCII. Only the quotation mark and
-- the backslash are escaped.
use contract_conformance_tes.Base.{
  ℕ, ◌≡◌, ◌||◌, ◌==◌, ◌∙◌, refl, sym, ap, Bool, if◌then◌else◌, List, [], ◌∷◌, ◌++◌, All, Text,
  bytes, IsSorted, keys, collect, collect-IsSorted, Has-collect, set_eq-eq, set_eq_iff, arith,
}
use contract_conformance_tes.Base.Decimal.{
  decimal, value_from, value_from-decimal, IsDigit, decimal-IsDigit,
}
use contract_conformance_tes.Store.{Digests, sorted_items}
use contract_conformance_tes.Store.Contents.{IsFaithful}
use contract_conformance_tes.Store.Snapshot.{get-sorted_items, keys-sorted_items, same_keys-eq}

abbrev is_escaped : ℕ → Bool
is_escaped b = b == b'"' || b == b'\\'

-- A string behind its first quotation mark, and a rest.
abbrev string : Text → Text → Text
string [] rest = b'"' ∷ rest
string (b ∷ s) rest =
    let later = string s rest in if is_escaped b then b'\\' ∷ (b ∷ later) else b ∷ later

abbrev more_names : List Text → Text → Text
more_names [] rest = b']' ∷ rest
more_names (name ∷ names) rest = b',' ∷ (b'"' ∷ string name (more_names names rest))

abbrev array : List Text → Text → Text
array [] rest = b']' ∷ rest
array (name ∷ names) rest = b'"' ∷ string name (more_names names rest)

abbrev more_entries : List (Text × Text) → Text
more_entries [] = bytes "}}"
more_entries ((key, value) ∷ entries) =
    b',' ∷ (b'"' ∷ string key (b':' ∷ (b'"' ∷ string value (more_entries entries))))

abbrev object : List (Text × Text) → Text
object [] = bytes "}}"
object ((key, value) ∷ entries) =
    b'"' ∷ string key (b':' ∷ (b'"' ∷ string value (more_entries entries)))

abbrev behind_number : List Text → List (Text × Text) → Text
behind_number tombstones values =
    bytes "\"tombstones\":[" ++ array tombstones (bytes ",\"values\":{" ++ object values)

abbrev dumps : ℕ → List Text → List (Text × Text) → Text
dumps revision tombstones values =
    bytes "{\"revision\":"
    ++ (decimal revision ++ (b',' ∷ behind_number tombstones (sorted_items values)))

abbrev pub json : Digests
json = record {
  dumps_intent = λ entity_id kind value. entity_id;
  dumps_snapshot = dumps;
  sha256 = λ body. body;
}

string-injective : (s t a b : Text) → string s a ≡ string t b → (s ≡ t) × (a ≡ b)
string-injective [] [] a b h = ground (arith, h)
string-injective [] (y ∷ t) a b h = ground (arith, h)
string-injective (x ∷ s) [] a b h = ground (arith, h)
string-injective (x ∷ s) (y ∷ t) a b h = ground (arith, h, string-injective s t a b)

more_names-injective :
    (xs ys : List Text) (a b : Text) → more_names xs a ≡ more_names ys b → (xs ≡ ys) × (a ≡ b)
more_names-injective [] [] a b h = ground (arith, h)
more_names-injective [] (y ∷ ys) a b h = ground (arith, h)
more_names-injective (x ∷ xs) [] a b h = ground (arith, h)
more_names-injective (x ∷ xs) (y ∷ ys) a b h = ground (
  arith,
  h,
  string-injective x y (more_names xs a) (more_names ys b),
  more_names-injective xs ys a b,
)

array-injective : (xs ys : List Text) (a b : Text) → array xs a ≡ array ys b → (xs ≡ ys) × (a ≡ b)
array-injective [] [] a b h = ground (arith, h)
array-injective [] (y ∷ ys) a b h = ground (arith, h)
array-injective (x ∷ xs) [] a b h = ground (arith, h)
array-injective (x ∷ xs) (y ∷ ys) a b h = ground (
  arith,
  h,
  string-injective x y (more_names xs a) (more_names ys b),
  more_names-injective xs ys a b,
)

-- One member in front of others.
member-injective :
    (k v j w a b : Text)
    → string k (b':' ∷ (b'"' ∷ string v a)) ≡ string j (b':' ∷ (b'"' ∷ string w b))
    → (k ≡ j) × (v ≡ w) × (a ≡ b)
member-injective k v j w a b h =
    let (same, rest) =
      string-injective k j (b':' ∷ (b'"' ∷ string v a)) (b':' ∷ (b'"' ∷ string w b)) h in
    let (value, more) = string-injective v w a b (ground (arith, rest)) in (same, value, more)

more_entries-injective : (a b : List (Text × Text)) → more_entries a ≡ more_entries b → a ≡ b
more_entries-injective [] [] h = refl
more_entries-injective [] ((k, v) ∷ b) h = ground (arith, h)
more_entries-injective ((k, v) ∷ a) [] h = ground (arith, h)
more_entries-injective ((k, v) ∷ a) ((j, w) ∷ b) h =
    let (key, value, rest) =
      member-injective k v j w (more_entries a) (more_entries b) (ground (arith, h)) in
    let entries = more_entries-injective a b rest in λ i. (key i, value i) ∷ entries i

object-injective : (a b : List (Text × Text)) → object a ≡ object b → a ≡ b
object-injective [] [] h = refl
object-injective [] ((k, v) ∷ b) h = ground (arith, h)
object-injective ((k, v) ∷ a) [] h = ground (arith, h)
object-injective ((k, v) ∷ a) ((j, w) ∷ b) h =
    let (key, value, rest) =
      member-injective k v j w (more_entries a) (more_entries b) (ground (arith, h)) in
    let entries = more_entries-injective a b rest in λ i. (key i, value i) ∷ entries i

number-injective :
    (m n a b : Text)
    → All IsDigit m
    → All IsDigit n
    → m ++ (b',' ∷ a) ≡ n ++ (b',' ∷ b)
    → (m ≡ n) × (a ≡ b)
number-injective [] [] a b p q h = ground (arith, h)
number-injective [] (y ∷ n) a b p q h = ground (arith, h)
number-injective (x ∷ m) [] a b p q h = ground (arith, h)
number-injective (x ∷ m) (y ∷ n) a b p q h = ground (arith, h, number-injective m n a b)

behind-injective : (front a b : Text) → front ++ a ≡ front ++ b → a ≡ b
behind-injective [] a b h = h
behind-injective (x ∷ front) a b h = behind-injective front a b (ground (arith, h))

-- `sort_keys` leaves sorted keys alone.
collect-sorted : (xs : List Text) → IsSorted xs → collect xs ≡ xs
collect-sorted xs h =
    set_eq-eq (collect xs) xs
      ((set_eq_iff (collect xs) xs (collect-IsSorted xs) h).1 (Has-collect xs))

sorted_items-sorted : (a : List (Text × Text)) → IsSorted (keys a) → sorted_items a ≡ a
sorted_items-sorted a h = sym (
    same_keys-eq a (sorted_items a) (sym (keys-sorted_items a ∙ collect-sorted (keys a) h)) h
      (λ name. sym (get-sorted_items a name)))

pub json-IsFaithful : IsFaithful json
json-IsFaithful m n xs ys a b names_x names_y keys_a keys_b h =
    let (digits, behind) =
      number-injective (decimal m) (decimal n) (behind_number xs (sorted_items a))
        (behind_number ys (sorted_items b)) (decimal-IsDigit m) (decimal-IsDigit n)
        (behind-injective (bytes "{\"revision\":") _ _ h) in
    let (names, rest) =
      array-injective xs ys _ _ (behind-injective (bytes "\"tombstones\":[") _ _ behind) in
    let entries =
      object-injective (sorted_items a) (sorted_items b)
        (behind-injective (bytes ",\"values\":{") _ _ rest) in
    (
      sym (value_from-decimal m) ∙ ap (value_from 0) digits ∙ value_from-decimal n,
      names,
      sym (sorted_items-sorted a keys_a) ∙ entries ∙ sorted_items-sorted b keys_b,
    )
