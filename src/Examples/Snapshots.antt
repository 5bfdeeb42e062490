-- ===== src/Examples/Snapshots.antt =====
-- Two stores with the same contents, and the JSON of their snapshot.
use contract_conformance_tes.Base.{
  ◌≡◌, ◌↔◌, refl, List, [], ◌∷◌, Text, bytes, insert_entry, collect, place, compare_text,
}
use contract_conformance_tes.Base.Decimal.{decimal, digits}
use contract_conformance_tes.Examples.Json.{json, json-IsFaithful}
use contract_conformance_tes.Store.{ReferenceStore, snapshot, sorted_items}
use contract_conformance_tes.Store.Contents.{SameContents, snapshot_iff}

abbrev store : List (Text × Text) → ReferenceStore
store values = record {
  values = values;
  tombstones = bytes "c" ∷ [];
  revision = 3;
  dedupe = [];
  history = [];
}

abbrev forth : ReferenceStore
forth = store ((bytes "a", bytes "one") ∷ (bytes "b", bytes "two") ∷ [])

abbrev back : ReferenceStore
back = store ((bytes "b", bytes "two") ∷ (bytes "a", bytes "one") ∷ [])

snapshot_iff_example : (snapshot json forth ≡ snapshot json back) ↔ SameContents forth back
snapshot_iff_example = snapshot_iff json json-IsFaithful forth back

json-forth :
    snapshot json forth
    ≡ bytes "{\"revision\":3,\"tombstones\":[\"c\"],\"values\":{\"a\":\"one\",\"b\":\"two\"}}"
unfolding snapshot sorted_items insert_entry collect place compare_text decimal digits
json-forth = refl
