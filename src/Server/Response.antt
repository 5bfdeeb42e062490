-- ===== src/Server/Response.antt =====
-- The response of the server, read back.
use contract_conformance_tes.Base.{
  ℕ, ◌≡◌, ◌≢◌, ◌==◌, refl, if◌then◌else◌, Option, none, some, [], ◌∷◌, ◌++◌, All, Text, bytes,
  length, arith,
}
use contract_conformance_tes.Base.Decimal.{
  decimal, value_from, value_from-decimal, IsDigit, decimal-IsDigit,
}
use contract_conformance_tes.Server.{response}

-- The text behind a prefix, if it begins with that.
abbrev strip_prefix : Text → Text → Option Text
strip_prefix [] s = some s
strip_prefix (b ∷ t) [] = none
strip_prefix (b ∷ t) (a ∷ s) = let rest = strip_prefix t s in if a == b then rest else none

-- The text in front of the first byte of a kind, and the text behind it.
abbrev split_once : ℕ → Text → Text × Text
split_once sep [] = ([], [])
split_once sep (b ∷ s) =
    let (front, back) = split_once sep s in if b == sep then ([], s) else (b ∷ front, back)

-- A reader of the three header lines: the status, the number of `Content-Length`, the body.
read_body : Text → ℕ → Text → Option (Text × ℕ × Text)
read_body status number behind = elim (strip_prefix (bytes "\nConnection: close\r\n\r\n") behind) [
  | none ↦ none
  | some body ↦ some (status, number, body)
]

read_length : Text → Text → Option (Text × ℕ × Text)
read_length status fields =
    elim (strip_prefix (bytes "\nContent-Type: application/json\r\nContent-Length: ") fields) [
      | none ↦ none
      | some number ↦
          let (digits, behind) = split_once b'\r' number in
          read_body status (value_from 0 digits) behind
    ]

pub read_response : Text → Option (Text × ℕ × Text)
read_response s = elim (strip_prefix (bytes "HTTP/1.1 ") s) [
  | none ↦ none
  | some line ↦ let (status, fields) = split_once b'\r' line in read_length status fields
]

split_once-append :
    (sep : ℕ) (s t : Text) → All (λ b. b ≢ sep) s → split_once sep (s ++ (sep ∷ t)) ≡ (s, t)
split_once-append sep [] t h = ground arith
split_once-append sep (b ∷ s) t (n, h) = rw (split_once-append sep s t h) (ground arith)

unbroken : (s : Text) → All IsDigit s → All (λ b. b ≢ b'\r') s
unbroken [] h = tt
unbroken (b ∷ s) (d, h) = ((λ e. omega arith), unbroken s h)

-- The parts of the response behind the status, and behind the length.
abbrev closing : Text → Text
closing body = bytes "\nConnection: close\r\n\r\n" ++ body

abbrev fields_of : Text → Text
fields_of body =
    bytes "\nContent-Type: application/json\r\nContent-Length: "
    ++ (decimal (length body) ++ (b'\r' ∷ closing body))

read_length-fields_of :
    (status body : Text) → read_length status (fields_of body) ≡ some (status, length body, body)
unfolding read_length read_body
read_length-fields_of status body =
    rw
      (
        split_once-append b'\r' (decimal (length body)) (closing body)
            (unbroken _ (decimal-IsDigit (length body))),
        value_from-decimal (length body),
      )
      refl

-- A reader of the header lines gets the status, the length of the body and the body back from a
-- response, if the status holds no carriage return.
pub read_response-response :
    (status body : Text)
    → All (λ b. b ≢ b'\r') status
    → read_response (response status body) ≡ some (status, length body, body)
unfolding read_response response
read_response-response status body h =
    rw (split_once-append b'\r' status (fields_of body) h) (read_length-fields_of status body)
