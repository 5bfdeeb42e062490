-- ===== src/Server.antt =====
-- certification/zed-clients-pr75/src/lib.rs: the server that the tests of the async client run,
-- `server_once`, and the text that it sends, `response`. The socket is the list of what its reads
-- return, an empty one at the end of the stream; a list that ends is a read that is still waited
-- for.
pub mod Response
pub mod Request
pub mod Session
use contract_conformance_tes.Base.{
  ℕ, Bool, ◌||◌, if◌then◌else◌, Option, none, some, List, [], ◌∷◌, ◌++◌, any, Text, bytes, text_eq,
  is_empty, length,
}
use contract_conformance_tes.Base.Decimal.{decimal}

-- `[u8]::windows(4)`
unfoldable pub windows : Text → List Text
windows (a ∷ (b ∷ (c ∷ (d ∷ s)))) =
    let rest = windows (b ∷ (c ∷ (d ∷ s))) in (a ∷ b ∷ c ∷ d ∷ []) ∷ rest
windows _ = []

abbrev pub head_end : Text
head_end = bytes "\r\n\r\n"

-- `request.windows(4).any(|window| window == b"\r\n\r\n")`
unfoldable pub is_complete : Text → Bool
is_complete request = any (λ window. text_eq window head_end) (windows request)

-- The loop over the reads. `none`: the server still waits.
unfoldable pub read_request : Text → List Text → Option Text
read_request request [] = none
read_request request (chunk ∷ chunks) =
    let more = read_request (request ++ chunk) chunks in
    if is_empty chunk
    then some request
    else if is_complete (request ++ chunk)
    then some (request ++ chunk)
    else more

-- `response(status, body)`
unfoldable pub response : Text → Text → Text
response status body =
    bytes "HTTP/1.1 "
    ++ (status
        ++ (bytes "\r\nContent-Type: application/json\r\nContent-Length: "
            ++ (decimal (length body) ++ (bytes "\r\nConnection: close\r\n\r\n" ++ body))))
