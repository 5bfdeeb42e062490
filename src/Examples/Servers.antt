-- ===== src/Examples/Servers.antt =====
-- The server of the client tests on a request in two reads, and a response of those tests.
use contract_conformance_tes.Base.{
  ◌<◌, length, Begins-empty, ◌≡◌, ◌↔◌, refl, none, some, List, [], ◌∷◌, ◌++◌, map, Holds, Text,
  bytes, text_eq, arith,
}
use contract_conformance_tes.Server.{windows, head_end, is_complete, read_request, response}
use contract_conformance_tes.Base.Decimal.{digits, decimal}
use contract_conformance_tes.Server.Request.{
  concat, IsOpen, IsRead, read_request-IsOpen, read_request-IsRead,
}
use contract_conformance_tes.Server.Session.{Point, Session, Event, server_once, run_from, step}
use contract_conformance_tes.Server.Session.Quiet.{IsQuiet, IsDue, server_once-IsQuiet}
use contract_conformance_tes.Server.Session.Serves.{server_once-serves}
use contract_conformance_tes.Server.Session.Progress.{HasServed}
use contract_conformance_tes.Server.Response.{read_response, read_response-response}

-- The end of the head comes in two reads, and a third one is left.
abbrev first_reads : List Text
first_reads = bytes "GET /p HTTP/1.1\r\n\r" ∷ bytes "\n" ∷ []

abbrev reads : List Text
reads = first_reads ++ (bytes "late" ∷ [])

abbrev request : Text
request = bytes "GET /p HTTP/1.1\r\n\r\n"

reads-request : read_request [] reads ≡ some request
unfolding read_request is_complete windows text_eq
reads-request = refl

reads_twice : IsRead [] reads request
reads_twice = read_request-IsRead reads request reads-request

read_request-IsOpen_instance :
    (read_request [] first_reads ≡ none)
    ↔ (IsOpen first_reads × (¬ Holds (concat first_reads) head_end))
read_request-IsOpen_instance = read_request-IsOpen first_reads

not_found :
    response (bytes "404 Not Found") (bytes "{\"code\":1}")
    ≡ bytes
        "HTTP/1.1 404 Not Found\r\nContent-Type: application/json\r\nContent-Length: 10\r\nConnection: close\r\n\r\n{\"code\":1}"
unfolding response decimal digits
not_found = refl

read_response-response_example :
    read_response (response (bytes "404 Not Found") (bytes "{\"code\":1}"))
    ≡ some (bytes "404 Not Found", 10, bytes "{\"code\":1}")
read_response-response_example =
    read_response-response (bytes "404 Not Found") (bytes "{\"code\":1}") (omega arith)

-- A client that connects at 0 ms, three reads of which the last is not made, and a delay of 2 ms:
-- the write fails after 5 bytes.
abbrev slow_exchange : List Event
slow_exchange =
    Event.tick
    ∷ Event.connect
    ∷ (map Event.receive reads
        ++ (Event.proceed
            ∷ Event.proceed
            ∷ Event.tick
            ∷ Event.tick
            ∷ Event.proceed
            ∷ Event.fail 5
            ∷ []))

abbrev unavailable : Text
unavailable = response (bytes "503 Service Unavailable") (bytes "down")

slow_exchange-server_once :
    server_once (some unavailable) 2 slow_exchange
    ≡ record { clock = 3; point = Point.finished; seen_at = some 1; sent = bytes "HTTP/" }
unfolding server_once run_from step is_complete windows text_eq response
slow_exchange-server_once = refl

server_once-IsQuiet_example :
    IsQuiet (some unavailable) 2 (server_once (some unavailable) 2 slow_exchange)
server_once-IsQuiet_example = server_once-IsQuiet (some unavailable) 2 slow_exchange

-- A client that connects at 1 ms, with a turn and a millisecond between its reads and a read that
-- is not made; a sleep that is tried too early and ends late, and a connection that is not accepted.
abbrev opening : List Event
opening =
    Event.tick
    ∷ Event.receive (bytes "x")
    ∷ Event.connect
    ∷ Event.receive (bytes "GET /p HTTP/1.1\r\n\r")
    ∷ Event.proceed
    ∷ Event.tick
    ∷ Event.receive (bytes "\n")
    ∷ Event.receive (bytes "late")
    ∷ Event.tick
    ∷ []

abbrev waiting : List Event
waiting = Event.tick ∷ Event.proceed ∷ Event.tick ∷ Event.connect ∷ Event.tick ∷ []

abbrev closing : List Event
closing = Event.proceed ∷ Event.tick ∷ Event.proceed ∷ Event.proceed ∷ []

late_exchange-server_once :
    server_once (some unavailable) 2 (opening ++ (Event.proceed ∷ (waiting ++ closing)))
    ≡ record { clock = 7; point = Point.finished; seen_at = some 3; sent = unavailable }
unfolding server_once run_from step is_complete windows text_eq
late_exchange-server_once = refl

abbrev late_exchange : Session
late_exchange = server_once (some unavailable) 2 (opening ++ (Event.proceed ∷ (waiting ++ closing)))

server_once-serves_example : HasServed (some unavailable) 2 late_exchange × IsDue 2 late_exchange
server_once-serves_example =
    server_once-serves (some unavailable) 2 opening waiting closing request _ _ _ reads-request
      (omega arith) (omega arith)

-- The responses of `oversized_success_body_fails_before_json_decode` and
-- `non_success_status_is_preserved_as_api_error`.
abbrev oversized : Text
oversized =
    response (bytes "200 OK")
      (bytes "{\"versions\":[\"1.0.0\"],\"padding\":\"abcdefghijklmnopqrstuvwxyz\"}")

abbrev missing : Text
missing =
    response (bytes "404 Not Found") (bytes "{\"code\":\"missing\",\"message\":\"not found\"}")

-- The body over the limit of 16 bytes that the client sets is announced with 61 bytes.
is_announced_oversized :
    (body : Text) × (read_response oversized ≡ some (bytes "200 OK", 61, body)) × (16 < length body)
is_announced_oversized =
    let body = bytes "{\"versions\":[\"1.0.0\"],\"padding\":\"abcdefghijklmnopqrstuvwxyz\"}" in
    (body, read_response-response (bytes "200 OK") body (omega arith), omega arith)

is_announced_missing :
    (body : Text) × (read_response missing ≡ some (bytes "404 Not Found", 40, body))
is_announced_missing = (_, read_response-response (bytes "404 Not Found") _ (omega arith))

-- The clients of the first and the last test are never answered, in whatever order things happen.
never_answered :
    (events : List Event)
    → ((server_once none 2000 events).sent ≡ []) × ((server_once none 5000 events).sent ≡ [])
never_answered events = (
  Begins-empty (server_once none 2000 events).sent (server_once-IsQuiet none 2000 events).written,
  Begins-empty (server_once none 5000 events).sent (server_once-IsQuiet none 5000 events).written,
)
