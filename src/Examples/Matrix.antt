-- ===== src/Examples/Matrix.antt =====
-- The matrix that the build includes, conformance/binary-payload-codecs.v1.tsv of
-- proofs/ores-stack-57.
use contract_conformance_tes.Base.{[], ◌∷◌, ◌++◌, Text, bytes}

-- A line and what follows it.
infixr 60 ◌↵◌
abbrev ◌↵◌ : Text → Text → Text
line ↵ rest = line ++ (b'\n' ∷ rest)

abbrev pub checked_in : Text
checked_in =
    bytes "case\ttransport\tframing\tcodec\twire_id\tmedia_type\tvalid\texpectation"
    ↵ bytes
        "http_json\thttp\tnative-message\tjson\t1\tapplication/json\ttrue\trequest Content-Type and response Accept/Content-Type agree with operation contract"
    ↵ bytes
        "http_messagepack\thttp\tnative-message\tmessagepack\t2\tapplication/msgpack\ttrue\tdirect MessagePack bytes; no JSON-text or base64 intermediary"
    ↵ bytes
        "http_cbor\thttp\tnative-message\tcbor\t3\tapplication/cbor\ttrue\tdirect CBOR bytes; no JSON-text or base64 intermediary"
    ↵ bytes
        "http_protobuf\thttp\tnative-message\tprotobuf\t4\tapplication/x-protobuf\ttrue\tgenerated projection bytes then shared semantic validation"
    ↵ bytes
        "http_raw\thttp\tnative-message\traw\t5\tapplication/octet-stream\ttrue\tonly for operation with explicit binary semantic representation; HTTP route/request lifecycle supplies operation and correlation control"
    ↵ bytes
        "http_accept_weighted\thttp\tnative-message\tstructured\t-\t-\ttrue\tchoose highest-quality operation-admitted representation the runtime can produce; q=0 is unacceptable"
    ↵ bytes
        "http_accept_wildcard\thttp\tnative-message\tstructured\t-\t-\ttrue\twildcard or absent Accept resolves deterministically to operation default/admitted codec and emitted Content-Type states the actual codec"
    ↵ bytes
        "tcp_legacy_ndjson_json\ttcp\tndjson\tjson\t1\tapplication/json\ttrue\tlegacy JSON compatibility only"
    ↵ bytes
        "tcp_legacy_ndjson_messagepack\ttcp\tndjson\tmessagepack\t2\tapplication/msgpack\tfalse\tNDJSON is JSON-only"
    ↵ bytes
        "tcp_legacy_length_json\ttcp\tlength-prefixed-json\tjson\t1\tapplication/json\ttrue\tlegacy compatibility framing; payload is JSON and has no codec byte"
    ↵ bytes
        "tcp_binary_json\ttcp\tlength-prefixed-32be+codec\tjson\t1\tapplication/json\ttrue\tframe payload starts with codec id then typed RPC envelope encoded as JSON"
    ↵ bytes
        "tcp_binary_messagepack\ttcp\tlength-prefixed-32be+codec\tmessagepack\t2\tapplication/msgpack\ttrue\tframe payload starts with codec id then typed RPC envelope encoded as MessagePack"
    ↵ bytes
        "tcp_binary_cbor\ttcp\tlength-prefixed-32be+codec\tcbor\t3\tapplication/cbor\ttrue\tframe payload starts with codec id then typed RPC envelope encoded as CBOR"
    ↵ bytes
        "tcp_binary_protobuf\ttcp\tlength-prefixed-32be+codec\tprotobuf\t4\tapplication/x-protobuf\ttrue\tframe payload starts with codec id then generated Protobuf control envelope; shared semantic validation follows projection decode"
    ↵ bytes
        "tcp_binary_raw\ttcp\tlength-prefixed-32be+codec\traw\t5\tapplication/octet-stream\ttrue\traw body bytes remain inside/after typed RPC control metadata carrying protocol version operation key request/correlation id and message kind; bare opaque body is not generic RPC"
    ↵ bytes
        "ws_text_json\twebsocket\ttext-message\tjson\t1\tapplication/json\ttrue\tlegacy JSON envelope text message"
    ↵ bytes
        "ws_text_binary\twebsocket\ttext-message\tmessagepack\t2\tapplication/msgpack\tfalse\tbinary codecs must not be UTF-8/base64 coerced into text messages"
    ↵ bytes
        "ws_binary_json\twebsocket\tbinary-message+codec\tjson\t1\tapplication/json\ttrue\tbyte 0 codec id; remaining bytes contain typed RPC envelope encoded as JSON"
    ↵ bytes
        "ws_binary_messagepack\twebsocket\tbinary-message+codec\tmessagepack\t2\tapplication/msgpack\ttrue\tbyte 0 codec id; remaining bytes contain typed RPC envelope encoded as MessagePack"
    ↵ bytes
        "ws_binary_cbor\twebsocket\tbinary-message+codec\tcbor\t3\tapplication/cbor\ttrue\tbyte 0 codec id; remaining bytes contain typed RPC envelope encoded as CBOR"
    ↵ bytes
        "ws_binary_protobuf\twebsocket\tbinary-message+codec\tprotobuf\t4\tapplication/x-protobuf\ttrue\tbyte 0 codec id; remaining bytes contain generated Protobuf control envelope"
    ↵ bytes
        "ws_binary_raw\twebsocket\tbinary-message+codec\traw\t5\tapplication/octet-stream\ttrue\tbinary message preserves opaque body bytes exactly but typed call/data control metadata remains mandatory for operation routing and correlation"
    ↵ bytes
        "negative_unknown_codec_id\ttcp\tlength-prefixed-32be+codec\tunknown\t255\t-\tfalse\tfail before handler dispatch and discard poisoned pooled connection"
    ↵ bytes
        "negative_empty_ws_binary\twebsocket\tbinary-message+codec\tunknown\t-\t-\tfalse\tbinary application message must contain codec-id byte"
    ↵ bytes
        "negative_http_request_media\thttp\tnative-message\tunknown\t-\tapplication/x-unknown\tfalse\tHTTP 415 before handler dispatch"
    ↵ bytes
        "negative_http_response_accept\thttp\tnative-message\tunknown\t-\tapplication/x-unknown\tfalse\tHTTP 406 when no requested response representation can be produced"
    ↵ bytes
        "negative_http_response_mismatch\thttp\tnative-message\tjson\t1\tapplication/json\tfalse\tclient rejects response whose actual Content-Type differs from negotiated codec"
    ↵ bytes
        "negative_over_limit\ttcp\tlength-prefixed-32be+codec\traw\t5\tapplication/octet-stream\tfalse\treject declared/received frame before expensive decode or allocation"
    ↵ bytes
        "negative_codec_not_allowed\twebsocket\tbinary-message+codec\tcbor\t3\tapplication/cbor\tfalse\tknown codec still fails when operation allowed_codecs excludes it"
    ↵ bytes
        "negative_codec_name_alias\tmetadata\tcontract\tmsgpack\t-\t-\tfalse\tdigest-bound metadata accepts only canonical codec names; convenience aliases fail closed"
    ↵ bytes
        "negative_codec_name_case\tmetadata\tcontract\tJSON\t-\t-\tfalse\tdigest-bound metadata is not case-folded; runtime HTTP media-type matching is a separate case-insensitive concern"
    ↵ bytes
        "negative_codec_name_whitespace\tmetadata\tcontract\t raw \t-\t-\tfalse\tdigest-bound metadata is not trimmed before canonical-name admission"
    ↵ bytes
        "negative_trailing_junk_messagepack\tall\ttransport-specific\tmessagepack\t2\tapplication/msgpack\tfalse\tdecoder must consume the complete structured payload and reject a valid value followed by trailing bytes"
    ↵ bytes
        "negative_trailing_junk_cbor\tall\ttransport-specific\tcbor\t3\tapplication/cbor\tfalse\tdecoder must consume the complete structured payload and reject a valid value followed by trailing bytes"
    ↵ bytes
        "negative_trailing_junk_protobuf\tall\ttransport-specific\tprotobuf\t4\tapplication/x-protobuf\tfalse\tgenerated projection decoder/admission bridge rejects unconsumed trailing bytes or otherwise proves exact message framing before semantic validation"
    ↵ bytes
        "negative_truncated_structured\tall\ttransport-specific\tstructured\t-\t-\tfalse\ttruncated JSON MessagePack CBOR or Protobuf fails before handler dispatch"
    ↵ bytes
        "negative_duplicate_control_field\tall\ttransport-specific\tstructured\t-\t-\tfalse\tduplicate or ambiguous protocol version operation key request id message kind or codec metadata fails closed instead of last-wins decoding"
    ↵ bytes
        "negative_binary_semantic_extension\tall\ttransport-specific\tstructured\t-\t-\tfalse\tMessagePack/CBOR values outside authored TypeSpec plus JSON-Schema domain such as non-string map keys unsupported tags byte strings or non-finite numbers do not create new operation semantics"
    ↵ bytes
        "negative_raw_tcp_missing_control\ttcp\tlength-prefixed-32be+codec\traw\t5\tapplication/octet-stream\tfalse\topaque raw bytes without typed operation/correlation/message-kind control metadata are not dispatchable generic RPC"
    ↵ bytes
        "negative_raw_ws_missing_control\twebsocket\tbinary-message+codec\traw\t5\tapplication/octet-stream\tfalse\topaque raw binary message without typed operation/correlation/message-kind control metadata is not dispatchable generic RPC"
    ↵ bytes
        "negative_decompression_bomb\tall\ttransport-specific\tstructured\t-\t-\tfalse\tpost-decompression byte ceiling aborts before unbounded allocation or handler dispatch even when encoded payload is within its own ceiling"
    ↵ bytes
        "semantic_equivalence\tall\ttransport-specific\tstructured\t-\t-\ttrue\tJSON MessagePack CBOR and Protobuf representations produce equivalent admitted semantic value when supported"
    ↵ bytes
        "raw_non_utf8\tall\tbinary-capable\traw\t5\tapplication/octet-stream\ttrue\tpreserve NUL 0xff invalid UTF-8 and newline bytes without transcoding while retaining required control metadata on stateful transports"
    ↵ bytes
        "compression_separate\tall\ttransport-specific\tstructured\t-\t-\ttrue\tcontent-encoding/compression is negotiated separately from payload codec and enforces both encoded and decoded byte ceilings"
    ↵ bytes
        "stream_codec_stability\tall\tstreaming\tstructured\t-\t-\ttrue\tstream keeps negotiated codec for its lifetime unless an explicit future renegotiation contract exists"
    ↵ []
