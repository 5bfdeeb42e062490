-- ===== src/Codec/Cases.antt =====
-- The tables of required cases and of their structure.
use contract_conformance_tes.Base.{true, false, Text, bytes, List, [], ◌∷◌}
use contract_conformance_tes.Codec.Matrix.{CaseShape}

abbrev pub required_cases : List Text
required_cases =
    bytes "http_json"
    ∷ bytes "http_messagepack"
    ∷ bytes "http_cbor"
    ∷ bytes "http_protobuf"
    ∷ bytes "http_raw"
    ∷ bytes "http_accept_weighted"
    ∷ bytes "http_accept_wildcard"
    ∷ bytes "tcp_legacy_ndjson_json"
    ∷ bytes "tcp_legacy_ndjson_messagepack"
    ∷ bytes "tcp_binary_json"
    ∷ bytes "tcp_binary_messagepack"
    ∷ bytes "tcp_binary_cbor"
    ∷ bytes "tcp_binary_protobuf"
    ∷ bytes "tcp_binary_raw"
    ∷ bytes "ws_text_json"
    ∷ bytes "ws_text_binary"
    ∷ bytes "ws_binary_json"
    ∷ bytes "ws_binary_messagepack"
    ∷ bytes "ws_binary_cbor"
    ∷ bytes "ws_binary_protobuf"
    ∷ bytes "ws_binary_raw"
    ∷ bytes "negative_unknown_codec_id"
    ∷ bytes "negative_empty_ws_binary"
    ∷ bytes "negative_http_request_media"
    ∷ bytes "negative_http_response_accept"
    ∷ bytes "negative_http_response_mismatch"
    ∷ bytes "negative_over_limit"
    ∷ bytes "negative_codec_not_allowed"
    ∷ bytes "negative_codec_name_alias"
    ∷ bytes "negative_codec_name_case"
    ∷ bytes "negative_codec_name_whitespace"
    ∷ bytes "negative_trailing_junk_messagepack"
    ∷ bytes "negative_trailing_junk_cbor"
    ∷ bytes "negative_trailing_junk_protobuf"
    ∷ bytes "negative_truncated_structured"
    ∷ bytes "negative_duplicate_control_field"
    ∷ bytes "negative_binary_semantic_extension"
    ∷ bytes "negative_raw_tcp_missing_control"
    ∷ bytes "negative_raw_ws_missing_control"
    ∷ bytes "negative_decompression_bomb"
    ∷ bytes "semantic_equivalence"
    ∷ bytes "raw_non_utf8"
    ∷ bytes "compression_separate"
    ∷ bytes "stream_codec_stability"
    ∷ []

abbrev pub required_case_shapes : List CaseShape
required_case_shapes =
    record {
      case_name = bytes "http_accept_weighted";
      transport = bytes "http";
      framing = bytes "native-message";
      codec = bytes "structured";
      wire_id = bytes "-";
      media_type = bytes "-";
      valid = true;
    }
    ∷ record {
      case_name = bytes "http_accept_wildcard";
      transport = bytes "http";
      framing = bytes "native-message";
      codec = bytes "structured";
      wire_id = bytes "-";
      media_type = bytes "-";
      valid = true;
    }
    ∷ record {
      case_name = bytes "negative_codec_name_alias";
      transport = bytes "metadata";
      framing = bytes "contract";
      codec = bytes "msgpack";
      wire_id = bytes "-";
      media_type = bytes "-";
      valid = false;
    }
    ∷ record {
      case_name = bytes "negative_codec_name_case";
      transport = bytes "metadata";
      framing = bytes "contract";
      codec = bytes "JSON";
      wire_id = bytes "-";
      media_type = bytes "-";
      valid = false;
    }
    ∷ record {
      case_name = bytes "negative_codec_name_whitespace";
      transport = bytes "metadata";
      framing = bytes "contract";
      codec = bytes " raw ";
      wire_id = bytes "-";
      media_type = bytes "-";
      valid = false;
    }
    ∷ record {
      case_name = bytes "negative_trailing_junk_messagepack";
      transport = bytes "all";
      framing = bytes "transport-specific";
      codec = bytes "messagepack";
      wire_id = bytes "2";
      media_type = bytes "application/msgpack";
      valid = false;
    }
    ∷ record {
      case_name = bytes "negative_trailing_junk_cbor";
      transport = bytes "all";
      framing = bytes "transport-specific";
      codec = bytes "cbor";
      wire_id = bytes "3";
      media_type = bytes "application/cbor";
      valid = false;
    }
    ∷ record {
      case_name = bytes "negative_trailing_junk_protobuf";
      transport = bytes "all";
      framing = bytes "transport-specific";
      codec = bytes "protobuf";
      wire_id = bytes "4";
      media_type = bytes "application/x-protobuf";
      valid = false;
    }
    ∷ record {
      case_name = bytes "negative_truncated_structured";
      transport = bytes "all";
      framing = bytes "transport-specific";
      codec = bytes "structured";
      wire_id = bytes "-";
      media_type = bytes "-";
      valid = false;
    }
    ∷ record {
      case_name = bytes "negative_duplicate_control_field";
      transport = bytes "all";
      framing = bytes "transport-specific";
      codec = bytes "structured";
      wire_id = bytes "-";
      media_type = bytes "-";
      valid = false;
    }
    ∷ record {
      case_name = bytes "negative_binary_semantic_extension";
      transport = bytes "all";
      framing = bytes "transport-specific";
      codec = bytes "structured";
      wire_id = bytes "-";
      media_type = bytes "-";
      valid = false;
    }
    ∷ record {
      case_name = bytes "negative_raw_tcp_missing_control";
      transport = bytes "tcp";
      framing = bytes "length-prefixed-32be+codec";
      codec = bytes "raw";
      wire_id = bytes "5";
      media_type = bytes "application/octet-stream";
      valid = false;
    }
    ∷ record {
      case_name = bytes "negative_raw_ws_missing_control";
      transport = bytes "websocket";
      framing = bytes "binary-message+codec";
      codec = bytes "raw";
      wire_id = bytes "5";
      media_type = bytes "application/octet-stream";
      valid = false;
    }
    ∷ record {
      case_name = bytes "negative_decompression_bomb";
      transport = bytes "all";
      framing = bytes "transport-specific";
      codec = bytes "structured";
      wire_id = bytes "-";
      media_type = bytes "-";
      valid = false;
    }
    ∷ record {
      case_name = bytes "semantic_equivalence";
      transport = bytes "all";
      framing = bytes "transport-specific";
      codec = bytes "structured";
      wire_id = bytes "-";
      media_type = bytes "-";
      valid = true;
    }
    ∷ record {
      case_name = bytes "compression_separate";
      transport = bytes "all";
      framing = bytes "transport-specific";
      codec = bytes "structured";
      wire_id = bytes "-";
      media_type = bytes "-";
      valid = true;
    }
    ∷ record {
      case_name = bytes "stream_codec_stability";
      transport = bytes "all";
      framing = bytes "streaming";
      codec = bytes "structured";
      wire_id = bytes "-";
      media_type = bytes "-";
      valid = true;
    }
    ∷ []
