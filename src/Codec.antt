-- ===== src/Codec.antt =====
-- proofs/ores-stack-57/tools/binary_payload_codec_check.rs: the checker of the matrix of binary
-- payload codecs. `Matrix` has its types, `Cases` its tables, `Parse` reads the tab-separated file,
-- `Validate` checks the rows, `Run` is the program.
pub mod Matrix
pub mod Cases
pub mod Parse
pub mod Validate
pub mod Run
