-- ===== src/Codec/Run.antt =====
-- `run` and `main`. The matrix that the build includes is an argument; the line that a success
-- prints is the two counts that it shows, and `main` is the exit status.
pub mod Exit
pub mod Extend
use contract_conformance_tes.Base.{ℕ, length, Result, ok, err, exit_status, ◌>>=◌, ◌>>◌, Text}
use contract_conformance_tes.Codec.Matrix.{canonical_codecs, CheckError}
use contract_conformance_tes.Codec.Parse.{parse_matrix}
use contract_conformance_tes.Codec.Validate.{validate}

unfoldable pub run : Text → Result (ℕ × ℕ) CheckError
run matrix = do rows ← parse_matrix matrix; validate rows; ok (length rows, length canonical_codecs)

unfoldable pub main : Text → ℕ
main matrix = exit_status (run matrix)
