-- ===== src/Lib.antt =====
-- The programs of the contract conformance tests, modelled and verified.
--
-- The repository certifies contracts of other repositories. Its Rust code is four programs and a
-- test server, and its Python code has the reference model of the contract suite and two checks
-- of the repository itself; they do not call one another:
--
--   Store       src/deep_tests/contract_model.py: a store of values with idempotent commands.
--               `apply` is in three parts, the check of the key, `change` by the kind of the command
--               and `record_outcome`; the dictionaries are in Base/Dicts. `Replay` is `replay`,
--               `Trace` is `generate_valid_trace`. `Digests` and `Randomizer` are what they use of
--               json, hashlib and random, parameters with no law assumed but, in Trace/Accepts, that
--               `choice` returns one of the names that it is given, and, in Contents, that the JSON
--               of a snapshot determines what it shows, where names and keys are sorted and each
--               stands once. `Log` is the abstract specification of the store, a log of outcomes,
--               `Contents` a store without its order, as a quotient, and `Suite` has the tests of
--               the model in tests/, at any inputs.
--   Hygiene     scripts/check_generated_evidence_hygiene.py: no tracked file may be generated
--               evidence. `PathLibrary` is what it uses of pathlib, and `str.lower`.
--   Repository  scripts/verify_repository.py: the checks of the repository itself, which end at the
--               first fault. `Patterns` has `search` and `fullmatch` by derivatives, `Expressions`
--               its regular expressions, `Lines` the splitting of lines, `Rules` what is demanded;
--               `Forms`, `Secrets` and `Uses` say in words what a pinned action, a marker or a
--               credential, and the actions of a workflow are. `Checkout` is what the script sees of
--               json, pathlib and the file system; its `read_text` and `content` are texts whose
--               ends of lines Python has read.
--   Generation  evidence/common-desktop-platform-v2/delta-workspace/infra-recovery/src/generation.rs:
--               a deployment is a numbered generation with a digest. `GenerationState` stages,
--               activates, commits and rolls back; `DeploymentJournalEntry` decides after a crash
--               what to do, by `recovery_action`. `Types` has the data types, `Identity`, `State`
--               and `Journal` the operations under their Rust names, and the modules below them
--               the theorems. The two parts meet in State/Deployment.
--   Codec       proofs/ores-stack-57/tools/binary_payload_codec_check.rs: reads a tab-separated
--               matrix of conformance cases and checks it against tables. `Matrix` and `Cases` are
--               its types and tables, `Parse` is `parse_matrix`, `Validate` is `validate` and
--               `require_case_shape`, `Run` is `run` and `main`.
--   Policy      tools/verify_my_ai_170_policy.rs: searches a policy for required and for forbidden
--               texts.
--   Zpkg        canaries/ores-cli-zpkg-kind/src and certification/ores-cli-zpkg-kind-pr281/src: two
--               copies of an audit of a package manifest, `Canary` and `Certified`. `Platform` is
--               what they use of the file system and of the crates toml and serde_json; it is a
--               parameter, with no law assumed.
--   Server      certification/zed-clients-pr75/src/lib.rs: the server that the tests of an async
--               client run. `Server` has the loop over the reads of a socket and the response,
--               `Session` the task of `server_once` as a state machine under a clock, of which
--               that loop is a part. `Quiet` is on what it has sent at any time, `Progress` and
--               `Serves` on how it comes to its end.
--
-- Generation/Suite is
-- evidence/common-desktop-platform-v2/source-snapshots/recovery_conformance.rs: tests of a crate
-- that is not part of the repository, so a suite over any implementation of what they call.
-- Generation/Suite/Spec says what such an implementation has to do; the tests of infra-recovery
-- are the suite at its own generation.rs.
--
-- `Base` has shared names, `Result` with its bind for `?`, `str`, and the ordered sets and maps.
-- Base/Rules describes a check that stops at the first fault by the list of its rules, in order,
-- each with its error; Codec/Validate/Rules, Policy/Faults and Repository/Rules are such lists.
-- `Examples` has tests and the theorems at concrete inputs: Examples/Matrix is the matrix that the
-- checker includes, Examples/Variants the checker's own tests on variants of it,
-- Examples/Conformance and Examples/Generations the tests of infra-recovery, Examples/Audits those
-- of the two audits, Examples/Servers runs of the server, Examples/Stores, Examples/Suites and
-- Examples/Snapshots tests of the reference model, Examples/Json the JSON of a snapshot,
-- Examples/Evidence and Examples/Repositories the two checks on small inputs.
--
-- How the code is read. A text is the list of its UTF-8 bytes. `Result<A, E>` is `Result A E`; an
-- error is a constructor that carries what its message shows. A method on `&mut self` returns the
-- new state with its result. Numbers are natural numbers; the code adds only to line numbers, so
-- no width is modelled. In the reference model a method returns the store with what it returns or
-- raises, `duplicate_every` and seeds are not negative, and texts are taken to be proper Unicode,
-- whose order by bytes is that of Python. A `BTreeMap` is the list of its entries and a `BTreeSet`
-- that of its elements, in ascending order (Base/Maps, Base/Sets). Every loop is a recursion on
-- the list that it walks and every function is total; the one use of fuel is printing a number in
-- decimal, in Base/Decimal, where the number plus one is enough. The task of the server runs on a
-- list of events, the outside's choices in their order, of any kind and length: a read may return
-- any bytes, also more than the 1024 of its buffer. The clock counts milliseconds.
--
-- Not modelled: serde, the wording of messages, the async client and what its tests ask of it, the
-- stub crates of lock-workspace, and the scripts and programs in TypeScript, JavaScript and (but
-- for the three above) Python. The file system is taken not to change during a run of
-- verify_repository.py; the two calls of an audit have answers that no law relates, so that it may
-- change between them. A write of the server is one step.
mod Base
pub mod Generation
pub mod Codec
pub mod Policy
pub mod Zpkg
pub mod Server
pub mod Store
pub mod Hygiene
pub mod Repository
mod Examples
