-- ===== src/Lib.antt =====
-- A model of the Habitat state authority, the Python package src/habitat_state: the service that owns
-- objectives, wakes, activations, effects, governed changes and authority bindings in PostgreSQL,
-- keeps an append-only ledger of the agents' commands, and addresses evidence by its digest.
--
-- The parts, and the files that model them:
--   * Prelude, Table, Json: what the code takes from Python and PostgreSQL. An exception is a value
--     (Prelude.Results); a table with a text primary key is an association list (Table), whose laws
--     are in Table/Laws; a JSON value is `Json`, Python's `==` on it `py_eq`, and json.dumps is
--     Json/Dumps.
--   * Lifecycle (src/habitat_state/lifecycle.py): Lifecycle/Db has the tables of `migrate`,
--     Lifecycle/Transaction the transaction `Tx` (`with self._connect() as c`: it commits when the body
--     returns and rolls back when it raises), and `_fingerprint`, `_replay` and `_record`. Then a file
--     for each group of operations: Wakes, Objectives, Activations, Effects (with ProviderStates),
--     Guards, Runtime, Proposals, Changes, Capabilities, Claims, Resolve, Recovery, Authority,
--     Inspection, Boot (the report of `recover`). Each operation is a function of its arguments into
--     `Tx`, with the name of the method.
--     Transaction/Inversion, Rules and Frames are the lemmas on transactions that the proofs use.
--   * Domain (src/habitat_state/domain.py): the value types and the legal transitions.
--   * Store (src/habitat_state/store.py): versioned entities with their history, projections, and the
--     evidence references (Store/Bytes), and the restore of a backup of the shape that `backup` writes
--     (Store/Restore). Store/Runs is the step relation of the operations of a store without recovery
--     mode and reset authority, as both are by default, and Store/Log the abstract view of the
--     entities as an account of the rows.
--   * Protocol (src/habitat_state/protocol.py and change_role.py): Roles has who may call what,
--     Repository the interface of the repository as a record and `dispatch` over it, Handler the frame
--     from the peer to the answer, ChangeRole the service of one governed-change role.
--   * Ledger (src/habitat_state/repository.py): the command ledger and the evidence admissions.
--   * Evidence (src/habitat_state/evidence.py): envelopes, addresses and the reading of evidence.
--     Evidence/Objects is the adapter over the S3 client, which is a record of its operations, and
--     Evidence/Envelopes is put_envelope with the admissions of the ledger.
--   * Verified (src/habitat_state/repository.py): the operations of PostgresRepository that check
--     evidence before they call the lifecycle store or write the ledger. They are over the interface
--     EvidenceAuthority, the verification of a stored record with its law; Verified/Bound fills it from
--     Evidence. Operations, Activations, Commands and Recovery are the entry points, and Effects,
--     Changes and Packages the checks.
--
-- The choices of the model:
--   * Versions, times and counts are natural numbers; the overflow of bigint is not modelled. Clocks
--     (time.time, now() of the database) and identities (uuid4) are arguments.
--   * sha256(...).hexdigest() is a function parameter, and so are the S3 client, json.loads, the
--     publishing and verifying callbacks, and the exchange with another service.
--   * Transactions run one after another. FOR UPDATE SKIP LOCKED takes the locked rows as a parameter.
--     A SELECT without ORDER BY takes the first row of the list.
--   * An exception carries its class and a message in the source's words, without the values that are
--     formatted into it.
--   * A state outside an enumeration is `other` with its text. Text is ordered by code point. Numbers
--     with a fraction do not occur in requests.
--   * A Boolean counts as the integer it is in Python, in `as_int` and in `py_eq`. The comparison of a
--     jsonb column with a value is `py_eq`. A Boolean for `lease_seconds` or
--     `credential_key_version` of a claim is refused, where the code takes True for 1. The
--     put_evidence of a claim is an argument.
--   * Every loop is structural recursion; there is no fuel.
--
-- Not modelled: backup and schema_status of store.py, what its reset_for_test does to the bucket, the
-- reset_for_test of lifecycle.py, which only tests call, get_bound of repository.py, the migrations of
-- the schema and their archives beyond what the boot report reads, the socket servers, the composition
-- of the process (src/habitat_state/service.py), the qualification tools, the contract validators and
-- the Rust services, which write the tables effect_records and effect_attempts.
pub mod Prelude
pub mod Table
pub mod Json
pub mod Lifecycle
pub mod Domain
pub mod Store
pub mod Protocol
pub mod Ledger
pub mod Evidence
pub mod Verified
