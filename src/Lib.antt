-- ===== src/Lib.antt =====
-- SyndDB: an application writes to SQLite, and its changesets are sequenced, signed, published in
-- batches and applied again by validators, which sign messages for settlement. This library models
-- the sequencing, the wire formats, the validation and the key bootstrap, as pure functions on
-- explicit state.
--
-- How the parts interact. The sequencer's inbox hands COSE messages to the batcher, which collects
-- them, builds a signed CborBatch and publishes it through a transport. Validators list the batches,
-- fetch messages, check their signatures, apply them to a replica and record their progress; what
-- cannot be applied waits until a snapshot comes. Applications exchange bridge messages through the
-- inbound queue and the outbound monitor; validators keep signatures for relayers. A key is
-- registered on the chain by the bootstrap state machine before a service starts; the contract that
-- admits it checks an attestation token, and a relayer sends registrations and withdrawals for others. A monitor hands the events of a contract to a handler.
--
-- Files and code:
--   Prelude            shared names, Boolean tests on numbers, lists, Result
--   Shared/Bytes       bytes and big-endian numbers
--   Shared/Decimal     numbers and texts of the standard library, on bytes
--   Shared/BatchInfo   crates/synddb-shared/src/types/batch.rs (Filename: the names of batch files)
--   Shared/Cbor        crates/synddb-shared/src/types/cbor: Error (error.rs, message.rs), Crypto
--                      (verify.rs), Cose (cose_helpers.rs, message.rs), Batch (batch.rs); CoseLaws and
--                      BatchLaws hold the theorems
--   Shared/Convert     crates/synddb-shared/src/types/cbor/convert.rs
--   Shared/Message     crates/synddb-shared/src/types/message.rs
--   Sequencer/Inbox         crates/synddb-sequencer/src/inbox.rs
--   Sequencer/MessageQueue  crates/synddb-sequencer/src/messages/queue.rs
--   Sequencer/Batcher       crates/synddb-sequencer/src/batcher.rs, transport/traits.rs
--   Sequencer/LocalTransport  crates/synddb-sequencer/src/transport/local.rs
--   Sequencer/Outbound      crates/synddb-sequencer/src/messages/outbound.rs
--   Validator/BatchIndex    crates/synddb-validator/src/sync/batch_index.rs
--   Validator/Error         crates/synddb-validator/src/error.rs
--   Validator/Rules         crates/synddb-validator/src/rules/mod.rs
--   Validator/Store         crates/synddb-validator/src/state/store.rs
--   Validator/Applier       crates/synddb-validator/src/apply/applier.rs
--   Validator/Audit         crates/synddb-validator/src/apply/audit.rs
--   Validator/Sync          crates/synddb-validator/src/validator.rs, sync/verifier.rs
--   Validator/SyncBatched   crates/synddb-validator/src/validator.rs (sync_to_head_batched)
--   Validator/SyncLoop      crates/synddb-validator/src/validator.rs (run_with_callbacks, detect_gap)
--   Validator/BatchLoop     crates/synddb-validator/src/validator.rs (run_batched)
--   Validator/SignatureStore  crates/synddb-validator/src/bridge/signature_store.rs
--   Validator/Sqlite        what the validator uses of the rusqlite, zstd and ciborium crates
--   Bootstrap               crates/synddb-bootstrap/src/state_machine.rs, config.rs, error.rs
--   Attestation             contracts/stylus/attestation-verifier/src/lib.rs: Base64, Jwt and Json read
--                           the token, Pkcs1 and Precompiles check RSA signatures, Verifier is
--                           verify_attestation_proof, Admin the calls of the owner
--   Relayer                 crates/synddb-relayer/src: Config (config.rs), Submitter (submitter.rs), Handlers
--                           (handlers.rs), Withdrawal (withdrawal.rs)
--   Client                  crates/synddb-client/src: Retry (retry.rs), Recovery (recovery.rs), Sender (sender.rs)
--   ChainMonitor            crates/synddb-chain-monitor/src/monitor.rs, event_store.rs (Subscription: the
--                           WebSocket loop)
--
-- State and operations. A function of a model has the name of the Rust function; a method that
-- changes its receiver returns the new state with its answer. `?` is bind on Result. A task that
-- loops over a channel or a poll is a step function over events or environments: Batcher.run over
-- the commands and ticks it receives, run_with_callbacks over the rounds. An Env record holds what
-- the clock, the network and the writes to the validator's own stores answer in a step.
--
-- Parameters. Crypto, Coset, Codec and Ciborium stand for the k256, sha2, sha3, coset, hex and
-- ciborium crates, Sqlite for rusqlite, zstd and the CBOR readers of payloads, the Codec of the local
-- transport for zstd, Tools for the key manager, zstd and hex as the inbox uses them, Services for the clients of the bootstrap, Vm for the
-- precompiles, the ABI decoder and keccak256 as the contract uses them,
-- Chain and Services of the relayer for the contracts, the HTTP client and the clock. Laws
-- that a theorem needs of them are named hypotheses (CosetLaws, CiboriumLaws, ConvertLaws, Inverts), and each
-- such theorem is applied to a concrete instance in a Tests module.
--
-- Numbers, bounds and fuel. Words are native numbers with the wrap-around written out (u64_mod).
-- Binary search halves its range, so the length of the listing is fuel enough, as it is for the
-- rounds of a batched sync; sync_from takes the rounds left as fuel, meant to exceed every sequence
-- that the fetcher has; retry loops recurse on the attempts left; the search for a
-- JSON key moves on with each step, so the length of the text is fuel enough; the decimal text of a u64 has at most 20 digits; a wait for a confirmation polls once a second
-- or less often, so two polls more than the seconds of its timeout are enough.
--
-- Not modelled: logging, metrics, sleeps and serialization derived by serde; error texts, except
-- those of the validator that decide whether an error is a schema mismatch; the files behind
-- restore_snapshot; HTTP handlers, the cloud transports, the capture of changesets by the client, the Solidity contracts and the test tooling. A hash map is an association list where its order is not observed.
pub mod Prelude
pub mod Shared
pub mod Sequencer
pub mod Validator
pub mod Bootstrap
pub mod Attestation
pub mod ChainMonitor
pub mod Client
pub mod Relayer
