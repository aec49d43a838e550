-- ===== src/Lib.antt =====
-- The Spark bridge backend moves runes between bitcoin and Spark. A gateway keeps the tables of
-- users, deposits and utxos; verifiers hold the shares of its keys and watch deposits. This library
-- models the logic of both, from the Rust code of the repository.
--
-- The parts and their files:
--   crates/frost/src/types.rs, errors.rs: Frost/Types.antt, the requests, states and errors.
--   crates/frost/src/signer.rs: Frost/Signer.antt, the handlers of a verifier (dkg_round_1,
--     dkg_round_2, dkg_finalize, sign_round_1, sign_round_2) on a state with its two storages and its
--     locked shares. Frost/Signer/Calls.antt makes a sequence of requests of them, and Stages, Nonces,
--     Locks and Restart beside it are about such sequences.
--   crates/frost/src/aggregator.rs: Frost/Aggregator.antt, Aggregator/Replies.antt and
--     Aggregator/Signing.antt, the flows of the gateway (run_dkg_flow, run_signing_flow,
--     get_public_key_package) over verifiers that may answer anything. Replies/Exchange,
--     Replies/Agreement, Handing, Finalize, Keys, Signing/Session and Signing/Verified are about these.
--   gateway/crates/local_db_store/src/schemas: Gateway/Types.antt, Gateway/Responses.antt,
--     Gateway/Tables.antt (deposit_address, user_identifier) and Gateway/Utxos.antt, with a table as a
--     list of rows and a query as a function on it; its primary key, its unique columns and its
--     references are checked as the migrations declare them.
--   gateway/crates/deposit_verification/src/aggregator.rs: Gateway/Verification.antt
--     (verify_runes_deposit, notify_runes_deposit, notify_spark_deposit, the deletion of a pending
--     bridge, the health check); Verification/Status, Notification, Registration and Deletion are about it.
--     Responses/Unanimity, Utxos/Selection, Utxos/Enough,
--     Utxos/Stored and Types/Format are about the tables.
--   crates/token-identifier/src/token_metadata.rs (and the reader of crates/lrc20/src/token_metadata.rs):
--     Token/Metadata.antt, Token/Cursor.antt, the bytes of the metadata of a token and the identifier
--     computed from it; Metadata/Layout and Metadata/Identifier are about these.
--   crates/token-identifier/src/lib.rs: Token/Identifier.antt, a token identifier as bytes and as text;
--     Identifier/Address is about its text.
--   crates/spark-invoice/src/proto.rs: Spark/Proto.antt, the wire format of protobuf as the crate writes
--     and reads it; Proto/Varint, Proto/Reads, Proto/Fields and Proto/Amounts are about it.
--   crates/spark-invoice/src/lib.rs: Spark/Invoice.antt, the fields of an invoice, and Invoice/Hash.antt,
--     the invoice itself and its hash; Invoice/Payments, Ending, OneField, Valid and RoundTrip are about
--     the fields.
--   crates/spark-address/src/lib.rs: Spark/Address.antt, the payload and the text of an address, with
--     the fields of an invoice inside; Address/Payload and Address/RoundTrip are about it.
--   verifier/crates/local_db_store/src/schemas (deposit_address.rs, user_identifier.rs):
--     Verifier/Types.antt and Verifier/Tables.antt, with tables as those of the gateway; Types/Format is
--     about the rows.
--   verifier/crates/server/src/handlers (watch_runes_deposit.rs, watch_spark_deposit.rs,
--     notify_runes_deposit.rs): Verifier/Messages.antt, Verifier/Clients.antt and Verifier/Handlers.antt,
--     what a verifier does for the gateway's requests and for the notices of the indexer; Handlers/Fees,
--     Silent, Steps, Asked and Unpaid are about these, and Handlers/Asking.antt makes one of them of a call.
--   btc_indexer/crates (local_db_store/src/schemas/requests.rs, server/src/handlers/watch.rs,
--     indexer/src/indexer.rs): Indexer/Types.antt, Indexer/Requests.antt with the watch handler, and
--     Indexer/Rounds.antt, a round over the pending requests; Types/Format, Rounds/Valid, Told, Pending,
--     Verdicts and Timeout are about these, the last about the verifier that is told, too.
--   Prelude holds what these share: byte strings, bits, maps in the order of their keys, rows of a
--     table, recursion along the order of the numbers, and Exec, the methods that change a state and
--     may fail. Tests applies the theorems to concrete runs.
--
-- How the code is represented. A method that changes the state and may fail is a function to a result
-- beside the new state: what was written before an error stays written. A storage is a table of the
-- state, and `faults` says of each round trip to the database to come whether it fails, so a theorem
-- for all states is one for all failures. Calls that run at once under `join_all` are taken in the
-- order of the list. A Uuid, an identifier and an out point are numbers; what the cryptographic
-- library makes is a byte string; the texts of errors are left out.
--
-- A loop over a list is recursion on it, the loop that writes a varint is recursion along the order of
-- the numbers, and a loop over the fields of a message runs on one round for each byte that is left,
-- which is enough since a round that goes on takes a byte at least: it is among the results that the
-- rounds are not used up.
--
-- Parameters: frost_secp256k1_tr (Frost/Scheme.antt), the verifiers as the gateway sees them and
-- the delivery to its flow processor, the clients of a verifier and of the indexer, its clock, the
-- texts of bitcoin addresses, out points, Uuids and keys with what parses, SHA-256, bech32 and hex,
-- the dates of chrono, and the forms of public keys, texts and network magics that the bitcoin
-- library and the language define.
--
-- Not modelled: HTTP and gRPC transport, configuration, connection pools, logging, the flow
-- processor, the indexer's copy of the transactions of the blocks and its clients, the transactions
-- of LRC20 and the hashing of Spark's messages. A handler runs to its end before the next: what two
-- of them do between each other's calls of the database is not modelled, but for the rows that
-- another transaction has locked.
pub mod Prelude
pub mod Frost
pub mod Gateway
pub mod Token
pub mod Tests
pub mod Spark
pub mod Verifier
pub mod Indexer
