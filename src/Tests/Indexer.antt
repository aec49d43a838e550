-- ===== src/Tests/Indexer.antt =====
-- Requests that the indexer watches.
use spark_bridge_backend.Prelude.{
  ℕ, ◌+◌, ◌-◌, ◌^◌, ◌≡◌, refl, ◌↔◌, true, Option, none, some, [], ◌∷◌, arith, Bytes, All,
}
use spark_bridge_backend.Prelude.Exec.{ok, err}
use spark_bridge_backend.Prelude.Rows.{update}
use spark_bridge_backend.Token.Identifier as Identifier
use spark_bridge_backend.Verifier.Types.{OutPoint}
use spark_bridge_backend.Indexer.Types.{
  Libraries, WatchRequestStatus, WatchRequestErrorDetails, WatchRequest, OutPointData,
  BlockchainInfo, BtcIndexerConfig, into_row, from_row,
}
use spark_bridge_backend.Indexer.Requests.{Indexer, Clients, has_id}
use spark_bridge_backend.Indexer.Rounds.{
  validate_deposit_transaction, process_watch_request, process_watch_requests,
}
use spark_bridge_backend.Indexer.Types.{parse_on_network}
use spark_bridge_backend.Indexer.Types.Format.{IsStored, from_row-into_row, from_row-into_row_wide}
use spark_bridge_backend.Indexer.Rounds.Valid.{Matches, validate_deposit_transaction_iff}
use spark_bridge_backend.Indexer.Rounds.Told.{IsTold}
use spark_bridge_backend.Indexer.Rounds.Verdicts.{process_watch_requests-IsTold}
use spark_bridge_backend.Indexer.Rounds.Timeout.{
  received, late_notice, timed_out, process_watch_request-notify_runes_deposit,
}
use spark_bridge_backend.Verifier.Types as Watcher
use spark_bridge_backend.Verifier.Tables.{Verifier}
use spark_bridge_backend.Verifier.Clients as Callees
use spark_bridge_backend.Verifier.Handlers.{notify_runes_deposit}
use spark_bridge_backend.Verifier.Clients.{VerifierError}

abbrev letter : Bytes → Option ℕ
letter [] = none
letter (a ∷ text) = some a

-- Numbers are written as one letter, an out point as two, and a date is its milliseconds.
abbrev texts : Libraries
texts = record {
  print_outpoint = λ o. o.txid ∷ o.vout ∷ [];
  parse_outpoint =
      λ text. elim text [ txid ∷ vout ∷ _ ↦ some (record { txid = txid; vout = vout }) | _ ↦ none ];
  print_address = λ a. a ∷ [];
  parse_address = letter;
  require_network = λ address network. some address;
  print_rune_id = λ a. a ∷ [];
  parse_rune_id = letter;
  print_url = λ a. a ∷ [];
  parse_url = letter;
  timestamp_millis = λ time. time;
  from_timestamp_millis = λ millis. some millis;
}

abbrev request : Option ℕ → WatchRequest
request rune_amount = record {
  id = 1;
  request_id = 2;
  outpoint = record { txid = 3; vout = 0 };
  btc_address = 65;
  rune_id = some 82;
  rune_amount = rune_amount;
  sats_amount = none;
  created_at = 1000;
  status = WatchRequestStatus.pending;
  error_details = none;
  callback_url = 90;
}

stored : (rune_amount : Option ℕ) → IsStored texts Identifier.Network.bitcoin (request rune_amount)
unfolding parse_on_network
stored rune_amount = record {
  outpoint = refl;
  btc_address = refl;
  rune_id = refl;
  created_at = refl;
  callback_url = refl;
}

abbrev config : BtcIndexerConfig
config = record { validation_timeout_millis = 500; confirmation_block_height_delta = 6 }

abbrev info : BlockchainInfo
info = record { block_height = 110 }

abbrev held : OutPointData
held = record {
  outpoint = record { txid = 3; vout = 0 };
  block_height = 100;
  rune_amounts = (82, 7) ∷ [];
  sats_amount = 546;
}

-- the chain with the output, and without it
abbrev chain : Option OutPointData → Clients (Unit {0})
chain found = record {
  get_blockchain_info = λ w. (some info, w);
  get_transaction_outpoint = λ outpoint w. (some found, w);
  send_notify_request = λ notice url w. (true, w);
  now = λ w. (2000, w);
  new_v4 = λ w. (5, w);
}

abbrev watching : Indexer (Unit {0})
watching = record {
  requests = into_row texts (request (some 7)) ∷ [];
  sent = [];
  world = tt;
  faults = [];
}

abbrev watcher_texts : Watcher.Texts
watcher_texts = record {
  print_address = λ a. a ∷ [];
  parse_address = letter;
  print_outpoint = λ o. o.txid ∷ o.vout ∷ [];
  parse_outpoint = λ text. none;
  parse_txid = letter;
  parse_u32 = letter;
  print_hash = λ h. h;
  print_uuid = λ a. a ∷ [];
  parse_uuid = letter;
  print_key = λ a. a ∷ [];
  parse_key = letter;
  print_x_only = λ a. a ∷ [];
  parse_x_only = letter;
}

abbrev libraries : Identifier.Libraries
libraries = record {
  hash_from_slice = λ bytes. some bytes;
  hash_from_str = λ text. some text;
  parse_hrp = λ text. some text;
  bech32m_encode = λ hrp_text bytes. none;
  bech32_decode = λ text. none;
}

abbrev clients : Callees.Clients (Unit {0})
clients = record {
  watch = λ request w. (true, w);
  verify_balance = λ request w. (none, w);
  verify_transfer = λ request w. (none, w);
  notify = λ notice w. (true, w);
}

abbrev watcher : Callees.Config
watcher = record { identifier = 1; fee = none; network = Identifier.Network.bitcoin }

abbrev idle : Verifier (Unit {0})
idle = record {
  dkg_share = [];
  user_identifier = [];
  deposit_address = [];
  watched = [];
  notified = [];
  world = tt;
  faults = [];
}

abbrev no_text : WatchRequestErrorDetails → Bytes
no_text details = []

abbrev one_letter : ℕ → Bytes
one_letter n = n ∷ []

from_row-into_row_example :
    from_row texts (into_row texts (request (some 7))) Identifier.Network.bitcoin
    ≡ ok (request (some 7))
from_row-into_row_example =
    from_row-into_row texts Identifier.Network.bitcoin (request (some 7)) (stored (some 7)) tt
      (omega arith)

from_row-into_row_wide_example :
    from_row texts (into_row texts (request (some (2 ^ 63)))) Identifier.Network.bitcoin
    ≡ ok (request (some (2 ^ 63 + (2 ^ 128 - 2 ^ 64))))
from_row-into_row_wide_example =
    from_row-into_row_wide texts Identifier.Network.bitcoin (request (some (2 ^ 63))) (2 ^ 63)
      (stored (some (2 ^ 63))) tt refl (omega arith) (omega arith)

validate_deposit_transaction_iff_example :
    ((validate_deposit_transaction config (request (some 7)) held info).0.watch_request_status
      ≡ WatchRequestStatus.confirmed)
    ↔ Matches config (request (some 7)) held info
validate_deposit_transaction_iff_example =
    validate_deposit_transaction_iff config (request (some 7)) held info

process_watch_requests-IsTold_example :
    All
      (IsTold texts Identifier.Network.bitcoin config (chain (some held)) watching.requests)
      (process_watch_requests texts Identifier.Network.bitcoin config
        (chain (some held))
        watching).1.sent
process_watch_requests-IsTold_example =
    process_watch_requests-IsTold texts Identifier.Network.bitcoin config (chain (some held))
      watching refl

process_watch_request-notify_runes_deposit_example :
    let t =
      (process_watch_request texts Identifier.Network.bitcoin config
        (chain none)
        (request (some 7))
        watching).1 in
    (t.requests ≡ update (has_id 1) timed_out watching.requests)
    × (t.sent ≡ (90, late_notice (request (some 7))) ∷ [])
    × (notify_runes_deposit libraries watcher_texts clients watcher
          (received one_letter no_text (late_notice (request (some 7))))
          idle
        ≡ (err VerifierError.validation, idle))
process_watch_request-notify_runes_deposit_example =
    process_watch_request-notify_runes_deposit libraries watcher_texts clients watcher one_letter
      no_text texts Identifier.Network.bitcoin config (chain none) (request (some 7)) watching info
      idle refl refl refl (omega arith)
