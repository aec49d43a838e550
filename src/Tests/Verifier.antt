-- ===== src/Tests/Verifier.antt =====
-- Deposits that a verifier watches.
use spark_bridge_backend.Prelude.{
  ℕ, ◌≡◌, refl, ◌≢◌, true, false, Option, none, some, [], ◌∷◌, Bytes, bytes_eq,
}
use spark_bridge_backend.Prelude.Exec.{ok}
use spark_bridge_backend.Prelude.Rows.{find}
use spark_bridge_backend.Token.Identifier as Identifier
use spark_bridge_backend.Verifier.Types.{
  OutPoint, Texts, InnerAddress, DepositStatus, FeePayment, UserId, DepositAddrInfo,
  address_to_string, fee_to_string, to_db_format, from_db_format,
}
use spark_bridge_backend.Verifier.Messages.{
  FeeConfig, WatchSparkDepositRequest, IndexerNotifyRequest, BtcIndexerDepositStatus,
  SparkDepositStatus,
}
use spark_bridge_backend.Verifier.Tables.{Verifier}
use spark_bridge_backend.Verifier.Handlers.{watch_spark_deposit, notify_runes_deposit}
use spark_bridge_backend.Verifier.Clients.{Clients, Config}
use spark_bridge_backend.Verifier.Types.{split_once, fee_outpoint, is_bitcoin}
use spark_bridge_backend.Verifier.Types.Format.{from_db_format-to_db_format_deposit}
use spark_bridge_backend.Verifier.Handlers.Fees.{notify_runes_deposit-unpaid}
use spark_bridge_backend.Verifier.Handlers.Asking.{Call, serve, asking, Asked}
use spark_bridge_backend.Verifier.Handlers.Asked.{serve-Asked}
use spark_bridge_backend.Verifier.Handlers.Unpaid.{watch_spark_deposit-unpaid}

-- Numbers are written as one letter, an out point as two with a colon between.
abbrev letter : Bytes → Option ℕ
letter [] = none
letter (a ∷ text) = some a

abbrev texts : Texts
texts = record {
  print_address = λ a. a ∷ [];
  parse_address = letter;
  print_outpoint = λ o. o.txid ∷ 58 ∷ o.vout ∷ [];
  parse_outpoint = λ text. elim text [
    | txid ∷ colon ∷ vout ∷ _ ↦ some (record { txid = txid; vout = vout })
    | _ ↦ none
  ];
  parse_txid = letter;
  parse_u32 = letter;
  print_hash = λ h. h;
  print_uuid = λ a. a ∷ [];
  parse_uuid = letter;
  print_key = λ a. a ∷ [];
  parse_key = letter;
  print_x_only = λ a. a ∷ [];
  parse_x_only = letter;
}

abbrev libraries : Identifier.Libraries
libraries = record {
  hash_from_slice = λ bytes. some bytes;
  hash_from_str = λ text. some text;
  parse_hrp = λ text. some text;
  bech32m_encode = λ hrp_text bytes. none;
  bech32_decode = λ text. none;
}

-- Every request is delivered, every balance is there, and no transfer is.
abbrev clients : Clients (Unit {0})
clients = record {
  watch = λ request w. (true, w);
  verify_balance = λ request w.
      (some (record { deposit_status = SparkDepositStatus.confirmed; error_details = none }), w);
  verify_transfer = λ request w.
      (some (record { deposit_status = SparkDepositStatus.failed; error_details = none }), w);
  notify = λ notice w. (true, w);
}

abbrev fee_cfg : FeeConfig
fee_cfg = record { amount = 500; btc_address = 70 ∷ []; spark_address = 71 ∷ [] }

abbrev config : Config
config = record { identifier = 1; fee = some fee_cfg; network = Identifier.Network.bitcoin }

abbrev fee_outpoint_of : OutPoint
fee_outpoint_of = record { txid = 3; vout = 0 }

-- a deposit of runes whose fee is to be paid in bitcoin
abbrev deposit : DepositAddrInfo
deposit = record {
  dkg_share_id = 1;
  nonce = 9 ∷ [];
  deposit_address = InnerAddress.bitcoin_address 65;
  bridge_address = InnerAddress.spark_address (66 ∷ []);
  is_btc = true;
  deposit_amount = 1000;
  token = 82 ∷ [];
  sats_amount = none;
  outpoint = some (record { txid = 2; vout = 1 });
  fee_payment = some (FeePayment.btc fee_outpoint_of);
  fee_payment_status = DepositStatus.pending;
  confirmation_status = DepositStatus.pending;
  error_details = none;
}

abbrev watching : Verifier (Unit {0})
watching = record {
  dkg_share = 1 ∷ [];
  user_identifier =
      record { user_id = 5 ∷ []; dkg_share_id = 1; rune_id = 82 ∷ []; is_issuer = false } ∷ [];
  deposit_address = to_db_format texts deposit ∷ [];
  watched = [];
  notified = [];
  world = tt;
  faults = [];
}

abbrev fee_notice : BtcIndexerDepositStatus → IndexerNotifyRequest
fee_notice status = record {
  outpoint = fee_outpoint_of;
  request_id = 4;
  deposit_status = status;
  sats_amount = some 500;
  rune_id = none;
  rune_amount = none;
  error_details = none;
}

abbrev spark_request : WatchSparkDepositRequest
spark_request = record {
  request_id = 6;
  user_ids = record {
    user_id = UserId.uuid 5;
    dkg_share_id = 1;
    rune_id = 82 ∷ [];
    is_issuer = false;
  };
  nonce = 10 ∷ [];
  spark_address = 72 ∷ [];
  exit_address = 73 ∷ [];
  amount = 50;
  token_identifier = 7 ∷ [];
  fee_payment = some (FeePayment.spark (8 ∷ []));
}

from_db_format-to_db_format_deposit_example :
    from_db_format texts (to_db_format texts deposit) ≡ ok deposit
unfolding is_bitcoin split_once fee_outpoint
from_db_format-to_db_format_deposit_example =
    from_db_format-to_db_format_deposit texts deposit refl refl refl tt refl
      (3 ∷ [], 0 ∷ [], refl, refl)

notify_runes_deposit-unpaid_example :
    let r =
      notify_runes_deposit libraries texts clients config
        (fee_notice BtcIndexerDepositStatus.failed)
        watching in
    (r.1.watched ≡ []) × (r.1.notified ≡ []) × (r.0 ≢ ok tt)
notify_runes_deposit-unpaid_example =
    notify_runes_deposit-unpaid libraries texts clients config
      (fee_notice BtcIndexerDepositStatus.failed) watching refl refl

serve-Asked_example :
    Asked texts
      (asking fee_cfg (Call.notified (fee_notice BtcIndexerDepositStatus.confirmed)))
      watching
      (serve libraries texts clients config
        (Call.notified (fee_notice BtcIndexerDepositStatus.confirmed))
        watching)
serve-Asked_example =
    serve-Asked libraries texts clients config watching
      (Call.notified (fee_notice BtcIndexerDepositStatus.confirmed)) fee_cfg refl

watch_spark_deposit-unpaid_example :
    (watch_spark_deposit texts clients spark_request config watching).0 ≡ ok DepositStatus.confirmed
unfolding find to_db_format fee_to_string address_to_string bytes_eq
watch_spark_deposit-unpaid_example =
    watch_spark_deposit-unpaid texts clients Identifier.Network.bitcoin 1 spark_request fee_cfg
      (8 ∷ []) watching 73 none none refl refl refl refl refl (λ w. refl) (λ w. refl)
