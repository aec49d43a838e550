-- ===== src/Gateway/Types.antt =====
-- The data of gateway/crates/local_db_store/src/schemas and of
-- gateway/crates/deposit_verification/src: a Uuid, an out point, a bitcoin address and a verifier's
-- id are numbers, texts are byte strings, and the texts of errors are left out.
pub mod Format
use spark_bridge_backend.Prelude.{
  ℕ, zero, suc, ◌+◌, ◌-◌, ◌*◌, ◌/◌, ◌%◌, ◌^◌, ◌≤◌, ◌<◌, String, ◌≡◌, refl, sym, ap, ◌∙◌, ◌≢◌, ◌↔◌,
  ◌⊎◌, inl, inr, Bool, true, false, not, ◌&&◌, ◌||◌, Option, none, some, List, [], ◌∷◌, ◌++◌, map,
  arith, ltb, leb, ◌==◌, if◌then◌else◌, ==_iff, ==_refl, Bool-cases, Option-cases, is_none, is_some,
  Bytes, bytes_eq, bytes_eq_refl, bytes_eq_sound, All, length, get_elem?, take, drop, length-append,
  length-drop, take-append, drop-append, leb→le, ltb→lt,
}
use spark_bridge_backend.Prelude.Map.{Map}
use spark_bridge_backend.Prelude.Exec.{Result, ok, err}

pub data DbError : Type 0 where
  bad_request not_found invalid_data decode_error unable_to_retrieve_connection : DbError

pub data DepositVerificationError : Type 0 where
  invalid_request flow_processor_error http_error not_found invalid_data_error :
      DepositVerificationError
  db_error : DbError → DepositVerificationError
  failed_to_check_status_of_verifier failed_to_check_health_of_deposit_verifier :
      ℕ → DepositVerificationError

pub data InnerAddress : Type 0 where
  spark_address : Bytes → InnerAddress
  bitcoin_address : ℕ → InnerAddress

pub data DepositStatus : Type 0 where
  created waiting_for_confirmation confirmed failed : DepositStatus

pub record VerifiersResponses : Type 0 where
  pub responses : Map DepositStatus

pub record DepositAddrInfo : Type 0 where
  pub dkg_share_id : ℕ
  pub nonce : Bytes
  pub deposit_address : InnerAddress
  pub bridge_address : Option InnerAddress
  pub is_btc : Bool
  pub amount : ℕ
  pub requested_amount : ℕ
  pub confirmation_status : VerifiersResponses

pub record DbDepositAddrInfo : Type 0 where
  pub dkg_share_id : ℕ
  pub nonce : Bytes
  pub deposit_address : Bytes
  pub bridge_address : Option Bytes
  pub is_btc : Bool
  pub amount : ℕ
  pub requested_amount : ℕ
  pub confirmation_status : VerifiersResponses

pub data UtxoStatus : Type 0 where
  pending confirmed spent : UtxoStatus

pub record Utxo : Type 0 where
  pub outpoint : ℕ
  pub btc_address : ℕ
  pub rune_amount : ℕ
  pub rune_id : Bytes
  pub status : UtxoStatus
  pub sats_amount : ℕ

-- a row of gateway.utxo
pub record UtxoRow : Type 0 where
  pub outpoint : Bytes
  pub btc_address : Bytes
  pub rune_amount : ℕ
  pub rune_id : Bytes
  pub status : UtxoStatus
  pub sats_amount : ℕ

-- a row of gateway.user_identifier
pub record DbUserIds : Type 0 where
  pub user_id : Bytes
  pub dkg_share_id : ℕ
  pub rune_id : Bytes
  pub is_issuer : Bool

pub data UserId : Type 0 where
  uuid public_key x_only_public_key : ℕ → UserId

pub record UserIds : Type 0 where
  pub user_id : UserId
  pub dkg_share_id : ℕ
  pub rune_id : Bytes
  pub is_issuer : Bool

pub data FeePayment : Type 0 where
  btc : ℕ → FeePayment
  spark : Bytes → FeePayment

pub record WatchRunesDepositRequest : Type 0 where
  pub request_id : ℕ
  pub user_ids : UserIds
  pub nonce : Bytes
  pub amount : ℕ
  pub btc_address : ℕ
  pub bridge_address : Bytes
  pub outpoint : ℕ
  pub fee_payment : Option FeePayment

pub record VerifyRunesDepositRequest : Type 0 where
  pub request_id : ℕ
  pub btc_address : ℕ
  pub bridge_address : Bytes
  pub outpoint : ℕ
  pub fee_payment : Option FeePayment

pub record NotifyRunesDepositRequest : Type 0 where
  pub verifier_id : ℕ
  pub request_id : ℕ
  pub outpoint : ℕ
  pub sats_amount : ℕ
  pub status : DepositStatus
  pub error_details : Option Bytes

pub record NotifySparkDepositRequest : Type 0 where
  pub verifier_id : ℕ
  pub request_id : ℕ
  pub spark_address : Bytes
  pub status : DepositStatus
  pub error_details : Option Bytes

-- what is sent to the flow processor
pub data FlowMessage : Type 0 where
  bridge_runes exit_spark : Bytes → FlowMessage

-- `Display` and `FromStr` of bitcoin::Address and OutPoint, and `FromStr` of Uuid, PublicKey and
-- XOnlyPublicKey, which are not part of the repository.
pub record Texts : Type 0 where
  pub print : ℕ → Bytes
  pub parse : Bytes → Option ℕ
  pub print_outpoint : ℕ → Bytes
  pub parse_outpoint : Bytes → Option ℕ
  pub parse_uuid : Bytes → Option ℕ
  pub parse_key : Bytes → Option ℕ
  pub parse_x_only : Bytes → Option ℕ

unfoldable pub is_bitcoin : InnerAddress → Bool
is_bitcoin (InnerAddress.spark_address addr) = false
is_bitcoin (InnerAddress.bitcoin_address addr) = true

unfoldable pub to_spark_address : InnerAddress → Result DbError Bytes
to_spark_address (InnerAddress.spark_address addr) = ok addr
to_spark_address (InnerAddress.bitcoin_address addr) = err DbError.invalid_data

unfoldable pub to_bitcoin_address : InnerAddress → Result DbError ℕ
to_bitcoin_address (InnerAddress.spark_address addr) = err DbError.invalid_data
to_bitcoin_address (InnerAddress.bitcoin_address addr) = ok addr

module _ (T : Texts) where
  unfoldable pub to_string : InnerAddress → Bytes
  to_string (InnerAddress.spark_address addr) = addr
  to_string (InnerAddress.bitcoin_address addr) = T.print addr

  unfoldable pub from_string_and_type : Bytes → Bool → Result DbError InnerAddress
  from_string_and_type addr_str true = elim (T.parse addr_str) [
    | some addr ↦ ok (InnerAddress.bitcoin_address addr)
    | none ↦ err DbError.bad_request
  ]
  from_string_and_type addr_str false = ok (InnerAddress.spark_address addr_str)

  unfoldable pub user_id_from_str : Bytes → Result DbError UserId
  user_id_from_str s = elim (T.parse_uuid s) [
    | some id ↦ ok (UserId.uuid id)
    | none ↦ elim (T.parse_key s) [
      | some key ↦ ok (UserId.public_key key)
      | none ↦ elim (T.parse_x_only s) [
        | some key ↦ ok (UserId.x_only_public_key key)
        | none ↦ err DbError.decode_error
      ]
    ]
  ]

  -- the values that `insert_utxo` binds
  abbrev pub utxo_row : Utxo → UtxoRow
  utxo_row utxo = record {
    outpoint = T.print_outpoint utxo.outpoint;
    btc_address = T.print utxo.btc_address;
    rune_amount = utxo.rune_amount;
    rune_id = utxo.rune_id;
    status = utxo.status;
    sats_amount = utxo.sats_amount;
  }

  -- Utxo::from_row
  unfoldable pub from_row : UtxoRow → Result DbError Utxo
  from_row row = elim (T.parse_outpoint row.outpoint) [
    | none ↦ err DbError.decode_error
    | some outpoint ↦ elim (T.parse row.btc_address) [
      | none ↦ err DbError.decode_error
      | some btc_address ↦ ok (record {
        outpoint = outpoint;
        btc_address = btc_address;
        rune_amount = row.rune_amount;
        rune_id = row.rune_id;
        status = row.status;
        sats_amount = row.sats_amount;
      })
    ]
  ]

  abbrev pub bridge_text : Option InnerAddress → Option Bytes
  bridge_text none = none
  bridge_text (some addr) = some (to_string addr)

  unfoldable pub to_db_format : DepositAddrInfo → DbDepositAddrInfo
  to_db_format self = record {
    dkg_share_id = self.dkg_share_id;
    nonce = self.nonce;
    deposit_address = to_string self.deposit_address;
    bridge_address = bridge_text self.bridge_address;
    is_btc = self.is_btc;
    amount = self.amount;
    requested_amount = self.requested_amount;
    confirmation_status = self.confirmation_status;
  }

  abbrev pub bridge_address_of : Option Bytes → Bool → Result DbError (Option InnerAddress)
  bridge_address_of none is_btc = ok none
  bridge_address_of (some addr_str) is_btc = elim (from_string_and_type addr_str is_btc) [
    | ok addr ↦ ok (some addr)
    | err e ↦ err e
  ]

  -- A text that does not parse is the caller's `DbError::BadRequest`.
  unfoldable pub from_db_format : DbDepositAddrInfo → Result DbError DepositAddrInfo
  from_db_format db_info = elim (from_string_and_type db_info.deposit_address db_info.is_btc) [
    | err e ↦ err e
    | ok deposit_address ↦ elim (bridge_address_of db_info.bridge_address (not db_info.is_btc)) [
      | err e ↦ err e
      | ok bridge_address ↦ ok (record {
        dkg_share_id = db_info.dkg_share_id;
        nonce = db_info.nonce;
        deposit_address = deposit_address;
        bridge_address = bridge_address;
        is_btc = db_info.is_btc;
        amount = db_info.amount;
        requested_amount = db_info.requested_amount;
        confirmation_status = db_info.confirmation_status;
      })
    ]
  ]
