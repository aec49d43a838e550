-- ===== src/Verifier/Types.antt =====
-- The data of verifier/crates/local_db_store/src/schemas. A Uuid, a transaction id, a bitcoin address
-- and a public key are numbers, texts are byte strings; an i64 is its bit pattern, below 2 ^ 64. The
-- texts of errors of the code itself are left out.
pub mod Format
use spark_bridge_backend.Prelude.{
  ℕ, zero, suc, ◌+◌, ◌-◌, ◌*◌, ◌/◌, ◌%◌, ◌^◌, ◌≤◌, ◌<◌, String, ◌≡◌, refl, sym, ap, ◌∙◌, ◌≢◌, ◌↔◌,
  ◌⊎◌, inl, inr, Bool, true, false, not, ◌&&◌, ◌||◌, Option, none, some, List, [], ◌∷◌, ◌++◌, map,
  arith, ltb, leb, ◌==◌, if◌then◌else◌, ==_iff, ==_refl, Bool-cases, Option-cases, is_none, is_some,
  Bytes, bytes_eq, bytes_eq_refl, bytes_eq_sound, All, length, get_elem?, take, drop, length-append,
  length-drop, take-append, drop-append, leb→le, ltb→lt,
}
use spark_bridge_backend.Prelude.Exec.{Result, ok, err, ok_or, map_err, ◌and_then◌}

-- the kinds that the queries of the tables raise
pub data DbError : Type 0 where
  bad_request not_found decode_error : DbError

-- bitcoin::OutPoint
pub record OutPoint : Type 0 where
  pub txid : ℕ
  pub vout : ℕ

-- What the code takes from the libraries bitcoin, uuid and std: `Display` and `FromStr` of Address,
-- OutPoint, Txid, u32, sha256::Hash, Uuid, PublicKey and XOnlyPublicKey.
pub record Texts : Type 0 where
  pub print_address : ℕ → Bytes
  pub parse_address : Bytes → Option ℕ
  pub print_outpoint : OutPoint → Bytes
  pub parse_outpoint : Bytes → Option OutPoint
  pub parse_txid : Bytes → Option ℕ
  pub parse_u32 : Bytes → Option ℕ
  pub print_hash : Bytes → Bytes
  pub print_uuid : ℕ → Bytes
  pub parse_uuid : Bytes → Option ℕ
  pub print_key : ℕ → Bytes
  pub parse_key : Bytes → Option ℕ
  pub print_x_only : ℕ → Bytes
  pub parse_x_only : Bytes → Option ℕ

pub data InnerAddress : Type 0 where
  spark_address : Bytes → InnerAddress
  bitcoin_address : ℕ → InnerAddress

pub data DepositStatus : Type 0 where
  pending confirmed failed : DepositStatus

pub data FeePayment : Type 0 where
  btc : OutPoint → FeePayment
  spark : Bytes → FeePayment

pub data UserId : Type 0 where
  uuid public_key x_only_public_key : ℕ → UserId

pub record UserIds : Type 0 where
  pub user_id : UserId
  pub dkg_share_id : ℕ
  pub rune_id : Bytes
  pub is_issuer : Bool

-- a row of verifier.user_identifier
pub record DbUserIds : Type 0 where
  pub user_id : Bytes
  pub dkg_share_id : ℕ
  pub rune_id : Bytes
  pub is_issuer : Bool

pub record DepositAddrInfo : Type 0 where
  pub dkg_share_id : ℕ
  pub nonce : Bytes
  pub deposit_address : InnerAddress
  pub bridge_address : InnerAddress
  pub is_btc : Bool
  pub deposit_amount : ℕ
  pub token : Bytes
  pub sats_amount : Option ℕ
  pub outpoint : Option OutPoint
  pub fee_payment : Option FeePayment
  pub fee_payment_status : DepositStatus
  pub confirmation_status : DepositStatus
  pub error_details : Option Bytes

pub record DbDepositAddrInfo : Type 0 where
  pub dkg_share_id : ℕ
  pub nonce : Bytes
  pub deposit_address : Bytes
  pub bridge_address : Bytes
  pub is_btc : Bool
  pub deposit_amount : ℕ
  pub token : Bytes
  pub sats_amount : Option ℕ
  pub outpoint : Option Bytes
  pub fee_payment : Option Bytes
  pub fee_payment_status : DepositStatus
  pub confirmation_status : DepositStatus
  pub error_details : Option Bytes

unfoldable pub is_bitcoin : InnerAddress → Bool
is_bitcoin (InnerAddress.spark_address addr) = false
is_bitcoin (InnerAddress.bitcoin_address addr) = true

-- s.split_once(':')
unfoldable pub split_once : Bytes → Option (Bytes × Bytes)
split_once [] = none
split_once (c ∷ text) =
    let later = split_once text in
    if c == 58
    then some ([], text)
    else elim later [ none ↦ none | some (before, after) ↦ some (c ∷ before, after) ]

module _ (T : Texts) where
  unfoldable pub address_to_string : InnerAddress → Bytes
  address_to_string (InnerAddress.spark_address addr) = addr
  address_to_string (InnerAddress.bitcoin_address addr) = T.print_address addr

  -- The text of the error is the caller's.
  unfoldable pub from_string_and_type : Bytes → Bool → Option InnerAddress
  from_string_and_type addr_str true = elim (T.parse_address addr_str) [
    | some addr ↦ some (InnerAddress.bitcoin_address addr)
    | none ↦ none
  ]
  from_string_and_type addr_str false = some (InnerAddress.spark_address addr_str)

  unfoldable pub fee_to_string : FeePayment → Bytes
  fee_to_string (FeePayment.btc outpoint) = T.print_outpoint outpoint
  fee_to_string (FeePayment.spark spark_out) = spark_out

  unfoldable pub fee_outpoint : Bytes → Bytes → Option OutPoint
  fee_outpoint txid_str vout_str = elim (T.parse_txid txid_str) [
    | none ↦ none
    | some txid ↦ elim (T.parse_u32 vout_str) [
      | none ↦ none
      | some vout ↦ some (record { txid = txid; vout = vout })
    ]
  ]

  unfoldable pub fee_from_str : Bytes → FeePayment
  fee_from_str s = elim (split_once s) [
    | none ↦ FeePayment.spark s
    | some (txid_str, vout_str) ↦ elim (fee_outpoint txid_str vout_str) [
      | some outpoint ↦ FeePayment.btc outpoint
      | none ↦ FeePayment.spark s
    ]
  ]

  unfoldable pub user_id_to_string : UserId → Bytes
  user_id_to_string (UserId.uuid id) = T.print_uuid id
  user_id_to_string (UserId.public_key key) = T.print_key key
  user_id_to_string (UserId.x_only_public_key key) = T.print_x_only key

  unfoldable pub user_id_from_str : Bytes → Result DbError UserId
  user_id_from_str s = elim (T.parse_uuid s) [
    | some id ↦ ok (UserId.uuid id)
    | none ↦ elim (T.parse_key s) [
      | some key ↦ ok (UserId.public_key key)
      | none ↦ elim (T.parse_x_only s) [
        | some key ↦ ok (UserId.x_only_public_key key)
        | none ↦ err DbError.decode_error
      ]
    ]
  ]

  abbrev pub printed : {A : Type 0} → (A → Bytes) → Option A → Option Bytes
  printed print none = none
  printed print (some a) = some (print a)

  unfoldable pub to_db_format : DepositAddrInfo → DbDepositAddrInfo
  to_db_format self = record {
    dkg_share_id = self.dkg_share_id;
    nonce = self.nonce;
    deposit_address = address_to_string self.deposit_address;
    bridge_address = address_to_string self.bridge_address;
    is_btc = self.is_btc;
    deposit_amount = self.deposit_amount;
    token = self.token;
    sats_amount = self.sats_amount;
    outpoint = printed T.print_outpoint self.outpoint;
    fee_payment = printed fee_to_string self.fee_payment;
    fee_payment_status = self.fee_payment_status;
    confirmation_status = self.confirmation_status;
    error_details = self.error_details;
  }

  abbrev pub read_outpoint : Option Bytes → Result DbError (Option OutPoint)
  read_outpoint none = ok none
  read_outpoint (some text) = elim (T.parse_outpoint text) [
    | some outpoint ↦ ok (some outpoint)
    | none ↦ err DbError.decode_error
  ]

  abbrev pub read_fee : Option Bytes → Option FeePayment
  read_fee none = none
  read_fee (some text) = some (fee_from_str text)

  unfoldable pub from_db_format : DbDepositAddrInfo → Result DbError DepositAddrInfo
  from_db_format db_info =
      ok_or (from_string_and_type db_info.deposit_address db_info.is_btc) DbError.decode_error
      and_then λ deposit_address.
          ok_or (from_string_and_type db_info.bridge_address (not db_info.is_btc))
            DbError.decode_error
          and_then λ bridge_address. read_outpoint db_info.outpoint and_then λ outpoint.
              ok (record {
                dkg_share_id = db_info.dkg_share_id;
                nonce = db_info.nonce;
                deposit_address = deposit_address;
                bridge_address = bridge_address;
                is_btc = db_info.is_btc;
                deposit_amount = db_info.deposit_amount;
                token = db_info.token;
                sats_amount = db_info.sats_amount;
                outpoint = outpoint;
                fee_payment = read_fee db_info.fee_payment;
                fee_payment_status = db_info.fee_payment_status;
                confirmation_status = db_info.confirmation_status;
                error_details = db_info.error_details;
              })
