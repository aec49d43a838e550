-- ===== src/Token/Identifier.antt =====
-- crates/token-identifier/src/lib.rs. A token identifier is the 32 bytes of its SHA-256 hash, a text
-- is the bytes of its UTF-8.
pub mod Address
use spark_bridge_backend.Prelude.{
  ℕ, zero, suc, ◌+◌, ◌-◌, ◌*◌, ◌/◌, ◌%◌, ◌^◌, ◌≤◌, ◌<◌, String, ◌≡◌, refl, sym, ap, ◌∙◌, ◌≢◌, ◌↔◌,
  ◌⊎◌, inl, inr, Bool, true, false, not, ◌&&◌, ◌||◌, Option, none, some, List, [], ◌∷◌, ◌++◌, map,
  arith, ltb, leb, ◌==◌, if◌then◌else◌, ==_iff, ==_refl, Bool-cases, Option-cases, is_none, is_some,
  Bytes, bytes_eq, bytes_eq_refl, bytes_eq_sound, All, length, get_elem?, take, drop, length-append,
  length-drop, take-append, drop-append, leb→le, ltb→lt,
}
use spark_bridge_backend.Prelude.Exec.{Result, ok, err, ok_or, map_err, ◌and_then◌}

-- bitcoin::Network
pub data Network : Type 0 where
  bitcoin testnet testnet4 signet regtest : Network

pub data TokenNetwork : Type 0 where
  unspecified mainnet regtest testnet signet : TokenNetwork

pub data TokenIdentifierParseError : Type 0 where
  invalid_size : ℕ → TokenIdentifierParseError
  invalid_hash_string invalid_hash_bytes invalid_address_type : TokenIdentifierParseError
  invalid_witness_program_version invalid_witness_program_length : ℕ → TokenIdentifierParseError

-- What the code takes from the libraries bitcoin and bech32: sha256::Hash::from_slice and from_str,
-- Hrp::parse, bech32::encode::<Bech32m> and bech32::decode, whose result has the text of its Hrp.
pub record Libraries : Type 0 where
  pub hash_from_slice : Bytes → Option Bytes
  pub hash_from_str : Bytes → Option Bytes
  pub parse_hrp : Bytes → Option Bytes
  pub bech32m_encode : Bytes → Bytes → Option Bytes
  pub bech32_decode : Bytes → Option (Bytes × Bytes)

abbrev pub TokenIdentifier : Type 0
TokenIdentifier = Bytes

abbrev pub token_identifier_size : ℕ
token_identifier_size = 32

-- "btkn", "btknt", "btknrt" and "btkns"
unfoldable pub prefix : TokenNetwork → Bytes
prefix TokenNetwork.unspecified = 98 ∷ 116 ∷ 107 ∷ 110 ∷ []
prefix TokenNetwork.mainnet = 98 ∷ 116 ∷ 107 ∷ 110 ∷ []
prefix TokenNetwork.testnet = 98 ∷ 116 ∷ 107 ∷ 110 ∷ 116 ∷ []
prefix TokenNetwork.regtest = 98 ∷ 116 ∷ 107 ∷ 110 ∷ 114 ∷ 116 ∷ []
prefix TokenNetwork.signet = 98 ∷ 116 ∷ 107 ∷ 110 ∷ 115 ∷ []

unfoldable pub from_prefix : Bytes → Option TokenNetwork
from_prefix text =
    if bytes_eq text (98 ∷ 116 ∷ 107 ∷ 110 ∷ [])
    then some TokenNetwork.mainnet
    else if bytes_eq text (98 ∷ 116 ∷ 107 ∷ 110 ∷ 116 ∷ [])
    then some TokenNetwork.testnet
    else if bytes_eq text (98 ∷ 116 ∷ 107 ∷ 110 ∷ 114 ∷ 116 ∷ [])
    then some TokenNetwork.regtest
    else if bytes_eq text (98 ∷ 116 ∷ 107 ∷ 110 ∷ 115 ∷ [])
    then some TokenNetwork.signet
    else none

unfoldable pub from_bitcoin_network : Network → TokenNetwork
from_bitcoin_network Network.bitcoin = TokenNetwork.mainnet
from_bitcoin_network Network.testnet = TokenNetwork.testnet
from_bitcoin_network Network.testnet4 = TokenNetwork.testnet
from_bitcoin_network Network.signet = TokenNetwork.signet
from_bitcoin_network Network.regtest = TokenNetwork.regtest

-- the derived PartialEq
unfoldable pub network_eq : TokenNetwork → TokenNetwork → Bool
network_eq TokenNetwork.unspecified TokenNetwork.unspecified = true
network_eq TokenNetwork.mainnet TokenNetwork.mainnet = true
network_eq TokenNetwork.regtest TokenNetwork.regtest = true
network_eq TokenNetwork.testnet TokenNetwork.testnet = true
network_eq TokenNetwork.signet TokenNetwork.signet = true
network_eq _ _ = false

module _ (L : Libraries) where
  unfoldable pub from_bytes : Bytes → Result TokenIdentifierParseError TokenIdentifier
  from_bytes bytes =
      if ltb (length bytes) token_identifier_size
      then err (TokenIdentifierParseError.invalid_size (length bytes))
      else ok_or (L.hash_from_slice bytes) TokenIdentifierParseError.invalid_hash_bytes

  unfoldable pub encode_bech32m : TokenIdentifier → Network → Result TokenIdentifierParseError Bytes
  encode_bech32m self network =
      ok_or (L.parse_hrp (prefix (from_bitcoin_network network)))
        TokenIdentifierParseError.invalid_address_type
      and_then λ hrp.
          ok_or (L.bech32m_encode hrp self) TokenIdentifierParseError.invalid_address_type

  unfoldable pub decode_bech32m : Bytes → Network → Result TokenIdentifierParseError TokenIdentifier
  decode_bech32m address network =
      ok_or (L.bech32_decode address) TokenIdentifierParseError.invalid_address_type
      and_then λ (hrp, data_bytes).
          ok_or (from_prefix hrp) TokenIdentifierParseError.invalid_address_type
          and_then λ decoded_network.
              if not (network_eq decoded_network (from_bitcoin_network network))
              then err TokenIdentifierParseError.invalid_address_type
              else if not (length data_bytes == token_identifier_size)
              then err (TokenIdentifierParseError.invalid_size (length data_bytes))
              else map_err (λ _. TokenIdentifierParseError.invalid_address_type)
                  (from_bytes data_bytes)

  unfoldable pub from_str : Bytes → Network → Result TokenIdentifierParseError TokenIdentifier
  from_str s network = elim (decode_bech32m s network) [
    | ok identifier ↦ ok identifier
    | err _ ↦ ok_or (L.hash_from_str s) TokenIdentifierParseError.invalid_hash_string
  ]
