-- ===== src/Token/Identifier/Address.antt =====
-- Token identifiers as Bech32m texts.
use spark_bridge_backend.Prelude.{◌≡◌, refl, some, arith, if◌then◌else◌, Bytes, bytes_eq, length}
use spark_bridge_backend.Prelude.Exec.{ok, err}
use spark_bridge_backend.Token.Identifier.{
  Network, TokenNetwork, TokenIdentifierParseError, Libraries, prefix, from_prefix,
  from_bitcoin_network, network_eq, from_bytes, encode_bech32m, decode_bech32m,
}

from_prefix-prefix :
    (network : Network)
    → from_prefix (prefix (from_bitcoin_network network)) ≡ some (from_bitcoin_network network)
unfolding from_prefix prefix from_bitcoin_network bytes_eq
from_prefix-prefix Network.bitcoin = refl
from_prefix-prefix Network.testnet = refl
from_prefix-prefix Network.testnet4 = refl
from_prefix-prefix Network.signet = refl
from_prefix-prefix Network.regtest = refl

-- What the libraries document: a prefix of the code is an Hrp, its text comes back with the data of
-- an encoding, and 32 bytes are a hash.
pub record Bech32Laws (L : Libraries) : Type 0 where
  pub parse_prefix : (network : TokenNetwork) → L.parse_hrp (prefix network) ≡ some (prefix network)
  pub decode_encode :
      (hrp bytes text : Bytes)
      → L.bech32m_encode hrp bytes ≡ some text
      → L.bech32_decode text ≡ some (hrp, bytes)
  pub hash_of_slice : (bytes : Bytes) → length bytes ≡ 32 → L.hash_from_slice bytes ≡ some bytes

module _ (L : Libraries) (laws : Bech32Laws L) where
  encoded :
      (self text : Bytes) (network : Network)
      → encode_bech32m L self network ≡ ok text
      → L.bech32m_encode (prefix (from_bitcoin_network network)) self ≡ some text
  unfolding encode_bech32m
  encoded self text network e = ground (arith, e, laws.parse_prefix (from_bitcoin_network network))

  -- The text of a token identifier of 32 bytes, written for one Bitcoin network, is read back for any
  -- other network with the same token network, and is refused as an invalid address for the rest.
  pub decode_bech32m-encode_bech32m :
      (self text : Bytes) (written expected : Network)
      → length self ≡ 32
      → encode_bech32m L self written ≡ ok text
      → decode_bech32m L text expected ≡ (
          if network_eq (from_bitcoin_network written) (from_bitcoin_network expected)
          then ok self
          else err TokenIdentifierParseError.invalid_address_type)
  unfolding decode_bech32m from_bytes
  decode_bech32m-encode_bech32m self text written expected size e = ground (
    arith,
    size,
    laws.decode_encode (prefix (from_bitcoin_network written)) self text
        (encoded self text written e),
    from_prefix-prefix written,
    laws.hash_of_slice self size,
  )
