-- ===== src/Spark/Address/RoundTrip.antt =====
-- Addresses that were encoded, decoded again.
use spark_bridge_backend.Prelude.{
  ◌≡◌, refl, inl, inr, false, some, arith, Option-cases, Bytes, bytes_eq, bytes_eq_refl, length,
}
use spark_bridge_backend.Prelude.Exec.{ok}
use spark_bridge_backend.Token.Identifier as Identifier
use spark_bridge_backend.Token.Identifier.{TokenIdentifier, from_bytes}
use spark_bridge_backend.Spark.Proto.{Libraries}
use spark_bridge_backend.Spark.Address.{
  Network, SparkAddressData, Texts, hrp, from_hrp, any, is_ascii_uppercase, encode_proto,
  encode_bech32, encode_spark_address, decode_spark_address,
}
use spark_bridge_backend.Spark.Address.Payload.{IsPart, IsSignature, decode_proto-encode_proto_lem}

from_hrp-hrp : (network : Network) → from_hrp (hrp network) ≡ some network
unfolding from_hrp hrp bytes_eq
from_hrp-hrp Network.mainnet = refl
from_hrp-hrp Network.testnet = refl
from_hrp-hrp Network.signet = refl
from_hrp-hrp Network.regtest = refl
from_hrp-hrp Network.local = refl

hrp_lowercase : (network : Network) → any is_ascii_uppercase (hrp network) ≡ false
unfolding hrp
hrp_lowercase Network.mainnet = refl
hrp_lowercase Network.testnet = refl
hrp_lowercase Network.signet = refl
hrp_lowercase Network.regtest = refl
hrp_lowercase Network.local = refl

-- What the library bech32 documents: the prefixes of the code are Hrps, an encoding has no upper case
-- for a prefix without it, and is decoded to its prefix and its data.
pub record Bech32mLaws (K : Identifier.Libraries) : Type 0 where
  pub parse_hrp : (network : Network) → K.parse_hrp (hrp network) ≡ some (hrp network)
  pub lowercase :
      (prefix bytes text : Bytes)
      → any is_ascii_uppercase prefix ≡ false
      → K.bech32m_encode prefix bytes ≡ some text
      → any is_ascii_uppercase text ≡ false
  pub decode_encode :
      (prefix bytes text : Bytes)
      → K.bech32m_encode prefix bytes ≡ some text
      → K.bech32_decode text ≡ some (prefix, bytes)

-- An address whose key is the hex text of 33 bytes, as the library hex writes them.
pub record IsAddress (K : Identifier.Libraries) (L : Libraries) (T : Texts)
    (self : SparkAddressData) : Type 0 where
  pub key : Bytes
  pub decoded : T.hex_decode self.identity_public_key ≡ some key
  pub encoded : T.hex_encode key ≡ self.identity_public_key
  pub size : length key ≡ 33
  pub invoice : IsPart K L self.invoice
  pub signature : IsSignature self.signature

module _ (K : Identifier.Libraries) (L : Libraries) (T : Texts) (laws : Bech32mLaws K) where
  -- what an encoding that returns has gone through
  encoding :
      (self : SparkAddressData) (valid : IsAddress K L T self) (text : Bytes)
      → encode_spark_address K L T self ≡ some (ok text)
      → (proto : Bytes) × (encode_proto L valid.key self.invoice self.signature ≡ some proto)
        × (K.bech32m_encode (hrp self.network) proto ≡ some text)
  unfolding encode_spark_address encode_bech32
  encoding self valid text e =
      elim (Option-cases (encode_proto L valid.key self.invoice self.signature)) [
        | inl panics ↦ ground (arith, panics, valid.decoded, valid.size, e)
        | inr (proto, payload) ↦ (
          proto,
          payload,
          ground (arith, payload, valid.decoded, valid.size, laws.parse_hrp self.network, e),
        )
      ]

  -- What an address is encoded to is decoded to it. Its key is the hex text of 33 bytes as the library
  -- writes it, its invoice and its signature are absent or fit their formats.
  pub decode_spark_address-encode_spark_address :
      (self : SparkAddressData)
      → IsAddress K L T self
      → (text : Bytes) → encode_spark_address K L T self ≡ some (ok text)
      → decode_spark_address K L T text ≡ ok self
  unfolding decode_spark_address
  decode_spark_address-encode_spark_address self valid text e =
      let (proto, payload, sent) = encoding self valid text e in
      ground (
        arith,
        laws.lowercase (hrp self.network) proto text (hrp_lowercase self.network) sent,
        laws.decode_encode (hrp self.network) proto text sent,
        hrp_lowercase self.network,
        sent,
        bytes_eq_refl (T.to_lowercase text),
        from_hrp-hrp self.network,
        decode_proto-encode_proto_lem K L valid.key proto self.invoice self.signature valid.invoice
            valid.signature payload,
        valid.size,
        valid.encoded,
      )
