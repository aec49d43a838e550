-- ===== src/Spark/Invoice/Hash.antt =====
-- The whole invoice and its hash, from crates/spark-invoice/src/lib.rs.
use spark_bridge_backend.Prelude.{ℕ, ◌≡◌, refl, ap, Option, none, some, [], ◌∷◌, ◌++◌, Bytes}
use spark_bridge_backend.Token.Identifier.{TokenIdentifier, Network}
use spark_bridge_backend.Spark.Proto.{Libraries, to_be_bytes}
use spark_bridge_backend.Spark.Invoice.{TokensPayment, PaymentType, SparkInvoiceFields, optional}
use mathlib.Core.Option.{map as option_map}

pub record SparkInvoice : Type 0 where
  pub receiver : ℕ
  pub invoice_fields : SparkInvoiceFields
  pub network : Network

-- `id` is what Uuid::now_v7 gives.
abbrev fresh_fields : Bytes → PaymentType → Option Bytes → Option ℕ → Option ℕ → SparkInvoiceFields
fresh_fields id payment_type memo sender_public_key expiry_time = record {
  version = 1;
  id = id;
  payment_type = payment_type;
  memo = memo;
  sender_public_key = sender_public_key;
  expiry_time = expiry_time;
}

abbrev pub new_token_invoice :
    Bytes → ℕ → TokenIdentifier → Option Bytes → ℕ → Option ℕ → Option ℕ → Network → SparkInvoice
new_token_invoice id amount token_identifier memo receiver sender expiry_time network =
    let payment : TokensPayment = record { token_identifier = token_identifier; amount = amount } in
    record {
      receiver = receiver;
      invoice_fields = fresh_fields id (PaymentType.tokens payment) memo sender expiry_time;
      network = network;
    }

abbrev pub new_sats_invoice :
    Bytes → ℕ → Option Bytes → ℕ → Option ℕ → Option ℕ → Network → SparkInvoice
new_sats_invoice id amount memo receiver sender expiry_time network = record {
  receiver = receiver;
  invoice_fields =
      fresh_fields id (PaymentType.sats (record { amount = amount })) memo sender expiry_time;
  network = network;
}

abbrev pub network_magic : Network → ℕ
network_magic Network.bitcoin = 0xd9b4bef9
network_magic Network.testnet = 0x0709110b
network_magic Network.testnet4 = 0x0709110b
network_magic Network.signet = 0x40cf030a
network_magic Network.regtest = 0xdab5bffa

module _ (L : Libraries) where
  unfoldable pub hashed_payment : PaymentType → Bytes
  hashed_payment (PaymentType.tokens payment) =
      L.sha256 (1 ∷ [])
      ++ (L.sha256 payment.token_identifier ++ L.sha256 (to_be_bytes 16 payment.amount))
  hashed_payment (PaymentType.sats payment) =
      L.sha256 (2 ∷ []) ++ L.sha256 (to_be_bytes 8 payment.amount)

  -- what the engine has taken in
  unfoldable pub hash_input : SparkInvoice → Bytes
  hash_input self =
      let fields = self.invoice_fields in
      L.sha256 (to_be_bytes 4 fields.version)
      ++ (L.sha256 fields.id
          ++ (L.sha256 (to_be_bytes 4 (network_magic self.network))
              ++ (L.sha256 (L.serialize self.receiver)
                  ++ (hashed_payment fields.payment_type
                      ++ (optional L.sha256 fields.memo
                          ++ (optional (λ key. L.sha256 (L.serialize key)) fields.sender_public_key
                              ++ optional (λ time. L.sha256 (to_be_bytes 8 (L.timestamp time)))
                                  fields.expiry_time))))))

  unfoldable pub hash : SparkInvoice → Bytes
  hash self = L.sha256 (hash_input self)

same_dates :
    (L : Libraries) (time later : Option ℕ)
    → option_map L.timestamp time ≡ option_map L.timestamp later
    → optional (λ t. L.sha256 (to_be_bytes 8 (L.timestamp t))) time
      ≡ optional (λ t. L.sha256 (to_be_bytes 8 (L.timestamp t))) later
same_dates L none none same = refl
same_dates L none (some b) same = cc
same_dates L (some a) none same = cc
same_dates L (some a) (some b) same = cc

-- An invoice with a sender and no memo has the same hash as the invoice without the sender whose memo
-- is the bytes of the key of the sender, whatever their dates are, if these are both absent or have
-- the same seconds.
pub hash_ambiguous :
    (L : Libraries) (receiver version : ℕ) (id : Bytes) (payment : PaymentType) (key : ℕ)
    (time later : Option ℕ) (network : Network)
    → option_map L.timestamp time ≡ option_map L.timestamp later
    → hash L (record {
      receiver = receiver;
      invoice_fields = record {
        version = version;
        id = id;
        payment_type = payment;
        memo = none;
        sender_public_key = some key;
        expiry_time = time;
      };
      network = network;
    })
      ≡ hash L (record {
        receiver = receiver;
        invoice_fields = record {
          version = version;
          id = id;
          payment_type = payment;
          memo = some (L.serialize key);
          sender_public_key = none;
          expiry_time = later;
        };
        network = network;
      })
unfolding hash hash_input
hash_ambiguous L receiver version id payment key time later network same =
    ap
      (λ dates. L.sha256 (
        L.sha256 (to_be_bytes 4 version)
        ++ (L.sha256 id
            ++ (L.sha256 (to_be_bytes 4 (network_magic network))
                ++ (L.sha256 (L.serialize receiver)
                    ++ (hashed_payment L payment ++ (L.sha256 (L.serialize key) ++ dates)))))))
      (same_dates L time later same)
