-- ===== src/Token/Metadata.antt =====
-- crates/token-identifier/src/token_metadata.rs, and the reader of crates/lrc20/src/token_metadata.rs,
-- which is the same but for the flag of the creation entity. A name and a symbol are the bytes of
-- their UTF-8, a public key and a network are numbers.
pub mod Layout
pub mod Identifier
use spark_bridge_backend.Prelude.{
  ℕ, zero, suc, ◌+◌, ◌-◌, ◌*◌, ◌/◌, ◌%◌, ◌^◌, ◌≤◌, ◌<◌, String, ◌≡◌, refl, sym, ap, ◌∙◌, ◌≢◌, ◌↔◌,
  ◌⊎◌, inl, inr, Bool, true, false, not, ◌&&◌, ◌||◌, Option, none, some, List, [], ◌∷◌, ◌++◌, map,
  arith, ltb, leb, ◌==◌, if◌then◌else◌, ==_iff, ==_refl, Bool-cases, Option-cases, is_none, is_some,
  Bytes, bytes_eq, bytes_eq_refl, bytes_eq_sound, All, length, get_elem?, take, drop, length-append,
  length-drop, take-append, drop-append, leb→le, ltb→lt,
}
use spark_bridge_backend.Prelude.Exec.{Result, ok, err, Exec, pure, raise, lift, ◌>>=◌, ◌>>◌, ok_or}
use spark_bridge_backend.Token.Cursor.{
  TokenMetadataParseError, Read, read_u8, read_exact, read, to_le_bytes, from_le_bytes,
}

-- What the code takes from the libraries bitcoin and std: PublicKey::serialize and from_slice,
-- String::from_utf8, Network::magic and from_magic, and SHA-256.
pub record Encoding : Type 0 where
  pub serialize : ℕ → Bytes
  pub from_slice : Bytes → Option ℕ
  pub is_utf8 : Bytes → Bool
  pub magic : ℕ → Bytes
  pub from_magic : Bytes → Option ℕ
  pub sha256 : Bytes → Bytes

pub record TokenMetadata : Type 0 where
  pub issuer_public_key : ℕ
  pub name : Bytes
  pub symbol : Bytes
  pub decimal : ℕ
  pub max_supply : ℕ
  pub is_freezable : Bool
  pub creation_entity_public_key : Option ℕ
  pub network : ℕ

abbrev pub min_name_size : ℕ
min_name_size = 3

abbrev pub max_name_size : ℕ
max_name_size = 20

abbrev pub min_symbol_size : ℕ
min_symbol_size = 3

abbrev pub max_symbol_size : ℕ
max_symbol_size = 6

abbrev pub public_key_size : ℕ
public_key_size = 33

-- 33 + 1 + 3 + 1 + 3 + 1 + 16 + 1 + 1 + size_of::<Network>(), which is 1
abbrev pub min_token_metadata_size : ℕ
min_token_metadata_size = 61

abbrev pub checked : ℕ → ℕ → TokenMetadataParseError → ℕ → Result TokenMetadataParseError (Unit {0})
checked low high error n = if ltb n low || ltb high n then err error else ok tt

abbrev pub check_name : ℕ → Result TokenMetadataParseError (Unit {0})
check_name n = checked min_name_size max_name_size (TokenMetadataParseError.invalid_name_length n) n

abbrev pub check_symbol : ℕ → Result TokenMetadataParseError (Unit {0})
check_symbol n =
    checked min_symbol_size max_symbol_size (TokenMetadataParseError.invalid_symbol_length n) n

unfoldable pub validate : TokenMetadata → Result TokenMetadataParseError (Unit {0})
validate self = elim (check_name (length self.name)) [
  | err e ↦ err e
  | ok _ ↦ check_symbol (length self.symbol)
]

abbrev pub flag : Bool → ℕ
flag true = 1
flag false = 0

module _ (L : Encoding) where
  abbrev pub entity_bytes : Option ℕ → Bytes
  entity_bytes (some key) = 1 ∷ L.serialize key
  entity_bytes none = 0 ∷ []

  pub to_bytes : TokenMetadata → Bytes
  to_bytes self =
      L.serialize self.issuer_public_key
      ++ (((length self.name % 256) ∷ self.name)
          ++ (((length self.symbol % 256) ∷ self.symbol)
              ++ ((self.decimal ∷ to_le_bytes 16 self.max_supply)
                  ++ ((flag self.is_freezable ∷ entity_bytes self.creation_entity_public_key)
                      ++ L.magic self.network))))

  abbrev pub parse_key : Bytes → Result TokenMetadataParseError ℕ
  parse_key bytes = ok_or (L.from_slice bytes) TokenMetadataParseError.io_error

  abbrev pub text : Bytes → Result TokenMetadataParseError Bytes
  text bytes = if L.is_utf8 bytes then ok bytes else err TokenMetadataParseError.io_error

  pub read_text : (ℕ → Result TokenMetadataParseError (Unit {0})) → Read Bytes
  read_text check = do n ← read_u8; lift (check n); bytes ← read_exact n; lift (text bytes)

  -- if creation_entity_public_key_flag != 0 { .. } else { None }
  pub read_entity : ℕ → Read (Option ℕ)
  read_entity zero = pure none
  read_entity (suc _) = do
    bytes ← read_exact public_key_size
    key ← lift (parse_key bytes)
    pure (some key)

  pub read_network : Read ℕ
  read_network = do
    bytes ← read_exact 4
    lift (ok_or (L.from_magic bytes) TokenMetadataParseError.io_error)

  -- The fields are read in order. `flags` reads what says whether there is a creation entity.
  pub read_metadata : Read ℕ → Read TokenMetadata
  read_metadata flags = do
    issuer_bytes ← read public_key_size
    issuer_public_key ← lift (parse_key issuer_bytes)
    name ← read_text check_name
    symbol ← read_text check_symbol
    decimal ← read_u8
    max_supply_bytes ← read_exact 16
    is_freezable ← read_u8
    creation_entity_public_key_flag ← flags
    creation_entity_public_key ← read_entity creation_entity_public_key_flag
    network ← read_network
    pure (record {
      issuer_public_key = issuer_public_key;
      name = name;
      symbol = symbol;
      decimal = decimal;
      max_supply = from_le_bytes max_supply_bytes;
      is_freezable = not (is_freezable == 0);
      creation_entity_public_key = creation_entity_public_key;
      network = network;
    })

  abbrev pub parse_all : Read ℕ → Bytes → Result TokenMetadataParseError TokenMetadata
  parse_all flags bytes =
      if ltb (length bytes) min_token_metadata_size
      then err (TokenMetadataParseError.invalid_size (length bytes))
      else (read_metadata flags bytes).0

  -- crates/token-identifier: the flag is read twice, and the second reading counts.
  pub from_bytes : Bytes → Result TokenMetadataParseError TokenMetadata
  from_bytes = parse_all (read_u8 >> read_u8)

  -- crates/lrc20
  pub lrc20_from_bytes : Bytes → Result TokenMetadataParseError TokenMetadata
  lrc20_from_bytes = parse_all read_u8

  abbrev pub entity_layer : Option ℕ → Bytes
  entity_layer (some key) = 2 ∷ L.serialize key
  entity_layer none = 1 ∷ []

  abbrev pub reversed : Bytes → Bytes
  reversed [] = []
  reversed (b ∷ bs) = reversed bs ++ (b ∷ [])

  -- what is hashed of the metadata, field by field
  unfoldable pub fields : TokenMetadata → List Bytes
  fields self =
      (1 ∷ [])
      ∷ L.serialize self.issuer_public_key
      ∷ self.name
      ∷ self.symbol
      ∷ (self.decimal ∷ [])
      ∷ reversed (to_le_bytes 16 self.max_supply)
      ∷ (flag self.is_freezable ∷ [])
      ∷ reversed (L.magic self.network)
      ∷ entity_layer self.creation_entity_public_key
      ∷ []

  -- the hashes of the fields, one after another, as the engine takes them in
  unfoldable pub all_hashes : List Bytes → Bytes
  all_hashes [] = []
  all_hashes (field ∷ rest) = L.sha256 field ++ all_hashes rest

  unfoldable pub compute_token_identifier : TokenMetadata → Bytes
  compute_token_identifier self = L.sha256 (all_hashes (fields self))
