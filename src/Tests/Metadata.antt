-- ===== src/Tests/Metadata.antt =====
-- The metadata of a token whose keys and magics are written by a toy encoding.
use spark_bridge_backend.Prelude.{ℕ, ◌≡◌, refl, true, some, [], ◌∷◌, ◌++◌, arith, Bytes, get_elem?}
use spark_bridge_backend.Prelude.Exec.{ok, err}
use spark_bridge_backend.Token.Cursor.{TokenMetadataParseError}
use spark_bridge_backend.Token.Metadata.{
  Encoding, TokenMetadata, validate, to_bytes, from_bytes, lrc20_from_bytes,
}
use spark_bridge_backend.Token.Metadata.Layout.{
  IsEncoding, IsMetadata, from_bytes-to_bytes, lrc20_from_bytes-to_bytes,
}
use spark_bridge_backend.Prelude.{◌≢◌, ◌⊎◌, length}
use spark_bridge_backend.Token.Cursor.{to_le_bytes}
use spark_bridge_backend.Token.Metadata.{compute_token_identifier, all_hashes, fields}
use spark_bridge_backend.Token.Metadata.Identifier.{compute_token_identifier_injective, IsHashed}

abbrev eight : ℕ → Bytes
eight k = k ∷ k ∷ k ∷ k ∷ k ∷ k ∷ k ∷ k ∷ []

abbrev toy : Encoding
toy = record {
  serialize = λ k. 2 ∷ (eight k ++ (eight k ++ (eight k ++ eight k)));
  from_slice = λ bytes. get_elem? bytes 1;
  is_utf8 = λ bytes. true;
  magic = λ n. 1 ∷ n ∷ 0 ∷ 0 ∷ [];
  from_magic = λ bytes. get_elem? bytes 1;
  sha256 = λ bytes. length bytes ∷ 0 ∷ 0 ∷ 0 ∷ 0 ∷ 0 ∷ 0 ∷ 0 ∷ (eight 0 ++ (eight 0 ++ eight 0));
}

toy-IsEncoding : IsEncoding toy
toy-IsEncoding = record {
  key_size = λ k. refl;
  key_read = λ k. refl;
  key_first = λ k. (1, eight k ++ (eight k ++ (eight k ++ eight k)), refl);
  magic_first = λ n. (0, n ∷ 0 ∷ 0 ∷ [], refl);
  magic_size = λ n. refl;
  magic_read = λ n. refl;
}

abbrev token : TokenMetadata
token = record {
  issuer_public_key = 5;
  name = 116 ∷ 101 ∷ 115 ∷ 116 ∷ [];
  symbol = 84 ∷ 83 ∷ 84 ∷ [];
  decimal = 8;
  max_supply = 2100000000000000;
  is_freezable = true;
  creation_entity_public_key = some 7;
  network = 3;
}

token-IsMetadata : IsMetadata toy token
token-IsMetadata = record { name_utf8 = refl; symbol_utf8 = refl; supply = omega arith }

from_bytes-to_bytes_example :
    from_bytes toy (to_bytes toy token) ≡ err TokenMetadataParseError.io_error
unfolding validate
from_bytes-to_bytes_example = from_bytes-to_bytes toy toy-IsEncoding token token-IsMetadata refl

lrc20_from_bytes-to_bytes_example : lrc20_from_bytes toy (to_bytes toy token) ≡ ok token
unfolding validate
lrc20_from_bytes-to_bytes_example =
    lrc20_from_bytes-to_bytes toy toy-IsEncoding token token-IsMetadata refl

-- the same token with another name of the same length
abbrev renamed : TokenMetadata
renamed = record token { name = 116 ∷ 101 ∷ 115 ∷ 115 ∷ [] }

compute_token_identifier_injective_example :
    (token ≡ renamed)
    ⊎ ((x : Bytes) × (y : Bytes) × IsHashed toy token x
        × IsHashed toy renamed y
        × (x ≢ y)
        × (toy.sha256 x ≡ toy.sha256 y))
unfolding compute_token_identifier all_hashes fields to_le_bytes
compute_token_identifier_injective_example =
    compute_token_identifier_injective toy toy-IsEncoding (λ x. refl) token renamed (omega arith)
      (omega arith) refl
