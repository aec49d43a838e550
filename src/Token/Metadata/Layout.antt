-- ===== src/Token/Metadata/Layout.antt =====
-- What the readers make of the bytes that `to_bytes` writes.
use spark_bridge_backend.Prelude.{
  ℕ, suc, ◌%◌, ◌^◌, ◌≤◌, ◌<◌, ◌≡◌, refl, sym, ap, ◌∙◌, Bool, true, false, not, Option, none, some,
  [], ◌∷◌, ◌++◌, arith, ◌==◌, Bytes, length, drop, length-append, length-drop,
}
use spark_bridge_backend.Prelude.Exec.{Result, ok, err, pure, ◌>>=◌, ◌>>◌}
use spark_bridge_backend.Token.Cursor.{
  TokenMetadataParseError, Read, read_u8, read_exact, read, to_le_bytes, from_le_bytes, read_lem,
  read_exact_lem, read_exact_short, length-to_le_bytes, from_le_bytes-to_le_bytes, bind_err,
}
use spark_bridge_backend.Token.Metadata.{
  Encoding, TokenMetadata, validate, check_name, check_symbol, flag, entity_bytes, to_bytes,
  read_text, read_entity, read_network, read_metadata, parse_all, from_bytes, lrc20_from_bytes,
}

-- What the libraries document of public keys and magics: their sizes, that they are read back, and
-- that neither starts with a zero byte.
pub record IsEncoding (L : Encoding) : Type 0 where
  pub key_size : (k : ℕ) → length (L.serialize k) ≡ 33
  pub key_read : (k : ℕ) → L.from_slice (L.serialize k) ≡ some k
  pub key_first : (k : ℕ) → (b : ℕ) × (rest : Bytes) × (L.serialize k ≡ suc b ∷ rest)
  pub magic_first : (n : ℕ) → (b : ℕ) × (rest : Bytes) × (L.magic n ≡ suc b ∷ rest)
  pub magic_size : (n : ℕ) → length (L.magic n) ≡ 4
  pub magic_read : (n : ℕ) → L.from_magic (L.magic n) ≡ some n

-- The fields of the metadata fit their types, and its texts are UTF-8.
pub record IsMetadata (L : Encoding) (m : TokenMetadata) : Type 0 where
  pub name_utf8 : L.is_utf8 m.name ≡ true
  pub symbol_utf8 : L.is_utf8 m.symbol ≡ true
  pub supply : m.max_supply < 256 ^ 16

validate_lem :
    (m : TokenMetadata)
    → validate m ≡ ok tt
    → (check_name (length m.name) ≡ ok tt)
      × (check_symbol (length m.symbol) ≡ ok tt)
      × (length m.name < 256)
      × (length m.symbol < 256)
unfolding validate
validate_lem m h = ground arith

append_nil : (xs : Bytes) → xs ++ [] ≡ xs
append_nil [] = refl
append_nil (x ∷ xs) = rw (append_nil xs) refl

flag_lem : (b : Bool) → not (flag b == 0) ≡ b
flag_lem true = refl
flag_lem false = refl

module _ (L : Encoding) (lawful : IsEncoding L) where
  read_text_lem :
      (check : ℕ → Result TokenMetadataParseError (Unit {0})) (xs rest : Bytes)
      → check (length xs) ≡ ok tt
      → length xs < 256
      → L.is_utf8 xs ≡ true
      → read_text L check (((length xs % 256) ∷ xs) ++ rest) ≡ (ok xs, rest)
  unfolding read_text read_u8
  read_text_lem check xs rest fits small utf8 =
      let size : length xs % 256 ≡ length xs = omega arith in
      rw size (rw fits (rw (read_exact_lem (length xs) xs rest refl) (rw utf8 refl)))

  abbrev tail : TokenMetadata → Bytes
  tail m = entity_bytes L m.creation_entity_public_key ++ L.magic m.network

  -- the bytes after the amount, the symbol, the name and the issuer's key
  abbrev after_supply : TokenMetadata → Bytes
  after_supply m =
      (flag m.is_freezable ∷ entity_bytes L m.creation_entity_public_key) ++ L.magic m.network

  abbrev after_symbol : TokenMetadata → Bytes
  after_symbol m = (m.decimal ∷ to_le_bytes 16 m.max_supply) ++ after_supply m

  abbrev after_name : TokenMetadata → Bytes
  after_name m = ((length m.symbol % 256) ∷ m.symbol) ++ after_symbol m

  abbrev after_key : TokenMetadata → Bytes
  after_key m = ((length m.name % 256) ∷ m.name) ++ after_name m

  -- the rest of the reading, from the flag on
  abbrev read_tail : Read ℕ → TokenMetadata → Read TokenMetadata
  read_tail flags m = do
    creation_entity_public_key_flag ← flags
    creation_entity_public_key ← read_entity L creation_entity_public_key_flag
    network ← read_network L
    pure (record m { creation_entity_public_key = creation_entity_public_key; network = network })

  header_lem :
      (flags : Read ℕ) (m : TokenMetadata) (key supply s s1 s2 s3 s4 : Bytes) (f : ℕ)
      → read 33 s ≡ (ok key, s1)
      → L.from_slice key ≡ some m.issuer_public_key
      → read_text L check_name s1 ≡ (ok m.name, s2)
      → read_text L check_symbol s2 ≡ (ok m.symbol, m.decimal ∷ s3)
      → read_exact 16 s3 ≡ (ok supply, f ∷ s4)
      → read_metadata L flags s
        ≡ read_tail flags
            (record m { max_supply = from_le_bytes supply; is_freezable = not (f == 0) })
            s4
  unfolding read_metadata read_u8
  header_lem flags m key supply s s1 s2 s3 s4 f a b c d e = rw a (rw b (rw c (rw d (rw e refl))))

  read_metadata_lem :
      (m : TokenMetadata) (flags : Read ℕ)
      → IsMetadata L m
      → validate m ≡ ok tt
      → read_metadata L flags (to_bytes L m) ≡ read_tail flags m (tail m)
  unfolding read_metadata to_bytes validate
  read_metadata_lem m flags ok_m valid =
      let fits = validate_lem m valid in
      let key =
        read_lem 33 (L.serialize m.issuer_public_key) (after_key m)
          (lawful.key_size m.issuer_public_key) in
      let name = read_text_lem check_name m.name (after_name m) fits.0 fits.2 ok_m.name_utf8 in
      let symbol =
        read_text_lem check_symbol m.symbol (after_symbol m) fits.1 fits.3 ok_m.symbol_utf8 in
      let supply =
        read_exact_lem 16 (to_le_bytes 16 m.max_supply) (after_supply m)
          (length-to_le_bytes 16 m.max_supply) in
      let h =
        header_lem flags m (L.serialize m.issuer_public_key) (to_le_bytes 16 m.max_supply)
          (to_bytes L m) (after_key m) (after_name m)
          (to_le_bytes 16 m.max_supply ++ after_supply m) (tail m) (flag m.is_freezable) key
          (lawful.key_read m.issuer_public_key) name symbol supply in
      h
      ∙ rw (from_le_bytes-to_le_bytes 16 m.max_supply ok_m.supply)
          (rw (flag_lem m.is_freezable) refl)

  network_lem : (n : ℕ) → read_network L (L.magic n) ≡ (ok n, [])
  unfolding read_network
  network_lem n =
      rw
        (ap (read_exact 4) (sym (append_nil (L.magic n)))
          ∙ read_exact_lem 4 (L.magic n) [] (lawful.magic_size n))
        (rw (lawful.magic_read n) refl)

  entity_lem :
      (key : Option ℕ) (rest : Bytes)
      → (read_u8 >>= read_entity L) (entity_bytes L key ++ rest) ≡ (ok key, rest)
  unfolding read_entity read_u8
  entity_lem none rest = refl
  entity_lem (some k) rest =
      rw (read_exact_lem 33 (L.serialize k) rest (lawful.key_size k)) (rw (lawful.key_read k) refl)

  to_bytes_size : (m : TokenMetadata) → validate m ≡ ok tt → 61 ≤ length (to_bytes L m)
  unfolding to_bytes validate
  to_bytes_size m valid = ground (
    arith,
    length-append (L.serialize m.issuer_public_key) (after_key m),
    lawful.key_size m.issuer_public_key,
    length-append m.name (after_name m),
    length-append m.symbol (after_symbol m),
    length-append (to_le_bytes 16 m.max_supply) (after_supply m),
    length-to_le_bytes 16 m.max_supply,
    length-append (entity_bytes L m.creation_entity_public_key) (L.magic m.network),
    lawful.magic_size m.network,
  )

  parse_all_lem :
      (m : TokenMetadata) (flags : Read ℕ)
      → IsMetadata L m
      → validate m ≡ ok tt
      → parse_all L flags (to_bytes L m) ≡ (read_tail flags m (tail m)).0
  parse_all_lem m flags ok_m valid =
      ground (arith, to_bytes_size m valid, read_metadata_lem m flags ok_m valid)

  lrc20_tail :
      (m : TokenMetadata) (key : Option ℕ)
      → (read_tail read_u8 m (entity_bytes L key ++ L.magic m.network)).0
        ≡ ok (record m { creation_entity_public_key = key })
  unfolding read_u8 read_entity
  lrc20_tail m none = rw (network_lem m.network) refl
  lrc20_tail m (some k) =
      rw (read_exact_lem 33 (L.serialize k) (L.magic m.network) (lawful.key_size k))
        (rw (lawful.key_read k) (rw (network_lem m.network) refl))

  -- The bytes of valid metadata are read back by the reader of crates/lrc20.
  pub lrc20_from_bytes-to_bytes :
      (m : TokenMetadata)
      → IsMetadata L m
      → validate m ≡ ok tt
      → lrc20_from_bytes L (to_bytes L m) ≡ ok m
  unfolding lrc20_from_bytes
  lrc20_from_bytes-to_bytes m ok_m valid =
      parse_all_lem m read_u8 ok_m valid ∙ lrc20_tail m m.creation_entity_public_key

  no_network :
      (left : Bytes)
      → length left < 4
      → (read_network L left).0 ≡ err TokenMetadataParseError.io_error
  unfolding read_network
  no_network left h =
      bind_err (read_exact 4) _ left TokenMetadataParseError.io_error (read_exact_short 4 left h)

  -- a flag that is not zero wants a key and a magic, 37 bytes
  short_refused :
      (m : TokenMetadata) (b : ℕ) (left : Bytes)
      → length left < 37
      → (read_tail read_u8 m (suc b ∷ left)).0 ≡ err TokenMetadataParseError.io_error
  unfolding read_u8 read_entity read_exact
  short_refused m b left h = ground (arith, no_network (drop 33 left), length-drop 33 left)

  tail_refused :
      (m : TokenMetadata) (key : Option ℕ)
      → (read_tail (read_u8 >> read_u8) m (entity_bytes L key ++ L.magic m.network)).0
        ≡ err TokenMetadataParseError.io_error
  unfolding read_u8
  tail_refused m none =
      let first = lawful.magic_first m.network in
      let size : suc (length first.1) ≡ 4 = ap length (sym first.2) ∙ lawful.magic_size m.network in
      rw first.2 (short_refused m first.0 first.1 (omega (arith, size)))
  tail_refused m (some k) =
      let first = lawful.key_first k in
      let size : suc (length first.1) ≡ 33 = ap length (sym first.2) ∙ lawful.key_size k in
      rw first.2 (
        short_refused m first.0 (first.1 ++ L.magic m.network) (
          omega
            (arith, size, length-append first.1 (L.magic m.network), lawful.magic_size m.network)))

  -- The bytes of valid metadata are refused by the reader of crates/token-identifier, since it reads the
  -- flag of the creation entity twice.
  pub from_bytes-to_bytes :
      (m : TokenMetadata)
      → IsMetadata L m
      → validate m ≡ ok tt
      → from_bytes L (to_bytes L m) ≡ err TokenMetadataParseError.io_error
  unfolding from_bytes
  from_bytes-to_bytes m ok_m valid =
      parse_all_lem m (read_u8 >> read_u8) ok_m valid ∙ tail_refused m m.creation_entity_public_key
