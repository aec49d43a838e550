-- ===== src/Token/Metadata/Identifier.antt =====
-- Two tokens with one identifier.
use spark_bridge_backend.Prelude.{
  ℕ, suc, ◌^◌, ◌<◌, ◌≡◌, refl, sym, ap, ◌∙◌, ◌≢◌, ◌⊎◌, inl, inr, Bool, true, false, Option, none,
  some, List, [], ◌∷◌, ◌++◌, arith, Bool-cases, Bytes, bytes_eq, bytes_eq_refl, bytes_eq_sound,
  length, get_elem?, take, drop, take-append, drop-append,
}
use spark_bridge_backend.Token.Cursor.{to_le_bytes, from_le_bytes, from_le_bytes-to_le_bytes}
use spark_bridge_backend.Token.Metadata.{
  Encoding, TokenMetadata, flag, entity_layer, reversed, fields, all_hashes,
  compute_token_identifier,
}
use spark_bridge_backend.Token.Metadata.Layout.{IsEncoding}

reversed-append :
    (L : Encoding) (xs : Bytes) (b : ℕ) → reversed L (xs ++ (b ∷ [])) ≡ b ∷ reversed L xs
reversed-append L [] b = refl
reversed-append L (x ∷ xs) b = rw (reversed-append L xs b) refl

reversed-reversed : (L : Encoding) (xs : Bytes) → reversed L (reversed L xs) ≡ xs
reversed-reversed L [] = refl
reversed-reversed L (x ∷ xs) =
    reversed-append L (reversed L xs) x ∙ ap (λ ys. x ∷ ys) (reversed-reversed L xs)

reversed_injective : (L : Encoding) (xs ys : Bytes) → reversed L xs ≡ reversed L ys → xs ≡ ys
reversed_injective L xs ys h =
    sym (reversed-reversed L xs) ∙ ap (reversed L) h ∙ reversed-reversed L ys

some_injective : {x y : ℕ} → some x ≡ some y → x ≡ y
some_injective h = cc

same_or_not : (x y : Bytes) → (x ≡ y) ⊎ (x ≢ y)
same_or_not x y = elim (Bool-cases (bytes_eq x y)) [
  | inl same ↦ inl (bytes_eq_sound x y same)
  | inr other ↦ inr (λ e. differs x y e other)
]
  where
    differs : (x y : Bytes) → x ≡ y → (bytes_eq x y ≢ false)
    differs x y e other = let r = bytes_eq_refl x in cc

module _ (L : Encoding) (sized : (x : Bytes) → length (L.sha256 x) ≡ 32) where
  split_hash :
      (x y u v : Bytes) → L.sha256 x ++ u ≡ L.sha256 y ++ v → (L.sha256 x ≡ L.sha256 y) × (u ≡ v)
  split_hash x y u v h = (
    sym (take-append (L.sha256 x) u)
        ∙ rw (sized x ∙ sym (sized y))
            (ap (take (length (L.sha256 y))) h ∙ take-append (L.sha256 y) v),
    sym (drop-append (L.sha256 x) u)
        ∙ rw (sized x ∙ sym (sized y))
            (ap (drop (length (L.sha256 y))) h ∙ drop-append (L.sha256 y) v),
  )

  -- two lists of byte strings have, at one place, different strings of one hash
  abbrev Clash : List Bytes → List Bytes → Type 0
  Clash xs ys =
      (i : ℕ) × (x : Bytes) × (y : Bytes) × (get_elem? xs i ≡ some x)
      × (get_elem? ys i ≡ some y)
      × (x ≢ y)
      × (L.sha256 x ≡ L.sha256 y)

  same_hashes :
      (xs ys : List Bytes)
      → length xs ≡ length ys
      → all_hashes L xs ≡ all_hashes L ys
      → (xs ≡ ys) ⊎ Clash xs ys
  unfolding all_hashes
  same_hashes [] [] n h = inl refl
  same_hashes [] (y ∷ ys) n h = absurd (omega arith)
  same_hashes (x ∷ xs) [] n h = absurd (omega arith)
  same_hashes (x ∷ xs) (y ∷ ys) n h =
      let parts = split_hash x y (all_hashes L xs) (all_hashes L ys) h in
      elim (same_or_not x y) [
        | inr other ↦ inr (0, x, y, refl, refl, other, parts.0)
        | inl same ↦ elim (same_hashes xs ys (omega (arith, n)) parts.1) [
          | inl alike ↦ inl cc
          | inr clash ↦ inr (suc clash.0, clash.1, clash.2, clash.3, clash.4, clash.5, clash.6)
        ]
      ]

field_eq :
    (h k : List Bytes) (i : ℕ) (x y : Bytes)
    → h ≡ k
    → get_elem? h i ≡ some x
    → get_elem? k i ≡ some y
    → x ≡ y
field_eq h k i x y e p q = cc

single_injective : {x y : ℕ} → (x ∷ []) ≡ (y ∷ []) → x ≡ y
single_injective h = cc

flag_injective : (a b : Bool) → flag a ≡ flag b → a ≡ b
flag_injective true true h = refl
flag_injective true false h = absurd (omega arith)
flag_injective false true h = absurd (omega arith)
flag_injective false false h = refl

module _ (L : Encoding) (lawful : IsEncoding L) where
  key_injective : (a b : ℕ) → L.serialize a ≡ L.serialize b → a ≡ b
  key_injective a b h =
      some_injective (sym (lawful.key_read a) ∙ ap L.from_slice h ∙ lawful.key_read b)

  network_injective : (a b : ℕ) → L.magic a ≡ L.magic b → a ≡ b
  network_injective a b h =
      some_injective (sym (lawful.magic_read a) ∙ ap L.from_magic h ∙ lawful.magic_read b)

  entity_injective : (a b : Option ℕ) → entity_layer L a ≡ entity_layer L b → a ≡ b
  entity_injective none none h = refl
  entity_injective none (some b) h = cc
  entity_injective (some a) none h = cc
  entity_injective (some a) (some b) h = ap some (key_injective a b (tails h))
    where
      tails : {x y : Bytes} → (2 ∷ x) ≡ (2 ∷ y) → x ≡ y
      tails h = cc

  fields_injective :
      (m m' : TokenMetadata)
      → m.max_supply < 256 ^ 16
      → m'.max_supply < 256 ^ 16
      → fields L m ≡ fields L m'
      → m ≡ m'
  unfolding fields
  fields_injective m m' small small' h =
      let issuer =
        key_injective m.issuer_public_key m'.issuer_public_key
          (field_eq (fields L m) (fields L m') 1 _ _ h refl refl) in
      let name : m.name ≡ m'.name = field_eq (fields L m) (fields L m') 2 _ _ h refl refl in
      let symbol : m.symbol ≡ m'.symbol = field_eq (fields L m) (fields L m') 3 _ _ h refl refl in
      let decimal : m.decimal ≡ m'.decimal =
        single_injective (field_eq (fields L m) (fields L m') 4 _ _ h refl refl) in
      let bytes =
        reversed_injective L (to_le_bytes 16 m.max_supply) (to_le_bytes 16 m'.max_supply)
          (field_eq (fields L m) (fields L m') 5 _ _ h refl refl) in
      let supply : m.max_supply ≡ m'.max_supply =
        sym (from_le_bytes-to_le_bytes 16 m.max_supply small)
        ∙ ap from_le_bytes bytes
        ∙ from_le_bytes-to_le_bytes 16 m'.max_supply small' in
      let freezable =
        flag_injective m.is_freezable m'.is_freezable
          (single_injective (field_eq (fields L m) (fields L m') 6 _ _ h refl refl)) in
      let network = network_injective m.network m'.network (
        reversed_injective L (L.magic m.network) (L.magic m'.network)
          (field_eq (fields L m) (fields L m') 7 _ _ h refl refl)) in
      let entity =
        entity_injective m.creation_entity_public_key m'.creation_entity_public_key
          (field_eq (fields L m) (fields L m') 8 _ _ h refl refl) in
      cc

length-fields : (L : Encoding) (m m' : TokenMetadata) → length (fields L m) ≡ length (fields L m')
unfolding fields
length-fields L m m' = refl

-- `x` is hashed on the way to the identifier of `m`.
abbrev pub IsHashed : Encoding → TokenMetadata → Bytes → Type 0
IsHashed L m x = (x ≡ all_hashes L (fields L m)) ⊎ ((i : ℕ) × (get_elem? (fields L m) i ≡ some x))

-- Two metadata with one identifier are the same, or two different byte strings that are hashed on the
-- way to their identifiers have one SHA-256 hash. The supplies fit 128 bits, a hash has 32 bytes, and
-- keys and magics are read back as their library documents.
pub compute_token_identifier_injective :
    (L : Encoding)
    → IsEncoding L
    → ((x : Bytes) → length (L.sha256 x) ≡ 32)
    → (m m' : TokenMetadata) → m.max_supply < 256 ^ 16
    → m'.max_supply < 256 ^ 16
    → compute_token_identifier L m ≡ compute_token_identifier L m'
    → (m ≡ m')
      ⊎ ((x : Bytes) × (y : Bytes) × IsHashed L m x
          × IsHashed L m' y
          × (x ≢ y)
          × (L.sha256 x ≡ L.sha256 y))
unfolding compute_token_identifier
compute_token_identifier_injective L lawful sized m m' small small' h =
    elim (same_or_not (all_hashes L (fields L m)) (all_hashes L (fields L m'))) [
      | inr other ↦
          inr (all_hashes L (fields L m), all_hashes L (fields L m'), inl refl, inl refl, other, h)
      | inl same ↦
          elim (same_hashes L sized (fields L m) (fields L m') (length-fields L m m') same) [
            | inl alike ↦ inl (fields_injective L lawful m m' small small' alike)
            | inr clash ↦
                inr (
                  clash.1,
                  clash.2,
                  inr (clash.0, clash.3),
                  inr (clash.0, clash.4),
                  clash.5,
                  clash.6,
                )
          ]
    ]
