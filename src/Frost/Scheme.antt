-- ===== src/Frost/Scheme.antt =====
-- frost_secp256k1_tr, the library that crates/frost calls. It is not part of the repository, so it
-- is a parameter: its values are byte strings (their serialisation), `none` is an `Err`, and the
-- random numbers that a call draws are one argument, `entropy`.
use spark_bridge_backend.Prelude.{ℕ, Bool, Option, Bytes}
use spark_bridge_backend.Prelude.Map.{Map}

pub record Scheme : Type 0 where
  -- keys::dkg::part1(identifier, total_participants, threshold, rng): secret package and package
  pub part1 : ℕ → ℕ → ℕ → ℕ → Option (Bytes × Bytes)
  -- keys::dkg::part2(secret, round1_packages): secret package, and a package for each receiver
  pub part2 : Bytes → Map Bytes → Option (Bytes × Map Bytes)
  -- keys::dkg::part3(secret, round1_packages, round2_packages): key package, public key package
  pub part3 : Bytes → Map Bytes → Map Bytes → Option (Bytes × Bytes)
  -- KeyPackage::tweak and PublicKeyPackage::tweak
  pub tweak_key : Bytes → Option Bytes → Bytes
  pub tweak_public : Bytes → Option Bytes → Bytes
  -- round1::commit(key_package.signing_share(), rng): nonces and commitments
  pub commit : Bytes → ℕ → Bytes × Bytes
  -- SigningPackage::new(commitments, message) and its message()
  pub package_new : Map Bytes → Bytes → Bytes
  pub package_message : Bytes → Bytes
  -- round2::sign(signing_package, nonces, key_package)
  pub sign : Bytes → Bytes → Bytes → Option Bytes
  -- aggregate(signing_package, signature_shares, public_key_package)
  pub aggregate : Bytes → Map Bytes → Bytes → Option Bytes
  -- public_key_package.verifying_key().verify(message, signature).is_ok()
  pub verify : Bytes → Bytes → Bytes → Bool
