-- ===== src/Frost/Aggregator/Signing.antt =====
-- crates/frost/src/aggregator.rs: the two signing rounds, and the key package of a share.
pub mod Session
pub mod Verified
use spark_bridge_backend.Prelude.{
  ℕ, zero, suc, ◌+◌, ◌-◌, ◌*◌, ◌/◌, ◌%◌, ◌^◌, ◌≤◌, ◌<◌, String, ◌≡◌, refl, sym, ap, ◌∙◌, ◌≢◌, ◌↔◌,
  ◌⊎◌, inl, inr, Bool, true, false, not, ◌&&◌, ◌||◌, Option, none, some, List, [], ◌∷◌, ◌++◌, map,
  arith, ltb, leb, ◌==◌, if◌then◌else◌, ==_iff, ==_refl, Bool-cases, Option-cases, is_none, is_some,
  Bytes, bytes_eq, bytes_eq_refl, bytes_eq_sound, All, length, get_elem?, take, drop, length-append,
  length-drop, take-append, drop-append, leb→le, ltb→lt,
}
use spark_bridge_backend.Prelude.Map.{Map}
use spark_bridge_backend.Prelude.Exec.{
  Result, ok, err, Exec, pure, raise, lift, gets, continue, ◌>>=◌, ◌>>◌, ok_or,
}
use spark_bridge_backend.Frost.Scheme.{Scheme}
use spark_bridge_backend.Frost.Types.{
  SignRound1Request, SignRound1Response, SignRound2Request, SignRound2Response, AggregatorDkgState,
  AggregatorDkgShareData, AggregatorSignState, AggregatorSignData, AggregatorError, SigningMetadata,
}
use spark_bridge_backend.Frost.Aggregator.{
  SignerClient, FrostAggregator, M, finalized_package, get_dkg_share_agg_data, get_sign_data,
  set_sign_data, join_all,
}
use spark_bridge_backend.Frost.Aggregator.Replies.{collect}

module _ (F : Scheme) where
  abbrev pub tweaked : Bytes → Option Bytes → Bytes
  tweaked public_key_package (some tweak) = F.tweak_public public_key_package (some tweak)
  tweaked public_key_package none = public_key_package

  -- the key package under which a session's signature has to verify
  abbrev pub verification_package : Bool → Bytes → Option Bytes → Bytes
  verification_package tap_tweek public_key_package tweak =
      if tap_tweek
      then F.tweak_public (tweaked public_key_package tweak) none
      else tweaked public_key_package tweak

  -- `aggregate(..).map_err(..)?` and the check of the signature
  abbrev pub checked_signature : Bytes → Map Bytes → Bytes → Bytes → Result AggregatorError Bytes
  checked_signature signing_package shares package_tweaked message_hash =
      elim (F.aggregate signing_package shares package_tweaked) [
        | none ↦ err AggregatorError.internal
        | some signature ↦
            if F.verify package_tweaked message_hash signature
            then ok signature
            else err AggregatorError.internal
      ]

-- `SigningRound1 { signing_package }`, or the error that the other state gives
abbrev pub open_package : AggregatorSignState → Result AggregatorError Bytes
open_package (AggregatorSignState.signing_round1 signing_package) = ok signing_package
open_package (AggregatorSignState.signing_round2 signature) = err AggregatorError.invalid_user_state

abbrev pub signature_of : AggregatorSignState → Result AggregatorError Bytes
signature_of (AggregatorSignState.signing_round1 signing_package) =
    err AggregatorError.invalid_user_state
signature_of (AggregatorSignState.signing_round2 signature) = ok signature

module _ (F : Scheme) {W : Type 0} (client : SignerClient W) where
  unfoldable pub sign_round_1 : ℕ → ℕ → Bytes → SigningMetadata → Option Bytes → M W (Unit {0})
  sign_round_1 id session message_hash metadata tweak = do
    v ← get_dkg_share_agg_data id
    lift (finalized_package v)
    self ← gets (λ s. s)
    replies ← join_all client.sign_round_1 (
        map
          (λ i. (
            i,
            record {
              dkg_share_id = id;
              session_id = session;
              metadata = metadata;
              message_hash = message_hash;
              tweak = tweak;
            },
          ))
          self.verifiers)
    commitments ← lift (collect (λ (a : SignRound1Response). a.commitments) [] replies)
    set_sign_data id session (record {
      tweak = tweak;
      message_hash = message_hash;
      metadata = metadata;
      sign_state = AggregatorSignState.signing_round1 (F.package_new commitments message_hash);
    })

  unfoldable pub sign_round_2 : ℕ → ℕ → Bool → M W (Unit {0})
  sign_round_2 id session tap_tweek = do
    v ← get_dkg_share_agg_data id
    found ← get_sign_data id session
    sign_data ← lift (ok_or found AggregatorError.invalid_user_state)
    public_key_package ← lift (finalized_package v)
    signing_package ← lift (open_package sign_data.sign_state)
    self ← gets (λ s. s)
    replies ← join_all client.sign_round_2 (
        map
          (λ i. (
            i,
            record {
              dkg_share_id = id;
              session_id = session;
              signing_package = signing_package;
              tap_tweek = tap_tweek;
            },
          ))
          self.verifiers)
    shares ← lift (collect (λ (a : SignRound2Response). a.signature_share) [] replies)
    signature ← lift (
        checked_signature F signing_package shares
          (verification_package F tap_tweek public_key_package sign_data.tweak)
          sign_data.message_hash)
    set_sign_data id session
        (record sign_data { sign_state = AggregatorSignState.signing_round2 signature })

  -- `session` is what `get_uuid` draws.
  unfoldable pub run_signing_flow :
      ℕ → ℕ → Bytes → SigningMetadata → Option Bytes → Bool → M W Bytes
  run_signing_flow session id message_hash metadata tweak tap_tweek = do
    sign_round_1 id session message_hash metadata tweak
    sign_round_2 id session tap_tweek
    found ← get_sign_data id session
    sign_data ← lift (ok_or found AggregatorError.invalid_user_state)
    lift (signature_of sign_data.sign_state)

module _ (F : Scheme) {W : Type 0} where
  unfoldable pub get_public_key_package : ℕ → Option Bytes → M W Bytes
  get_public_key_package id tweak = do
    v ← get_dkg_share_agg_data id
    public_key_package ← lift (finalized_package v)
    pure (tweaked F public_key_package tweak)
