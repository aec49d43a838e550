-- ===== src/Frost/Signer.antt =====
-- crates/frost/src/signer.rs: one verifier's side of the key generation and of the signing.
pub mod Calls
pub mod Stages
pub mod Nonces
pub mod Locks
pub mod Restart
use spark_bridge_backend.Prelude.{
  ℕ, zero, suc, ◌+◌, ◌-◌, ◌*◌, ◌/◌, ◌%◌, ◌^◌, ◌≤◌, ◌<◌, String, ◌≡◌, refl, sym, ap, ◌∙◌, ◌≢◌, ◌↔◌,
  ◌⊎◌, inl, inr, Bool, true, false, not, ◌&&◌, ◌||◌, Option, none, some, List, [], ◌∷◌, ◌++◌, map,
  arith, ltb, leb, ◌==◌, if◌then◌else◌, ==_iff, ==_refl, Bool-cases, Option-cases, is_none, is_some,
  Bytes, bytes_eq, bytes_eq_refl, bytes_eq_sound, All, length, get_elem?, take, drop, length-append,
  length-drop, take-append, drop-append, leb→le, ltb→lt,
}
use spark_bridge_backend.Prelude.Exec.{
  Result, ok, err, Exec, pure, raise, lift, gets, continue, ◌>>=◌, ◌>>◌, ok_or,
}
use spark_bridge_backend.Frost.Scheme.{Scheme}
use spark_bridge_backend.Frost.Types.{
  DkgRound1Request, DkgRound1Response, DkgRound2Request, DkgRound2Response, DkgFinalizeRequest,
  DkgFinalizeResponse, SignRound1Request, SignRound1Response, SignRound2Request, SignRound2Response,
  SignerDkgState, SignerDkgShareIdData, SignerSignState, SignerSignData, SignerError,
}

-- The two storages are a table each. `faults` says of each storage call to come whether it fails (a
-- lost connection); when it is used up, no call fails. `entropy` counts the draws from `OsRng`.
pub record FrostSigner : Type 0 where
  pub identifier : ℕ
  pub total_participants : ℕ
  pub threshold : ℕ
  pub dkg_shares : ℕ → Option SignerDkgShareIdData
  pub sign_sessions : ℕ → ℕ → Option SignerSignData
  pub locked_dkg_share_ids : ℕ → Bool
  pub entropy : ℕ
  pub faults : List Bool

abbrev pub update {ℓ} : {A : Type ℓ} → (ℕ → A) → ℕ → A → ℕ → A
update f k v j = if k == j then v else f j

abbrev pub update₂ {ℓ} : {A : Type ℓ} → (ℕ → ℕ → A) → ℕ → ℕ → A → ℕ → ℕ → A
update₂ f k l v i j = if (k == i) && (l == j) then v else f i j

abbrev pub M : Type 0 → Type 0
M A = Exec FrostSigner SignerError A

-- one round trip to the database
unfoldable pub database : M (Unit {0})
database s = elim s.faults [
  | [] ↦ (ok tt, s)
  | true ∷ later ↦ (err SignerError.database_error, record s { faults = later })
  | false ∷ later ↦ (ok tt, record s { faults = later })
]

unfoldable pub get_dkg_share_signer_data : ℕ → M (Option SignerDkgShareIdData)
get_dkg_share_signer_data id = do database; gets (λ s. s.dkg_shares id)

unfoldable pub set_dkg_share_signer_data : ℕ → SignerDkgShareIdData → M (Unit {0})
set_dkg_share_signer_data id v = do
  database
  λ s. (ok tt, record s { dkg_shares = update s.dkg_shares id (some v) })

unfoldable pub get_sign_data : ℕ → ℕ → M (Option SignerSignData)
get_sign_data id session = do database; gets (λ s. s.sign_sessions id session)

unfoldable pub set_sign_data : ℕ → ℕ → SignerSignData → M (Unit {0})
set_sign_data id session v = do
  database
  λ s. (ok tt, record s { sign_sessions = update₂ s.sign_sessions id session (some v) })

unfoldable pub draw : M ℕ
draw s = (ok s.entropy, record s { entropy = s.entropy + 1 })

unfoldable pub lock_dkg_share_id : ℕ → M (Unit {0})
lock_dkg_share_id id s =
    if s.locked_dkg_share_ids id
    then (err (SignerError.dkg_share_already_exists id), s)
    else (ok tt, record s { locked_dkg_share_ids = update s.locked_dkg_share_ids id true })

pub unlock_dkg_share_id : ℕ → M (Unit {0})
unlock_dkg_share_id id s =
    if s.locked_dkg_share_ids id
    then (ok tt, record s { locked_dkg_share_ids = update s.locked_dkg_share_ids id false })
    else (err (SignerError.dkg_share_not_found id), s)

-- `assert_eq!(left, right)`
unfoldable pub assert_eq : Bytes → Bytes → M (Unit {0})
assert_eq left right s = if bytes_eq left right then (ok tt, s) else (err SignerError.panicked, s)

-- `match dkg_share_data { Some(DkgFinalized { key_package }) => key_package, _ => return Err }`
abbrev pub finalized_key : Option SignerDkgShareIdData → Result SignerError Bytes
finalized_key none = err SignerError.invalid_user_state
finalized_key (some v) = elim v.dkg_state [
  | SignerDkgState.dkg_finalized key_package ↦ ok key_package
  | _ ↦ err SignerError.invalid_user_state
]

module _ (F : Scheme) where
  unfoldable pub first_round : ℕ → Option SignerDkgShareIdData → M DkgRound1Response
  first_round id none = do
    seed ← draw
    self ← gets (λ s. s)
    packages ← lift (
        ok_or (F.part1 self.identifier self.total_participants self.threshold seed)
          SignerError.internal)
    set_dkg_share_signer_data id (record { dkg_state = SignerDkgState.dkg_round1 packages.0 })
    pure (record { round1_package = packages.1 })
  first_round id (some v) = do
    unlock_dkg_share_id id
    raise (SignerError.dkg_share_already_exists id)

  unfoldable pub dkg_round_1 : DkgRound1Request → M DkgRound1Response
  dkg_round_1 request = do
    lock_dkg_share_id request.dkg_share_id
    dkg_share_data ← get_dkg_share_signer_data request.dkg_share_id
    first_round request.dkg_share_id dkg_share_data

  unfoldable pub second_round : DkgRound2Request → Option SignerDkgShareIdData → M DkgRound2Response
  second_round request none = raise SignerError.invalid_user_state
  second_round request (some v) = elim v.dkg_state [
    | SignerDkgState.dkg_round1 round1_secret_package ↦ (do
      packages ←
          lift (ok_or (F.part2 round1_secret_package request.round1_packages) SignerError.internal)
      set_dkg_share_signer_data request.dkg_share_id
          (record { dkg_state = SignerDkgState.dkg_round2 packages.0 request.round1_packages })
      pure (record { round2_packages = packages.1 }))
    | _ ↦ raise SignerError.invalid_user_state
  ]

  unfoldable pub dkg_round_2 : DkgRound2Request → M DkgRound2Response
  dkg_round_2 request = do
    dkg_share_data ← get_dkg_share_signer_data request.dkg_share_id
    second_round request dkg_share_data

  pub finalize : DkgFinalizeRequest → Option SignerDkgShareIdData → M DkgFinalizeResponse
  finalize request none = raise SignerError.invalid_user_state
  finalize request (some v) = elim v.dkg_state [
    | SignerDkgState.dkg_round2 round2_secret_package round1_packages ↦ (do
      packages ← lift (
          ok_or (F.part3 round2_secret_package round1_packages request.round2_packages)
            SignerError.internal)
      set_dkg_share_signer_data request.dkg_share_id
          (record { dkg_state = SignerDkgState.dkg_finalized packages.0 })
      unlock_dkg_share_id request.dkg_share_id
      pure (record { public_key_package = packages.1 }))
    | _ ↦ raise SignerError.invalid_user_state
  ]

  unfoldable pub dkg_finalize : DkgFinalizeRequest → M DkgFinalizeResponse
  dkg_finalize request = do
    dkg_share_data ← get_dkg_share_signer_data request.dkg_share_id
    finalize request dkg_share_data

  abbrev pub tweaked : Bytes → Option Bytes → Bytes
  tweaked key_package (some tweak) = F.tweak_key key_package (some tweak)
  tweaked key_package none = key_package

  pub commit_round : SignRound1Request → Option SignerDkgShareIdData → M SignRound1Response
  commit_round request none = raise SignerError.invalid_user_state
  commit_round request (some v) = elim v.dkg_state [
    | SignerDkgState.dkg_finalized key_package ↦ (do
      seed ← draw
      let commitment = F.commit (tweaked key_package request.tweak) seed
      set_sign_data request.dkg_share_id request.session_id (record {
        tweak = request.tweak;
        message_hash = request.message_hash;
        metadata = request.metadata;
        sign_state = SignerSignState.signing_round1 commitment.0;
      })
      pure (record { commitments = commitment.1 }))
    | _ ↦ raise SignerError.invalid_user_state
  ]

  unfoldable pub sign_round_1 : SignRound1Request → M SignRound1Response
  sign_round_1 request = do
    dkg_share_data ← get_dkg_share_signer_data request.dkg_share_id
    commit_round request dkg_share_data

  abbrev pub signing_key : Bool → Bytes → Option Bytes → Bytes
  signing_key tap_tweek key_package tweak =
      if tap_tweek then F.tweak_key (tweaked key_package tweak) none else tweaked key_package tweak

  unfoldable pub share_round : SignRound2Request → Bytes → SignerSignData → M SignRound2Response
  share_round request key_package sign_data = elim sign_data.sign_state [
    | SignerSignState.signing_round1 nonces ↦ (do
      signature_share ← lift (
          ok_or
            (F.sign request.signing_package nonces
              (signing_key request.tap_tweek key_package sign_data.tweak))
            SignerError.internal)
      set_sign_data request.dkg_share_id request.session_id
          (record sign_data { sign_state = SignerSignState.signing_round2 signature_share })
      pure (record { signature_share = signature_share }))
    | _ ↦ raise SignerError.invalid_user_state
  ]

  unfoldable pub sign_round_2 : SignRound2Request → M SignRound2Response
  sign_round_2 request = do
    dkg_share_data ← get_dkg_share_signer_data request.dkg_share_id
    key_package ← lift (finalized_key dkg_share_data)
    found ← get_sign_data request.dkg_share_id request.session_id
    sign_data ← lift (ok_or found SignerError.invalid_user_state)
    assert_eq sign_data.message_hash (F.package_message request.signing_package)
    share_round request key_package sign_data
