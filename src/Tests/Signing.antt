-- ===== src/Tests/Signing.antt =====
-- One signer, with a scheme whose values are short byte strings.
use spark_bridge_backend.Prelude.{
  ◌≡◌, refl, ◌≢◌, true, false, none, some, [], ◌∷◌, ◌++◌, ◌==◌, if◌then◌else◌, bytes_eq,
}
use spark_bridge_backend.Prelude.Exec.{ok, err}
use spark_bridge_backend.Frost.Scheme.{Scheme}
use spark_bridge_backend.Frost.Types.{
  DkgRound1Request, SignRound2Request, SignerDkgState, SignerDkgShareIdData, SignerSignState,
  SignerSignData, SignerError, SigningMetadata,
}
use spark_bridge_backend.Frost.Signer.{
  FrostSigner, dkg_round_1, lock_dkg_share_id, get_dkg_share_signer_data, set_dkg_share_signer_data,
  database, first_round, draw,
}
use spark_bridge_backend.Frost.Signer.{dkg_finalize}
use spark_bridge_backend.Frost.Signer.Restart.{dkg_finalize_unlocked}
use spark_bridge_backend.Frost.Types.{DkgFinalizeRequest}
use spark_bridge_backend.Frost.Signer.Calls.{Call, step, run}
use spark_bridge_backend.Frost.Signer.Stages.{
  dkg_round_1-once, step-Advances, run-finalized, Advances,
}
use spark_bridge_backend.Frost.Signer.Locks.{dkg_round_1_failure_final}

abbrev pub toy : Scheme
toy = record {
  part1 = λ identifier total threshold entropy. some (entropy ∷ [], identifier ∷ entropy ∷ []);
  part2 = λ secret packages. some (secret, packages);
  part3 = λ secret round1 round2. some (secret, 9 ∷ []);
  tweak_key = λ key tweak. key;
  tweak_public = λ key tweak. key;
  commit = λ key entropy. (entropy ∷ [], entropy ∷ []);
  package_new = λ commitments message. message;
  package_message = λ signing_package. signing_package;
  sign = λ signing_package nonces key. some (nonces ++ key);
  aggregate = λ signing_package shares key. some key;
  verify = λ key message signature. bytes_eq key signature;
}

abbrev finalized_share : SignerDkgShareIdData
finalized_share = record { dkg_state = SignerDkgState.dkg_finalized (4 ∷ []) }

abbrev open_session : SignerSignData
open_session = record {
  tweak = none;
  message_hash = 8 ∷ [];
  metadata = SigningMetadata.authorization;
  sign_state = SignerSignState.signing_round1 (6 ∷ []);
}

-- share 1 is finalized, and its session 3 has answered the first round
abbrev signer : FrostSigner
signer = record {
  identifier = 1;
  total_participants = 3;
  threshold = 2;
  dkg_shares = λ id. if id == 1 then some finalized_share else none;
  sign_sessions = λ id session. if session == 3 then some open_session else none;
  locked_dkg_share_ids = λ id. false;
  entropy = 20;
  faults = [];
}

-- the same, with a database that loses its second call
abbrev failing_signer : FrostSigner
failing_signer = record signer { faults = false ∷ true ∷ [] }

abbrev round1 : DkgRound1Request
round1 = record { dkg_share_id = 5 }

abbrev round2 : SignRound2Request
round2 = record { dkg_share_id = 1; session_id = 3; signing_package = 8 ∷ []; tap_tweek = false }

dkg_round_1-once_example :
    (dkg_round_1 toy round1
      (run toy (dkg_round_1 toy round1 signer).1 (Call.dkg_round1 round1 ∷ []))).0
    ≢ ok (record { round1_package = 7 ∷ [] })
unfolding dkg_round_1 lock_dkg_share_id get_dkg_share_signer_data database first_round draw
    set_dkg_share_signer_data
dkg_round_1-once_example =
    dkg_round_1-once toy round1 round1 (record { round1_package = 1 ∷ 20 ∷ [] })
      (record { round1_package = 7 ∷ [] }) signer (Call.dkg_round1 round1 ∷ []) refl refl

step-Advances_example : Advances none ((step toy signer (Call.dkg_round1 round1)).dkg_shares 5)
step-Advances_example = step-Advances toy 5 signer (Call.dkg_round1 round1)

run-finalized_example :
    (run toy signer (Call.dkg_round1 (record { dkg_share_id = 1 }) ∷ [])).dkg_shares 1
    ≡ some finalized_share
run-finalized_example =
    run-finalized toy 1 (4 ∷ []) signer (Call.dkg_round1 (record { dkg_share_id = 1 }) ∷ []) refl

dkg_round_1_failure_final_example :
    ((dkg_round_1 toy round1 (run toy (dkg_round_1 toy round1 failing_signer).1 [])).0
      ≡ err (SignerError.dkg_share_already_exists 5))
    × ((run toy (dkg_round_1 toy round1 failing_signer).1 []).dkg_shares 5 ≡ none)
unfolding dkg_round_1 lock_dkg_share_id get_dkg_share_signer_data database first_round draw
    set_dkg_share_signer_data
dkg_round_1_failure_final_example =
    dkg_round_1_failure_final toy round1 round1 SignerError.database_error failing_signer [] refl
      refl refl refl

-- share 2 was in its second round when the signer stopped
abbrev restarted_signer : FrostSigner
restarted_signer = record signer {
  dkg_shares = λ id. some (record { dkg_state = SignerDkgState.dkg_round2 (4 ∷ []) [] });
}

abbrev finalize_request : DkgFinalizeRequest
finalize_request = record { dkg_share_id = 2; round1_packages = []; round2_packages = [] }

dkg_finalize_unlocked_example :
    (dkg_finalize toy finalize_request
      (run toy restarted_signer (Call.finalize finalize_request ∷ []))).0
    ≢ ok (record { public_key_package = 9 ∷ [] })
dkg_finalize_unlocked_example =
    dkg_finalize_unlocked toy finalize_request (record { public_key_package = 9 ∷ [] })
      restarted_signer (Call.finalize finalize_request ∷ []) refl refl refl
