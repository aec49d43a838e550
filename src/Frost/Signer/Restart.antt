-- ===== src/Frost/Signer/Restart.antt =====
-- The locks are kept in memory only: what a signer does after a restart with the shares it had begun.
use spark_bridge_backend.Prelude.{ℕ, ◌≡◌, refl, ◌≢◌, true, false, List, [], arith, is_some}
use spark_bridge_backend.Prelude.Exec.{ok}
use spark_bridge_backend.Frost.Scheme.{Scheme}
use spark_bridge_backend.Frost.Types.{
  DkgRound1Request, DkgRound2Request, DkgFinalizeRequest, DkgFinalizeResponse, SignRound1Request,
  SignRound2Request,
}
use spark_bridge_backend.Frost.Signer.{
  FrostSigner, lock_dkg_share_id, unlock_dkg_share_id, dkg_round_1, dkg_round_2, dkg_finalize,
  sign_round_1, sign_round_2,
}
use spark_bridge_backend.Frost.Signer.{
  database, draw, assert_eq, get_dkg_share_signer_data, set_dkg_share_signer_data, get_sign_data,
  set_sign_data, first_round, second_round, finalize, commit_round, share_round,
}
use spark_bridge_backend.Frost.Signer.Calls.{Call, step, run, run_induction}

module _ (F : Scheme) (id : ℕ) where
  -- stored, not locked, with a database that does not fail
  abbrev Restarted : FrostSigner → Type 0
  Restarted t =
      (t.locked_dkg_share_ids id ≡ false) × (is_some (t.dkg_shares id) ≡ true) × (t.faults ≡ [])

  round_1_keeps :
      (r : DkgRound1Request) (s : FrostSigner) → Restarted s → Restarted (dkg_round_1 F r s).1
  unfolding dkg_round_1 lock_dkg_share_id unlock_dkg_share_id get_dkg_share_signer_data database
      first_round draw set_dkg_share_signer_data
  round_1_keeps r s h = ground arith

  round_2_keeps :
      (r : DkgRound2Request) (s : FrostSigner) → Restarted s → Restarted (dkg_round_2 F r s).1
  unfolding dkg_round_2 get_dkg_share_signer_data database second_round set_dkg_share_signer_data
  round_2_keeps r s h = ground arith

  finalize_keeps :
      (r : DkgFinalizeRequest) (s : FrostSigner) → Restarted s → Restarted (dkg_finalize F r s).1
  unfolding dkg_finalize get_dkg_share_signer_data database finalize set_dkg_share_signer_data
      unlock_dkg_share_id
  finalize_keeps r s h = ground arith

  sign_1_keeps :
      (r : SignRound1Request) (s : FrostSigner) → Restarted s → Restarted (sign_round_1 F r s).1
  unfolding sign_round_1 get_dkg_share_signer_data database commit_round set_sign_data draw
  sign_1_keeps r s h = ground arith

  sign_2_keeps :
      (r : SignRound2Request) (s : FrostSigner) → Restarted s → Restarted (sign_round_2 F r s).1
  unfolding sign_round_2 get_dkg_share_signer_data database get_sign_data assert_eq share_round
      set_sign_data
  sign_2_keeps r s h = ground arith

  finalize_refuses :
      (r : DkgFinalizeRequest) (a : DkgFinalizeResponse) (s : FrostSigner)
      → r.dkg_share_id ≡ id
      → Restarted s
      → (dkg_finalize F r s).0 ≢ ok a
  unfolding dkg_finalize get_dkg_share_signer_data database finalize set_dkg_share_signer_data
      unlock_dkg_share_id
  finalize_refuses r a s e h k = ground arith

  Restarted-step : (s : FrostSigner) (c : Call) → Restarted s → Restarted (step F s c)
  unfolding step
  Restarted-step s (Call.dkg_round1 r) = round_1_keeps r s
  Restarted-step s (Call.dkg_round2 r) = round_2_keeps r s
  Restarted-step s (Call.finalize r) = finalize_keeps r s
  Restarted-step s (Call.sign_round1 r) = sign_1_keeps r s
  Restarted-step s (Call.sign_round2 r) = sign_2_keeps r s

-- A share that is stored while its lock is free, as every share begun before a restart is, is never
-- finalized with an answer: after any requests the last round of the key generation fails for it,
-- though no call of the database fails.
pub dkg_finalize_unlocked :
    (F : Scheme) (r : DkgFinalizeRequest) (a : DkgFinalizeResponse) (s : FrostSigner)
    (cs : List Call)
    → s.locked_dkg_share_ids r.dkg_share_id ≡ false
    → is_some (s.dkg_shares r.dkg_share_id) ≡ true
    → s.faults ≡ []
    → (dkg_finalize F r (run F s cs)).0 ≢ ok a
dkg_finalize_unlocked F r a s cs unlocked stored sound =
    finalize_refuses F r.dkg_share_id r a (run F s cs) refl (
      run_induction F (Restarted F r.dkg_share_id) (Restarted-step F r.dkg_share_id) s cs
        (unlocked, stored, sound))
