-- ===== src/Frost/Signer/Calls.antt =====
-- A sequence of requests to one signer, in any order and with any failures of its database.
use spark_bridge_backend.Prelude.{List, [], ◌∷◌}
use spark_bridge_backend.Frost.Scheme.{Scheme}
use spark_bridge_backend.Frost.Types.{
  DkgRound1Request, DkgRound2Request, DkgFinalizeRequest, SignRound1Request, SignRound2Request,
}
use spark_bridge_backend.Frost.Signer.{
  FrostSigner, dkg_round_1, dkg_round_2, dkg_finalize, sign_round_1, sign_round_2,
}

pub data Call : Type 0 where
  dkg_round1 : DkgRound1Request → Call
  dkg_round2 : DkgRound2Request → Call
  finalize : DkgFinalizeRequest → Call
  sign_round1 : SignRound1Request → Call
  sign_round2 : SignRound2Request → Call

module _ (F : Scheme) where
  -- the signer after one request, whether it was answered or refused
  unfoldable pub step : FrostSigner → Call → FrostSigner
  step s (Call.dkg_round1 r) = (dkg_round_1 F r s).1
  step s (Call.dkg_round2 r) = (dkg_round_2 F r s).1
  step s (Call.finalize r) = (dkg_finalize F r s).1
  step s (Call.sign_round1 r) = (sign_round_1 F r s).1
  step s (Call.sign_round2 r) = (sign_round_2 F r s).1

  unfoldable pub run : FrostSigner → List Call → FrostSigner
  run s [] = s
  run s (c ∷ cs) = run (step s c) cs

  -- what every call keeps, a sequence keeps
  pub run_induction {ℓ} :
      (P : FrostSigner → Type ℓ)
      → ((s : FrostSigner) (c : Call) → P s → P (step s c))
      → (s : FrostSigner) (cs : List Call) → P s
      → P (run s cs)
  unfolding run
  run_induction P keep s [] h = h
  run_induction P keep s (c ∷ cs) h = run_induction P keep (step s c) cs (keep s c h)
