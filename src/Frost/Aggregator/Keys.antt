-- ===== src/Frost/Aggregator/Keys.antt =====
-- The key generation as the gateway runs it: where it starts and what it stores.
use spark_bridge_backend.Prelude.{ℕ, ◌≡◌, sym, ap, ◌∙◌, Option, none, some, arith, Bytes}
use spark_bridge_backend.Prelude.Exec.{Result, ok, bind_step, lift_step}
use spark_bridge_backend.Frost.Types.{AggregatorDkgState, AggregatorDkgShareData, AggregatorError}
use spark_bridge_backend.Frost.Aggregator.{
  SignerClient, FrostAggregator, finalized_package, may_start, get_dkg_share_agg_data, database,
  first_round, dkg_round_1, dkg_round_2, dkg_finalize, run_dkg_flow,
}

module _ {W : Type 0} (id : ℕ) (s : FrostAggregator W) where
  get_keeps : (get_dkg_share_agg_data id s).1.dkg_shares ≡ s.dkg_shares
  unfolding get_dkg_share_agg_data database
  get_keeps = ground arith

  get_value :
      (v : Option AggregatorDkgShareData)
      → (get_dkg_share_agg_data id s).0 ≡ ok v
      → s.dkg_shares id ≡ v
  unfolding get_dkg_share_agg_data database
  get_value v h = ground arith

abbrev Stores : {W : Type 0} → ℕ → AggregatorDkgState → FrostAggregator W → Type 0
Stores id state t = t.dkg_shares id ≡ some (record { dkg_state = state })

finalized_lem :
    (v : Option AggregatorDkgShareData) (pk : Bytes)
    → finalized_package v ≡ ok pk
    → v ≡ some (record { dkg_state = AggregatorDkgState.dkg_finalized pk })
finalized_lem v pk h = ground arith

module _ {W : Type 0} (client : SignerClient W) (id : ℕ) where
  first_round_starts :
      (v : Option AggregatorDkgShareData) (s : FrostAggregator W)
      → (first_round client id v s).0 ≡ ok tt
      → v ≡ some (record { dkg_state = AggregatorDkgState.initialized })
  unfolding first_round
  first_round_starts none s h = cc
  first_round_starts (some v) s h = ground arith

  dkg_round_1_starts :
      (s : FrostAggregator W)
      → (dkg_round_1 client id s).0 ≡ ok tt
      → s.dkg_shares id ≡ some (record { dkg_state = AggregatorDkgState.initialized })
  unfolding dkg_round_1
  dkg_round_1_starts s =
      bind_step Q (get_dkg_share_agg_data id) _ s
        (λ v t got _ h. get_value id s v got ∙ first_round_starts v t h) (λ e t _ _ h. cc)
    where
      Q : Result AggregatorError (Unit {0}) → FrostAggregator W → Type 0
      Q res t =
          res ≡ ok tt
          → s.dkg_shares id ≡ some (record { dkg_state = AggregatorDkgState.initialized })

-- When the gateway's key generation returns a public key package, the share was stored before as
-- `Initialized`, and is stored after as finalized with that package. So the flow never generates
-- keys for a share that is finalized, or that another run has begun, or that is not stored.
pub run_dkg_flow-finalized :
    {W : Type 0} (client : SignerClient W) (id : ℕ) (pk : Bytes) (s : FrostAggregator W)
    → (run_dkg_flow client id s).0 ≡ ok pk
    → (s.dkg_shares id ≡ some (record { dkg_state = AggregatorDkgState.initialized }))
      × ((run_dkg_flow client id s).1.dkg_shares id
          ≡ some (record { dkg_state = AggregatorDkgState.dkg_finalized pk }))
unfolding run_dkg_flow
run_dkg_flow-finalized {W} client id pk s =
    bind_step Q (get_dkg_share_agg_data id) _ s
      (λ before t got here.
        lift_step Q (may_start id before) _ t
          (λ _ _.
            bind_step Q (dkg_round_1 client id) _ t
              (λ _ u first _.
                bind_step Q (dkg_round_2 client id) _ u
                  (λ _ v _ _.
                    bind_step Q (dkg_finalize client id) _ v
                      (λ _ w _ _.
                        bind_step Q (get_dkg_share_agg_data id) _ w
                          (λ after x read there h. (
                            started t here (dkg_round_1_starts client id t first),
                            ap (λ y. y.dkg_shares id) (sym there)
                                ∙ ap (λ f. f id) (get_keeps id w)
                                ∙ get_value id w after read
                                ∙ finalized_lem after pk h,
                          ))
                          (λ e t _ _ h. cc))
                      (λ e t _ _ h. cc))
                  (λ e t _ _ h. cc))
              (λ e t _ _ h. cc))
          (λ e _ h. cc))
      (λ e t _ _ h. cc)
  where
    started :
        (t : FrostAggregator W)
        → (get_dkg_share_agg_data id s).1 ≡ t
        → Stores id AggregatorDkgState.initialized t
        → Stores id AggregatorDkgState.initialized s
    started t here h = ap (λ f. f id) (sym (get_keeps id s)) ∙ ap (λ y. y.dkg_shares id) here ∙ h

    Q : Result AggregatorError Bytes → FrostAggregator W → Type 0
    Q res t =
        res ≡ ok pk
        → Stores id AggregatorDkgState.initialized s
          × Stores id (AggregatorDkgState.dkg_finalized pk) t
