-- ===== src/Tests/Generation.antt =====
-- The gateway with two verifiers, which always give the same answers.
use spark_bridge_backend.Prelude.{
  ℕ, List, ◌-◌, ◌≡◌, refl, true, false, none, some, [], ◌∷◌, Bytes, bytes_eq,
}
use spark_bridge_backend.Prelude.Map.{Map, lookup, insert, remove}
use spark_bridge_backend.Prelude.Exec.{ok}
use spark_bridge_backend.Frost.Types.{DkgFinalizeRequest, SigningMetadata, AggregatorDkgState}
use spark_bridge_backend.Tests.Signing.{toy}
use spark_bridge_backend.Frost.Aggregator.{
  SignerClient, FrostAggregator, database, get_dkg_share_agg_data, set_dkg_share_agg_data,
  get_sign_data, set_sign_data, join_all, first_round, dkg_round_1, second_round, dkg_round_2,
  final_round, dkg_finalize, run_dkg_flow,
}
use spark_bridge_backend.Frost.Aggregator.Replies.{
  send_all, collect, deliver, exchange, gather, all_equal, agreed, finalize_requests,
}
use spark_bridge_backend.Frost.Aggregator.Replies.Exchange.{Unique, contains, Replies}
use spark_bridge_backend.Frost.Aggregator.Finalize.{
  finalize_requests-exchange, Finalized, dkg_finalize-public_key_package,
}
use spark_bridge_backend.Frost.Aggregator.Keys.{run_dkg_flow-finalized}
use spark_bridge_backend.Frost.Aggregator.Signing.{
  sign_round_1, sign_round_2, run_signing_flow, verification_package,
}
use spark_bridge_backend.Frost.Aggregator.Signing.Verified.{run_signing_flow-verify}

abbrev client : SignerClient (Unit {0})
client = record {
  dkg_round_1 = λ i request w. (ok (record { round1_package = i ∷ [] }), w);
  dkg_round_2 = λ i request w. (ok (record { round2_packages = (3 - i, i ∷ []) ∷ [] }), w);
  dkg_finalize = λ i request w. (ok (record { public_key_package = 9 ∷ [] }), w);
  sign_round_1 = λ i request w. (ok (record { commitments = i ∷ [] }), w);
  sign_round_2 = λ i request w. (ok (record { signature_share = i ∷ [] }), w);
}

abbrev gateway : AggregatorDkgState → FrostAggregator (Unit {0})
gateway state = record {
  verifiers = 1 ∷ 2 ∷ [];
  dkg_shares = λ id. some (record { dkg_state = state });
  sign_sessions = λ id session. none;
  world = tt;
  faults = [];
}

run_dkg_flow-finalized_example :
    ((gateway AggregatorDkgState.initialized).dkg_shares 7
      ≡ some (record { dkg_state = AggregatorDkgState.initialized }))
    × ((run_dkg_flow client 7 (gateway AggregatorDkgState.initialized)).1.dkg_shares 7
        ≡ some (record { dkg_state = AggregatorDkgState.dkg_finalized (9 ∷ []) }))
unfolding run_dkg_flow dkg_round_1 dkg_round_2 dkg_finalize first_round second_round final_round
    get_dkg_share_agg_data set_dkg_share_agg_data database join_all send_all collect exchange
    deliver gather finalize_requests agreed all_equal bytes_eq insert lookup remove
run_dkg_flow-finalized_example =
    run_dkg_flow-finalized client 7 (9 ∷ []) (gateway AggregatorDkgState.initialized) refl

run_signing_flow-verify_example :
    (public_key_package : Bytes) × ((gateway (AggregatorDkgState.dkg_finalized (9 ∷ []))).dkg_shares
        7
      ≡ some (record { dkg_state = AggregatorDkgState.dkg_finalized public_key_package }))
    × (toy.verify (verification_package toy false public_key_package none) (5 ∷ []) (9 ∷ []) ≡ true)
unfolding run_signing_flow sign_round_1 sign_round_2 get_dkg_share_agg_data get_sign_data
    set_sign_data database join_all send_all collect bytes_eq insert
run_signing_flow-verify_example =
    run_signing_flow-verify toy client 7 3 (5 ∷ []) SigningMetadata.authorization none false
      (gateway (AggregatorDkgState.dkg_finalized (9 ∷ []))) (9 ∷ []) refl

abbrev replies : Replies
replies =
    (1, ok (record { round2_packages = (2, 12 ∷ []) ∷ (3, 13 ∷ []) ∷ [] }))
    ∷ (2, ok (record { round2_packages = (1, 21 ∷ []) ∷ (3, 23 ∷ []) ∷ [] }))
    ∷ []

abbrev exchanged : Map (Map Bytes)
exchanged =
    (1, (2, 21 ∷ []) ∷ []) ∷ (2, (1, 12 ∷ []) ∷ []) ∷ (3, (1, 13 ∷ []) ∷ (2, 23 ∷ []) ∷ []) ∷ []

abbrev requests : List (ℕ × DkgFinalizeRequest)
requests =
    (
      3,
      record {
        dkg_share_id = 7;
        round1_packages = (1, 1 ∷ []) ∷ [];
        round2_packages = (1, 13 ∷ []) ∷ (2, 23 ∷ []) ∷ [];
      },
    )
    ∷ []

finalize_requests-exchange_example :
    lookup {V = Bytes} 2 ((1, 13 ∷ []) ∷ (2, 23 ∷ []) ∷ [])
    ≡ lookup 3 ((1, 21 ∷ []) ∷ (3, 23 ∷ []) ∷ [])
unfolding exchange deliver insert lookup remove finalize_requests Unique contains
finalize_requests-exchange_example =
    finalize_requests-exchange 7 ((1, 1 ∷ []) ∷ (3, 3 ∷ []) ∷ []) exchanged (3 ∷ []) requests
      replies 1 0 2 3 (record { round2_packages = (1, 21 ∷ []) ∷ (3, 23 ∷ []) ∷ [] })
      (record {
        dkg_share_id = 7;
        round1_packages = (1, 1 ∷ []) ∷ [];
        round2_packages = (1, 13 ∷ []) ∷ (2, 23 ∷ []) ∷ [];
      })
      ((refl, (refl, tt)), ((refl, (refl, tt)), tt)) (refl, (refl, tt)) refl refl refl refl

abbrev two_rounds : FrostAggregator (Unit {0})
two_rounds = gateway (AggregatorDkgState.dkg_round2 ((1, 1 ∷ []) ∷ (2, 2 ∷ []) ∷ []) exchanged)

dkg_finalize-public_key_package_example :
    Finalized client 7 two_rounds (dkg_finalize client 7 two_rounds).1
unfolding dkg_finalize final_round get_dkg_share_agg_data set_dkg_share_agg_data database join_all
    send_all finalize_requests gather agreed all_equal lookup remove bytes_eq
dkg_finalize-public_key_package_example = dkg_finalize-public_key_package client 7 two_rounds refl
