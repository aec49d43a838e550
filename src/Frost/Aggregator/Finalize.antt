-- ===== src/Frost/Aggregator/Finalize.antt =====
-- The end of the key generation (dkg_finalize of crates/frost/src/aggregator.rs): what each verifier is
-- handed, and what it must answer.
use spark_bridge_backend.Prelude.{
  ℕ, ◌≡◌, sym, ap, ◌∙◌, Option, none, some, List, [], All, arith, Bytes, get_elem?,
}
use spark_bridge_backend.Prelude.Map.{Map, lookup}
use spark_bridge_backend.Prelude.Exec.{Result, ok, lift, ◌>>=◌, bind_step, lift_step}
use spark_bridge_backend.Frost.Types.{
  DkgRound2Response, DkgFinalizeRequest, DkgFinalizeResponse, AggregatorDkgState,
  AggregatorDkgShareData, AggregatorError,
}
use spark_bridge_backend.Frost.Aggregator.Replies.{
  send_all, exchange, entry, gather, agreed, finalize_requests,
}
use spark_bridge_backend.Frost.Aggregator.Replies.Exchange.{
  Replies, IsReply, Unique, senders, exchange-round2_packages,
}
use spark_bridge_backend.Frost.Aggregator.Replies.Agreement.{agreed-gather}
use spark_bridge_backend.Frost.Aggregator.{
  SignerClient, FrostAggregator, M, database, get_dkg_share_agg_data, set_dkg_share_agg_data,
  join_all, final_round, dkg_finalize,
}
use spark_bridge_backend.Frost.Aggregator.Handing.{Hands, handed, handed_to, sent}

-- When the replies of the verifiers to the second round can be put together, and the requests of the
-- last round be made from them, the packages handed to a receiver are, for each sender, the one that the
-- sender made for it, and none where it made none. The replies come from different verifiers, and each
-- reply is a map.
pub finalize_requests-exchange :
    (id : ℕ) (round1 : Map Bytes) (round2 : Map (Map Bytes)) (verifiers : List ℕ)
    (requests : List (ℕ × DkgFinalizeRequest)) (replies : Replies) (j k sender receiver : ℕ)
    (response : DkgRound2Response) (request : DkgFinalizeRequest)
    → All IsReply replies
    → Unique (senders replies)
    → exchange [] replies ≡ ok round2
    → finalize_requests id round1 round2 verifiers ≡ ok requests
    → get_elem? replies j ≡ some (sender, ok response)
    → get_elem? requests k ≡ some (receiver, request)
    → lookup sender request.round2_packages ≡ lookup receiver response.round2_packages
finalize_requests-exchange id round1 round2 verifiers requests replies j k sender receiver response
      request maps different exchanged made from to =
    ap (λ packages. lookup sender (entry packages))
      (sym (handed_to id round1 round2 verifiers requests k receiver request made to).1)
    ∙ exchange-round2_packages replies j sender receiver response round2 maps different from
        exchanged

module _ {W : Type 0} (client : SignerClient W) (id : ℕ) (s : FrostAggregator W) where
  -- what a verifier answered to the request that hands it its packages
  abbrev pub Answered : Map Bytes → Map (Map Bytes) → Bytes → ℕ → Type 0
  Answered round1 round2 pk i =
      (request : DkgFinalizeRequest) × (w : W) × Hands id round1 round2 i request
      × ((client.dkg_finalize i request w).0 ≡ ok (record { public_key_package = pk }))

  abbrev pub Finalized : FrostAggregator W → Type 0
  Finalized t =
      (round1 : Map Bytes) × (round2 : Map (Map Bytes)) × (pk : Bytes) × (s.dkg_shares id
        ≡ some (record { dkg_state = AggregatorDkgState.dkg_round2 round1 round2 }))
      × (t.dkg_shares id ≡ some (record { dkg_state = AggregatorDkgState.dkg_finalized pk }))
      × ((j i : ℕ) → get_elem? s.verifiers j ≡ some i → Answered round1 round2 pk i)

  read_lem :
      (v : Option AggregatorDkgShareData)
      → (get_dkg_share_agg_data id s).0 ≡ ok v
      → (s.dkg_shares id ≡ v) × ((get_dkg_share_agg_data id s).1.verifiers ≡ s.verifiers)
  unfolding get_dkg_share_agg_data database
  read_lem v h = ground arith

set_lem :
    {W : Type 0} (id : ℕ) (v : AggregatorDkgShareData) (s : FrostAggregator W)
    → (set_dkg_share_agg_data id v s).0 ≡ ok tt
    → (set_dkg_share_agg_data id v s).1.dkg_shares id ≡ some v
unfolding set_dkg_share_agg_data database
set_lem id v s h = ground arith

module _ {W : Type 0} (client : SignerClient W) (id : ℕ) (s : FrostAggregator W) where
  never : (t : FrostAggregator W) → (final_round client id none t).0 ≡ ok tt → ⊥
  unfolding final_round
  never t h = cc

  replied :
      (replies : List (ℕ × Result AggregatorError DkgFinalizeResponse))
      (requests : List (ℕ × DkgFinalizeRequest)) (t : FrostAggregator W)
      → (join_all client.dkg_finalize requests t).0 ≡ ok replies
      → replies ≡ (send_all client.dkg_finalize requests t.world).0
  unfolding join_all
  replied replies requests t h = cc

  -- the last round in a state with the gateway's verifiers
  final_state_lem :
      (state : AggregatorDkgState) (t : FrostAggregator W)
      → s.dkg_shares id ≡ some (record { dkg_state = state })
      → t.verifiers ≡ s.verifiers
      → (final_round client id (some (record { dkg_state = state })) t).0 ≡ ok tt
      → Finalized client id s (final_round client id (some (record { dkg_state = state })) t).1
  unfolding final_round
  final_state_lem AggregatorDkgState.initialized t stored same = λ h. cc
  final_state_lem (AggregatorDkgState.dkg_round1 round1) t stored same = λ h. cc
  final_state_lem (AggregatorDkgState.dkg_finalized pk) t stored same = λ h. cc
  final_state_lem (AggregatorDkgState.dkg_round2 round1 round2) t stored same =
      lift_step Q (finalize_requests id round1 round2 t.verifiers) _ t
        (λ requests made.
          bind_step Q (join_all client.dkg_finalize requests)
            (λ replies. lift (gather replies) >>= compare) t
            (λ replies u asked _.
              lift_step Q (gather replies) compare u
                (λ packages gathered.
                  lift_step Q (agreed packages) store u
                    (λ pk accepted h. (
                      round1,
                      round2,
                      pk,
                      stored,
                      set_lem id _ u h,
                      λ j i at.
                          let (request, found, hands) =
                            handed id round1 round2 t.verifiers requests j i made (rw same at) in
                          let (w, reply) =
                            sent client.dkg_finalize requests t.world j i request found in
                          (
                            request,
                            w,
                            hands,
                            agreed-gather replies packages pk j i _ gathered accepted (
                                ap (λ l. get_elem? l j) (replied replies requests t asked) ∙ reply),
                          ),
                    ))
                    (λ e _ h. cc))
                (λ e _ h. cc))
            (λ e u _ _ h. cc))
        (λ e _ h. cc)
    where
      Q : Result AggregatorError (Unit {0}) → FrostAggregator W → Type 0
      Q res u = res ≡ ok tt → Finalized client id s u

      store : Bytes → M W (Unit {0})
      store pk =
          set_dkg_share_agg_data id (record { dkg_state = AggregatorDkgState.dkg_finalized pk })

      compare : List Bytes → M W (Unit {0})
      compare packages = lift (agreed packages) >>= store

  final_round_lem :
      (v : Option AggregatorDkgShareData) (t : FrostAggregator W)
      → s.dkg_shares id ≡ v
      → t.verifiers ≡ s.verifiers
      → (final_round client id v t).0 ≡ ok tt
      → Finalized client id s (final_round client id v t).1
  final_round_lem none t stored same h = absurd (never t h)
  final_round_lem (some v) t stored same h = final_state_lem v.dkg_state t stored same h

  -- When the last round of the key generation succeeds, the share was stored with the packages of its
  -- two rounds, and is stored as finalized with a public key package that every verifier of the gateway
  -- answered to the request that hands it the packages of the others and those made for it.
  pub dkg_finalize-public_key_package :
      (dkg_finalize client id s).0 ≡ ok tt → Finalized client id s (dkg_finalize client id s).1
  unfolding dkg_finalize
  dkg_finalize-public_key_package =
      bind_step Q (get_dkg_share_agg_data id) _ s
        (λ v t got here h.
          let (stored, same) = read_lem client id s v got in
          final_round_lem v t stored (ap (λ x. x.verifiers) (sym here) ∙ same) h)
        (λ e t _ _ h. cc)
    where
      Q : Result AggregatorError (Unit {0}) → FrostAggregator W → Type 0
      Q res u = res ≡ ok tt → Finalized client id s u
