-- ===== src/Indexer/Rounds/Verdicts.antt =====
-- What the verifiers are told in a round.
use spark_bridge_backend.Prelude.{
  ◌≡◌, refl, sym, ◌∙◌, ◌≢◌, inl, inr, Option, none, some, List, [], ◌∷◌, arith, Option-cases, All,
}
use spark_bridge_backend.Prelude.{All-map}
use spark_bridge_backend.Prelude.Exec.{ok, bind_rule}
use spark_bridge_backend.Token.Identifier as Identifier
use spark_bridge_backend.Verifier.Types.{OutPoint}
use spark_bridge_backend.Indexer.Types.{
  Libraries, WatchRequestStatus, ValidationResult, ValidationMetadata, WatchRequest,
  WatchRequestRow, OutPointData, BlockchainInfo, BtcIndexerConfig,
}
use spark_bridge_backend.Indexer.Requests.{
  Indexer, Clients, read_pending, get_all_unprocessed_watch_requests,
}
use spark_bridge_backend.Indexer.Rounds.{
  validate_deposit_transaction, validate_transaction_timeout, storage, get_blockchain_info,
  get_transaction_outpoint, now, process_found, process_watch_request, process_all,
  process_watch_requests,
}
use spark_bridge_backend.Indexer.Rounds.Valid.{validate_deposit_transaction_iff}
use spark_bridge_backend.Indexer.Rounds.Told.{
  IsFound, IsWatched, IsTold, decided_lem, found_told, missing_told, timeout_lem,
}
use spark_bridge_backend.Indexer.Rounds.Pending.{read_pending_lem, get_all_lem, indexed}

module _ (T : Libraries) (network : Identifier.Network) (config : BtcIndexerConfig) {W : Type 0}
    (C : Clients W) (rows : List WatchRequestRow) where
  abbrev AllTold : Indexer W → Type 0
  AllTold t = All (IsTold T network config C rows) t.sent

  info_found :
      (s : Indexer W) (info : BlockchainInfo)
      → (get_blockchain_info C s).0 ≡ ok info
      → (C.get_blockchain_info s.world).0 ≡ some info
  unfolding get_blockchain_info
  info_found s info h = elim (Option-cases (C.get_blockchain_info s.world).0) [
    | inl none_there ↦ ground (arith, none_there, h)
    | inr (a, there) ↦ ground (arith, there, h)
  ]

  outpoint_found :
      (outpoint : OutPoint) (s : Indexer W) (found : Option OutPointData)
      → (get_transaction_outpoint C outpoint s).0 ≡ ok found
      → (C.get_transaction_outpoint outpoint s.world).0 ≡ some found
  unfolding get_transaction_outpoint
  outpoint_found outpoint s found h =
      elim (Option-cases (C.get_transaction_outpoint outpoint s.world).0) [
        | inl none_there ↦ ground (arith, none_there, h)
        | inr (a, there) ↦ ground (arith, there, h)
      ]

  info_sent : (s : Indexer W) → (get_blockchain_info C s).1.sent ≡ s.sent
  unfolding get_blockchain_info
  info_sent s = refl

  outpoint_sent :
      (outpoint : OutPoint) (s : Indexer W)
      → (get_transaction_outpoint C outpoint s).1.sent ≡ s.sent
  unfolding get_transaction_outpoint
  outpoint_sent outpoint s = refl

  module _ (request : WatchRequest) (watched : IsWatched T network rows request) where
    process_found_told :
        (info : BlockchainInfo) (data_there : OutPointData) (s : Indexer W)
        → IsFound config C request data_there info
        → AllTold s
        → AllTold (process_found T network config C request info (some data_there) s).1
    unfolding process_found
    process_found_told info data_there s found h =
        found_told C (IsTold T network config C rows) request v.0.watch_request_status v.0 v.1 s h
          (λ confirmed.
            let (deep, (m, there, sats)) =
              decided_lem config request data_there info (λ p. different (sym p ∙ confirmed)) in
            (
              m,
              there,
              (
                request,
                watched,
                refl,
                refl,
                refl,
                inl (
                  data_there,
                  info,
                  found,
                  (validate_deposit_transaction_iff config request data_there info).0 confirmed,
                  refl,
                  sats,
                ),
              ),
            ))
          (λ failed.
            let (deep, (m, there, sats)) =
              decided_lem config request data_there info (λ p. pending_failed (sym p ∙ failed)) in
            rw there (
              request,
              watched,
              refl,
              refl,
              refl,
              inr (
                  inl (
                    data_there,
                    info,
                    found,
                    deep,
                    (λ matches. confirmed_failed (
                        sym (
                          (validate_deposit_transaction_iff config request data_there info).1
                            matches)
                        ∙ failed)),
                    refl,
                    sats,
                  )),
            ))
      where
        v : ValidationResult × Option ValidationMetadata
        v = validate_deposit_transaction config request data_there info

        different : WatchRequestStatus.pending ≡ WatchRequestStatus.confirmed → ⊥
        different p = cc

        pending_failed : WatchRequestStatus.pending ≡ WatchRequestStatus.failed → ⊥
        pending_failed p = cc

        confirmed_failed : WatchRequestStatus.confirmed ≡ WatchRequestStatus.failed → ⊥
        confirmed_failed p = cc

    process_missing_told :
        (info : BlockchainInfo) (s : Indexer W) (w : W)
        → (C.get_transaction_outpoint request.outpoint w).0 ≡ some none
        → AllTold s
        → AllTold (process_found T network config C request info none s).1
    unfolding process_found now
    process_missing_told info s w absent h =
        missing_told C (IsTold T network config C rows) request v.0.watch_request_status v.0 v.1 _ h
          (λ confirmed. absurd (facts.0 confirmed))
          (λ failed.
            rw facts.1 (request, watched, refl, refl, refl, inr (inr (w, absent, refl, refl))))
      where
        v : ValidationResult × Option ValidationMetadata
        v = validate_transaction_timeout T config request (C.now s.world).0

        facts : (v.0.watch_request_status ≢ WatchRequestStatus.confirmed) × (v.1 ≡ none)
        facts = timeout_lem T config request (C.now s.world).0

    answer_told :
        (info : BlockchainInfo) (found : Option OutPointData) (s : Indexer W) (v w : W)
        → (C.get_transaction_outpoint request.outpoint v).0 ≡ some found
        → (C.get_blockchain_info w).0 ≡ some info
        → AllTold s
        → AllTold (process_found T network config C request info found s).1
    answer_told info (some data_there) s v w there known h =
        process_found_told info data_there s (v, w, there, known) h
    answer_told info none s v w absent known h = process_missing_told info s v absent h

    process_one_told :
        (s : Indexer W) → AllTold s → AllTold (process_watch_request T network config C request s).1
    unfolding process_watch_request
    process_one_told s h =
        bind_rule (λ _ t. AllTold t) (get_blockchain_info C) _ s
          (λ info known.
            bind_rule (λ _ t. AllTold t) (get_transaction_outpoint C request.outpoint) _
              (get_blockchain_info C s).1
              (λ found there.
                answer_told info found _ _ s.world (outpoint_found request.outpoint _ found there)
                  (info_found s info known) (twice s h))
              (λ _ _. twice s h))
          (λ _ _. once s h)
      where
        once : (s : Indexer W) → AllTold s → AllTold (get_blockchain_info C s).1
        once s h = rw (info_sent s) h

        twice :
            (s : Indexer W)
            → AllTold s
            → AllTold (get_transaction_outpoint C request.outpoint (get_blockchain_info C s).1).1
        twice s h = rw (outpoint_sent request.outpoint (get_blockchain_info C s).1) (once s h)

  process_all_told :
      (requests : List WatchRequest) (s : Indexer W)
      → All (IsWatched T network rows) requests
      → AllTold s
      → AllTold (process_all T network config C requests s).1
  unfolding process_all
  process_all_told [] s watched h = h
  process_all_told (request ∷ requests) s (here, later) h =
      bind_rule (λ _ t. AllTold t) (process_watch_request T network config C request) _ s
        (λ _ _. process_all_told requests _ later (process_one_told request here s h))
        (λ _ _. process_one_told request here s h)

module _ (T : Libraries) (network : Identifier.Network) (config : BtcIndexerConfig) {W : Type 0}
    (C : Clients W) where
  -- Every notice of a round, whatever fails in it, goes to the url of a request whose row was pending
  -- when the round began, with its id and its out point, and is one of three verdicts: a confirmation,
  -- for an output that the chain has and that matches the request; a refusal, for one that is deep
  -- enough and does not match; or a timeout, where the chain has no such output. The round
  -- begins with nothing sent.
  pub process_watch_requests-IsTold :
      (s : Indexer W)
      → s.sent ≡ []
      → All
          (IsTold T network config C s.requests)
          (process_watch_requests T network config C s).1.sent
  unfolding process_watch_requests
  process_watch_requests-IsTold s silent =
      bind_rule (λ _ t. All (IsTold T network config C s.requests) t.sent)
        (storage (get_all_unprocessed_watch_requests T network)) _ s
        (λ requests there.
          process_all_told T network config C s.requests requests _
            (All-map _ requests
              (λ request (row, (i, at), waits, parsed). (i, row, at, waits, parsed))
              (read_pending_lem T network _ s.requests requests (indexed s.requests)
                (facts.1 requests there)))
            quiet)
        (λ _ _. quiet)
    where
      facts :
          (let r = storage (get_all_unprocessed_watch_requests T network) s in
            (r.1.sent ≡ s.sent)
            × ((requests : List WatchRequest)
                → r.0 ≡ ok requests
                → read_pending T network s.requests ≡ ok requests))
      facts = get_all_lem T network s

      quiet :
          All
            (IsTold T network config C s.requests)
            (storage (get_all_unprocessed_watch_requests T network) s).1.sent
      quiet = rw (facts.0 ∙ silent) tt
