-- ===== src/Frost/Aggregator/Signing/Verified.antt =====
-- What an answer of `run_signing_flow` (crates/frost/src/aggregator.rs) stands for.
use spark_bridge_backend.Prelude.{ℕ, ◌≡◌, sym, ap, ◌∙◌, Bool, true, Option, some, [], Bytes}
use spark_bridge_backend.Prelude.Exec.{Result, ok, ok_or, bind_step, lift_step}
use spark_bridge_backend.Frost.Scheme.{Scheme}
use spark_bridge_backend.Frost.Types.{
  AggregatorDkgState, AggregatorSignState, AggregatorSignData, AggregatorError, SigningMetadata,
}
use spark_bridge_backend.Frost.Aggregator.{
  SignerClient, FrostAggregator, finalized_package, get_dkg_share_agg_data, get_sign_data, join_all,
}
use spark_bridge_backend.Frost.Aggregator.Replies.{collect}
use spark_bridge_backend.Frost.Aggregator.Signing.{
  sign_round_1, sign_round_2, run_signing_flow, verification_package, checked_signature,
  open_package,
}
use spark_bridge_backend.Frost.Aggregator.Signing.Session.{
  get_dkg_keeps, get_dkg_value, set_sign_lem, finalized_lem, checked_lem, join_keeps, same_session,
  answer_lem,
}

-- The result is not an answer, or the property holds of the state.
abbrev Returns {ℓ} :
    {W A : Type 0}
    → A
    → (FrostAggregator W → Type ℓ)
    → Result AggregatorError A
    → FrostAggregator W
    → Type ℓ
Returns a P res t = res ≡ ok a → P t

module _ (F : Scheme) {W : Type 0} (client : SignerClient W) (id session : ℕ) where
  -- After a first round the session holds the message and the tweak that were asked for.
  abbrev Opened :
      Bytes → SigningMetadata → Option Bytes → FrostAggregator W → FrostAggregator W → Type 0
  Opened message_hash metadata tweak s t =
      (p : Bytes) × (t.dkg_shares ≡ s.dkg_shares)
      × (t.sign_sessions id session
          ≡ some (record {
            tweak = tweak;
            message_hash = message_hash;
            metadata = metadata;
            sign_state = AggregatorSignState.signing_round1 p;
          }))

  sign_round_1_lem :
      (message_hash : Bytes) (metadata : SigningMetadata) (tweak : Option Bytes)
      (s : FrostAggregator W)
      → (sign_round_1 F client id session message_hash metadata tweak s).0 ≡ ok tt
      → Opened message_hash metadata tweak s
          (sign_round_1 F client id session message_hash metadata tweak s).1
  unfolding sign_round_1
  sign_round_1_lem message_hash metadata tweak s =
      bind_step Q (get_dkg_share_agg_data id) _ s
        (λ v t _ here.
          lift_step Q (finalized_package v) _ t
            (λ pk _.
              bind_step Q (join_all client.sign_round_1 _) _ t
                (λ replies u _ there.
                  lift_step Q (collect _ [] replies) _ u
                    (λ c _ h.
                      let stored = set_sign_lem id u session _ h in
                      let first = (get_dkg_keeps id s).0 in
                      (
                        F.package_new c message_hash,
                        stored.0
                            ∙ ap (λ x. x.dkg_shares) (sym there)
                            ∙ (join_keeps client.sign_round_1 _ t).0
                            ∙ ap (λ x. x.dkg_shares) (sym here)
                            ∙ first,
                        stored.1,
                      ))
                    (λ e _ h. cc))
                (λ e t _ _ h. cc))
            (λ e _ h. cc))
        (λ e t _ _ h. cc)
    where
      Q : Result AggregatorError (Unit {0}) → FrostAggregator W → Type 0
      Q = Returns tt (Opened message_hash metadata tweak s)

  abbrev Verifies : Bool → FrostAggregator W → Bytes → Bytes → Option Bytes → Bytes → Type 0
  Verifies tap_tweek s message_hash pk tweak signature =
      (s.dkg_shares id ≡ some (record { dkg_state = AggregatorDkgState.dkg_finalized pk }))
      × (F.verify (verification_package F tap_tweek pk tweak) message_hash signature ≡ true)

  sign_round_2_lem :
      (tap_tweek : Bool) (d : AggregatorSignData) (s : FrostAggregator W)
      → s.sign_sessions id session ≡ some d
      → (sign_round_2 F client id session tap_tweek s).0 ≡ ok tt
      → (pk : Bytes) × (signature : Bytes) × Verifies tap_tweek s d.message_hash pk d.tweak
          signature
        × ((sign_round_2 F client id session tap_tweek s).1.sign_sessions id session
            ≡ some (record d { sign_state = AggregatorSignState.signing_round2 signature }))
  unfolding sign_round_2
  sign_round_2_lem tap_tweek d s now =
      bind_step Q (get_dkg_share_agg_data id) _ s
        (λ v t got here.
          bind_step Q (get_sign_data id session) _ t
            (λ found u read there.
              lift_step Q (ok_or found AggregatorError.invalid_user_state) _ u
                (λ sign_data some'.
                  lift_step Q (finalized_package v) _ u
                    (λ pk final.
                      lift_step Q (open_package sign_data.sign_state) _ u
                        (λ packed opened.
                          bind_step Q (join_all client.sign_round_2 _) _ u
                            (λ replies w _ _.
                              lift_step Q (collect _ [] replies) _ w
                                (λ shares _.
                                  lift_step Q
                                    (checked_signature F packed shares _ sign_data.message_hash) _ w
                                    (λ signature checked h.
                                      let e =
                                        same_session id session s t found d sign_data here read
                                          some' now in
                                      (
                                        pk,
                                        signature,
                                        (
                                          get_dkg_value id s v got ∙ finalized_lem v pk final,
                                          rw (sym e)
                                              (checked_lem F packed shares _ _ signature checked),
                                        ),
                                        rw (sym e) (set_sign_lem id w session _ h).1,
                                      ))
                                    (λ e _ h. cc))
                                (λ e _ h. cc))
                            (λ e t _ _ h. cc))
                        (λ e _ h. cc))
                    (λ e _ h. cc))
                (λ e _ h. cc))
            (λ e t _ _ h. cc))
        (λ e t _ _ h. cc)
    where
      Q : Result AggregatorError (Unit {0}) → FrostAggregator W → Type 0
      Q = Returns tt (λ t.
          (pk : Bytes) × (signature : Bytes) × Verifies tap_tweek s d.message_hash pk d.tweak
            signature
          × (t.sign_sessions id session
              ≡ some (record d { sign_state = AggregatorSignState.signing_round2 signature })))

  -- When the signing flow answers with a signature, the share of the request was finalized when it
  -- was asked, and the signature verifies for the hash of the request under the finalized public key
  -- package, tweaked by the tweak of the request, and once more when the output key is to be
  -- tweaked. So it is for every behaviour of the verifiers and of the library, and however the
  -- database fails.
  pub run_signing_flow-verify :
      (message_hash : Bytes) (metadata : SigningMetadata) (tweak : Option Bytes) (tap_tweek : Bool)
      (s : FrostAggregator W) (signature : Bytes)
      → (run_signing_flow F client session id message_hash metadata tweak tap_tweek s).0
        ≡ ok signature
      → (public_key_package : Bytes) × (s.dkg_shares id
          ≡ some (record { dkg_state = AggregatorDkgState.dkg_finalized public_key_package }))
        × (F.verify
              (verification_package F tap_tweek public_key_package tweak)
              message_hash
              signature
            ≡ true)
  unfolding run_signing_flow
  run_signing_flow-verify message_hash metadata tweak tap_tweek s signature =
      bind_step Q (sign_round_1 F client id session message_hash metadata tweak) _ s
        (λ _ t first here.
          bind_step Q (sign_round_2 F client id session tap_tweek) _ t
            (λ _ u second there.
              bind_step Q (get_sign_data id session) _ u
                (λ found w read _ h.
                  let opened = sign_round_1_lem message_hash metadata tweak s first in
                  let d : AggregatorSignData = record {
                    tweak = tweak;
                    message_hash = message_hash;
                    metadata = metadata;
                    sign_state = AggregatorSignState.signing_round1 opened.0;
                  } in
                  let verified =
                    sign_round_2_lem tap_tweek d t
                      (ap (λ x. x.sign_sessions id session) (sym here) ∙ opened.2) second in
                  let same =
                    answer_lem id session u w found d _ signature read
                      (ap (λ x. x.sign_sessions id session) (sym there) ∙ verified.3) h in
                  (
                    verified.0,
                    ap (λ f. f id) (sym opened.1) ∙ ap (λ x. x.dkg_shares id) here ∙ verified.2.0,
                    rw (sym same) verified.2.1,
                  ))
                (λ e t _ _ h. cc))
            (λ e t _ _ h. cc))
        (λ e t _ _ h. cc)
    where
      Q : Result AggregatorError Bytes → FrostAggregator W → Type 0
      Q = Returns signature (λ _.
          (pk : Bytes) × (s.dkg_shares id
            ≡ some (record { dkg_state = AggregatorDkgState.dkg_finalized pk }))
          × (F.verify (verification_package F tap_tweek pk tweak) message_hash signature ≡ true))
