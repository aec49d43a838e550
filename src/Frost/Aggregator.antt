-- ===== src/Frost/Aggregator.antt =====
-- crates/frost/src/aggregator.rs: the gateway's side, which drives the verifiers through the rounds.
pub mod Replies
pub mod Signing
pub mod Keys
pub mod Handing
pub mod Finalize
use spark_bridge_backend.Prelude.{
  ℕ, zero, suc, ◌+◌, ◌-◌, ◌*◌, ◌/◌, ◌%◌, ◌^◌, ◌≤◌, ◌<◌, String, ◌≡◌, refl, sym, ap, ◌∙◌, ◌≢◌, ◌↔◌,
  ◌⊎◌, inl, inr, Bool, true, false, not, ◌&&◌, ◌||◌, Option, none, some, List, [], ◌∷◌, ◌++◌, map,
  arith, ltb, leb, ◌==◌, if◌then◌else◌, ==_iff, ==_refl, Bool-cases, Option-cases, is_none, is_some,
  Bytes, bytes_eq, bytes_eq_refl, bytes_eq_sound, All, length, get_elem?, take, drop, length-append,
  length-drop, take-append, drop-append, leb→le, ltb→lt,
}
use spark_bridge_backend.Prelude.Map.{Map, lookup, insert, remove, keys}
use spark_bridge_backend.Prelude.Exec.{
  Result, ok, err, Exec, pure, raise, lift, gets, continue, ◌>>=◌, ◌>>◌, ok_or,
}
use spark_bridge_backend.Frost.Scheme.{Scheme}
use spark_bridge_backend.Frost.Types.{
  DkgRound1Request, DkgRound1Response, DkgRound2Request, DkgRound2Response, DkgFinalizeRequest,
  DkgFinalizeResponse, SignRound1Request, SignRound1Response, SignRound2Request, SignRound2Response,
  AggregatorDkgState, AggregatorDkgShareData, AggregatorSignState, AggregatorSignData,
  AggregatorError, SigningMetadata,
}
use Replies.{send_all, collect, exchange, gather, agreed, finalize_requests}

-- `SignerClient`: what a verifier, named by its identifier, answers to a request. `W` is the state
-- of the verifiers and of the network to them.
pub record SignerClient (W : Type 0) : Type 0 where
  pub dkg_round_1 : ℕ → DkgRound1Request → Exec W AggregatorError DkgRound1Response
  pub dkg_round_2 : ℕ → DkgRound2Request → Exec W AggregatorError DkgRound2Response
  pub dkg_finalize : ℕ → DkgFinalizeRequest → Exec W AggregatorError DkgFinalizeResponse
  pub sign_round_1 : ℕ → SignRound1Request → Exec W AggregatorError SignRound1Response
  pub sign_round_2 : ℕ → SignRound2Request → Exec W AggregatorError SignRound2Response

-- `faults` says of each storage call to come whether it fails; when it is used up, none fails.
pub record FrostAggregator (W : Type 0) : Type 0 where
  pub verifiers : List ℕ
  pub dkg_shares : ℕ → Option AggregatorDkgShareData
  pub sign_sessions : ℕ → ℕ → Option AggregatorSignData
  pub world : W
  pub faults : List Bool

abbrev pub M : Type 0 → Type 0 → Type 0
M W A = Exec (FrostAggregator W) AggregatorError A

module _ {W : Type 0} where
  -- one round trip to the database
  unfoldable pub database : M W (Unit {0})
  database s = elim s.faults [
    | [] ↦ (ok tt, s)
    | true ∷ later ↦ (err AggregatorError.database_error, record s { faults = later })
    | false ∷ later ↦ (ok tt, record s { faults = later })
  ]

  unfoldable pub get_dkg_share_agg_data : ℕ → M W (Option AggregatorDkgShareData)
  get_dkg_share_agg_data id = do database; gets (λ s. s.dkg_shares id)

  unfoldable pub set_dkg_share_agg_data : ℕ → AggregatorDkgShareData → M W (Unit {0})
  set_dkg_share_agg_data id v = do
    database
    λ s. (ok tt, record s { dkg_shares = λ j. if id == j then some v else s.dkg_shares j })

  unfoldable pub get_sign_data : ℕ → ℕ → M W (Option AggregatorSignData)
  get_sign_data id session = do database; gets (λ s. s.sign_sessions id session)

  unfoldable pub set_sign_data : ℕ → ℕ → AggregatorSignData → M W (Unit {0})
  set_sign_data id session v = do
    database
    λ s. (
      ok tt,
      record s {
        sign_sessions = λ i k. if (id == i) && (session == k) then some v else s.sign_sessions i k;
      },
    )

  unfoldable pub join_all :
      {Q A : Type 0}
      → (ℕ → Q → Exec W AggregatorError A)
      → List (ℕ × Q)
      → M W (List (ℕ × Result AggregatorError A))
  join_all client requests s =
      let replies = send_all client requests s.world in
      (ok replies.0, record s { world = replies.1 })

module _ {W : Type 0} (client : SignerClient W) where
  unfoldable pub first_round : ℕ → Option AggregatorDkgShareData → M W (Unit {0})
  first_round id none = raise AggregatorError.invalid_user_state
  first_round id (some v) = elim v.dkg_state [
    | AggregatorDkgState.initialized ↦ (do
      self ← gets (λ s. s)
      replies ←
          join_all client.dkg_round_1 (map (λ i. (i, record { dkg_share_id = id })) self.verifiers)
      packages ← lift (collect (λ (a : DkgRound1Response). a.round1_package) [] replies)
      set_dkg_share_agg_data id (record { dkg_state = AggregatorDkgState.dkg_round1 packages }))
    | _ ↦ raise AggregatorError.invalid_user_state
  ]

  unfoldable pub dkg_round_1 : ℕ → M W (Unit {0})
  dkg_round_1 id = do v ← get_dkg_share_agg_data id; first_round id v

  unfoldable pub second_round : ℕ → Option AggregatorDkgShareData → M W (Unit {0})
  second_round id none = raise AggregatorError.invalid_user_state
  second_round id (some v) = elim v.dkg_state [
    | AggregatorDkgState.dkg_round1 round1 ↦ (do
      self ← gets (λ s. s)
      replies ← join_all client.dkg_round_2 (
          map (λ i. (i, record { dkg_share_id = id; round1_packages = remove i round1 }))
            self.verifiers)
      packages ← lift (exchange [] replies)
      set_dkg_share_agg_data id
          (record { dkg_state = AggregatorDkgState.dkg_round2 round1 packages }))
    | _ ↦ raise AggregatorError.invalid_user_state
  ]

  unfoldable pub dkg_round_2 : ℕ → M W (Unit {0})
  dkg_round_2 id = do v ← get_dkg_share_agg_data id; second_round id v

  unfoldable pub final_round : ℕ → Option AggregatorDkgShareData → M W (Unit {0})
  final_round id none = raise AggregatorError.invalid_user_state
  final_round id (some v) = elim v.dkg_state [
    | AggregatorDkgState.dkg_round2 round1 round2 ↦ (do
      self ← gets (λ s. s)
      requests ← lift (finalize_requests id round1 round2 self.verifiers)
      replies ← join_all client.dkg_finalize requests
      packages ← lift (gather replies)
      public_key_package ← lift (agreed packages)
      set_dkg_share_agg_data id
          (record { dkg_state = AggregatorDkgState.dkg_finalized public_key_package }))
    | _ ↦ raise AggregatorError.invalid_user_state
  ]

  unfoldable pub dkg_finalize : ℕ → M W (Unit {0})
  dkg_finalize id = do v ← get_dkg_share_agg_data id; final_round id v

-- the first `match` of `run_dkg_flow`: a share with a state must be in `Initialized`
abbrev pub may_start : ℕ → Option AggregatorDkgShareData → Result AggregatorError (Unit {0})
may_start id none = ok tt
may_start id (some v) = elim v.dkg_state [
  | AggregatorDkgState.initialized ↦ ok tt
  | _ ↦ err (AggregatorError.dkg_share_already_exists id)
]

-- `Some(DkgFinalized { public_key_package })`, or the error that every other state gives
abbrev pub finalized_package : Option AggregatorDkgShareData → Result AggregatorError Bytes
finalized_package none = err AggregatorError.invalid_user_state
finalized_package (some v) = elim v.dkg_state [
  | AggregatorDkgState.dkg_finalized public_key_package ↦ ok public_key_package
  | _ ↦ err AggregatorError.invalid_user_state
]

module _ {W : Type 0} (client : SignerClient W) where
  unfoldable pub run_dkg_flow : ℕ → M W Bytes
  run_dkg_flow id = do
    before ← get_dkg_share_agg_data id
    lift (may_start id before)
    dkg_round_1 client id
    dkg_round_2 client id
    dkg_finalize client id
    after ← get_dkg_share_agg_data id
    lift (finalized_package after)
