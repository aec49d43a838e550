-- ===== src/Frost/Aggregator/Signing/Session.antt =====
-- What the storage calls and the checks of the signing rounds read and keep.
use spark_bridge_backend.Prelude.{
  ℕ, ◌≡◌, refl, sym, ap, ◌∙◌, true, Option, none, some, List, arith, Bytes,
}
use spark_bridge_backend.Prelude.Map.{Map}
use spark_bridge_backend.Prelude.Exec.{ok, Exec, lift, ◌>>=◌, ok_or}
use spark_bridge_backend.Frost.Scheme.{Scheme}
use spark_bridge_backend.Frost.Types.{
  AggregatorDkgState, AggregatorDkgShareData, AggregatorSignState, AggregatorSignData,
  AggregatorError,
}
use spark_bridge_backend.Frost.Aggregator.{
  FrostAggregator, finalized_package, get_dkg_share_agg_data, get_sign_data, set_sign_data,
  join_all, database,
}
use spark_bridge_backend.Frost.Aggregator.Signing.{checked_signature, open_package, signature_of}

module _ {W : Type 0} (id : ℕ) (s : FrostAggregator W) where
  pub get_dkg_keeps :
      ((get_dkg_share_agg_data id s).1.dkg_shares ≡ s.dkg_shares)
      × ((get_dkg_share_agg_data id s).1.sign_sessions ≡ s.sign_sessions)
  unfolding get_dkg_share_agg_data database
  get_dkg_keeps = ground arith

  pub get_dkg_value :
      (v : Option AggregatorDkgShareData)
      → (get_dkg_share_agg_data id s).0 ≡ ok v
      → s.dkg_shares id ≡ v
  unfolding get_dkg_share_agg_data database
  get_dkg_value v h = ground arith

  get_sign_keeps :
      (session : ℕ)
      → ((get_sign_data id session s).1.dkg_shares ≡ s.dkg_shares)
        × ((get_sign_data id session s).1.sign_sessions ≡ s.sign_sessions)
  unfolding get_sign_data database
  get_sign_keeps session = ground arith

  get_sign_value :
      (session : ℕ) (v : Option AggregatorSignData)
      → (get_sign_data id session s).0 ≡ ok v
      → s.sign_sessions id session ≡ v
  unfolding get_sign_data database
  get_sign_value session v h = ground arith

  pub set_sign_lem :
      (session : ℕ) (v : AggregatorSignData)
      → (set_sign_data id session v s).0 ≡ ok tt
      → ((set_sign_data id session v s).1.dkg_shares ≡ s.dkg_shares)
        × ((set_sign_data id session v s).1.sign_sessions id session ≡ some v)
  unfolding set_sign_data database
  set_sign_lem session v h = ground arith

pub finalized_lem :
    (v : Option AggregatorDkgShareData) (pk : Bytes)
    → finalized_package v ≡ ok pk
    → v ≡ some (record { dkg_state = AggregatorDkgState.dkg_finalized pk })
finalized_lem v pk h = ground arith

pub open_lem :
    (v : AggregatorSignState) (p : Bytes)
    → open_package v ≡ ok p
    → v ≡ AggregatorSignState.signing_round1 p
open_lem v p h = ground arith

pub checked_lem :
    (F : Scheme) (p : Bytes) (m : Map Bytes) (pk h sig : Bytes)
    → checked_signature F p m pk h ≡ ok sig
    → F.verify pk h sig ≡ true
checked_lem F p m pk h sig e = ground arith

pub join_keeps :
    {W Q A : Type 0} (c : ℕ → Q → Exec W AggregatorError A) (l : List (ℕ × Q))
    (s : FrostAggregator W)
    → ((join_all c l s).1.dkg_shares ≡ s.dkg_shares)
      × ((join_all c l s).1.sign_sessions ≡ s.sign_sessions)
unfolding join_all
join_keeps c l s = (refl, refl)

pub same_session :
    {W : Type 0} (id session : ℕ) (s t : FrostAggregator W) (found : Option AggregatorSignData)
    (d d' : AggregatorSignData)
    → (get_dkg_share_agg_data id s).1 ≡ t
    → (get_sign_data id session t).0 ≡ ok found
    → ok_or found AggregatorError.invalid_user_state ≡ ok d'
    → s.sign_sessions id session ≡ some d
    → d' ≡ d
same_session id session s t found d d' here read picked now =
    let a = (get_dkg_keeps id s).1 in
    let b = get_sign_value id t session found read in let c = found_lem found d' picked in cc
  where
    found_lem :
        (found : Option AggregatorSignData) (d' : AggregatorSignData)
        → ok_or found AggregatorError.invalid_user_state ≡ ok d'
        → found ≡ some d'
    found_lem found d' h = ground arith

pub answer_lem :
    {W : Type 0} (id session : ℕ) (u w : FrostAggregator W) (found : Option AggregatorSignData)
    (d : AggregatorSignData) (a b : Bytes)
    → (get_sign_data id session u).0 ≡ ok found
    → u.sign_sessions id session
      ≡ some (record d { sign_state = AggregatorSignState.signing_round2 a })
    → ((lift (ok_or found AggregatorError.invalid_user_state) >>= λ d.
          lift (signature_of d.sign_state))
        w).0
      ≡ ok b
    → a ≡ b
answer_lem id session u w none d a b read now h = cc
answer_lem id session u w (some x) d a b read now h =
    let e = get_sign_value id u session (some x) read in
    signature_lem x.sign_state a b
      (ap (λ y. elim y [ none ↦ x.sign_state | some z ↦ z.sign_state ]) (sym e ∙ now)) h
  where
    signature_lem :
        (v : AggregatorSignState) (a b : Bytes)
        → v ≡ AggregatorSignState.signing_round2 a
        → signature_of v ≡ ok b
        → a ≡ b
    signature_lem v a b e h = ground arith
