-- ===== src/Frost/Signer/Locks.antt =====
-- `locked_dkg_share_ids`: what happens to the lock when the first round of a share fails.
use spark_bridge_backend.Prelude.{
  ℕ, ◌≡◌, refl, ap, ◌∙◌, inl, inr, true, false, Option, none, some, List, arith, ◌==◌, ==_iff,
  Bool-cases, Bytes,
}
use spark_bridge_backend.Prelude.Exec.{Result, err, ◌>>=◌}
use spark_bridge_backend.Frost.Scheme.{Scheme}
use spark_bridge_backend.Frost.Types.{
  DkgRound1Request, DkgRound1Response, DkgRound2Request, DkgFinalizeRequest, SignRound1Request,
  SignRound2Request, SignerDkgShareIdData, SignerSignData, SignerError,
}
use spark_bridge_backend.Frost.Signer.{
  FrostSigner, M, lock_dkg_share_id, unlock_dkg_share_id, dkg_round_1, dkg_round_2, dkg_finalize,
  sign_round_1, sign_round_2,
}
use spark_bridge_backend.Prelude.Exec.{bind_rule, Keeps-bind, Keeps-pure, Keeps}
use spark_bridge_backend.Frost.Signer.{
  database, draw, assert_eq, get_dkg_share_signer_data, set_dkg_share_signer_data, get_sign_data,
  set_sign_data, first_round, second_round, finalize, commit_round, share_round, finalized_key,
}
use spark_bridge_backend.Frost.Signer.Stages.{get_value}
use spark_bridge_backend.Frost.Signer.Calls.{Call, step, run, run_induction}

module _ (F : Scheme) (id : ℕ) where
  -- locked, with nothing stored
  abbrev Leaked : FrostSigner → Type 0
  Leaked t = (t.locked_dkg_share_ids id ≡ true) × (t.dkg_shares id ≡ none)

  get-Keeps : (i : ℕ) → Keeps Leaked (get_dkg_share_signer_data i)
  unfolding get_dkg_share_signer_data database
  get-Keeps i = record { at = λ s h. ground arith }

  get_sign_data-Keeps : (i k : ℕ) → Keeps Leaked (get_sign_data i k)
  unfolding get_sign_data database
  get_sign_data-Keeps i k = record { at = λ s h. ground arith }

  assert_eq-Keeps : (x y : Bytes) → Keeps Leaked (assert_eq x y)
  unfolding assert_eq
  assert_eq-Keeps x y = record { at = λ s h. ground arith }

  commit_round-Keeps :
      (r : SignRound1Request) (v : Option SignerDkgShareIdData) → Keeps Leaked (commit_round F r v)
  unfolding commit_round draw set_sign_data database
  commit_round-Keeps r none = record { at = λ s h. ground arith }
  commit_round-Keeps r (some v) = record { at = λ s h. ground arith }

  share_round-Keeps :
      (r : SignRound2Request) (key : Bytes) (d : SignerSignData)
      → Keeps Leaked (share_round F r key d)
  unfolding share_round set_sign_data database
  share_round-Keeps r key d = record { at = λ s h. ground arith }

  first_round_keeps :
      (i : ℕ) (v : Option SignerDkgShareIdData) (s : FrostSigner)
      → (i == id) ≡ false
      → Leaked s
      → Leaked (first_round F i v s).1
  unfolding first_round unlock_dkg_share_id draw set_dkg_share_signer_data database
  first_round_keeps i none s e h = ground arith
  first_round_keeps i (some v) s e h = ground arith

  second_round_keeps :
      (r : DkgRound2Request) (v : Option SignerDkgShareIdData) (s : FrostSigner)
      → s.dkg_shares r.dkg_share_id ≡ v
      → Leaked s
      → Leaked (second_round F r v s).1
  unfolding second_round set_dkg_share_signer_data database
  second_round_keeps r none s e h = ground arith
  second_round_keeps r (some v) s e h = ground arith

  finalize_keeps :
      (r : DkgFinalizeRequest) (v : Option SignerDkgShareIdData) (s : FrostSigner)
      → s.dkg_shares r.dkg_share_id ≡ v
      → Leaked s
      → Leaked (finalize F r v s).1
  unfolding finalize set_dkg_share_signer_data unlock_dkg_share_id database
  finalize_keeps r none s e h = ground arith
  finalize_keeps r (some v) s e h = ground arith

  get_same :
      (i : ℕ) (s : FrostSigner) → (get_dkg_share_signer_data i s).1.dkg_shares i ≡ s.dkg_shares i
  unfolding get_dkg_share_signer_data database
  get_same i s = ground arith

  read_keeps :
      {A : Type 0} (i : ℕ) (f : Option SignerDkgShareIdData → M A) (s : FrostSigner)
      → ((v : Option SignerDkgShareIdData) (t : FrostSigner)
          → t.dkg_shares i ≡ v
          → Leaked t
          → Leaked (f v t).1)
      → Leaked s
      → Leaked ((get_dkg_share_signer_data i >>= f) s).1
  read_keeps i f s rest h =
      bind_rule (λ _ t. Leaked t) (get_dkg_share_signer_data i) f s
        (λ v got.
          rest v (get_dkg_share_signer_data i s).1 (get_same i s ∙ get_value i v s got)
            ((get-Keeps i).at s h))
        (λ e _. (get-Keeps i).at s h)

  lock_refuses :
      (s : FrostSigner)
      → Leaked s
      → lock_dkg_share_id id s ≡ (err (SignerError.dkg_share_already_exists id), s)
  unfolding lock_dkg_share_id
  lock_refuses s h = ground arith

  lock_other : (i : ℕ) (s : FrostSigner) → Leaked s → Leaked (lock_dkg_share_id i s).1
  unfolding lock_dkg_share_id
  lock_other i s h = ground arith

  dkg_round_1_refuses :
      (r : DkgRound1Request) (s : FrostSigner)
      → r.dkg_share_id ≡ id
      → Leaked s
      → dkg_round_1 F r s ≡ (err (SignerError.dkg_share_already_exists id), s)
  unfolding dkg_round_1
  dkg_round_1_refuses r s e h = rw (e, lock_refuses s h) refl

  dkg_round_1_keeps :
      (r : DkgRound1Request) (s : FrostSigner) → Leaked s → Leaked (dkg_round_1 F r s).1
  unfolding dkg_round_1
  dkg_round_1_keeps r s h = elim (Bool-cases (r.dkg_share_id == id)) [
    | inl same ↦ rw (dkg_round_1_refuses r s ((==_iff _ _).0 same) h) h
    | inr other ↦
        bind_rule (λ _ t. Leaked t) (lock_dkg_share_id r.dkg_share_id) _ s
          (λ _ _.
            read_keeps r.dkg_share_id (first_round F r.dkg_share_id) _
              (λ v t _ k. first_round_keeps r.dkg_share_id v t other k)
              (lock_other r.dkg_share_id s h))
          (λ _ _. lock_other r.dkg_share_id s h)
  ]

  step_keeps : (s : FrostSigner) (c : Call) → Leaked s → Leaked (step F s c)
  unfolding step dkg_round_2 dkg_finalize sign_round_1 sign_round_2
  step_keeps s (Call.dkg_round1 r) h = dkg_round_1_keeps r s h
  step_keeps s (Call.dkg_round2 r) h =
      read_keeps r.dkg_share_id (second_round F r) s (second_round_keeps r) h
  step_keeps s (Call.finalize r) h = read_keeps r.dkg_share_id (finalize F r) s (finalize_keeps r) h
  step_keeps s (Call.sign_round1 r) h =
      (Keeps-bind Leaked _ _ (get-Keeps r.dkg_share_id) (commit_round-Keeps r)).at s h
  step_keeps s (Call.sign_round2 r) h =
      (Keeps-bind Leaked _ _ (get-Keeps r.dkg_share_id) λ v.
          Keeps-bind Leaked _ _ (Keeps-pure Leaked (finalized_key v)) λ key.
            Keeps-bind Leaked _ _ (get_sign_data-Keeps r.dkg_share_id r.session_id) λ found.
              Keeps-bind Leaked _ _ (Keeps-pure Leaked _) λ d.
                Keeps-bind Leaked _ _ (assert_eq-Keeps d.message_hash _)
                  λ _. share_round-Keeps r key d).at
        s h

module _ (F : Scheme) (r : DkgRound1Request) (e : SignerError) where
  first_round_leaks :
      (s : FrostSigner)
      → Leaked F r.dkg_share_id s
      → (first_round F r.dkg_share_id none s).0 ≡ err e
      → Leaked F r.dkg_share_id (first_round F r.dkg_share_id none s).1
  unfolding first_round draw set_dkg_share_signer_data database
  first_round_leaks s h k = ground arith

  lock_takes :
      (s : FrostSigner)
      → s.locked_dkg_share_ids r.dkg_share_id ≡ false
      → s.dkg_shares r.dkg_share_id ≡ none
      → Leaked F r.dkg_share_id (lock_dkg_share_id r.dkg_share_id s).1
  unfolding lock_dkg_share_id
  lock_takes s h k = ground arith

  failure_leaks :
      (s : FrostSigner)
      → s.locked_dkg_share_ids r.dkg_share_id ≡ false
      → s.dkg_shares r.dkg_share_id ≡ none
      → (dkg_round_1 F r s).0 ≡ err e
      → Leaked F r.dkg_share_id (dkg_round_1 F r s).1
  unfolding dkg_round_1
  failure_leaks s h k =
      bind_rule Q (lock_dkg_share_id r.dkg_share_id) _ s
        (λ _ _.
          bind_rule Q (get_dkg_share_signer_data r.dkg_share_id) _ t
            (λ v got. at_value v (get_value r.dkg_share_id v t got))
            (λ _ _ _. (get-Keeps F r.dkg_share_id r.dkg_share_id).at t (lock_takes s h k)))
        (λ _ _ _. lock_takes s h k)
    where
      Q : Result SignerError DkgRound1Response → FrostSigner → Type 0
      Q res t = res ≡ err e → Leaked F r.dkg_share_id t

      t : FrostSigner
      t = (lock_dkg_share_id r.dkg_share_id s).1

      u : FrostSigner
      u = (get_dkg_share_signer_data r.dkg_share_id t).1

      at_value :
          (v : Option SignerDkgShareIdData)
          → t.dkg_shares r.dkg_share_id ≡ v
          → Q (first_round F r.dkg_share_id v u).0 (first_round F r.dkg_share_id v u).1
      at_value none _ =
          first_round_leaks u ((get-Keeps F r.dkg_share_id r.dkg_share_id).at t (lock_takes s h k))
      at_value (some v) x = cc (lock_takes s h k).1

-- A first round that fails on a share that was free, for whatever reason (the database, or `part1`),
-- keeps its lock for good: after any other requests every first round of that share is refused with
-- DkgShareAlreadyExists, though nothing is stored for it.
pub dkg_round_1_failure_final :
    (F : Scheme) (r r' : DkgRound1Request) (e : SignerError) (s : FrostSigner) (cs : List Call)
    → s.locked_dkg_share_ids r.dkg_share_id ≡ false
    → s.dkg_shares r.dkg_share_id ≡ none
    → (dkg_round_1 F r s).0 ≡ err e
    → r'.dkg_share_id ≡ r.dkg_share_id
    → let t = run F (dkg_round_1 F r s).1 cs in
      ((dkg_round_1 F r' t).0 ≡ err (SignerError.dkg_share_already_exists r.dkg_share_id))
      × (t.dkg_shares r.dkg_share_id ≡ none)
dkg_round_1_failure_final F r r' e s cs h k failed i =
    let leaked =
      run_induction F (Leaked F r.dkg_share_id) (step_keeps F r.dkg_share_id) (dkg_round_1 F r s).1
        cs (failure_leaks F r e s h k failed) in
    (
      ap (λ x. x.0)
          (dkg_round_1_refuses F r.dkg_share_id r' (run F (dkg_round_1 F r s).1 cs) i leaked),
      leaked.1,
    )
