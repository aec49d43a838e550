-- ===== src/Frost/Signer/Stages.antt =====
-- The stages of the key generation of one share (crates/frost/src/signer.rs).
use spark_bridge_backend.Prelude.{
  ℕ, ◌+◌, ◌≤◌, ◌<◌, ◌≡◌, refl, sym, ◌∙◌, ◌≢◌, ◌⊎◌, inl, Option, none, some, List, arith, Bytes,
}
use spark_bridge_backend.Prelude.Exec.{Result, ok, lift, ◌>>=◌, ok_or}
use spark_bridge_backend.Frost.Scheme.{Scheme}
use spark_bridge_backend.Frost.Types.{
  DkgRound1Request, DkgRound1Response, DkgRound2Request, DkgFinalizeRequest, SignRound1Request,
  SignRound2Request, SignerDkgState, SignerDkgShareIdData, SignerSignData, SignerError,
}
use spark_bridge_backend.Frost.Signer.{
  FrostSigner, M, lock_dkg_share_id, unlock_dkg_share_id, dkg_round_1, dkg_round_2, dkg_finalize,
  sign_round_1, sign_round_2,
}
use spark_bridge_backend.Prelude.Exec.{bind_rule, Keeps-bind, Keeps-pure}
use spark_bridge_backend.Frost.Signer.{
  database, draw, assert_eq, get_dkg_share_signer_data, set_dkg_share_signer_data, get_sign_data,
  set_sign_data, first_round, second_round, finalize, commit_round, share_round, finalized_key,
}
use spark_bridge_backend.Frost.Signer.Calls.{Call, step, run, run_induction}

-- `none` is before the first round.
abbrev pub stage : Option SignerDkgShareIdData → ℕ
stage none = 0
stage (some v) = elim v.dkg_state [
  | SignerDkgState.dkg_round1 _ ↦ 1
  | SignerDkgState.dkg_round2 _ _ ↦ 2
  | SignerDkgState.dkg_finalized _ ↦ 3
]

-- The share is as it was, or has moved on by one stage.
abbrev pub Advances : Option SignerDkgShareIdData → Option SignerDkgShareIdData → Type 0
Advances before after = (after ≡ before) ⊎ (stage after ≡ stage before + 1)

module _ (j : ℕ) where
  lock_keeps : (id : ℕ) (s : FrostSigner) → (lock_dkg_share_id id s).1.dkg_shares j ≡ s.dkg_shares j
  unfolding lock_dkg_share_id
  lock_keeps id s = ground arith

  unlock_keeps :
      (id : ℕ) (s : FrostSigner) → (unlock_dkg_share_id id s).1.dkg_shares j ≡ s.dkg_shares j
  unfolding unlock_dkg_share_id
  unlock_keeps id s = ground arith

  get_keeps :
      (id : ℕ) (s : FrostSigner) → (get_dkg_share_signer_data id s).1.dkg_shares j ≡ s.dkg_shares j
  unfolding get_dkg_share_signer_data database
  get_keeps id s = ground arith

  get_sign_data_keeps :
      (id session : ℕ) (s : FrostSigner)
      → (get_sign_data id session s).1.dkg_shares j ≡ s.dkg_shares j
  unfolding get_sign_data database
  get_sign_data_keeps id session s = ground arith

  assert_eq_keeps :
      (x y : Bytes) (s : FrostSigner) → (assert_eq x y s).1.dkg_shares j ≡ s.dkg_shares j
  unfolding assert_eq
  assert_eq_keeps x y s = ground arith

pub get_value :
    (id : ℕ) (v : Option SignerDkgShareIdData) (s : FrostSigner)
    → (get_dkg_share_signer_data id s).0 ≡ ok v
    → s.dkg_shares id ≡ v
unfolding get_dkg_share_signer_data database
get_value id v s h = ground arith

module _ (F : Scheme) (j id : ℕ) (v : Option SignerDkgShareIdData) (s : FrostSigner)
    (now : s.dkg_shares id ≡ v) where
  first_round-Advances : Advances (s.dkg_shares j) ((first_round F id v s).1.dkg_shares j)
  unfolding first_round unlock_dkg_share_id draw set_dkg_share_signer_data database
  first_round-Advances = ground arith

module _ (F : Scheme) (j : ℕ) where
  second_round-Advances :
      (r : DkgRound2Request) (v : Option SignerDkgShareIdData) (s : FrostSigner)
      → s.dkg_shares r.dkg_share_id ≡ v
      → Advances (s.dkg_shares j) ((second_round F r v s).1.dkg_shares j)
  unfolding second_round set_dkg_share_signer_data database
  second_round-Advances r none s now = ground arith
  second_round-Advances r (some v) s now = ground arith

  finalize-Advances :
      (r : DkgFinalizeRequest) (v : Option SignerDkgShareIdData) (s : FrostSigner)
      → s.dkg_shares r.dkg_share_id ≡ v
      → Advances (s.dkg_shares j) ((finalize F r v s).1.dkg_shares j)
  unfolding finalize set_dkg_share_signer_data unlock_dkg_share_id database
  finalize-Advances r none s now = ground arith
  finalize-Advances r (some v) s now = ground arith

  commit_round_keeps :
      (r : SignRound1Request) (v : Option SignerDkgShareIdData) (s : FrostSigner)
      → (commit_round F r v s).1.dkg_shares j ≡ s.dkg_shares j
  unfolding commit_round draw set_sign_data database
  commit_round_keeps r none s = ground arith
  commit_round_keeps r (some v) s = ground arith

  share_round_keeps :
      (r : SignRound2Request) (key : Bytes) (d : SignerSignData) (s : FrostSigner)
      → (share_round F r key d s).1.dkg_shares j ≡ s.dkg_shares j
  unfolding share_round set_sign_data database
  share_round_keeps r key d s = ground arith

-- A handler that reads its share first moves it on if what follows the reading does.
read_Advances :
    {A : Type 0} (j id : ℕ) (s : FrostSigner) (f : Option SignerDkgShareIdData → M A)
    → ((v : Option SignerDkgShareIdData) (t : FrostSigner)
        → t.dkg_shares id ≡ v
        → Advances (t.dkg_shares j) ((f v t).1.dkg_shares j))
    → Advances (s.dkg_shares j) (((get_dkg_share_signer_data id >>= f) s).1.dkg_shares j)
read_Advances j id s f rest =
    bind_rule (λ _ t. Advances (s.dkg_shares j) (t.dkg_shares j)) (get_dkg_share_signer_data id) f s
      (λ v got.
        let t = (get_dkg_share_signer_data id s).1 in
        ground (arith, rest v t, get_keeps j id s, get_keeps id id s, get_value id v s))
      (λ e _. inl (get_keeps j id s))

module _ (F : Scheme) (j : ℕ) (s : FrostSigner) where
  dkg_round_1-Advances :
      (r : DkgRound1Request) → Advances (s.dkg_shares j) ((dkg_round_1 F r s).1.dkg_shares j)
  unfolding dkg_round_1
  dkg_round_1-Advances r =
      let id = r.dkg_share_id in
      let t = (lock_dkg_share_id id s).1 in
      bind_rule (λ _ t. Advances (s.dkg_shares j) (t.dkg_shares j)) (lock_dkg_share_id id) _ s
        (λ _ got. ground (
          arith,
          lock_keeps j id s,
          read_Advances j id t (first_round F id) (λ v t h. first_round-Advances F j id v t h),
        ))
        (λ e _. inl (lock_keeps j id s))

  -- the signing rounds leave the shares alone
  sign_round_2_keeps :
      (r : SignRound2Request) → (sign_round_2 F r s).1.dkg_shares j ≡ s.dkg_shares j
  unfolding sign_round_2
  sign_round_2_keeps r =
      (Keeps-bind P (get_dkg_share_signer_data id) _ (record { at = λ t h. get_keeps j id t ∙ h })
          λ v. Keeps-bind P (lift (finalized_key v)) _ (Keeps-pure P (finalized_key v)) λ key.
            Keeps-bind P (get_sign_data id r.session_id) _
              (record { at = λ t h. get_sign_data_keeps j id r.session_id t ∙ h })
              λ found.
                Keeps-bind P (lift (ok_or found SignerError.invalid_user_state)) _ (Keeps-pure P _)
                  λ d.
                    Keeps-bind P (assert_eq d.message_hash (F.package_message r.signing_package)) _
                      (record { at = λ t h. assert_eq_keeps j _ _ t ∙ h })
                      λ _. record { at = λ t h. share_round_keeps F j r key d t ∙ h }).at
        s refl
    where
      id : ℕ
      id = r.dkg_share_id

      P : FrostSigner → Type 0
      P t = t.dkg_shares j ≡ s.dkg_shares j

  -- A call leaves each share as it was or moves it on by one stage: nothing, the first round, the
  -- second round, finalized. So it is whatever the call returns and however the database fails.
  pub step-Advances : (c : Call) → Advances (s.dkg_shares j) ((step F s c).dkg_shares j)
  unfolding step dkg_round_2 dkg_finalize sign_round_1
  step-Advances (Call.dkg_round1 r) = dkg_round_1-Advances r
  step-Advances (Call.dkg_round2 r) =
      read_Advances j r.dkg_share_id s (second_round F r) (second_round-Advances F j r)
  step-Advances (Call.finalize r) =
      read_Advances j r.dkg_share_id s (finalize F r) (finalize-Advances F j r)
  step-Advances (Call.sign_round1 r) =
      read_Advances j r.dkg_share_id s (commit_round F r)
        (λ v t _. inl (commit_round_keeps F j r v t))
  step-Advances (Call.sign_round2 r) = inl (sign_round_2_keeps r)

pub stage-run :
    (F : Scheme) (j : ℕ) (s : FrostSigner) (cs : List Call)
    → stage (s.dkg_shares j) ≤ stage ((run F s cs).dkg_shares j)
stage-run F j s cs =
    run_induction F (λ t. stage (s.dkg_shares j) ≤ stage (t.dkg_shares j))
      (λ t c h. ground (arith, step-Advances F j t c)) s cs (omega arith)

-- A finalized key package is never replaced: whatever requests come, the share keeps it.
pub run-finalized :
    (F : Scheme) (j : ℕ) (key : Bytes) (s : FrostSigner) (cs : List Call)
    → s.dkg_shares j ≡ some (record { dkg_state = SignerDkgState.dkg_finalized key })
    → (run F s cs).dkg_shares j ≡ some (record { dkg_state = SignerDkgState.dkg_finalized key })
run-finalized F j key s cs h =
    run_induction F
      (λ t. t.dkg_shares j ≡ some (record { dkg_state = SignerDkgState.dkg_finalized key }))
      (λ t c e. ground (arith, step-Advances F j t c)) s cs h

module _ (F : Scheme) (r : DkgRound1Request) (a : DkgRound1Response) where
  first_round_stores :
      (v : Option SignerDkgShareIdData) (s : FrostSigner)
      → (first_round F r.dkg_share_id v s).0 ≡ ok a
      → 0 < stage ((first_round F r.dkg_share_id v s).1.dkg_shares r.dkg_share_id)
  unfolding first_round unlock_dkg_share_id draw set_dkg_share_signer_data database
  first_round_stores none s h = ground arith
  first_round_stores (some v) s h = ground arith

  dkg_round_1_stores :
      (s : FrostSigner)
      → (dkg_round_1 F r s).0 ≡ ok a
      → 0 < stage ((dkg_round_1 F r s).1.dkg_shares r.dkg_share_id)
  unfolding dkg_round_1
  dkg_round_1_stores s =
      bind_rule Q (lock_dkg_share_id r.dkg_share_id) _ s
        (λ _ _.
          bind_rule Q (get_dkg_share_signer_data r.dkg_share_id) _ _ (λ v _. first_round_stores v _)
            (λ e _ h. cc))
        (λ e _ h. cc)
    where
      Q : Result SignerError DkgRound1Response → FrostSigner → Type 0
      Q res t = res ≡ ok a → 0 < stage (t.dkg_shares r.dkg_share_id)

  first_round_refuses :
      (v : Option SignerDkgShareIdData) (s : FrostSigner)
      → 0 < stage v
      → (first_round F r.dkg_share_id v s).0 ≢ ok a
  unfolding first_round unlock_dkg_share_id
  first_round_refuses none s h e = absurd (omega arith)
  first_round_refuses (some v) s h e = ground arith

  dkg_round_1_refuses :
      (s : FrostSigner) → 0 < stage (s.dkg_shares r.dkg_share_id) → (dkg_round_1 F r s).0 ≢ ok a
  unfolding dkg_round_1
  dkg_round_1_refuses s h =
      bind_rule Q (lock_dkg_share_id r.dkg_share_id) _ s
        (λ _ _.
          bind_rule Q (get_dkg_share_signer_data r.dkg_share_id) _ t
            (λ v got. first_round_refuses v _ (
              rw (sym (get_value r.dkg_share_id v t got))
                (rw (lock_keeps r.dkg_share_id r.dkg_share_id s) h)))
            (λ e _ h. cc))
        (λ e _ h. cc)
    where
      Q : Result SignerError DkgRound1Response → FrostSigner → Type 0
      Q res _ = res ≢ ok a

      t : FrostSigner
      t = (lock_dkg_share_id r.dkg_share_id s).1

-- The first round of a share is answered once: after the answer, and after any requests, every
-- further first round of that share is refused, so its secret is never drawn again.
pub dkg_round_1-once :
    (F : Scheme) (r r' : DkgRound1Request) (a b : DkgRound1Response) (s : FrostSigner)
    (cs : List Call)
    → (dkg_round_1 F r s).0 ≡ ok a
    → r'.dkg_share_id ≡ r.dkg_share_id
    → (dkg_round_1 F r' (run F (dkg_round_1 F r s).1 cs)).0 ≢ ok b
dkg_round_1-once F r r' a b s cs answered i =
    dkg_round_1_refuses F r' b (run F (dkg_round_1 F r s).1 cs) (
      rw i (
        omega (
          arith,
          dkg_round_1_stores F r a s answered,
          stage-run F r.dkg_share_id (dkg_round_1 F r s).1 cs,
        )))
