-- ===== src/Frost/Aggregator/Handing.antt =====
-- The requests of the last round of the key generation (dkg_finalize of crates/frost/src/aggregator.rs):
-- one for each verifier, with the packages it is handed.
use spark_bridge_backend.Prelude.{
  ℕ, zero, suc, ◌≡◌, refl, sym, ap, ◌∙◌, inl, inr, Option, none, some, List, [], ◌∷◌, arith, Bytes,
  get_elem?, Option-cases,
}
use spark_bridge_backend.Prelude.Map.{Map, lookup, remove}
use spark_bridge_backend.Prelude.Exec.{Result, ok, err, Exec}
use spark_bridge_backend.Frost.Types.{DkgFinalizeRequest, AggregatorError}
use spark_bridge_backend.Frost.Aggregator.Replies.{send_all, and_then, finalize_requests}

-- The request that hands a verifier the packages of the two rounds.
abbrev pub Hands : ℕ → Map Bytes → Map (Map Bytes) → ℕ → DkgFinalizeRequest → Type 0
Hands id round1 round2 i request =
    (request.dkg_share_id ≡ id)
    × (request.round1_packages ≡ remove i round1)
    × (lookup i round2 ≡ some request.round2_packages)

and_then_ok :
    {A : Type 0} (a : A) (r : Result AggregatorError (List A)) (l : List A)
    → and_then a r ≡ ok l
    → (l' : List A) × (r ≡ ok l') × (l ≡ a ∷ l')
and_then_ok a (ok l') l h = (l', refl, ground arith)
and_then_ok a (err e) l h = cc

pair_of :
    {A : Type 0} (k i : ℕ) (x y : A) (o : Option (ℕ × A))
    → o ≡ some (k, x)
    → o ≡ some (i, y)
    → (k ≡ i) × (x ≡ y)
pair_of k i x y o p q = (cc, cc)

module _ (id : ℕ) (round1 : Map Bytes) (round2 : Map (Map Bytes)) where
  request_of : ℕ → Map Bytes → DkgFinalizeRequest
  request_of i packages = record {
    dkg_share_id = id;
    round1_packages = remove i round1;
    round2_packages = packages;
  }

  finalize_step :
      (i : ℕ) (rest : List ℕ) (requests : List (ℕ × DkgFinalizeRequest))
      → finalize_requests id round1 round2 (i ∷ rest) ≡ ok requests
      → (packages : Map Bytes) × (later : List (ℕ × DkgFinalizeRequest)) × (lookup i round2
          ≡ some packages)
        × (finalize_requests id round1 round2 rest ≡ ok later)
        × (requests ≡ (i, request_of i packages) ∷ later)
  unfolding finalize_requests request_of
  finalize_step i rest requests h = elim (Option-cases (lookup i round2)) [
    | inl absent ↦ absurd (missing absent h)
    | inr (packages, there) ↦
        let (later, more, same) =
          and_then_ok (i, request_of i packages) (finalize_requests id round1 round2 rest) requests
            (ground (arith, there, h)) in
        (packages, later, there, more, same)
  ]
    where
      missing :
          lookup i round2 ≡ none → finalize_requests id round1 round2 (i ∷ rest) ≡ ok requests → ⊥
      missing absent h = ground (arith, absent, h)

  -- every verifier has a request
  pub handed :
      (verifiers : List ℕ) (requests : List (ℕ × DkgFinalizeRequest)) (j i : ℕ)
      → finalize_requests id round1 round2 verifiers ≡ ok requests
      → get_elem? verifiers j ≡ some i
      → (request : DkgFinalizeRequest) × (get_elem? requests j ≡ some (i, request))
        × Hands id round1 round2 i request
  unfolding request_of
  handed [] requests j i h at = cc
  handed (k ∷ rest) requests zero i h at =
      let (packages, later, there, more, same) = finalize_step k rest requests h in
      let here : k ≡ i = ground (arith, at) in
      (
        request_of k packages,
        ap (λ l. get_elem? l 0) same ∙ ap (λ x. some (x, request_of k packages)) here,
        (refl, ap (λ x. remove x round1) here, ap (λ x. lookup x round2) (sym here) ∙ there),
      )
  handed (k ∷ rest) requests (suc j) i h at =
      let (packages, later, there, more, same) = finalize_step k rest requests h in
      let (request, found, hands) = handed rest later j i more at in
      (request, ap (λ l. get_elem? l (suc j)) same ∙ found, hands)

  -- and no one else
  pub handed_to :
      (verifiers : List ℕ) (requests : List (ℕ × DkgFinalizeRequest)) (j i : ℕ)
      (request : DkgFinalizeRequest)
      → finalize_requests id round1 round2 verifiers ≡ ok requests
      → get_elem? requests j ≡ some (i, request)
      → (get_elem? verifiers j ≡ some i) × (lookup i round2 ≡ some request.round2_packages)
  unfolding finalize_requests request_of
  handed_to [] [] j i request h at = cc
  handed_to [] (r ∷ requests) j i request h at = cc
  handed_to (k ∷ rest) requests zero i request h at =
      let (packages, later, there, more, same) = finalize_step k rest requests h in
      let (here, given) =
        pair_of k i (request_of k packages) request (get_elem? requests 0)
          (ap (λ l. get_elem? l 0) same) at in
      (
        ap some here,
        ap (λ x. lookup x round2) (sym here) ∙ there ∙ ap (λ q. some q.round2_packages) given,
      )
  handed_to (k ∷ rest) requests (suc j) i request h at =
      let (packages, later, there, more, same) = finalize_step k rest requests h in
      handed_to rest later j i request more (ap (λ l. get_elem? l (suc j)) (sym same) ∙ at)

pub sent :
    {W Q A : Type 0} (client : ℕ → Q → Exec W AggregatorError A) (requests : List (ℕ × Q)) (w : W)
    (j i : ℕ) (q : Q)
    → get_elem? requests j ≡ some (i, q)
    → (v : W) × (get_elem? (send_all client requests w).0 j ≡ some (i, (client i q v).0))
unfolding send_all
sent client [] w j i q at = cc
sent client ((k, p) ∷ rest) w zero i q at =
    (w, ap (λ x. elim x [ none ↦ none | some (a, b) ↦ some (a, (client a b w).0) ]) at)
sent client ((k, p) ∷ rest) w (suc j) i q at = sent client rest (client k p w).1 j i q at
