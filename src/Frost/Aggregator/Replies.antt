-- ===== src/Frost/Aggregator/Replies.antt =====
-- crates/frost/src/aggregator.rs: the requests to the verifiers of one round, and their replies
-- gathered in maps.
pub mod Exchange
pub mod Agreement
use spark_bridge_backend.Prelude.{
  ℕ, zero, suc, ◌+◌, ◌-◌, ◌*◌, ◌/◌, ◌%◌, ◌^◌, ◌≤◌, ◌<◌, String, ◌≡◌, refl, sym, ap, ◌∙◌, ◌≢◌, ◌↔◌,
  ◌⊎◌, inl, inr, Bool, true, false, not, ◌&&◌, ◌||◌, Option, none, some, List, [], ◌∷◌, ◌++◌, map,
  arith, ltb, leb, ◌==◌, if◌then◌else◌, ==_iff, ==_refl, Bool-cases, Option-cases, is_none, is_some,
  Bytes, bytes_eq, bytes_eq_refl, bytes_eq_sound, All, length, get_elem?, take, drop, length-append,
  length-drop, take-append, drop-append, leb→le, ltb→lt,
}
use spark_bridge_backend.Prelude.Map.{Map, lookup, insert, remove, keys}
use spark_bridge_backend.Prelude.Exec.{
  Result, ok, err, Exec, pure, raise, lift, gets, continue, ◌>>=◌, ◌>>◌, ok_or,
}
use spark_bridge_backend.Frost.Scheme.{Scheme}
use spark_bridge_backend.Frost.Types.{
  DkgRound1Request, DkgRound1Response, DkgRound2Request, DkgRound2Response, DkgFinalizeRequest,
  DkgFinalizeResponse, SignRound1Request, SignRound1Response, SignRound2Request, SignRound2Response,
  AggregatorDkgState, AggregatorDkgShareData, AggregatorSignState, AggregatorSignData,
  AggregatorError, SigningMetadata,
}

-- `join_all` over one request for each verifier. The requests are taken in the order of the list.
module _ {W Q A : Type 0} where
  unfoldable pub send_all :
      (ℕ → Q → Exec W AggregatorError A)
      → List (ℕ × Q)
      → W
      → List (ℕ × Result AggregatorError A) × W
  send_all client [] w = ([], w)
  send_all client ((i, q) ∷ rest) w =
      let later = send_all client rest (client i q w).1 in
      ((i, (client i q w).0) ∷ later.0, later.1)

-- for (verifier_id, response) in replies { map.insert(verifier_id, field(response?)); }
module _ {A B : Type 0} (field : A → B) where
  unfoldable pub collect :
      Map B → List (ℕ × Result AggregatorError A) → Result AggregatorError (Map B)
  collect m [] = ok m
  collect m ((i, ok a) ∷ rest) = collect (insert i (field a) m) rest
  collect m ((i, err e) ∷ rest) = err e

-- map.entry(receiver).or_insert(BTreeMap::new())
abbrev pub entry : Option (Map Bytes) → Map Bytes
entry none = []
entry (some packages) = packages

-- the inner loop of `dkg_round_2`, over the packages of one sender
unfoldable pub deliver : ℕ → Map Bytes → Map (Map Bytes) → Map (Map Bytes)
deliver sender [] m = m
deliver sender ((receiver, share) ∷ rest) m =
    deliver sender rest (insert receiver (insert sender share (entry (lookup receiver m))) m)

unfoldable pub exchange :
    Map (Map Bytes)
    → List (ℕ × Result AggregatorError DkgRound2Response)
    → Result AggregatorError (Map (Map Bytes))
exchange m [] = ok m
exchange m ((sender, ok response) ∷ rest) =
    exchange (deliver sender response.round2_packages m) rest
exchange m ((sender, err e) ∷ rest) = err e

abbrev pub and_then :
    {A : Type 0} → A → Result AggregatorError (List A) → Result AggregatorError (List A)
and_then a (ok later) = ok (a ∷ later)
and_then a (err e) = err e

-- the loop of `dkg_finalize` that gathers the public key packages
unfoldable pub gather :
    List (ℕ × Result AggregatorError DkgFinalizeResponse) → Result AggregatorError (List Bytes)
gather [] = ok []
gather ((i, err e) ∷ rest) = err e
gather ((i, ok response) ∷ rest) = and_then response.public_key_package (gather rest)

unfoldable pub all_equal : Bytes → List Bytes → Bool
all_equal x [] = true
all_equal x (y ∷ ys) = bytes_eq x y && all_equal x ys

-- `public_key_packages[0]`, which panics on no verifiers, and the comparison with every package
unfoldable pub agreed : List Bytes → Result AggregatorError Bytes
agreed [] = err AggregatorError.panicked
agreed (x ∷ xs) = if all_equal x (x ∷ xs) then ok x else err AggregatorError.internal

-- the requests of `dkg_finalize`, made before any of them is sent
unfoldable pub finalize_requests :
    ℕ
    → Map Bytes
    → Map (Map Bytes)
    → List ℕ
    → Result AggregatorError (List (ℕ × DkgFinalizeRequest))
finalize_requests id round1 round2 [] = ok []
finalize_requests id round1 round2 (i ∷ rest) =
    let later = finalize_requests id round1 round2 rest in
    elim (lookup i round2) [
      | none ↦ err AggregatorError.internal
      | some packages ↦
          and_then
            (
              i,
              record {
                dkg_share_id = id;
                round1_packages = remove i round1;
                round2_packages = packages;
              },
            )
            later
    ]
