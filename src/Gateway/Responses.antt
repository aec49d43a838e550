-- ===== src/Gateway/Responses.antt =====
-- gateway/crates/local_db_store/src/schemas/deposit_address.rs: the verifiers' answers to a deposit.
pub mod Unanimity
use spark_bridge_backend.Prelude.{
  ℕ, zero, suc, ◌+◌, ◌-◌, ◌*◌, ◌/◌, ◌%◌, ◌^◌, ◌≤◌, ◌<◌, String, ◌≡◌, refl, sym, ap, ◌∙◌, ◌≢◌, ◌↔◌,
  ◌⊎◌, inl, inr, Bool, true, false, not, ◌&&◌, ◌||◌, Option, none, some, List, [], ◌∷◌, ◌++◌, map,
  arith, ltb, leb, ◌==◌, if◌then◌else◌, ==_iff, ==_refl, Bool-cases, Option-cases, is_none, is_some,
  Bytes, bytes_eq, bytes_eq_refl, bytes_eq_sound, All, length, get_elem?, take, drop, length-append,
  length-drop, take-append, drop-append, leb→le, ltb→lt,
}
use spark_bridge_backend.Prelude.Map.{Map, lookup, insert, keys, lookup-insert}
use spark_bridge_backend.Gateway.Types.{DepositStatus, VerifiersResponses}

unfoldable pub insert_all : DepositStatus → List ℕ → Map DepositStatus → Map DepositStatus
insert_all status [] m = m
insert_all status (id ∷ ids) m = insert_all status ids (insert id status m)

-- VerifiersResponses::new
unfoldable pub new : DepositStatus → List ℕ → VerifiersResponses
new status ids = record { responses = insert_all status ids [] }

unfoldable pub empty : VerifiersResponses
empty = record { responses = [] }

abbrev pub is_confirmed : DepositStatus → Bool
is_confirmed DepositStatus.confirmed = true
is_confirmed DepositStatus.failed = false
is_confirmed DepositStatus.waiting_for_confirmation = false
is_confirmed DepositStatus.created = false

-- the loop of `check_all_verifiers_confirmed` over the values
unfoldable pub all_confirmed : Map DepositStatus → Bool
all_confirmed [] = true
all_confirmed ((id, response) ∷ rest) = if is_confirmed response then all_confirmed rest else false

abbrev pub check_all_verifiers_confirmed : VerifiersResponses → Bool
check_all_verifiers_confirmed self = all_confirmed self.responses

-- confirmation_status.responses.insert(verifier_id, verifier_response)
abbrev pub respond : ℕ → DepositStatus → VerifiersResponses → VerifiersResponses
respond verifier_id response self = record {
  responses = insert verifier_id response self.responses;
}

pub all_confirmed-lookup :
    (m : Map DepositStatus) (id : ℕ) (status : DepositStatus)
    → all_confirmed m ≡ true
    → lookup id m ≡ some status
    → status ≡ DepositStatus.confirmed
unfolding all_confirmed lookup
all_confirmed-lookup [] id status h at = cc
all_confirmed-lookup ((k, r) ∷ rest) id status h at =
    ground (arith, all_confirmed-lookup rest id status)
