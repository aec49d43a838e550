-- ===== src/Gateway/Responses/Unanimity.antt =====
-- What has to be answered, and by whom, before `check_all_verifiers_confirmed` says yes.
use spark_bridge_backend.Prelude.{
  ℕ, ◌≡◌, refl, ap, ◌∙◌, inl, inr, Bool, true, false, ◌||◌, Option, none, some, List, [], ◌∷◌,
  arith, ◌==◌, if◌then◌else◌, Bool-cases,
}
use spark_bridge_backend.Prelude.Map.{Map, lookup, insert, lookup-insert}
use spark_bridge_backend.Gateway.Types.{DepositStatus, VerifiersResponses}
use spark_bridge_backend.Gateway.Responses.{
  insert_all, new, all_confirmed-lookup, check_all_verifiers_confirmed, respond, is_confirmed,
}

unfoldable pub mentions : ℕ → List ℕ → Bool
mentions id [] = false
mentions id (i ∷ ids) = (i == id) || mentions id ids

-- the answers taken in one after another
unfoldable pub respond_all : List (ℕ × DepositStatus) → VerifiersResponses → VerifiersResponses
respond_all [] self = self
respond_all ((id, status) ∷ answers) self = respond_all answers (respond id status self)

-- the last answer of a verifier, or what stood before
pub last_answer : ℕ → List (ℕ × DepositStatus) → Option DepositStatus → Option DepositStatus
last_answer id [] before = before
last_answer id ((i, status) ∷ answers) before =
    last_answer id answers (if i == id then some status else before)

lookup-insert_all :
    (id : ℕ) (status : DepositStatus) (ids : List ℕ) (m : Map DepositStatus)
    → lookup id (insert_all status ids m) ≡ (if mentions id ids then some status else lookup id m)
unfolding insert_all mentions
lookup-insert_all id status [] m = refl
lookup-insert_all id status (i ∷ ids) m =
    ground (arith, lookup-insert_all id status ids (insert i status m), lookup-insert i id status m)

lookup-respond_all :
    (id : ℕ) (answers : List (ℕ × DepositStatus)) (self : VerifiersResponses)
    → lookup id (respond_all answers self).responses
      ≡ last_answer id answers (lookup id self.responses)
unfolding respond_all last_answer
lookup-respond_all id [] self = refl
lookup-respond_all id ((i, status) ∷ answers) self =
    lookup-respond_all id answers (respond i status self)
    ∙ ap (last_answer id answers) (lookup-insert i id status self.responses)

last_answer-some :
    (id : ℕ) (status : DepositStatus) (answers : List (ℕ × DepositStatus))
    → (last : DepositStatus) × (last_answer id answers (some status) ≡ some last)
unfolding last_answer
last_answer-some id status [] = (status, refl)
last_answer-some id status ((i, s) ∷ answers) = elim (Bool-cases (i == id)) [
  | inl here ↦ rw here (last_answer-some id s answers)
  | inr away ↦ rw away (last_answer-some id status answers)
]

last_answer_own :
    (id : ℕ) (status : DepositStatus) (answers : List (ℕ × DepositStatus))
    → is_confirmed status ≡ false
    → last_answer id answers (some status) ≡ some DepositStatus.confirmed
    → last_answer id answers none ≡ some DepositStatus.confirmed
unfolding last_answer
last_answer_own id status [] waits h = ground arith
last_answer_own id status ((i, s) ∷ answers) waits h = elim (Bool-cases (i == id)) [
  | inl here ↦ ground arith
  | inr away ↦ ground (arith, last_answer_own id status answers)
]

-- The answers to a deposit start as one `status` for each verifier, which is not `Confirmed`. Once
-- all are confirmed, after any answers in any order, each of these verifiers has answered, and its
-- last answer is `Confirmed`.
pub check_all_verifiers_confirmed-last_answer :
    (status : DepositStatus) (ids : List ℕ) (answers : List (ℕ × DepositStatus)) (id : ℕ)
    → is_confirmed status ≡ false
    → mentions id ids ≡ true
    → check_all_verifiers_confirmed (respond_all answers (new status ids)) ≡ true
    → last_answer id answers none ≡ some DepositStatus.confirmed
unfolding new
check_all_verifiers_confirmed-last_answer status ids answers id waits member all =
    let m = respond_all answers (new status ids) in
    let start = lookup-insert_all id status ids [] in
    let found = lookup-respond_all id answers (new status ids) in
    let before = rw member at start in
    let some_last = last_answer-some id status answers in
    let all_of =
      all_confirmed-lookup m.responses id some_last.0 all
        (found ∙ ap (last_answer id answers) before ∙ some_last.1) in
    last_answer_own id status answers waits (some_last.1 ∙ ap some all_of)
