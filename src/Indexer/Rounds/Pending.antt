-- ===== src/Indexer/Rounds/Pending.antt =====
-- The requests that are read at the beginning of a round.
use spark_bridge_backend.Prelude.{
  ℕ, suc, ◌≡◌, refl, sym, inl, inr, true, some, List, [], ◌∷◌, arith, Bool-cases, All, get_elem?,
}
use spark_bridge_backend.Prelude.{All-map}
use spark_bridge_backend.Prelude.Exec.{Result, ok, err, Result-cases}
use spark_bridge_backend.Token.Identifier as Identifier
use spark_bridge_backend.Indexer.Types.{DbError, Libraries, WatchRequest, WatchRequestRow, from_row}
use spark_bridge_backend.Indexer.Requests.{
  Indexer, database, is_pending, read_pending, get_all_unprocessed_watch_requests,
}
use spark_bridge_backend.Indexer.Rounds.{storage}

module _ (T : Libraries) (network : Identifier.Network) where
  -- The rows that are read are rows of the table that are pending.
  pub read_pending_lem :
      (P : WatchRequestRow → Type 0) (rows : List WatchRequestRow) (requests : List WatchRequest)
      → All P rows
      → read_pending T network rows ≡ ok requests
      → All
          (λ request.
            (row : WatchRequestRow) × P row
            × (is_pending row.status ≡ true)
            × (from_row T row network ≡ ok request))
          requests
  unfolding read_pending
  read_pending_lem P [] [] h e = tt
  read_pending_lem P [] (r ∷ requests) h e = cc
  read_pending_lem P (row ∷ rows) requests (here, later) e =
      elim (Bool-cases (is_pending row.status)) [
        | inr other ↦ read_pending_lem P rows requests later (ground (arith, other, e))
        | inl waits ↦ elim (Result-cases (from_row T row network)) [
          | inr (e2, failed) ↦ absurd (stopped e2 (ground (arith, waits, failed, e)))
          | inl (request, parsed) ↦ elim (Result-cases (read_pending T network rows)) [
            | inr (e2, failed) ↦ absurd (stopped e2 (ground (arith, waits, parsed, failed, e)))
            | inl (others, more) ↦
                rw (sym (grown others request _ refl (ground (arith, waits, parsed, more, e))))
                  ((row, here, waits, parsed), read_pending_lem P rows others later more)
          ]
        ]
      ]
    where
      stopped : (e2 : DbError) → err e2 ≡ ok requests → ⊥
      stopped e2 p = cc

      grown :
          (others : List WatchRequest) (request : WatchRequest)
          (r : Result DbError (List WatchRequest))
          → r ≡ ok (request ∷ others)
          → r ≡ ok requests
          → (request ∷ others) ≡ requests
      grown others request r p q = cc

  pub get_all_lem :
      {W : Type 0} (s : Indexer W)
      → let r = storage (get_all_unprocessed_watch_requests T network) s in
        (r.1.sent ≡ s.sent)
        × ((requests : List WatchRequest)
            → r.0 ≡ ok requests
            → read_pending T network s.requests ≡ ok requests)
  unfolding get_all_unprocessed_watch_requests database
  get_all_lem s = elim (Result-cases (read_pending T network s.requests)) [
    | inl (requests, there) ↦ ground (arith, there)
    | inr (e, failed) ↦ ground (arith, failed)
  ]

pub indexed :
    (rows : List WatchRequestRow) → All (λ row. (i : ℕ) × (get_elem? rows i ≡ some row)) rows
indexed [] = tt
indexed (row ∷ rows) = (
  (0, refl),
  All-map (λ r. (i : ℕ) × (get_elem? rows i ≡ some r)) rows (λ r (i, at). (suc i, at))
      (indexed rows),
)
