-- ===== src/Gateway/Utxos/Selection.antt =====
-- What `select_utxos_for_amount` takes.
use spark_bridge_backend.Prelude.{
  ℕ, zero, suc, ◌+◌, ◌%◌, ◌^◌, ◌≤◌, ◌<◌, ◌≡◌, refl, sym, ap, ◌∙◌, inl, inr, Bool, List, [], ◌∷◌,
  ◌++◌, arith, ltb, Bool-cases, Bytes, length, take,
}
use spark_bridge_backend.Prelude.Exec.{Result, ok, bind_step, Result-cases}
use spark_bridge_backend.Gateway.Types.{DbError, Utxo, UtxoRow, UtxoStatus, Texts, from_row}
use spark_bridge_backend.Gateway.Tables.{Gateway, Db, database, update}
use spark_bridge_backend.Gateway.Utxos.{
  set_status, signed, filter, order_by, free_candidate, take_until, is_among, from_rows, refs,
  get_candidate_utxos_for_update, mark_utxos_as_spent, set_utxo, selection, select_candidates,
  commit, transaction, select_utxos_for_amount,
}

unfoldable pub total_amount : List Utxo → ℕ
total_amount [] = 0
total_amount (u ∷ us) = u.rune_amount + total_amount us

-- the amounts of rows
unfoldable pub row_total : List UtxoRow → ℕ
row_total [] = 0
row_total (row ∷ rows) = row.rune_amount + row_total rows

from_row_amount :
    (T : Texts) (row : UtxoRow) (u : Utxo) → from_row T row ≡ ok u → u.rune_amount ≡ row.rune_amount
unfolding from_row
from_row_amount T row u h = ground arith

-- Reading keeps the amounts.
pub total_amount-from_rows :
    (T : Texts) (rows : List UtxoRow) (us : List Utxo)
    → from_rows T rows ≡ ok us
    → total_amount us ≡ row_total rows
unfolding from_rows total_amount row_total
total_amount-from_rows T [] us h = ground (arith, h)
total_amount-from_rows T (row ∷ rows) us h = elim (Result-cases (from_row T row)) [
  | inr (e, failed) ↦ ground (arith, failed, h)
  | inl (u, read) ↦ elim (Result-cases (from_rows T rows)) [
    | inr (e, failed) ↦ ground (arith, read, failed, h)
    | inl (later, more) ↦ ground (
      arith,
      read,
      more,
      h,
      from_row_amount T row u read,
      total_amount-from_rows T rows later more,
    )
  ]
]

take_until_prefix :
    (target total : ℕ) (us : List Utxo)
    → (left : List Utxo) × (us ≡ (take_until target total us).0 ++ left)
unfolding take_until
take_until_prefix target total [] = ([], refl)
take_until_prefix target total (u ∷ us) =
    let later = take_until_prefix target ((total + u.rune_amount) % 2 ^ 64) us in
    elim (Bool-cases (ltb total target)) [
      | inl low ↦ (later.0, rw low (rw (sym later.1) refl))
      | inr high ↦ (u ∷ us, rw high refl)
    ]

take_until_total :
    (target total : ℕ) (us : List Utxo)
    → total + total_amount us < 2 ^ 64
    → (take_until target total us).1 ≡ total + total_amount (take_until target total us).0
unfolding take_until total_amount
take_until_total target total [] h = omega arith
take_until_total target total (u ∷ us) h =
    ground (arith, take_until_total target ((total + u.rune_amount) % 2 ^ 64) us)

take_until_minimal :
    (target total n : ℕ) (us : List Utxo)
    → total + total_amount us < 2 ^ 64
    → n < length (take_until target total us).0
    → total + total_amount (take n (take_until target total us).0) < target
unfolding take_until total_amount
take_until_minimal target total n [] h l = absurd (omega arith)
take_until_minimal target total zero (u ∷ us) h l = ground arith
take_until_minimal target total (suc n) (u ∷ us) h l =
    ground (arith, take_until_minimal target ((total + u.rune_amount) % 2 ^ 64) n us)

module _ {W : Type 0} where
  transaction_ok :
      {A : Type 0} (m : Db W A) (s : Gateway W) (a : A)
      → (transaction m s).0 ≡ ok a
      → ((m s).0 ≡ ok a) × ((transaction m s).1 ≡ (m s).1)
  transaction_ok m s a h = ground arith

  database_keeps : (s : Gateway W) → (database s).1.utxo ≡ s.utxo
  unfolding database
  database_keeps s = ground arith

update_none : (us : List UtxoRow) → update (is_among []) (set_status UtxoStatus.spent) us ≡ us
unfolding update is_among
update_none [] = refl
update_none (u ∷ us) = rw (update_none us) refl

filter_none : (us : List UtxoRow) → filter (is_among []) us ≡ []
unfolding filter is_among
filter_none [] = refl
filter_none (u ∷ us) = filter_none us

-- the candidates in the order in which they are taken
abbrev pub candidates : (Bytes → Bool) → Bytes → List UtxoRow → List UtxoRow
candidates locked rune_id rows =
    order_by (λ row. signed row.rune_amount) (filter (free_candidate locked rune_id) rows)

module _ (T : Texts) {W : Type 0} where
  candidates_lem :
      (locked : Bytes → Bool) (rune_id : Bytes) (s : Gateway W) (c : List Utxo)
      → (get_candidate_utxos_for_update T locked rune_id s).0 ≡ ok c
      → from_rows T (candidates locked rune_id s.utxo) ≡ ok c
  unfolding get_candidate_utxos_for_update database
  candidates_lem locked rune_id s c h = ground arith

  candidates_keep :
      (locked : Bytes → Bool) (rune_id : Bytes) (s : Gateway W)
      → (get_candidate_utxos_for_update T locked rune_id s).1.utxo ≡ s.utxo
  unfolding get_candidate_utxos_for_update database
  candidates_keep locked rune_id s = ground arith

  mark_lem :
      (taken : List Bytes) (updated : List Utxo) (s : Gateway W)
      → (mark_utxos_as_spent T taken s).0 ≡ ok updated
      → ((mark_utxos_as_spent T taken s).1.utxo
          ≡ update (is_among taken) (set_status UtxoStatus.spent) s.utxo)
        × (from_rows T (filter (is_among taken) (mark_utxos_as_spent T taken s).1.utxo)
            ≡ ok updated)
  unfolding mark_utxos_as_spent database set_utxo from_rows
  mark_lem [] updated s h = (sym (update_none s.utxo), ground (arith, filter_none s.utxo))
  mark_lem (u ∷ us) updated s h = ground arith

  commit_lem :
      (a updated : List Utxo) (s : Gateway W)
      → (commit a s).0 ≡ ok updated
      → (a ≡ updated) × ((commit a s).1.utxo ≡ s.utxo)
  unfolding database
  commit_lem a updated s h = ground arith

  select_lem :
      (target : ℕ) (c updated : List Utxo) (s : Gateway W)
      → (select_candidates T target c s).0 ≡ ok updated
      → let taken = take_until target 0 c in
        (target ≤ taken.1)
        × ((mark_utxos_as_spent T (refs T taken.0) s).0 ≡ ok updated)
        × ((select_candidates T target c s).1 ≡ (mark_utxos_as_spent T (refs T taken.0) s).1)
  select_lem target c updated s h = ground arith

module _ (T : Texts) {W : Type 0} (locked : Bytes → Bool) (rune_id : Bytes) (target : ℕ)
    (s : Gateway W) where
  abbrev Selected : List Utxo → Gateway W → Type 0
  Selected updated t =
      (c : List Utxo) × (from_rows T (candidates locked rune_id s.utxo) ≡ ok c)
      × (target ≤ (take_until target 0 c).1)
      × (t.utxo
          ≡ update (is_among (refs T (take_until target 0 c).0)) (set_status UtxoStatus.spent)
              s.utxo)
      × (from_rows T (filter (is_among (refs T (take_until target 0 c).0)) t.utxo) ≡ ok updated)

  selection_lem :
      (updated : List Utxo) (t : Gateway W)
      → t.utxo ≡ s.utxo
      → (selection T locked rune_id target t).0 ≡ ok updated
      → Selected updated (selection T locked rune_id target t).1
  selection_lem updated t same =
      bind_step Q (get_candidate_utxos_for_update T locked rune_id) _ t
        (λ c u got here.
          bind_step Q (select_candidates T target c) _ u
            (λ a v picked there h.
              let p = select_lem T target c a u picked in
              let q = mark_lem T (refs T (take_until target 0 c).0) a u p.1 in
              let r = commit_lem T a updated v h in
              let k = ap (λ x. x.utxo) (sym here) ∙ candidates_keep T locked rune_id t ∙ same in
              let w = r.1 ∙ ap (λ x. x.utxo) (sym there ∙ p.2) in
              (
                c,
                ap (λ x. from_rows T (candidates locked rune_id x)) (sym same)
                    ∙ candidates_lem T locked rune_id t c got,
                p.0,
                w
                    ∙ q.0
                    ∙ ap
                        (update (is_among (refs T (take_until target 0 c).0))
                          (set_status UtxoStatus.spent))
                        k,
                ap (λ x. from_rows T (filter (is_among (refs T (take_until target 0 c).0)) x)) w
                    ∙ q.1
                    ∙ ap ok r.0,
              ))
            (λ e t _ _ h. cc))
        (λ e t _ _ h. cc)
    where
      Q : Result DbError (List Utxo) → Gateway W → Type 0
      Q res t = res ≡ ok updated → Selected updated t

  select_utxos_for_amount_lem :
      (updated : List Utxo)
      → (select_utxos_for_amount T locked rune_id target s).0 ≡ ok updated
      → Selected updated (select_utxos_for_amount T locked rune_id target s).1
  unfolding select_utxos_for_amount
  select_utxos_for_amount_lem updated =
      bind_step Q database _ s
        (λ _ t _ here h.
          let k = transaction_ok (selection T locked rune_id target) t updated h in
          let (c, read, enough, spent, back) =
            selection_lem updated t (ap (λ x. x.utxo) (sym here) ∙ database_keeps s) k.0 in
          (
            c,
            read,
            enough,
            ap (λ x. x.utxo) k.1 ∙ spent,
            ap (λ x. from_rows T (filter (is_among (refs T (take_until target 0 c).0)) x.utxo)) k.1
                ∙ back,
          ))
        (λ e t _ _ h. cc)
    where
      Q : Result DbError (List Utxo) → Gateway W → Type 0
      Q res t = res ≡ ok updated → Selected updated t

  -- When a selection succeeds, the candidates could all be read, and those taken are the first of them
  -- in the order of their amounts; their amounts come to at least the target, and those of any fewer of
  -- them do not; the rows with their out points, and no others, are now spent, and what is returned is
  -- read from these rows. The amounts of all the candidates together stay below 2 ^ 64.
  pub select_utxos_for_amount-total_amount :
      (updated : List Utxo)
      → row_total (candidates locked rune_id s.utxo) < 2 ^ 64
      → (select_utxos_for_amount T locked rune_id target s).0 ≡ ok updated
      → let t = (select_utxos_for_amount T locked rune_id target s).1 in
        (taken : List Utxo) × (left : List Utxo) × (from_rows T (candidates locked rune_id s.utxo)
          ≡ ok (taken ++ left))
        × (target ≤ total_amount taken)
        × ((n : ℕ) → n < length taken → total_amount (take n taken) < target)
        × (t.utxo ≡ update (is_among (refs T taken)) (set_status UtxoStatus.spent) s.utxo)
        × (from_rows T (filter (is_among (refs T taken)) t.utxo) ≡ ok updated)
  select_utxos_for_amount-total_amount updated small h =
      let (c, read, enough, spent, back) = select_utxos_for_amount_lem updated h in
      let p = take_until_prefix target 0 c in
      let bound : 0 + total_amount c < 2 ^ 64 =
        omega (arith, small, total_amount-from_rows T (candidates locked rune_id s.utxo) c read) in
      (
        (take_until target 0 c).0,
        p.0,
        read ∙ ap ok p.1,
        omega (arith, enough, take_until_total target 0 c bound),
        λ n l. omega (arith, take_until_minimal target 0 n c bound l),
        spent,
        back,
      )
