-- ===== src/Gateway/Utxos.antt =====
-- gateway/crates/local_db_store/src/schemas/utxo_storage.rs. An amount of the table is a BIGINT that
-- is cast from and to u64, so only the order of the amounts shows its sign.
pub mod Selection
pub mod Enough
pub mod Stored
use spark_bridge_backend.Prelude.{
  ℕ, zero, suc, ◌+◌, ◌-◌, ◌*◌, ◌/◌, ◌%◌, ◌^◌, ◌≤◌, ◌<◌, String, ◌≡◌, refl, sym, ap, ◌∙◌, ◌≢◌, ◌↔◌,
  ◌⊎◌, inl, inr, Bool, true, false, not, ◌&&◌, ◌||◌, Option, none, some, List, [], ◌∷◌, ◌++◌, map,
  arith, ltb, leb, ◌==◌, if◌then◌else◌, ==_iff, ==_refl, Bool-cases, Option-cases, is_none, is_some,
  Bytes, bytes_eq, bytes_eq_refl, bytes_eq_sound, All, length, get_elem?, take, drop, length-append,
  length-drop, take-append, drop-append, leb→le, ltb→lt,
}
use spark_bridge_backend.Prelude.Exec.{
  Result, ok, err, Exec, pure, raise, lift, gets, ◌>>=◌, ◌>>◌, ◌and_then◌,
}
use spark_bridge_backend.Gateway.Types.{
  DbError, Utxo, UtxoRow, UtxoStatus, Texts, utxo_row, from_row,
}
use spark_bridge_backend.Gateway.Tables.{
  Gateway, Db, database, find, update, delete, at_address, paid_to,
}

abbrev pub at_outpoint : Bytes → UtxoRow → Bool
at_outpoint outpoint row = bytes_eq outpoint row.outpoint

abbrev pub set_status : UtxoStatus → UtxoRow → UtxoRow
set_status status row = record row { status = status }

-- `INSERT ... ON CONFLICT (outpoint) DO UPDATE`
unfoldable pub upsert : UtxoRow → List UtxoRow → List UtxoRow
upsert row [] = row ∷ []
upsert row (r ∷ rows) =
    let rest = upsert row rows in if at_outpoint row.outpoint r then row ∷ rows else r ∷ rest

-- WHERE rune_id = $1 AND status IN ('confirmed', 'pending')
abbrev pub is_unspent : UtxoStatus → Bool
is_unspent UtxoStatus.pending = true
is_unspent UtxoStatus.confirmed = true
is_unspent UtxoStatus.spent = false

abbrev pub is_candidate : Bytes → UtxoRow → Bool
is_candidate rune_id row = bytes_eq row.rune_id rune_id && is_unspent row.status

unfoldable pub filter {ℓ} : {A : Type ℓ} → (A → Bool) → List A → List A
filter test [] = []
filter test (row ∷ rows) = let rest = filter test rows in if test row then row ∷ rest else rest

-- the order of a BIGINT that holds a u64
abbrev pub signed : ℕ → ℕ
signed amount = (amount + 2 ^ 63) % 2 ^ 64

-- `ORDER BY`, rows of the same key in the order of the table
module _ (key : UtxoRow → ℕ) where
  unfoldable pub insert_by : UtxoRow → List UtxoRow → List UtxoRow
  insert_by row [] = row ∷ []
  insert_by row (r ∷ rows) =
      let rest = insert_by row rows in if leb (key row) (key r) then row ∷ r ∷ rows else r ∷ rest

  unfoldable pub order_by : List UtxoRow → List UtxoRow
  order_by [] = []
  order_by (row ∷ rows) = insert_by row (order_by rows)

-- CASE WHEN status = 'confirmed' THEN 0 ELSE 1 END, rune_amount ASC
abbrev pub confirmed_first : UtxoRow → ℕ
confirmed_first row = elim row.status [
  | UtxoStatus.confirmed ↦ signed row.rune_amount
  | _ ↦ 2 ^ 64 + signed row.rune_amount
]

-- The loop of `select_utxos_for_amount`: the rows taken, and their total, which wraps.
unfoldable pub take_until : ℕ → ℕ → List Utxo → List Utxo × ℕ
take_until target total [] = ([], total)
take_until target total (u ∷ us) =
    let rest = take_until target ((total + u.rune_amount) % 2 ^ 64) us in
    if ltb total target then (u ∷ rest.0, rest.1) else ([], total)

-- WHERE outpoint IN (...)
unfoldable pub is_among : List Bytes → UtxoRow → Bool
is_among [] row = false
is_among (outpoint ∷ outpoints) row = bytes_eq outpoint row.outpoint || is_among outpoints row

abbrev pub free_candidate : (Bytes → Bool) → Bytes → UtxoRow → Bool
free_candidate locked rune_id row = is_candidate rune_id row && not (locked row.outpoint)

module _ (T : Texts) where
  -- the rows under `collect`: the first error
  unfoldable pub from_rows : List UtxoRow → Result DbError (List Utxo)
  from_rows [] = ok []
  from_rows (row ∷ rows) =
      let later = from_rows rows in
      from_row T row and_then λ utxo. later and_then λ utxos. ok (utxo ∷ utxos)

  abbrev pub from_option : Option UtxoRow → Result DbError (Option Utxo)
  from_option none = ok none
  from_option (some row) = from_row T row and_then λ utxo. ok (some utxo)

  -- utxo_refs
  abbrev pub refs : List Utxo → List Bytes
  refs = map (λ u. T.print_outpoint u.outpoint)

module _ {W : Type 0} where
  unfoldable pub set_utxo : List UtxoRow → Db W (Unit {0})
  set_utxo rows s = (ok tt, record s { utxo = rows })

module _ (T : Texts) {W : Type 0} where
  -- The address must be that of a deposit.
  unfoldable pub insert_utxo : Utxo → Db W Utxo
  insert_utxo utxo = do
    database
    self ← gets (λ s. s)
    if is_some (find (at_address (T.print utxo.btc_address)) self.deposit_address)
        then set_utxo (upsert (utxo_row T utxo) self.utxo) >> lift (from_row T (utxo_row T utxo))
        else raise DbError.bad_request

  unfoldable pub change_row : ℕ → (UtxoRow → UtxoRow) → Db W (Unit {0})
  change_row outpoint change = do
    database
    self ← gets (λ s. s)
    if is_some (find (at_outpoint (T.print_outpoint outpoint)) self.utxo)
        then set_utxo (update (at_outpoint (T.print_outpoint outpoint)) change self.utxo)
        else raise DbError.not_found

  unfoldable pub update_status : ℕ → UtxoStatus → Db W (Unit {0})
  update_status outpoint new_status = change_row outpoint (set_status new_status)

  unfoldable pub update_sats_fee_amount : ℕ → ℕ → Db W (Unit {0})
  update_sats_fee_amount outpoint sats_amount =
      change_row outpoint (λ row. record row { sats_amount = sats_amount })

  unfoldable pub get_utxo : ℕ → Db W (Option Utxo)
  get_utxo outpoint = do
    database
    self ← gets (λ s. s)
    lift (from_option T (find (at_outpoint (T.print_outpoint outpoint)) self.utxo))

  unfoldable pub get_utxo_by_btc_address : Bytes → Db W (Option Utxo)
  get_utxo_by_btc_address btc_address = do
    database
    self ← gets (λ s. s)
    lift (from_option T (find (paid_to btc_address) self.utxo))

  unfoldable pub delete_utxo : ℕ → Db W (Unit {0})
  delete_utxo outpoint = do
    database
    self ← gets (λ s. s)
    if is_some (find (at_outpoint (T.print_outpoint outpoint)) self.utxo)
        then set_utxo (delete (at_outpoint (T.print_outpoint outpoint)) self.utxo)
        else raise DbError.not_found

  unfoldable pub list_unspent : Bytes → Db W (List Utxo)
  list_unspent rune_id = do
    database
    self ← gets (λ s. s)
    lift (from_rows T (order_by confirmed_first (filter (is_candidate rune_id) self.utxo)))

  -- The rows that another transaction holds, `locked`, are skipped.
  unfoldable pub get_candidate_utxos_for_update : (Bytes → Bool) → Bytes → Db W (List Utxo)
  get_candidate_utxos_for_update locked rune_id = do
    database
    self ← gets (λ s. s)
    lift (
        from_rows T (
          order_by (λ row. signed row.rune_amount)
            (filter (free_candidate locked rune_id) self.utxo)))

  -- RETURNING gives the rows after the change. An empty selection asks nothing of the database.
  unfoldable pub mark_utxos_as_spent : List Bytes → Db W (List Utxo)
  mark_utxos_as_spent [] = pure []
  mark_utxos_as_spent (u ∷ us) = do
    database
    self ← gets (λ s. s)
    let rows = update (is_among (u ∷ us)) (set_status UtxoStatus.spent) self.utxo
    set_utxo rows
    lift (from_rows T (filter (is_among (u ∷ us)) rows))

module _ {W : Type 0} where
  abbrev pub commit : List Utxo → Db W (List Utxo)
  commit updated = do database; pure updated

  -- What runs in a transaction of PostgreSQL: the table is as before when it does not reach the end,
  -- and a commit that fails is taken to have changed nothing.
  abbrev pub transaction : {A : Type 0} → Db W A → Db W A
  transaction m s = elim (m s).0 [ ok a ↦ m s | err e ↦ (err e, record (m s).1 { utxo = s.utxo }) ]

module _ (T : Texts) {W : Type 0} where
  abbrev pub select_candidates : ℕ → List Utxo → Db W (List Utxo)
  select_candidates target candidates =
      let taken = take_until target 0 candidates in
      if ltb taken.1 target
      then raise DbError.bad_request
      else mark_utxos_as_spent T (refs T taken.0)

  abbrev pub selection : (Bytes → Bool) → Bytes → ℕ → Db W (List Utxo)
  selection locked rune_id target_amount = do
    candidates ← get_candidate_utxos_for_update T locked rune_id
    updated ← select_candidates target_amount candidates
    commit updated

  unfoldable pub select_utxos_for_amount : (Bytes → Bool) → Bytes → ℕ → Db W (List Utxo)
  select_utxos_for_amount locked rune_id target_amount = do
    database
    transaction (selection locked rune_id target_amount)
