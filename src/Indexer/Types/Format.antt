-- ===== src/Indexer/Types/Format.antt =====
-- Watch requests written to the table and read back.
use spark_bridge_backend.Prelude.{
  ℕ, ◌+◌, ◌-◌, ◌^◌, ◌≤◌, ◌<◌, ◌≡◌, refl, ap, ◌∙◌, Option, none, some, arith,
}
use spark_bridge_backend.Prelude.Exec.{ok}
use spark_bridge_backend.Token.Identifier as Identifier
use spark_bridge_backend.Indexer.Types.{
  Libraries, WatchRequest, as_i64, as_u128, optional, into_row, parse_on_network, read_rune_id,
  from_row,
}

module _ (T : Libraries) where
  abbrev pub IsRuneId : Option ℕ → Type 0
  IsRuneId none = Unit
  IsRuneId (some rune_id) = T.parse_rune_id (T.print_rune_id rune_id) ≡ some rune_id

  -- The texts of the request are read back, its date to the millisecond, and its address is of the network.
  pub record IsStored (network : Identifier.Network) (request : WatchRequest) : Type 0 where
    pub outpoint : T.parse_outpoint (T.print_outpoint request.outpoint) ≡ some request.outpoint
    pub btc_address :
        parse_on_network T (T.print_address request.btc_address) network ≡ some request.btc_address
    pub rune_id : IsRuneId request.rune_id
    pub created_at :
        T.from_timestamp_millis (T.timestamp_millis request.created_at) ≡ some request.created_at
    pub callback_url : T.parse_url (T.print_url request.callback_url) ≡ some request.callback_url

abbrev pub Below : ℕ → Option ℕ → Type 0
Below bound none = Unit
Below bound (some n) = n < bound

rune_id_read :
    (T : Libraries) (rune_id : Option ℕ)
    → IsRuneId T rune_id
    → read_rune_id T (optional T.print_rune_id rune_id) ≡ ok rune_id
rune_id_read T none h = refl
rune_id_read T (some rune_id) h = rw h refl

sats_read : (amount : Option ℕ) → Below (2 ^ 64) amount → optional as_i64 amount ≡ amount
sats_read none h = refl
sats_read (some n) h = ap some (omega (arith, h))

runes_read :
    (amount : Option ℕ) → Below (2 ^ 63) amount → optional as_u128 (optional as_i64 amount) ≡ amount
runes_read none h = refl
runes_read (some n) h = ap some (ground (arith, h))

module _ (T : Libraries) (network : Identifier.Network) where
  read_back :
      (request : WatchRequest)
      → IsStored T network request
      → Below (2 ^ 64) request.sats_amount
      → from_row T (into_row T request) network
        ≡ ok (record request {
          rune_amount = optional as_u128 (optional as_i64 request.rune_amount);
        })
  unfolding from_row into_row
  read_back request h sats = rw h.outpoint (
      rw h.btc_address (
        rw (rune_id_read T request.rune_id h.rune_id)
          (rw h.created_at (rw h.callback_url (rw (sats_read request.sats_amount sats) refl)))))

  -- A watch request is read back from the row it is written as, when its texts and its date are read
  -- back, its address is of the network of the indexer, its amount of sats fits 64 bits and its amount
  -- of runes 63.
  pub from_row-into_row :
      (request : WatchRequest)
      → IsStored T network request
      → Below (2 ^ 64) request.sats_amount
      → Below (2 ^ 63) request.rune_amount
      → from_row T (into_row T request) network ≡ ok request
  from_row-into_row request h sats runes =
      read_back request h sats
      ∙ ap (λ amount. ok (record request { rune_amount = amount }))
          (runes_read request.rune_amount runes)

  -- An amount of runes of 64 bits whose highest bit is set is read back from the table larger by
  -- 2 ^ 128 - 2 ^ 64; the request is as in the round trip otherwise.
  pub from_row-into_row_wide :
      (request : WatchRequest) (rune_amount : ℕ)
      → IsStored T network request
      → Below (2 ^ 64) request.sats_amount
      → request.rune_amount ≡ some rune_amount
      → 2 ^ 63 ≤ rune_amount
      → rune_amount < 2 ^ 64
      → from_row T (into_row T request) network
        ≡ ok (record request { rune_amount = some (rune_amount + (2 ^ 128 - 2 ^ 64)) })
  from_row-into_row_wide request rune_amount h sats there wide fits =
      read_back request h sats
      ∙ ap (λ amount. ok (record request { rune_amount = amount }))
          (ap (λ amount. optional as_u128 (optional as_i64 amount)) there
            ∙ ap some (widened rune_amount wide fits))
    where
      widened : (n : ℕ) → 2 ^ 63 ≤ n → n < 2 ^ 64 → as_u128 (as_i64 n) ≡ n + (2 ^ 128 - 2 ^ 64)
      widened n wide fits = ground (arith, wide, fits)
