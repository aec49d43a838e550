-- ===== src/Frost/Signer/Nonces.antt =====
-- How often the nonces of a signing session are used (crates/frost/src/signer.rs).
use spark_bridge_backend.Prelude.{ℕ, ◌≡◌, Bool, true, false, ◌&&◌, Option, none, some, ◌==◌}
use spark_bridge_backend.Frost.Scheme.{Scheme}
use spark_bridge_backend.Frost.Types.{SignerSignState, SignerSignData}
use spark_bridge_backend.Frost.Signer.{FrostSigner}
use spark_bridge_backend.Frost.Signer.Calls.{Call}

abbrev pub is_spent : Option SignerSignData → Bool
is_spent none = false
is_spent (some v) = elim v.sign_state [
  | SignerSignState.signing_round1 _ ↦ false
  | SignerSignState.signing_round2 _ ↦ true
]

-- The call does not start the session afresh.
abbrev pub Resumes : ℕ → ℕ → Call → Type 0
Resumes id session (Call.sign_round1 r) =
    ((r.dkg_share_id == id) && (r.session_id == session)) ≡ false
Resumes id session _ = Unit

module _ (F : Scheme) (id session : ℕ) where
  abbrev Spent : FrostSigner → Type 0
  Spent t = is_spent (t.sign_sessions id session) ≡ true
