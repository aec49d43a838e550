-- ===== src/Frost/Aggregator/Replies/Exchange.antt =====
-- The exchange of packages in the second round of the key generation (crates/frost/src/aggregator.rs).
use spark_bridge_backend.Prelude.{
  ℕ, zero, suc, ◌≡◌, refl, Bool, false, ◌||◌, Option, none, some, List, [], ◌∷◌, arith, ◌==◌,
  if◌then◌else◌, Bytes, All, get_elem?,
}
use spark_bridge_backend.Prelude.Map.{Map, lookup, insert, keys, lookup-insert}
use spark_bridge_backend.Prelude.Exec.{Result, ok, err}
use spark_bridge_backend.Frost.Types.{DkgRound2Response, AggregatorError}
use spark_bridge_backend.Frost.Aggregator.Replies.{entry, deliver, exchange}

unfoldable pub contains : ℕ → List ℕ → Bool
contains x [] = false
contains x (y ∷ ys) = (x == y) || contains x ys

unfoldable pub Unique : List ℕ → Type 0
Unique [] = Unit
Unique (x ∷ xs) = (contains x xs ≡ false) × Unique xs

abbrev or_else {ℓ} : {A : Type ℓ} → Option A → Option A → Option A
or_else (some a) b = some a
or_else none b = b

lookup_absent : (k : ℕ) (m : Map Bytes) → contains k (keys m) ≡ false → lookup k m ≡ none
unfolding contains lookup
lookup_absent k [] h = refl
lookup_absent k ((j, v) ∷ m) h = ground (arith, lookup_absent k m)

deliver_lem :
    (sender s r : ℕ) (packages : Map Bytes) (m : Map (Map Bytes))
    → Unique (keys packages)
    → lookup s (entry (lookup r (deliver sender packages m)))
      ≡ or_else (if sender == s then lookup r packages else none) (lookup s (entry (lookup r m)))
unfolding deliver Unique lookup
deliver_lem sender s r [] m h = ground arith
deliver_lem sender s r ((k, share) ∷ rest) m h =
    let row = insert sender share (entry (lookup k m)) in
    ground (
      arith,
      deliver_lem sender s r rest (insert k row m) h.1,
      lookup-insert k r row m,
      lookup-insert sender s share (entry (lookup k m)),
      lookup_absent k rest h.0,
    )

abbrev pub Replies : Type 0
Replies = List (ℕ × Result AggregatorError DkgRound2Response)

abbrev pub senders : Replies → List ℕ
senders [] = []
senders ((i, _) ∷ rest) = i ∷ senders rest

-- The keys of a BTreeMap are different.
abbrev pub IsReply : ℕ × Result AggregatorError DkgRound2Response → Type 0
IsReply (i, ok response) = Unique (keys response.round2_packages)
IsReply (i, err e) = Unit

exchange_absent :
    (replies : Replies) (sender receiver : ℕ) (m m' : Map (Map Bytes))
    → All IsReply replies
    → contains sender (senders replies) ≡ false
    → exchange m replies ≡ ok m'
    → lookup sender (entry (lookup receiver m')) ≡ lookup sender (entry (lookup receiver m))
unfolding exchange contains
exchange_absent [] sender receiver m m' u n h = cc
exchange_absent ((i, err e) ∷ rest) sender receiver m m' u n h = cc
exchange_absent ((i, ok response) ∷ rest) sender receiver m m' u n h =
    let later = deliver i response.round2_packages m in
    ground (
      arith,
      exchange_absent rest sender receiver later m' u.1,
      deliver_lem i sender receiver response.round2_packages m u.0,
    )

sender_lem :
    (replies : Replies) (i j sender : ℕ) (response : DkgRound2Response)
    → contains i (senders replies) ≡ false
    → get_elem? replies j ≡ some (sender, ok response)
    → (i == sender) ≡ false
unfolding contains
sender_lem [] i j sender response n at = cc
sender_lem ((k, r) ∷ rest) i zero sender response n at = ground arith
sender_lem ((k, r) ∷ rest) i (suc j) sender response n at =
    ground (arith, sender_lem rest i j sender response)

exchange_lem :
    (replies : Replies) (j sender receiver : ℕ) (response : DkgRound2Response)
    (m m' : Map (Map Bytes))
    → All IsReply replies
    → Unique (senders replies)
    → get_elem? replies j ≡ some (sender, ok response)
    → exchange m replies ≡ ok m'
    → lookup sender (entry (lookup receiver m'))
      ≡ or_else
          (lookup receiver response.round2_packages)
          (lookup sender (entry (lookup receiver m)))
unfolding exchange Unique
exchange_lem [] j sender receiver response m m' u n at h = cc
exchange_lem ((i, err e) ∷ rest) j sender receiver response m m' u n at h = cc
exchange_lem ((i, ok r) ∷ rest) zero sender receiver response m m' u n at h =
    let later = deliver i r.round2_packages m in
    ground (
      arith,
      exchange_absent rest sender receiver later m' u.1,
      deliver_lem i sender receiver r.round2_packages m u.0,
    )
exchange_lem ((i, ok r) ∷ rest) (suc j) sender receiver response m m' u n at h =
    let later = deliver i r.round2_packages m in
    let other = sender_lem rest i j sender response n.0 at in
    ground (
      arith,
      exchange_lem rest j sender receiver response later m' u.1 n.1 at h,
      deliver_lem i sender receiver r.round2_packages m u.0,
      other,
    )

-- What a sender made for a receiver stands under the sender's name in the receiver's entry.
pub exchange-round2_packages :
    (replies : Replies) (j sender receiver : ℕ) (response : DkgRound2Response) (m : Map (Map Bytes))
    → All IsReply replies
    → Unique (senders replies)
    → get_elem? replies j ≡ some (sender, ok response)
    → exchange [] replies ≡ ok m
    → lookup sender (entry (lookup receiver m)) ≡ lookup receiver response.round2_packages
unfolding lookup
exchange-round2_packages replies j sender receiver response m u n at h =
    ground (arith, exchange_lem replies j sender receiver response [] m u n at h)
