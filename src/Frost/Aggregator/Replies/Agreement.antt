-- ===== src/Frost/Aggregator/Replies/Agreement.antt =====
-- The verifiers' public key packages compared when the key generation is finalized.
use spark_bridge_backend.Prelude.{
  ℕ, zero, suc, ◌≡◌, refl, sym, true, some, List, [], ◌∷◌, arith, Bytes, bytes_eq_sound, get_elem?,
}
use spark_bridge_backend.Prelude.Exec.{Result, ok, err}
use spark_bridge_backend.Frost.Types.{DkgFinalizeResponse, AggregatorError}
use spark_bridge_backend.Frost.Aggregator.Replies.{gather, and_then, all_equal, agreed}

and_then_lem :
    (a : Bytes) (r : Result AggregatorError (List Bytes)) (l : List Bytes)
    → and_then a r ≡ ok l
    → (l' : List Bytes) × (r ≡ ok l') × (l ≡ a ∷ l')
and_then_lem a (ok l') l h = (l', refl, ground arith)
and_then_lem a (err e) l h = cc

gather_lem :
    (replies : List (ℕ × Result AggregatorError DkgFinalizeResponse)) (packages : List Bytes)
    (j i : ℕ) (r : Result AggregatorError DkgFinalizeResponse)
    → gather replies ≡ ok packages
    → get_elem? replies j ≡ some (i, r)
    → (p : Bytes) × (r ≡ ok (record { public_key_package = p })) × (get_elem? packages j ≡ some p)
unfolding gather
gather_lem [] packages j i r h at = cc
gather_lem ((k, err e) ∷ rest) packages j i r h at = cc
gather_lem ((k, ok response) ∷ rest) packages zero i r h at =
    let first = and_then_lem response.public_key_package (gather rest) packages h in
    (response.public_key_package, ground arith, ground arith)
gather_lem ((k, ok response) ∷ rest) packages (suc j) i r h at =
    let first = and_then_lem response.public_key_package (gather rest) packages h in
    let later = gather_lem rest first.0 j i r first.1 at in (later.0, later.1, ground arith)

all_equal_lem :
    (x : Bytes) (ys : List Bytes) (j : ℕ) (p : Bytes)
    → all_equal x ys ≡ true
    → get_elem? ys j ≡ some p
    → p ≡ x
unfolding all_equal
all_equal_lem x [] j p h at = cc
all_equal_lem x (y ∷ ys) zero p h at = ground (arith, bytes_eq_sound x y)
all_equal_lem x (y ∷ ys) (suc j) p h at = ground (arith, all_equal_lem x ys j p)

agreed_lem :
    (packages : List Bytes) (j : ℕ) (p pk : Bytes)
    → agreed packages ≡ ok pk
    → get_elem? packages j ≡ some p
    → p ≡ pk
unfolding agreed
agreed_lem [] j p pk h at = cc
agreed_lem (x ∷ xs) j p pk h at = ground (arith, all_equal_lem x (x ∷ xs) j p)

-- When the packages of the replies are accepted, every reply is the accepted package.
pub agreed-gather :
    (replies : List (ℕ × Result AggregatorError DkgFinalizeResponse)) (packages : List Bytes)
    (pk : Bytes) (j i : ℕ) (r : Result AggregatorError DkgFinalizeResponse)
    → gather replies ≡ ok packages
    → agreed packages ≡ ok pk
    → get_elem? replies j ≡ some (i, r)
    → r ≡ ok (record { public_key_package = pk })
agreed-gather replies packages pk j i r gathered accepted at =
    let g = gather_lem replies packages j i r gathered at in
    rw (sym (agreed_lem packages j g.0 pk accepted g.2)) g.1
