-- ===== src/Spark/Proto/Reads.antt =====
-- Readings of any input: what they take, and that their loops end.
use spark_bridge_backend.Prelude.{
  ℕ, zero, suc, ◌+◌, ◌≤◌, ◌<◌, ◌≡◌, refl, ap, ◌∙◌, ◌≢◌, Bool, true, false, [], ◌∷◌, arith, ◌==◌,
  if◌then◌else◌, Bytes, length, length-drop,
}
use spark_bridge_backend.Prelude.Exec.{Result, ok, err, pure, raise, ◌>>=◌, bind_rule, bind_ext}
use spark_bridge_backend.Spark.Proto.{
  Libraries, DecodeError, Read, ensure, of_wire_type, read_u8, read_rounds, read_varint_u32,
  read_varint_u64, read_len, advance, read_bytes, read_string, skip_field, round, fields_loop,
  decode_fields,
}
use spark_bridge_backend.Spark.Proto.Varint.{read_rounds_takes, last_round}

-- The reading gives nothing back, and does not run out of fuel.
pub record Reads {A : Type 0} (m : Read A) : Type 0 where
  pub at :
      (left : Bytes)
      → (length (m left).1 ≤ length left) × ((m left).0 ≢ err DecodeError.out_of_fuel)

module _ {A B : Type 0} where
  pub Reads-bind :
      (m : Read A) (f : A → Read B) → Reads m → ((a : A) → Reads (f a)) → Reads (m >>= f)
  Reads-bind m f rm rf = record {
    at = λ left.
        bind_rule (λ r t. (length t ≤ length left) × (r ≢ err DecodeError.out_of_fuel)) m f left
          (λ a _.
            let (shorter, runs) = (rf a).at (m left).1 in
            (omega (arith, (rm.at left).0, shorter), runs))
          (λ e h. ((rm.at left).0, λ p. (rm.at left).1 (cc (h, p))));
  }

module _ {A : Type 0} where
  pub Reads-pure : (a : A) → Reads (pure a)
  Reads-pure a = record { at = λ left. (omega arith, λ p. cc) }

  pub Reads-raise : (e : DecodeError) → e ≢ DecodeError.out_of_fuel → Reads {A = A} (raise e)
  Reads-raise e h = record { at = λ left. (omega arith, λ p. h (cc p)) }

  pub Reads-if : (b : Bool) (m n : Read A) → Reads m → Reads n → Reads (if b then m else n)
  Reads-if true m n rm rn = rm
  Reads-if false m n rm rn = rn

pub Reads-of_wire_type :
    {A : Type 0} (wanted wt : ℕ) (arm : Read A) → Reads arm → Reads (of_wire_type wanted wt arm)
Reads-of_wire_type wanted wt arm r =
    Reads-if (wt == wanted) arm _ r (Reads-raise DecodeError.invalid_wire_type (λ p. cc))

pub Reads-ensure : (need : ℕ) → Reads (ensure need)
unfolding ensure
Reads-ensure need = record { at = λ left. ground arith }

Reads-read_u8 : Reads read_u8
unfolding read_u8
Reads-read_u8 = record { at = taken }
  where
    taken :
        (left : Bytes)
        → (length (read_u8 left).1 ≤ length left) × ((read_u8 left).0 ≢ err DecodeError.out_of_fuel)
    taken [] = (omega arith, λ p. cc)
    taken (b ∷ left) = (omega arith, λ p. cc)

Reads-read_rounds : (width rounds x s : ℕ) → Reads (read_rounds width rounds x s)
unfolding read_rounds
Reads-read_rounds width zero x s = Reads-raise DecodeError.overflow (λ p. cc)
Reads-read_rounds width (suc rounds) x s =
    Reads-bind read_u8 _ Reads-read_u8
      (λ b. Reads-if _ (pure _) _ (Reads-pure _) (Reads-read_rounds width rounds _ (s + 7)))

pub Reads-read_varint_u32 : Reads read_varint_u32
unfolding read_varint_u32
Reads-read_varint_u32 = Reads-read_rounds 32 5 0 0

pub Reads-read_varint_u64 : Reads read_varint_u64
unfolding read_varint_u64
Reads-read_varint_u64 = Reads-read_rounds 64 10 0 0

pub Reads-read_len : Reads read_len
unfolding read_len
Reads-read_len =
    Reads-bind read_varint_u32 _ Reads-read_varint_u32
      (λ l. Reads-bind (ensure l) _ (Reads-ensure l) (λ _. Reads-pure l))

Reads-advance : (n : ℕ) → Reads (advance n)
unfolding advance
Reads-advance n = record { at = λ left. (omega (arith, length-drop n left), λ p. cc) }

pub Reads-read_bytes : (len : ℕ) → Reads (read_bytes len)
unfolding read_bytes
Reads-read_bytes len =
    Reads-bind (ensure len) _ (Reads-ensure len)
      (λ _. record { at = λ left. (omega (arith, length-drop len left), λ p. cc) })

pub Reads-read_string : (L : Libraries) (len : ℕ) → Reads (read_string L len)
unfolding read_string
Reads-read_string L len =
    Reads-bind (read_bytes len) _ (Reads-read_bytes len)
      (λ b. Reads-if (L.is_utf8 b) _ _ (Reads-pure b) (Reads-raise DecodeError.utf8 (λ p. cc)))

pub Reads-skip_field : (wire_type : ℕ) → Reads (skip_field wire_type)
unfolding skip_field
Reads-skip_field wire_type =
    Reads-if _ _ _ (Reads-bind read_varint_u64 _ Reads-read_varint_u64 (λ _. Reads-pure tt)) (
      Reads-if _ _ _ (Reads-bind (ensure 8) _ (Reads-ensure 8) (λ _. Reads-advance 8)) (
        Reads-if _ _ _ (Reads-bind read_len _ Reads-read_len Reads-advance) (
          Reads-if _ _ _ (Reads-bind (ensure 4) _ (Reads-ensure 4) (λ _. Reads-advance 4))
            (Reads-raise DecodeError.invalid_wire_type (λ p. cc)))))

read_varint_u32_takes :
    (left : Bytes) (v : ℕ)
    → (read_varint_u32 left).0 ≡ ok v
    → length (read_varint_u32 left).1 < length left
unfolding read_varint_u32
read_varint_u32_takes left v e = omega (arith, read_rounds_takes 32 5 0 0 v left (omega arith) e)

module _ {S : Type 0} (body : ℕ → S → Read S) (reads : (tag : ℕ) (s : S) → Reads (body tag s)) where
  -- A round gives nothing back and does not run out of fuel when that holds of the rounds after it.
  round_reads :
      (next : S → Read S) (s : S) (left : Bytes)
      → ((t : S) (rest : Bytes)
          → length rest < length left
          → (length (next t rest).1 ≤ length rest)
            × ((next t rest).0 ≢ err DecodeError.out_of_fuel))
      → (length (round body next s left).1 ≤ length left)
        × ((round body next s left).0 ≢ err DecodeError.out_of_fuel)
  unfolding round
  round_reads next s left later =
      bind_rule Q read_varint_u32 _ left
        (λ tag e. after tag (tag == 0) (read_varint_u32_takes left tag e))
        (λ e h.
          ((Reads-read_varint_u32.at left).0, λ p. (Reads-read_varint_u32.at left).1 (cc (h, p))))
    where
      Q : Result DecodeError S → Bytes → Type 0
      Q r t = (length t ≤ length left) × (r ≢ err DecodeError.out_of_fuel)

      after :
          (tag : ℕ) (ends : Bool)
          → length (read_varint_u32 left).1 < length left
          → Q
              ((if ends then pure s else (body tag s >>= next)) (read_varint_u32 left).1).0
              ((if ends then pure s else (body tag s >>= next)) (read_varint_u32 left).1).1
      after tag true h = (omega (arith, h), λ p. cc)
      after tag false h =
          bind_rule Q (body tag s) next (read_varint_u32 left).1
            (λ t _.
              let shorter = ((reads tag s).at (read_varint_u32 left).1).0 in
              let (taken, runs) =
                later t (body tag s (read_varint_u32 left).1).1 (omega (arith, h, shorter)) in
              (omega (arith, h, shorter, taken), runs))
            (λ e g.
              let (shorter, runs) = (reads tag s).at (read_varint_u32 left).1 in
              (omega (arith, h, shorter), λ p. runs (cc (g, p))))

  loop_reads :
      (fuel : ℕ) (s : S) (left : Bytes)
      → length left ≤ fuel
      → (length (fields_loop body fuel s left).1 ≤ length left)
        × ((fields_loop body fuel s left).0 ≢ err DecodeError.out_of_fuel)
  unfolding fields_loop
  loop_reads fuel s [] h = (omega arith, λ p. cc)
  loop_reads zero s (b ∷ left) h = absurd (omega arith)
  loop_reads (suc fuel) s (b ∷ left) h =
      round_reads (fields_loop body fuel) s (b ∷ left)
        (λ t rest shorter. loop_reads fuel t rest (omega (arith, h, shorter)))

  -- A loop that is given a round for each byte reads any input to its end, or to an error.
  pub Reads-decode_fields : (s : S) → Reads (decode_fields body s)
  unfolding decode_fields
  Reads-decode_fields s = record { at = λ left. loop_reads (length left) s left (omega arith) }

  round_same :
      (next other : S → Read S) (s : S) (left : Bytes)
      → ((t : S) (rest : Bytes) → length rest < length left → next t rest ≡ other t rest)
      → round body next s left ≡ round body other s left
  unfolding round
  round_same next other s left same =
      bind_ext read_varint_u32 _ _ left
        (λ tag e. after tag (tag == 0) (read_varint_u32_takes left tag e))
    where
      after :
          (tag : ℕ) (ends : Bool)
          → length (read_varint_u32 left).1 < length left
          → (if ends then pure s else (body tag s >>= next)) (read_varint_u32 left).1
            ≡ (if ends then pure s else (body tag s >>= other)) (read_varint_u32 left).1
      after tag true h = refl
      after tag false h =
          bind_ext (body tag s) next other (read_varint_u32 left).1
            (λ t _. same t _ (omega (arith, h, ((reads tag s).at (read_varint_u32 left).1).0)))

  enough_fuel :
      (fuel more : ℕ) (s : S) (left : Bytes)
      → length left ≤ fuel
      → length left ≤ more
      → fields_loop body fuel s left ≡ fields_loop body more s left
  unfolding fields_loop
  enough_fuel fuel more s [] p q = refl
  enough_fuel zero more s (b ∷ left) p q = absurd (omega arith)
  enough_fuel (suc fuel) zero s (b ∷ left) p q = absurd (omega arith)
  enough_fuel (suc fuel) (suc more) s (b ∷ left) p q =
      round_same (fields_loop body fuel) (fields_loop body more) s (b ∷ left) (λ t rest shorter.
        enough_fuel fuel more t rest (omega (arith, p, shorter)) (omega (arith, q, shorter)))

  -- The loop with one round for each byte is the loop of the source: on an input that is not empty
  -- it reads a field, and then goes on as the whole loop does on what is left.
  pub decode_fields-round :
      (s : S) (b : ℕ) (left : Bytes)
      → decode_fields body s (b ∷ left) ≡ round body (decode_fields body) s (b ∷ left)
  unfolding decode_fields fields_loop
  decode_fields-round s b left =
      round_same (fields_loop body (length left)) (decode_fields body) s (b ∷ left)
        (λ t rest shorter.
          enough_fuel (length left) (length rest) t rest (omega (arith, shorter)) (omega arith))

read_tag : (tag : ℕ) (left : Bytes) → tag < 128 → read_varint_u32 (tag ∷ left) ≡ (ok tag, left)
unfolding read_varint_u32
read_tag tag left h =
    last_round 32 4 0 0 tag left h (omega arith) (omega arith)
    ∙ ap (λ (n : ℕ). (ok n, left)) (omega arith)

module _ {S : Type 0} (body : ℕ → S → Read S) (reads : (tag : ℕ) (s : S) → Reads (body tag s)) where
  -- A field whose body reads all of it is one round of the loop.
  pub decode_fields-field :
      (tag : ℕ) (s t : S) (left rest : Bytes)
      → 0 < tag
      → tag < 128
      → body tag s left ≡ (ok t, rest)
      → decode_fields body s (tag ∷ left) ≡ decode_fields body t rest
  unfolding round
  decode_fields-field tag s t left rest some_tag small e =
      decode_fields-round body reads s tag left ∙ rw (read_tag tag left small) (ground (arith, e))
