-- ===== src/ProxyHeader/Loop.antt =====
-- `_read_exactly` of hydra/services/subscriptions/proxy_protocol.py: it ends, with the first bytes of
-- the stream or with an error.
use hydra_ultimate.Base.{
  ℕ, zero, suc, ◌+◌, ◌-◌, ◌≤◌, ◌<◌, ◌≡◌, refl, sym, ap, ◌∙◌, some, [], ◌∷◌, ◌++◌, arith, length,
  take, drop, append_nil, append_assoc, ok, err, Exception,
}
use native.Mathlib.Numerals.{unary_clauses}
use hydra_ultimate.ProxyHeader.{Bytes, Connection, bytes, broken, stream, push, Reading, read_loop}

-- What is taken of a stream, in two parts, and what is left of it.
take-append :
    (n : ℕ) (bs s : Bytes)
    → take n (bs ++ s) ≡ take n bs ++ take (n - length (take n bs)) (drop n bs ++ s)
take-append zero bs s = refl
take-append (suc n) [] s = simp unary_clauses refl
take-append (suc n) (b ∷ bs) s = simp unary_clauses (ap (λ r. b ∷ r) (take-append n bs s))

drop-append :
    (n : ℕ) (bs s : Bytes) → drop n (bs ++ s) ≡ drop (n - length (take n bs)) (drop n bs ++ s)
drop-append zero bs s = refl
drop-append (suc n) [] s = simp unary_clauses refl
drop-append (suc n) (b ∷ bs) s = simp unary_clauses (drop-append n bs s)

length-rest :
    (n : ℕ) (bs s : Bytes) → length (drop n bs ++ s) + length (take n bs) ≡ length (bs ++ s)
length-rest zero bs s = omega arith
length-rest (suc n) [] s = omega arith
length-rest (suc n) (b ∷ bs) s = omega (arith, length-rest n bs s)

stream-push :
    (bs : Bytes) (connection : Connection) → stream (push bs connection) ≡ bs ++ stream connection
stream-push [] connection = refl
stream-push (b ∷ bs) connection = refl

-- The bytes before `n` are read, those after it are left.
abbrev pub Took : Bytes → ℕ → Bytes → Reading Bytes → Type 0
Took chunks n content reading =
    (rest : Connection) × (reading ≡ some (ok (chunks ++ take n content), rest))
    × (stream rest ≡ drop n content)

abbrev pub Failed : {A : Type 0} → Reading A → Type 0
Failed reading = (e : Exception) × (rest : Connection) × (reading ≡ some (err e, rest))

pub read_loop-Took :
    (fuel n : ℕ) (chunks : Bytes) (connection : Connection)
    → n ≤ fuel
    → n ≤ length (stream connection)
    → Took chunks n (stream connection) (read_loop fuel n chunks connection)
unfolding read_loop
read_loop-Took fuel zero chunks connection enough long =
    (connection, ap (λ c. some (ok c, connection)) (sym (append_nil chunks)), refl)
read_loop-Took zero (suc n) chunks connection enough long = absurd (omega arith)
read_loop-Took (suc fuel) (suc n) chunks [] enough long = absurd (omega arith)
read_loop-Took (suc fuel) (suc n) chunks (broken e ∷ connection) enough long = absurd (omega arith)
read_loop-Took (suc fuel) (suc n) chunks (bytes b bs ∷ connection) enough long =
    let m = suc n - length (take (suc n) (b ∷ bs)) in
    let left = drop n bs ++ stream connection in
    let pushed : stream (push (drop n bs) connection) ≡ left = stream-push (drop n bs) connection in
    let (rest, reads, leaves) =
      read_loop-Took fuel m (chunks ++ (b ∷ take n bs)) (push (drop n bs) connection) (omega arith)
        (omega (arith, ap length pushed, length-rest n bs (stream connection), long)) in
    (
      rest,
      reads
          ∙ ap (λ c. some (ok c, rest))
              (append_assoc chunks (b ∷ take n bs) _
                ∙ ap (λ r. chunks ++ r)
                    (ap (λ r. (b ∷ take n bs) ++ take m r) pushed
                      ∙ sym (take-append (suc n) (b ∷ bs) (stream connection)))),
      leaves ∙ ap (drop m) pushed ∙ sym (drop-append (suc n) (b ∷ bs) (stream connection)),
    )

pub read_loop-Failed :
    (fuel n : ℕ) (chunks : Bytes) (connection : Connection)
    → n ≤ fuel
    → length (stream connection) < n
    → Failed (read_loop fuel n chunks connection)
unfolding read_loop
read_loop-Failed fuel zero chunks connection enough short = absurd (omega arith)
read_loop-Failed zero (suc n) chunks connection enough short = absurd (omega arith)
read_loop-Failed (suc fuel) (suc n) chunks [] enough short = (_, _, refl)
read_loop-Failed (suc fuel) (suc n) chunks (broken e ∷ connection) enough short = (_, _, refl)
read_loop-Failed (suc fuel) (suc n) chunks (bytes b bs ∷ connection) enough short =
    let pushed : stream (push (drop n bs) connection) ≡ drop n bs ++ stream connection =
      stream-push (drop n bs) connection in
    read_loop-Failed fuel (suc n - length (take (suc n) (b ∷ bs))) (chunks ++ (b ∷ take n bs))
      (push (drop n bs) connection) (omega arith)
      (omega (arith, ap length pushed, length-rest n bs (stream connection), short))
