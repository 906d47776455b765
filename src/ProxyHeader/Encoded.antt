-- ===== src/ProxyHeader/Encoded.antt =====
-- `read_source_address` of hydra/services/subscriptions/proxy_protocol.py against the description of the
-- header in the PROXY protocol.
use hydra_ultimate.Base.{
  ℕ, zero, suc, ◌+◌, ◌*◌, ◌/◌, ◌%◌, String, ◌≡◌, refl, sym, ap, ◌∙◌, inl, inr, true, Option, some,
  [], ◌∷◌, ◌++◌, ltb, from_false, if_cases, ltb→lt, arith, length, take, drop, length-append,
  append_assoc, ok,
}
use hydra_ultimate.ProxyHeader.{
  Bytes, Connection, bytes, broken, stream, Family, inet, inet6, signature, starts_with_bytes,
  unpack_short, byte_at, source_in, addressed, read_source_address, looks_like_proxy_header,
}
use hydra_ultimate.ProxyHeader.Read.{size_in, read_source_address-Ends}

-- A 16-bit number in network order.
abbrev short : ℕ → Bytes
short n = n / 256 ∷ n % 256 ∷ []

-- The size of an address, and the code of TCP over it.
abbrev pub width : Family → ℕ
width inet = 4
width inet6 = 16

abbrev code : Family → ℕ
code inet = 0x11
code inet6 = 0x21

-- The addresses of both ends, their ports and what else the sender tells.
abbrev payload : Bytes → Bytes → ℕ → ℕ → Bytes → Bytes
payload source target port target_port more =
    source ++ (target ++ (short port ++ (short target_port ++ more)))

-- The header of a connection that is passed on.
abbrev pub encoded : Family → Bytes → Bytes
encoded family content = signature ++ (0x21 ∷ code family ∷ (short (length content) ++ content))

abbrev pub header_of : Family → Bytes → Bytes → ℕ → ℕ → Bytes → Bytes
header_of family source target port target_port more =
    encoded family (payload source target port target_port more)

take-length : (bs s : Bytes) → take (length bs) (bs ++ s) ≡ bs
take-length [] s = refl
take-length (b ∷ bs) s = ap (λ r. b ∷ r) (take-length bs s)

-- The same, of a list whose length is known.
taken : (n : ℕ) (bs s : Bytes) → length bs ≡ n → take n (bs ++ s) ≡ bs
taken n bs s h = rw h at (take-length bs s)

drop-length : (bs s : Bytes) → drop (length bs) (bs ++ s) ≡ s
drop-length [] s = refl
drop-length (b ∷ bs) s = drop-length bs s

dropped : (n : ℕ) (bs s : Bytes) → length bs ≡ n → drop n (bs ++ s) ≡ s
dropped n bs s h = rw h at (drop-length bs s)

byte_at-length : (bs s : Bytes) → byte_at (length bs) (bs ++ s) ≡ byte_at 0 s
byte_at-length [] s = refl
byte_at-length (b ∷ bs) s = byte_at-length bs s

byte_at-suc-length : (bs s : Bytes) → byte_at (suc (length bs)) (bs ++ s) ≡ byte_at 1 s
byte_at-suc-length [] s = refl
byte_at-suc-length (b ∷ bs) s = byte_at-suc-length bs s

-- What lies behind the addresses is found there.
unpack_short-append :
    (n : ℕ) (bs s : Bytes) (port : ℕ)
    → length bs ≡ n
    → unpack_short n (bs ++ (short port ++ s)) ≡ port
unpack_short-append n bs s port h = omega (
  arith,
  rw h at (byte_at-length bs (short port ++ s)),
  rw h at (byte_at-suc-length bs (short port ++ s)),
)

-- A piece of what begins with the signature.
starts_with_bytes-take :
    (n : ℕ) (bs s : Bytes) → starts_with_bytes (take n (bs ++ s)) (take n bs) ≡ true
starts_with_bytes-take zero bs s = refl
starts_with_bytes-take (suc n) [] s = refl
starts_with_bytes-take (suc n) (b ∷ bs) s = ground (arith, starts_with_bytes-take n bs s)

unpack_short-payload :
    (n : ℕ) (source target : Bytes) (port target_port : ℕ) (more : Bytes)
    → length source + length target ≡ n
    → unpack_short n (payload source target port target_port more) ≡ port
unpack_short-payload n source target port target_port more h =
    ap (unpack_short n)
      (sym (append_assoc source target (short port ++ (short target_port ++ more))))
    ∙ unpack_short-append n (source ++ target) (short target_port ++ more) port
        (length-append source target ∙ h)

length-payload :
    (source target : Bytes) (port target_port : ℕ) (more : Bytes)
    → length (payload source target port target_port more)
      ≡ length source + (length target + (4 + length more))
length-payload source target port target_port more = omega (
  arith,
  length-append source (target ++ (short port ++ (short target_port ++ more))),
  length-append target (short port ++ (short target_port ++ more)),
)

module _ (ntop : Family → Bytes → String) where
  source_in-payload :
      (family : Family) (source target : Bytes) (port target_port : ℕ) (more : Bytes)
      → length source ≡ width family
      → length target ≡ width family
      → source_in ntop family (payload source target port target_port more)
        ≡ (ntop family source, port)
  source_in-payload inet source target port target_port more h k =
      ap (λ p. (ntop inet (take 4 (payload source target port target_port more)), p))
        (unpack_short-payload 8 source target port target_port more (omega arith))
      ∙ ap (λ s. (ntop inet s, port)) (taken 4 source _ h)
  source_in-payload inet6 source target port target_port more h k =
      ap (λ p. (ntop inet6 (take 16 (payload source target port target_port more)), p))
        (unpack_short-payload 32 source target port target_port more (omega arith))
      ∙ ap (λ s. (ntop inet6 s, port)) (taken 16 source _ h)

  addressed-payload :
      (family : Family) (source target : Bytes) (port target_port : ℕ) (more tail : Bytes)
      → length source ≡ width family
      → length target ≡ width family
      → addressed ntop
          (take 16 (header_of family source target port target_port more ++ tail))
          (payload source target port target_port more)
        ≡ some (ntop family source, port)
  unfolding addressed
  addressed-payload inet source target port target_port more tail h k =
      if_cases (λ (r : Option (String × ℕ)). r ≡ some (ntop inet source, port))
        (ltb (length (payload source target port target_port more)) 12) _ _
        (λ small. absurd (
          omega
            (arith, ltb→lt _ _ small, h, k, length-payload source target port target_port more)))
        (λ large. ap some (source_in-payload inet source target port target_port more h k))
  addressed-payload inet6 source target port target_port more tail h k =
      if_cases (λ (r : Option (String × ℕ)). r ≡ some (ntop inet6 source, port))
        (ltb (length (payload source target port target_port more)) 36) _ _
        (λ small. absurd (
          omega
            (arith, ltb→lt _ _ small, h, k, length-payload source target port target_port more)))
        (λ large. ap some (source_in-payload inet6 source target port target_port more h k))

-- The first piece shows the signature, or a part of it.
looks_like-signature :
    (connection : Connection) (more : Bytes)
    → stream connection ≡ signature ++ more
    → looks_like_proxy_header connection ≡ true
unfolding looks_like_proxy_header
looks_like-signature [] more e = absurd (omega (arith, ap length e))
looks_like-signature (broken x ∷ connection) more e = absurd (omega (arith, ap length e))
looks_like-signature (bytes b bs ∷ connection) more e =
    ap (λ s. starts_with_bytes s (take 12 (b ∷ bs))) (sym (ap (take 12) e))
    ∙ starts_with_bytes-take 12 (b ∷ bs) (stream connection)

-- A header that is written as the protocol describes it, for TCP over either family, with anything the
-- sender adds, is read back, however the bytes come in pieces: the answer is the address and the port of
-- the source, and what follows on the header is left on the connection.
pub read_source_address-encoded :
    (ntop : Family → Bytes → String) (family : Family) (source target : Bytes)
    (port target_port : ℕ) (more tail : Bytes) (connection : Connection)
    → length source ≡ width family
    → length target ≡ width family
    → stream connection ≡ header_of family source target port target_port more ++ tail
    → (rest : Connection) × (read_source_address ntop connection
        ≡ some (ok (some (ntop family source, port)), rest))
      × (stream rest ≡ tail)
read_source_address-encoded ntop family source target port target_port more tail connection h k e =
    elim (read_source_address-Ends ntop connection) [
      | inl (other, answer) ↦ from_false (sym other ∙ looks_like-signature connection _ e)
      | inr (header, inr (early, failure)) ↦
          absurd (omega (arith, early, size, ap length e, length-append content tail))
      | inr (header, inl (long, (rest, reads, leaves))) ↦ (
        rest,
        reads ∙ ap (λ a. some (ok a, rest)) address,
        leaves ∙ ap (λ s. drop announced (drop 16 s)) e ∙ dropped announced content tail (sym size),
      )
    ]
  where
    content : Bytes
    content = payload source target port target_port more

    announced : ℕ
    announced = size_in ntop (stream connection)

    split : (n : ℕ) → n / 256 * 256 + n % 256 ≡ n
    split n = omega arith

    size : announced ≡ length content
    size = ap (λ s. unpack_short 14 (take 16 s)) e ∙ split (length content)

    address :
        addressed ntop (take 16 (stream connection)) (take announced (drop 16 (stream connection)))
        ≡ some (ntop family source, port)
    address =
        ap (λ s. addressed ntop (take 16 s) (take announced (drop 16 s))) e
        ∙ ap (addressed ntop (take 16 (encoded family content ++ tail)))
            (taken announced content tail (sym size))
        ∙ addressed-payload ntop family source target port target_port more tail h k
