-- ===== src/ProxyHeader/Read.antt =====
-- `read_source_address` of hydra/services/subscriptions/proxy_protocol.py: it ends, and what it leaves.
use hydra_ultimate.Base.{
  ℕ, zero, suc, ◌+◌, ◌-◌, ◌≤◌, ◌<◌, String, ◌≡◌, refl, ap, ◌∙◌, ◌⊎◌, inl, inr, true, false, Option,
  none, some, [], ◌∷◌, ◌==◌, leb, if◌then◌else◌, if_cases, Bool-cases, arith, length, take, drop,
  ok,
}
use hydra_ultimate.ProxyHeader.{
  Bytes, Connection, stream, Reading, Family, read_exactly, unpack_short, addressed, after_payload,
  after_header, read_source_address, looks_like_proxy_header,
}
use hydra_ultimate.ProxyHeader.Loop.{Took, Failed, read_loop-Took, read_loop-Failed}

length-drop : (n : ℕ) (s : Bytes) → length (drop n s) ≡ length s - n
length-drop zero s = omega arith
length-drop (suc n) [] = omega arith
length-drop (suc n) (b ∷ s) = omega (arith, length-drop n s)

read_exactly-Took :
    (n : ℕ) (connection : Connection)
    → n ≤ length (stream connection)
    → Took [] n (stream connection) (read_exactly connection n)
unfolding read_exactly
read_exactly-Took n connection h = read_loop-Took n n [] connection (omega arith) h

read_exactly-Failed :
    (n : ℕ) (connection : Connection)
    → length (stream connection) < n
    → Failed (read_exactly connection n)
unfolding read_exactly
read_exactly-Failed n connection h = read_loop-Failed n n [] connection (omega arith) h

le_or_lt : (m n : ℕ) → (m ≤ n) ⊎ (n < m)
le_or_lt m n = elim (Bool-cases (leb m n)) [
  | inl h ↦ inl (ground arith)
  | inr h ↦ inr (ground arith)
]

zero_of : (n : ℕ) → (n == 0) ≡ true → n ≡ 0
zero_of n h = ground arith

module _ (ntop : Family → Bytes → String) where
  -- The address is that of the first bytes, and the others are left.
  abbrev pub Answered : Bytes → Bytes → ℕ → Reading (Option (String × ℕ)) → Type 0
  Answered header content size reading =
      (rest : Connection) × (reading ≡ some (ok (addressed ntop header (take size content)), rest))
      × (stream rest ≡ drop size content)

  abbrev payload_of : ℕ → Connection → Reading Bytes
  payload_of size connection =
      if size == 0 then some (ok [], connection) else read_exactly connection size

  payload-Answered :
      (header : Bytes) (size : ℕ) (connection : Connection)
      → size ≤ length (stream connection)
      → Answered header
          (stream connection)
          size
          (after_payload ntop header (payload_of size connection))
  payload-Answered header size connection h =
      if_cases
        (λ (r : Reading Bytes).
          Answered header (stream connection) size (after_payload ntop header r))
        (size == 0) _ _ (λ empty. rw (zero_of size empty) (connection, refl, refl))
        (λ full.
          let (rest, reads, leaves) = read_exactly-Took size connection h in
          (rest, ap (after_payload ntop header) reads, leaves))

  payload-Failed :
      (header : Bytes) (size : ℕ) (connection : Connection)
      → length (stream connection) < size
      → Failed (after_payload ntop header (payload_of size connection))
  payload-Failed header size connection h =
      if_cases (λ (r : Reading Bytes). Failed (after_payload ntop header r)) (size == 0) _ _
        (λ empty. absurd (omega (arith, h, zero_of size empty)))
        (λ full.
          let (e, rest, reads) = read_exactly-Failed size connection h in
          (e, rest, ap (after_payload ntop header) reads))

  abbrev pub size_in : Bytes → ℕ
  size_in content = unpack_short 14 (take 16 content)

  header-Answered :
      (connection : Connection)
      → let content = stream connection in
        16 + size_in content ≤ length content
        → Answered
            (take 16 content)
            (drop 16 content)
            (size_in content)
            (after_header ntop (read_exactly connection 16))
  header-Answered connection h =
      let (left, reads, leaves) = read_exactly-Took 16 connection (omega arith) in
      let (rest, answers, stays) =
        payload-Answered (take 16 (stream connection)) (size_in (stream connection)) left
          (omega (arith, h, ap length leaves, length-drop 16 (stream connection))) in
      (
        rest,
        ap (after_header ntop) reads
            ∙ answers
            ∙ ap
                (λ (content : Bytes). some (
                  ok (
                      addressed ntop (take 16 (stream connection))
                        (take (size_in (stream connection)) content)),
                  rest,
                ))
                leaves,
        stays ∙ ap (drop (size_in (stream connection))) leaves,
      )

  header-Failed :
      (connection : Connection)
      → let content = stream connection in
        length content < 16 + size_in content
        → Failed (after_header ntop (read_exactly connection 16))
  header-Failed connection h = elim (le_or_lt 16 (length (stream connection))) [
    | inl long ↦
        let (left, reads, leaves) = read_exactly-Took 16 connection long in
        let (e, rest, fails) =
          payload-Failed (take 16 (stream connection)) (size_in (stream connection)) left
            (omega (arith, h, long, ap length leaves, length-drop 16 (stream connection))) in
        (e, rest, ap (after_header ntop) reads ∙ fails)
    | inr short ↦
        let (e, rest, reads) = read_exactly-Failed 16 connection short in
        (e, rest, ap (after_header ntop) reads)
  ]

-- No header, a header with what it announces, or too few bytes.
abbrev pub Ends : (Family → Bytes → String) → Connection → Type 0
Ends ntop connection =
    let content = stream connection in
    let reading = read_source_address ntop connection in
    let size = size_in ntop content in
    ((looks_like_proxy_header connection ≡ false) × (reading ≡ some (ok none, connection)))
    ⊎ ((looks_like_proxy_header connection ≡ true)
        × (((16 + size ≤ length content)
              × Answered ntop (take 16 content) (drop 16 content) size reading)
            ⊎ ((length content < 16 + size) × Failed reading)))

-- The call ends, however the bytes come in pieces. With no header in sight it answers that there is no
-- address, and takes no byte. Else it takes the 16 bytes of the header and the bytes that the header
-- announces, and no other, and answers what `addressed` reads in them; or they do not all come, and it
-- raises.
pub read_source_address-Ends :
    (ntop : Family → Bytes → String) (connection : Connection) → Ends ntop connection
unfolding read_source_address
read_source_address-Ends ntop connection = elim (Bool-cases (looks_like_proxy_header connection)) [
  | inl header ↦ inr (
    header,
    elim (le_or_lt (16 + size_in ntop (stream connection)) (length (stream connection))) [
      | inl long ↦ inl (long, rw header (header-Answered ntop connection long))
      | inr short ↦ inr (short, rw header (header-Failed ntop connection short))
    ],
  )
  | inr other ↦ inl (other, rw other refl)
]
