-- ===== src/ProxyHeader.antt =====
-- hydra/services/subscriptions/proxy_protocol.py: the header of the PROXY protocol, version 2, in front
-- of a connection.
pub mod Loop
pub mod Read
pub mod Encoded
mod Tests
use hydra_ultimate.Base.{
  ℕ, zero, suc, ◌+◌, ◌-◌, ◌*◌, String, Bool, true, false, not, ◌&&◌, ◌||◌, Option, none, some, List,
  [], ◌∷◌, ◌++◌, ◌==◌, ltb, if◌then◌else◌, length, take, drop, Result, ok, err, Exception,
  other_error,
}

abbrev pub Bytes : Type 0
Bytes = List ℕ

-- What comes over a socket: at least one byte at once, or an `OSError`.
pub data Arrival : Type 0 where
  bytes : ℕ → Bytes → Arrival
  broken : String → Arrival

-- At the end of the list the other side has closed the connection.
abbrev pub Connection : Type 0
Connection = List Arrival

-- The bytes that come before the end or the error.
abbrev pub stream : Connection → Bytes
stream [] = []
stream (bytes b bs ∷ connection) = (b ∷ bs) ++ stream connection
stream (broken e ∷ connection) = []

abbrev push : Bytes → Connection → Connection
push [] connection = connection
push (b ∷ bs) connection = bytes b bs ∷ connection

-- `connection.recv(n)`
abbrev pub recv : ℕ → Connection → Result Bytes × Connection
recv n [] = (ok [], [])
recv n (bytes b bs ∷ connection) = (ok (take n (b ∷ bs)), push (drop n (b ∷ bs)) connection)
recv n (broken e ∷ connection) = (err (other_error "OSError" e), connection)

-- `SIGNATURE`
abbrev pub signature : Bytes
signature = 13 ∷ 10 ∷ 13 ∷ 10 ∷ 0 ∷ 13 ∷ 10 ∷ 81 ∷ 85 ∷ 73 ∷ 84 ∷ 10 ∷ []

-- `whole.startswith(prefix)`
abbrev pub starts_with_bytes : Bytes → Bytes → Bool
starts_with_bytes whole [] = true
starts_with_bytes [] (p ∷ prefix) = false
starts_with_bytes (w ∷ whole) (p ∷ prefix) = w == p && starts_with_bytes whole prefix

abbrev looks_like : Result Bytes → Bool
looks_like (ok []) = false
looks_like (ok (b ∷ bs)) = starts_with_bytes signature (b ∷ bs)
looks_like (err e) = false

-- The bytes that `MSG_PEEK` shows stay where they are.
unfoldable pub looks_like_proxy_header : Connection → Bool
looks_like_proxy_header connection = looks_like (recv (length signature) connection).0

-- What a read gives and leaves; nothing, when its loop has not ended.
abbrev pub Reading : Type 0 → Type 0
Reading A = Option (Result A × Connection)

-- The loop of `_read_exactly`, which goes round at most as often as `fuel` says.
unfoldable pub read_loop : ℕ → ℕ → Bytes → Connection → Reading Bytes
read_loop fuel zero chunks connection = some (ok chunks, connection)
read_loop zero (suc n) chunks connection = none
read_loop (suc fuel) (suc n) chunks connection =
    let (received, rest) = recv (suc n) connection in
    elim received [
      | ok chunk ↦ elim chunk [
        | [] ↦ some (err (other_error "OSError" "truncated PROXY header"), rest)
        | b ∷ bs ↦ read_loop fuel (suc n - length (b ∷ bs)) (chunks ++ (b ∷ bs)) rest
      ]
      | err e ↦ some (err e, rest)
    ]

-- `_read_exactly`; each round takes a byte at least.
unfoldable pub read_exactly : Connection → ℕ → Reading Bytes
unfolding read_loop
read_exactly connection count = read_loop count count [] connection

-- `content[i]` of bytes that are long enough
abbrev pub byte_at : ℕ → Bytes → ℕ
byte_at i [] = 0
byte_at zero (b ∷ bs) = b
byte_at (suc i) (b ∷ bs) = byte_at i bs

-- `struct.unpack("!H", content[i:i + 2])[0]`
abbrev pub unpack_short : ℕ → Bytes → ℕ
unpack_short i content = byte_at i content * 256 + byte_at (suc i) content

pub data Family : Type 0 where
  inet inet6 : Family

-- `_ADDRESS_SIZES.get(family)`, with the family
abbrev family_of : ℕ → Option (Family × ℕ)
family_of code =
    if code == 0x11 then some (inet, 12) else if code == 0x21 then some (inet6, 36) else none

-- `ntop` is `socket.inet_ntop`.
module _ (ntop : Family → Bytes → String) where
  abbrev pub source_in : Family → Bytes → String × ℕ
  source_in inet payload = (ntop inet (take 4 payload), unpack_short 8 payload)
  source_in inet6 payload = (ntop inet6 (take 16 payload), unpack_short 32 payload)

  abbrev sized : Bytes → Option (Family × ℕ) → Option (String × ℕ)
  sized payload none = none
  sized payload (some (family, size)) =
      if ltb (length payload) size then none else some (source_in family payload)

  -- What is returned once the header and the payload have been read.
  unfoldable pub addressed : Bytes → Bytes → Option (String × ℕ)
  addressed header payload =
      if byte_at 12 header == 0x21 then sized payload (family_of (byte_at 13 header)) else none

  abbrev pub after_payload : Bytes → Reading Bytes → Reading (Option (String × ℕ))
  after_payload header none = none
  after_payload header (some (ok payload, rest)) = some (ok (addressed header payload), rest)
  after_payload header (some (err e, rest)) = some (err e, rest)

  -- No payload is read when its length is 0.
  abbrev pub after_header : Reading Bytes → Reading (Option (String × ℕ))
  after_header none = none
  after_header (some (ok header, rest)) =
      let size = unpack_short 14 header in
      after_payload header (if size == 0 then some (ok [], rest) else read_exactly rest size)
  after_header (some (err e, rest)) = some (err e, rest)

  unfoldable pub read_source_address : Connection → Reading (Option (String × ℕ))
  unfolding looks_like_proxy_header read_exactly addressed
  read_source_address connection =
      if looks_like_proxy_header connection
      then after_header (read_exactly connection 16)
      else some (ok none, connection)
