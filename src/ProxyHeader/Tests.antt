-- ===== src/ProxyHeader/Tests.antt =====
-- A header that comes in three pieces, and connections without one.
use hydra_ultimate.Base.{String, ◌≡◌, refl, none, some, [], ◌∷◌, ok, err, other_error}
use hydra_ultimate.ProxyHeader.{Bytes, Connection, Family, inet, bytes, stream, read_source_address}
use hydra_ultimate.ProxyHeader.Read.{Ends, read_source_address-Ends}
use hydra_ultimate.ProxyHeader.Encoded.{read_source_address-encoded}

abbrev ntop : Family → Bytes → String
ntop family content = "203.0.113.9"

abbrev in_pieces : Connection
in_pieces =
    bytes 13 (10 ∷ 13 ∷ [])
    ∷ bytes 10 (0 ∷ 13 ∷ 10 ∷ 81 ∷ 85 ∷ 73 ∷ 84 ∷ 10 ∷ 33 ∷ 17 ∷ 0 ∷ 12 ∷ 203 ∷ 0 ∷ [])
    ∷ bytes 113 (9 ∷ 10 ∷ 0 ∷ 0 ∷ 1 ∷ 195 ∷ 80 ∷ 1 ∷ 187 ∷ 71 ∷ 69 ∷ 84 ∷ [])
    ∷ []

in_pieces_is_read :
    read_source_address ntop in_pieces
    ≡ some (ok (some ("203.0.113.9", 50000)), bytes 71 (69 ∷ 84 ∷ []) ∷ [])
unfolding read_source_address
in_pieces_is_read = refl

request_is_left :
    read_source_address ntop (bytes 71 (69 ∷ 84 ∷ []) ∷ [])
    ≡ some (ok none, bytes 71 (69 ∷ 84 ∷ []) ∷ [])
unfolding read_source_address
request_is_left = refl

-- A first piece that only begins like the signature is waited on.
cut_is_refused :
    read_source_address ntop (bytes 13 (10 ∷ []) ∷ [])
    ≡ some (err (other_error "OSError" "truncated PROXY header"), [])
unfolding read_source_address
cut_is_refused = refl

read_source_address-encoded_example :
    (rest : Connection) × (read_source_address ntop in_pieces
      ≡ some (ok (some (ntop inet (203 ∷ 0 ∷ 113 ∷ 9 ∷ []), 50000)), rest))
    × (stream rest ≡ 71 ∷ 69 ∷ 84 ∷ [])
read_source_address-encoded_example =
    read_source_address-encoded ntop inet (203 ∷ 0 ∷ 113 ∷ 9 ∷ []) (10 ∷ 0 ∷ 0 ∷ 1 ∷ []) 50000 443
      [] (71 ∷ 69 ∷ 84 ∷ []) in_pieces refl refl refl

read_source_address-Ends_example : Ends ntop in_pieces
read_source_address-Ends_example = read_source_address-Ends ntop in_pieces
