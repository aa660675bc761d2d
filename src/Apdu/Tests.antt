-- ===== src/Apdu/Tests.antt =====
-- CTAP1 frames, byte for byte.
use authenticator_rs.Common.{◌≡◌, refl, [], ◌∷◌, some, arith}
use authenticator_rs.Apdu.{serialize}
use authenticator_rs.Apdu.Frames.{parse_request, parse_request-serialize}

-- The test of the source with one byte of data.
serialize_test : serialize 1 2 (42 ∷ []) ≡ some (0 ∷ 1 ∷ 2 ∷ 0 ∷ 0 ∷ 0 ∷ 1 ∷ 42 ∷ 0 ∷ 0 ∷ [])
unfolding serialize
serialize_test = refl

parse_request-serialize_example :
    parse_request (serialize 1 2 (42 ∷ 43 ∷ [])) ≡ some (1, 2, 42 ∷ 43 ∷ [])
parse_request-serialize_example = parse_request-serialize 1 2 (42 ∷ 43 ∷ []) (omega arith)
