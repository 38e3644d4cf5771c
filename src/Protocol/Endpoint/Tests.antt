-- ===== src/Protocol/Endpoint/Tests.antt =====
-- 192.0.2.1 as an IPv4 address mapped to IPv6, with a zone.
use sing_box_inbound_bench.Base.{ℕ, List, [], ◌∷◌, ◌++◌, length, ◌≡◌, refl, arith}
use sing_box_inbound_bench.Wire.{ok}
use sing_box_inbound_bench.Protocol.Endpoint.{
  ip6, Endpoint, mapped_prefix, canonical, encoded_endpoint_size, encode_endpoint, decode_endpoint,
}
use sing_box_inbound_bench.Protocol.Endpoint.Laws.{decode-encode_endpoint}

abbrev mapped : Endpoint
mapped = record { ip = ip6 (mapped_prefix ++ (192 ∷ 0 ∷ 2 ∷ 1 ∷ [])) "eth0"; port = 443 }

decode-encode_endpoint_example :
    (bytes : List ℕ) × (encode_endpoint mapped ≡ ok bytes)
    × (length bytes ≡ encoded_endpoint_size)
    × (decode_endpoint bytes ≡ ok (canonical mapped))
decode-encode_endpoint_example = decode-encode_endpoint mapped refl (omega arith)
