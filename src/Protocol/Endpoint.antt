-- ===== src/Protocol/Endpoint.antt =====
-- internal/protocol/endpoint.go: an endpoint in twenty bytes. net/netip reads and prints the texts, so
-- an endpoint is here an address of net/netip, by its bytes and its zone, with a port.
pub mod Laws
mod Tests
use sing_box_inbound_bench.Base.{
  ℕ, List, [], ◌∷◌, ◌++◌, Bool, not, ◌==◌, if◌then◌else◌, length, take, drop, replicate, String,
}
use sing_box_inbound_bench.Wire.{Result, ok, err, refused}
use sing_box_inbound_bench.Wire.BigEndian.{put16, byte_at, u16_at}
use sing_box_inbound_bench.Text.{has_prefix}

pub data Ip : Type 0 where
  no_ip : Ip
  ip4 : List ℕ → Ip
  ip6 : List ℕ → String → Ip

pub record Endpoint : Type 0 where
  pub ip : Ip
  pub port : ℕ

-- The first twelve bytes of an IPv4 address in IPv6.
abbrev pub mapped_prefix : List ℕ
mapped_prefix = replicate 10 0 ++ (255 ∷ 255 ∷ [])

-- `Unmap().WithZone("")`
unfoldable pub unmap : Ip → Ip
unmap no_ip = no_ip
unmap (ip4 a) = ip4 a
unmap (ip6 a zone) = if has_prefix a mapped_prefix then ip4 (drop 12 a) else ip6 a ""

-- The endpoint that CanonicalEndpoint prints, of the one that it has read.
abbrev pub canonical : Endpoint → Endpoint
canonical e = record { ip = unmap e.ip; port = e.port }

abbrev pub encoded_endpoint_size : ℕ
encoded_endpoint_size = 20

abbrev pub encode_ip : Ip → ℕ → Result (List ℕ)
encode_ip no_ip port = err (refused "unsupported endpoint address family")
encode_ip (ip4 a) port = ok (4 ∷ (replicate 13 0 ++ (a ++ put16 port [])))
encode_ip (ip6 a zone) port = ok (6 ∷ 0 ∷ (a ++ put16 port []))

unfoldable pub encode_endpoint : Endpoint → Result (List ℕ)
encode_endpoint e = encode_ip (unmap e.ip) e.port

unfoldable pub decode_endpoint : List ℕ → Result Endpoint
decode_endpoint encoded =
    let port = u16_at encoded 18 in
    if not (length encoded == encoded_endpoint_size)
    then err (refused "invalid encoded endpoint length")
    else if byte_at encoded 0 == 4
    then ok (record { ip = ip4 (take 4 (drop 14 encoded)); port = port })
    else if byte_at encoded 0 == 6
    then ok (record { ip = ip6 (take 16 (drop 2 encoded)) ""; port = port })
    else err (refused "invalid encoded endpoint family")
