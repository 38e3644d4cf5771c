-- ===== src/Protocol/Endpoint/Laws.antt =====
-- internal/protocol/endpoint.go: what is encoded is decoded as the canonical endpoint.
use sing_box_inbound_bench.Base.{
  ℕ, suc, ◌+◌, ◌^◌, ◌<◌, List, [], ◌∷◌, ◌++◌, Bool, true, false, if◌then◌else◌, if-false, not, ◌==◌,
  length, take, drop, get_or, replicate, length-append, length-drop, take-append, ◌≡◌, refl, ap,
  ◌∙◌, subst, arith,
}
use sing_box_inbound_bench.Wire.{ok}
use sing_box_inbound_bench.Wire.BigEndian.{put16, get16, got16_eq}
use sing_box_inbound_bench.Text.{has_prefix}
use sing_box_inbound_bench.Protocol.Endpoint.{
  Ip, no_ip, ip4, ip6, Endpoint, mapped_prefix, unmap, canonical, encode_ip, encode_endpoint,
  decode_endpoint, encoded_endpoint_size,
}

-- An address of net/netip has its family's number of bytes.
abbrev pub IsIp : Ip → Type 0
IsIp no_ip = ⊥
IsIp (ip4 a) = length a ≡ 4
IsIp (ip6 a zone) = length a ≡ 16

get_or-append : (xs ys : List ℕ) (i d : ℕ) → get_or (xs ++ ys) (length xs + i) d ≡ get_or ys i d
get_or-append [] ys i d = let e : 0 + i ≡ i = omega arith in ap (λ j. get_or ys j d) e
get_or-append (x ∷ xs) ys i d =
    let e : suc (length xs) + i ≡ suc (length xs + i) = omega arith in
    ap (λ j. get_or (x ∷ (xs ++ ys)) j d) e ∙ get_or-append xs ys i d

port_behind :
    (n : ℕ) (a : List ℕ) (port : ℕ)
    → length a ≡ n
    → port < 2 ^ 16
    → get16 (get_or (a ++ put16 port []) n 0) (get_or (a ++ put16 port []) (suc n) 0) ≡ port
port_behind n a port h small =
    (λ i.
      get16 (get_or (a ++ put16 port []) (first i) 0) (get_or (a ++ put16 port []) (second i) 0))
    ∙ (λ i. get16 (get_or-append a (put16 port []) 0 0 i) (get_or-append a (put16 port []) 1 0 i))
    ∙ got16_eq port small
  where
    first : n ≡ length a + 0
    first = omega arith

    second : suc n ≡ length a + 1
    second = omega arith

take-of_length : (n : ℕ) (a rest : List ℕ) → length a ≡ n → take n (a ++ rest) ≡ a
take-of_length n a rest h = subst (λ k. take k (a ++ rest) ≡ a) h (take-append a rest)

decode-encode_ip4 :
    (a : List ℕ) (port : ℕ)
    → length a ≡ 4
    → port < 2 ^ 16
    → decode_endpoint (4 ∷ (replicate 13 0 ++ (a ++ put16 port [])))
      ≡ ok (record { ip = ip4 a; port = port })
unfolding decode_endpoint
decode-encode_ip4 a port h small = if-false _ _ _ sized ∙ (λ i. ok (record {
  ip = ip4 (take-of_length 4 a (put16 port []) h i);
  port = port_behind 4 a port h small i;
}))
  where
    sized : not (length (4 ∷ (replicate 13 0 ++ (a ++ put16 port []))) == 20) ≡ false
    sized = ground (arith, length-append a (put16 port []))

decode-encode_ip6 :
    (a : List ℕ) (port : ℕ)
    → length a ≡ 16
    → port < 2 ^ 16
    → decode_endpoint (6 ∷ 0 ∷ (a ++ put16 port [])) ≡ ok (record { ip = ip6 a ""; port = port })
unfolding decode_endpoint
decode-encode_ip6 a port h small = if-false _ _ _ sized ∙ (λ i. ok (record {
  ip = ip6 (take-of_length 16 a (put16 port []) h i) "";
  port = port_behind 16 a port h small i;
}))
  where
    sized : not (length (6 ∷ 0 ∷ (a ++ put16 port [])) == 20) ≡ false
    sized = ground (arith, length-append a (put16 port []))

-- An endpoint that is encoded, and then decoded.
abbrev pub RoundTrip : Ip → ℕ → Type 0
RoundTrip ip port =
    (bytes : List ℕ) × (encode_ip ip port ≡ ok bytes)
    × (length bytes ≡ encoded_endpoint_size)
    × (decode_endpoint bytes ≡ ok (record { ip = ip; port = port }))

ip4-RoundTrip : (a : List ℕ) (port : ℕ) → length a ≡ 4 → port < 2 ^ 16 → RoundTrip (ip4 a) port
ip4-RoundTrip a port h small =
    (_, refl, omega (arith, length-append a (put16 port [])), decode-encode_ip4 a port h small)

ip6-RoundTrip : (a : List ℕ) (port : ℕ) → length a ≡ 16 → port < 2 ^ 16 → RoundTrip (ip6 a "") port
ip6-RoundTrip a port h small =
    (_, refl, omega (arith, length-append a (put16 port [])), decode-encode_ip6 a port h small)

unmap-RoundTrip : (ip : Ip) (port : ℕ) → IsIp ip → port < 2 ^ 16 → RoundTrip (unmap ip) port
unfolding unmap
unmap-RoundTrip no_ip port h small = absurd h
unmap-RoundTrip (ip4 a) port h small = ip4-RoundTrip a port h small
unmap-RoundTrip (ip6 a zone) port h small = go (has_prefix a mapped_prefix)
  where
    go : (b : Bool) → RoundTrip (if b then ip4 (drop 12 a) else ip6 a "") port
    go true = ip4-RoundTrip (drop 12 a) port (omega (arith, length-drop 12 a)) small
    go false = ip6-RoundTrip a port h small

-- Every endpoint of an IPv4 or IPv6 address is encoded in twenty bytes, and decoding them gives the
-- canonical endpoint: without its zone, and as IPv4 where the address is a mapped one.
pub decode-encode_endpoint :
    (e : Endpoint)
    → IsIp e.ip
    → e.port < 2 ^ 16
    → (bytes : List ℕ) × (encode_endpoint e ≡ ok bytes)
      × (length bytes ≡ encoded_endpoint_size)
      × (decode_endpoint bytes ≡ ok (canonical e))
unfolding encode_endpoint
decode-encode_endpoint e h small = unmap-RoundTrip e.ip e.port h small
