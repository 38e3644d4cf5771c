-- ===== src/Subject/Samples.antt =====
-- A worker with one socket, that the server saw under its own address or under that of a proxy.
use sing_box_inbound_bench.Base.{
  ◌==◌, true, [], ◌∷◌, String, str_eq, if◌then◌else◌, ◌≡◌, refl, sym, subst, ◌∙◌, inl, inr,
  Bool-cases, if-true, if-false,
}
use sing_box_inbound_bench.Base.Int.{pos}
use sing_box_inbound_bench.Protocol.Endpoint.{ip4, Endpoint, canonical, unmap}
use sing_box_inbound_bench.Subject.Evidence.{Externals, Laws, WarmupResult}
use sing_box_inbound_bench.Subject.Evidence.Checks.{right-right}

abbrev pub client : Endpoint
client = record { ip = ip4 (10 ∷ 0 ∷ 0 ∷ 2 ∷ []); port = 40000 }

abbrev pub proxy : Endpoint
proxy = record { ip = ip4 (10 ∷ 0 ∷ 0 ∷ 3 ∷ []); port = 50000 }

abbrev pub worker : String → WarmupResult
worker peer = record {
  identity = record { pid = pos 7; uid = 2000; cgroup_path = "/bench"; cgroup_verified = true };
  socket_paths =
      record { network = "tcp"; client_local = "10.0.0.2:40000"; server_observed_peer = peer } ∷ [];
}

abbrev pub printed : Endpoint → String
printed e = if e.port == 50000 then "10.0.0.3:50000" else "10.0.0.2:40000"

-- The text of the evidence is the endpoint that the server saw.
abbrev pub library : Externals
library = record {
  decode_result = λ text. inr (worker text);
  parse_addr_port = λ text. if str_eq text "10.0.0.3:50000" then inr proxy else inr client;
  addr_port_text = printed;
  addr_text = λ ip. "";
  clean = λ path. path;
}

pub reads_canonical :
    (text : String) (e : Endpoint)
    → library.parse_addr_port text ≡ inr e
    → library.parse_addr_port (printed (canonical e)) ≡ inr (canonical e)
unfolding unmap
reads_canonical text e h = elim (Bool-cases (str_eq text "10.0.0.3:50000")) [
  | inl t ↦ subst Reads (right-right (sym (if-true _ _ _ t) ∙ h)) refl
  | inr f ↦ subst Reads (right-right (sym (if-false _ _ _ f) ∙ h)) refl
]
  where
    Reads : Endpoint → Type 0
    Reads x = library.parse_addr_port (printed (canonical x)) ≡ inr (canonical x)

abbrev pub library-Laws : Laws library
library-Laws = record { reads_back = reads_canonical }
