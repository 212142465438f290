-- ===== src/Dispatcher/Sniffer/Tests.antt =====
-- Sniffing a TLS connection to a host, and a silent one.
use v2node_pro.Prelude.{
  String, ◌≡◌, ◌≢◌, ◌⊎◌, refl, true, false, ◌&&◌, ◌||◌, not, none, some, [], ◌∷◌,
}
use v2node_pro.Prelude.Eq.{◌==◌, string_eq}
use v2node_pro.Dispatcher.Sniffer.{
  tcp, ProtocolSniffer, SniffResult, Sniffed, found, failed, match, error, no_clue, need_more_data,
  sniffing_timeout, sniff, new_sniffer, FakeDns,
}
use v2node_pro.Dispatcher.Sniffer.Content.{chunk, CachedReader, sniffer}
use v2node_pro.Dispatcher.Sniffer.Laws.{content_of, sniffer-content, sniff_lem}
use v2node_pro.Dispatcher.Sniffer.Override.{
  SniffingRequest, Target, Outbound, sniffed_outbound, sniffed_outbound_lem, is_excluded,
  protocol_of,
}

abbrev host : SniffResult
host = record {
  protocol = "tls";
  domain = "a.example";
  protocol_for_domain = none;
  original_protocol = none;
}

-- It has no clue before the byte 22.
abbrev tls_sniffer : ProtocolSniffer
tls_sniffer = record {
  is_metadata = false;
  network = tcp;
  ask = λ payload. elim payload [
    | none ↦ error no_clue
    | some bytes ↦ elim bytes [ [] ↦ error no_clue | b ∷ bs ↦ match host ]
  ];
}

abbrev asking : ProtocolSniffer
asking = record { is_metadata = false; network = tcp; ask = λ payload. error need_more_data }

abbrev two_chunks : CachedReader
two_chunks = record { cache = []; source = chunk [] 1000 ∷ chunk (22 ∷ 3 ∷ []) 1000 ∷ [] }

abbrev silent : CachedReader
silent = record { cache = []; source = chunk [] 200000000 ∷ [] }

host_in_second_chunk :
    sniffer (λ n. none) tcp false (tls_sniffer ∷ []) two_chunks
    ≡ some (record { cache = 22 ∷ 3 ∷ []; source = [] }, found host)
unfolding sniffer
host_in_second_chunk = refl

silent_times_out :
    sniffer (λ n. none) tcp false (tls_sniffer ∷ []) silent
    ≡ some (record { cache = []; source = [] }, failed sniffing_timeout)
unfolding sniffer
silent_times_out = refl

sniffer-content_example :
    (r' : CachedReader) × (sniffed : Sniffed) × (sniffer
        (λ n. none)
        tcp
        false
        (tls_sniffer ∷ [])
        two_chunks
      ≡ some (r', sniffed))
    × (content_of r' ≡ content_of two_chunks)
sniffer-content_example = sniffer-content (λ n. none) tcp false (tls_sniffer ∷ []) two_chunks

abbrev fake : FakeDns
fake = record { domain = ""; in_pool = some true }

sniff_lem_example :
    ((sniff tcp (22 ∷ []) (asking ∷ [])).1 ≢ failed need_more_data)
    × ((sniff tcp (22 ∷ []) (new_sniffer (asking ∷ []) (some fake) true)).1
        ≡ (sniff tcp (22 ∷ []) (asking ∷ [])).1)
sniff_lem_example = sniff_lem tcp (22 ∷ []) (asking ∷ []) (some fake) true refl

abbrev request : SniffingRequest
request = record {
  exclude_for_domain = "b.example" ∷ "regexp:" ∷ [];
  override_destination_for_protocol = "http" ∷ "tls" ∷ [];
  route_only = false;
}

abbrev direct : Outbound String
direct = record {
  original_target = record { address = "10.0.0.1"; is_ip = true; in_pool = false };
  target = record { address = "10.0.0.1"; is_ip = true; in_pool = false };
  route_target = none;
}

abbrev parse : String → Target String
parse s = record { address = s; is_ip = false; in_pool = false }

tls_changes_target :
    (sniffed_outbound parse (λ p. none) (some host) request direct).target ≡ parse "a.example"
unfolding sniffed_outbound
tls_changes_target = refl

sniffed_outbound_lem_example :
    ((sniffed_outbound parse (λ p. none) (some host) request direct).original_target
      ≡ direct.original_target)
    × ((sniffed_outbound parse (λ p. none) (some host) request direct ≡ direct)
        ⊎ ((sniffed_outbound parse (λ p. none) (some host) request direct
              ≡ record direct { target = parse host.domain })
            × ((host.domain == "") ≡ false)
            × (is_excluded (λ p. none) host.domain request.exclude_for_domain ≡ false)
            × ((not request.route_only
                  || protocol_of host == "fakedns"
                  || protocol_of host == "fakedns+others"
                  || (direct.target.is_ip && direct.target.in_pool))
                ≡ true))
        ⊎ ((sniffed_outbound parse (λ p. none) (some host) request direct
              ≡ record direct { route_target = some (parse host.domain) })
            × ((host.domain == "") ≡ false)
            × (is_excluded (λ p. none) host.domain request.exclude_for_domain ≡ false)
            × (request.route_only ≡ true)))
sniffed_outbound_lem_example = sniffed_outbound_lem parse (λ p. none) host request direct
