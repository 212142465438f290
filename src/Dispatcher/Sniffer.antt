-- ===== src/Dispatcher/Sniffer.antt =====
-- core/app/dispatcher/sniffer.go, core/app/dispatcher/fakednssniffer.go, and the `sniffer` function
-- and the cachedReader of core/app/dispatcher/default.go: finding out what a connection is for.
-- The protocol sniffers themselves are Xray's and are parameters: functions from the first bytes.
pub mod Content
pub mod Override
pub mod Laws
pub mod Tests
use v2node_pro.Prelude.{
  ℕ, String, Bool, true, false, ◌||◌, ◌&&◌, not, Option, none, some, List, [], ◌∷◌, ◌++◌,
  if◌then◌else◌,
}
use v2node_pro.Prelude.Eq.{◌==◌, string_eq}

pub data Network : Type 0 where
  unknown : Network
  tcp : Network
  udp : Network

abbrev pub same_network : Network → Network → Bool
same_network unknown unknown = true
same_network tcp tcp = true
same_network udp udp = true
same_network a b = false

-- SniffResult, and what a result of it may have besides: ProtocolForDomainResult, of a composite
-- result, and the original protocol, of a DNSThenOthersSniffResult
pub record SniffResult : Type 0 where
  pub protocol : String
  pub domain : String
  pub protocol_for_domain : Option String
  pub original_protocol : Option String

-- common.ErrNoClue, protocol.ErrProtoNeedMoreData, errUnknownContent, errSniffingTimeout, others
pub data SniffError : Type 0 where
  no_clue : SniffError
  need_more_data : SniffError
  unknown_content : SniffError
  sniffing_timeout : SniffError
  other_error : String → SniffError

pub data Sniffed : Type 0 where
  found : SniffResult → Sniffed
  failed : SniffError → Sniffed
  panicked : Sniffed

-- How a loop over the sniffers ends before its last one.
pub data Ending : Type 0 where
  matched : SniffResult → Ending
  crashed : Ending

-- What a protocol sniffer returns, if it does not panic; `nothing` is a nil result with a nil error.
pub data Answer : Type 0 where
  match : SniffResult → Answer
  nothing : Answer
  error : SniffError → Answer
  panics : Answer

-- A sniffer reads the payload, which is nil for the metadata.
pub record ProtocolSniffer : Type 0 where
  pub is_metadata : Bool
  pub network : Network
  pub ask : Option (List ℕ) → Answer

-- What both loops do with an answer: a result ends the loop, a sniffer without a clue stays pending,
-- and any other is dropped.
unfoldable pub after_answer :
    Answer
    → List ProtocolSniffer
    → (waiting others : Option Ending × List ProtocolSniffer) → Option Ending × List ProtocolSniffer
after_answer (match result) pending waiting others = (some (matched result), pending)
after_answer panics pending waiting others = (some crashed, pending)
after_answer nothing pending waiting others = others
after_answer (error no_clue) pending waiting others = waiting
after_answer (error need_more_data) pending waiting others = others
after_answer (error unknown_content) pending waiting others = others
after_answer (error sniffing_timeout) pending waiting others = others
after_answer (error (other_error message)) pending waiting others = others

-- the loop of Sniffer.Sniff: a result, or the sniffers that have no clue yet
unfoldable pub sniff_loop :
    Network
    → Option (List ℕ)
    → List ProtocolSniffer
    → List ProtocolSniffer
    → Option Ending × List ProtocolSniffer
unfolding after_answer
sniff_loop network payload [] pending = (none, pending)
sniff_loop network payload (si ∷ rest) pending =
    let waiting = sniff_loop network payload rest (pending ++ (si ∷ [])) in
    let others = sniff_loop network payload rest pending in
    if si.is_metadata || not (same_network si.network network)
    then others
    else after_answer (si.ask payload) pending waiting others

-- the loop of Sniffer.SniffMetadata
unfoldable pub metadata_loop :
    List ProtocolSniffer → List ProtocolSniffer → Option Ending × List ProtocolSniffer
unfolding after_answer
metadata_loop [] pending = (none, pending)
metadata_loop (si ∷ rest) pending =
    let waiting = metadata_loop rest (pending ++ (si ∷ [])) in
    let others = metadata_loop rest pending in
    if not si.is_metadata then waiting else after_answer (si.ask none) pending waiting others

-- the end of both: the sniffers are the pending ones from then on, if there are any
unfoldable pub conclude :
    List ProtocolSniffer → Option Ending × List ProtocolSniffer → List ProtocolSniffer × Sniffed
conclude sniffers (Option.some (matched result), pending) = (sniffers, found result)
conclude sniffers (Option.some crashed, pending) = (sniffers, panicked)
conclude sniffers (Option.none, []) = (sniffers, failed unknown_content)
conclude sniffers (Option.none, si ∷ pending) = (si ∷ pending, failed no_clue)

unfoldable pub sniff : Network → List ℕ → List ProtocolSniffer → List ProtocolSniffer × Sniffed
unfolding sniff_loop conclude
sniff network payload sniffers = conclude sniffers (sniff_loop network (some payload) sniffers [])

unfoldable pub sniff_metadata : List ProtocolSniffer → List ProtocolSniffer × Sniffed
unfolding metadata_loop conclude
sniff_metadata sniffers = conclude sniffers (metadata_loop sniffers [])

unfoldable pub composite_result : SniffResult → SniffResult → SniffResult
composite_result domain_result protocol_result = record {
  protocol = protocol_result.protocol;
  domain = domain_result.domain;
  protocol_for_domain = some domain_result.protocol;
  original_protocol = none;
}

-- What the fake DNS engine says of the target: GetDomainFromFakeDNS, and IsIPInIPPool, if it has it.
pub record FakeDns : Type 0 where
  pub domain : String
  pub in_pool : Option Bool

-- newFakeDNSSniffer; `is_routed` says that the target's network is TCP or UDP
unfoldable pub fake_dns_ask : FakeDns → Bool → Answer
fake_dns_ask engine is_routed =
    if is_routed && not (engine.domain == "")
    then match (record {
      protocol = "fakedns";
      domain = engine.domain;
      protocol_for_domain = none;
      original_protocol = none;
    })
    else error no_clue

-- The loop of newFakeDNSThenOthers. It calls the methods of a result whose error is nil, which
-- panics on a nil result.
unfoldable pub first_match : Option (List ℕ) → List ProtocolSniffer → Answer
first_match payload [] = error no_clue
first_match payload (si ∷ rest) =
    let later = first_match payload rest in
    if si.is_metadata || (elim payload [ none ↦ false | some bytes ↦ true ])
    then elim (si.ask payload) [
      | match r ↦ match (record {
        protocol = "fakedns+others";
        domain = r.domain;
        protocol_for_domain = none;
        original_protocol = some r.protocol;
      })
      | nothing ↦ panics
      | error e ↦ later
      | panics ↦ panics
    ]
    else later

-- newFakeDNSThenOthers
unfoldable pub then_others_ask : FakeDns → Bool → List ProtocolSniffer → Option (List ℕ) → Answer
unfolding fake_dns_ask first_match
then_others_ask engine is_routed others payload = elim (fake_dns_ask engine is_routed) [
  | match result ↦ match result
  | nothing ↦ nothing
  | panics ↦ panics
  | error e ↦ elim engine.in_pool [
    | none ↦ error no_clue
    | some inside ↦ if inside then first_match payload others else error no_clue
  ]
]

-- NewSniffer, from Xray's sniffers of http, tls, bittorrent, quic and utp. The sniffer that
-- newFakeDNSThenOthers makes has no network.
unfoldable pub new_sniffer : List ProtocolSniffer → Option FakeDns → Bool → List ProtocolSniffer
unfolding fake_dns_ask then_others_ask
new_sniffer protocols engine is_routed = elim engine [
  | none ↦ protocols
  | some fake ↦
      record {
        is_metadata = false;
        network = unknown;
        ask = then_others_ask fake is_routed protocols;
      }
      ∷ (protocols
          ++ (record {
            is_metadata = true;
            network = unknown;
            ask = λ payload. fake_dns_ask fake is_routed;
          }
              ∷ []))
]
