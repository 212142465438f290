-- ===== src/Dispatcher/Sniffer/Override.antt =====
-- core/app/dispatcher/default.go: shouldOverride, and what Dispatch and DispatchLink do with a
-- sniffed domain. Go's regexp package and the address parser are parameters. An entry of the
-- excluded domains is ASCII, as a domain on the wire is.
use v2node_pro.Prelude.{
  String, ◌≡◌, ◌⊎◌, Bool, true, false, ◌&&◌, ◌||◌, not, Option, none, some, List, [], ◌∷◌,
  if◌then◌else◌, is_some, arith,
}
use v2node_pro.Prelude.Eq.{◌==◌, string_eq}
use v2node_pro.Prelude.Text.{strip_prefix}
use v2node_pro.Prelude.Bytes.{lower_is}
use v2node_pro.Dispatcher.Sniffer.{SniffResult}

pub record SniffingRequest : Type 0 where
  pub exclude_for_domain : List String
  pub override_destination_for_protocol : List String
  pub route_only : Bool

-- strings.HasPrefix
unfoldable pub has_prefix : String → String → Bool
unfolding strip_prefix
has_prefix s p = is_some (strip_prefix p s)

-- `protocolString` of shouldOverride, and `protocol` of Dispatch
unfoldable pub protocol_of : SniffResult → String
protocol_of result = elim result.protocol_for_domain [ none ↦ result.protocol | some p ↦ p ]

-- The address of a target: whether it is an IP, and whether the fake DNS engine says that it is in
-- its pool.
pub record Target {ℓ} (Address : Type ℓ) : Type ℓ where
  pub address : Address
  pub is_ip : Bool
  pub in_pool : Bool

module _ (regexp : String → Option (String → Bool)) where
  -- one entry of ExcludeForDomain; one that does not compile is skipped
  unfoldable pub excludes : String → String → Bool
  unfolding strip_prefix lower_is
  excludes domain d = elim (strip_prefix "regexp:" d) [
    | none ↦ lower_is domain d
    | some pattern ↦ elim (regexp pattern) [ none ↦ false | some matches ↦ matches domain ]
  ]

  unfoldable pub is_excluded : String → List String → Bool
  unfolding excludes
  is_excluded domain [] = false
  is_excluded domain (d ∷ ds) = if excludes domain d then true else is_excluded domain ds

  -- one entry of OverrideDestinationForProtocol; `missed` says that the target is an IP of the pool
  unfoldable pub overrides : SniffResult → Bool → String → Bool
  unfolding has_prefix protocol_of
  overrides result missed p =
      let protocol = protocol_of result in
      has_prefix protocol p
      || has_prefix p protocol
      || (missed && not (protocol == "bittorrent") && p == "fakedns")
      || (elim result.original_protocol [ none ↦ false | some original ↦ has_prefix p original ])

  unfoldable pub is_overridden : SniffResult → Bool → List String → Bool
  unfolding overrides
  is_overridden result missed [] = false
  is_overridden result missed (p ∷ ps) =
      if overrides result missed p then true else is_overridden result missed ps

  unfoldable pub should_override {ℓ} :
      {Address : Type ℓ} → SniffResult → SniffingRequest → Target Address → Bool
  unfolding is_excluded is_overridden
  should_override result request t =
      if result.domain == ""
      then false
      else if is_excluded result.domain request.exclude_for_domain
      then false
      else is_overridden result (t.is_ip && t.in_pool) request.override_destination_for_protocol

-- session.Outbound
pub record Outbound {ℓ} (Address : Type ℓ) : Type ℓ where
  pub original_target : Target Address
  pub target : Target Address
  pub route_target : Option (Target Address)

module _ {ℓ} {Address : Type ℓ} (parse : String → Target Address) where
  -- the part under `shouldOverride` of Dispatch, where `is_fake` says that the target is an IP of
  -- the pool, and of DispatchLink, where it says that the pool has it
  unfoldable pub retarget :
      SniffResult → SniffingRequest → (is_fake : Bool) → Outbound Address → Outbound Address
  unfolding protocol_of
  retarget result request is_fake ob =
      let protocol = protocol_of result in
      let destination = parse result.domain in
      if request.route_only
        && not (protocol == "fakedns")
        && not (protocol == "fakedns+others")
        && not is_fake
      then record ob { route_target = some destination }
      else record ob { target = destination }

  -- the outbound that Dispatch routes after the sniffing, whose result is `none` on an error
  unfoldable pub sniffed_outbound :
      (String → Option (String → Bool))
      → Option SniffResult
      → SniffingRequest
      → Outbound Address
      → Outbound Address
  unfolding should_override retarget
  sniffed_outbound regexp sniffed request ob = elim sniffed [
    | none ↦ ob
    | some result ↦
        if should_override regexp result request ob.target
        then retarget result request (ob.target.is_ip && ob.target.in_pool) ob
        else ob
  ]

  -- Dispatch never changes the original target; it changes at most one of the target and the route
  -- target, to the sniffed domain, and neither if the domain is empty or excluded. With RouteOnly it
  -- changes the target only for a fake IP or a result of the fake DNS.
  pub sniffed_outbound_lem :
      (regexp : String → Option (String → Bool)) (result : SniffResult) (request : SniffingRequest)
      (ob : Outbound Address)
      → ((sniffed_outbound regexp (some result) request ob).original_target ≡ ob.original_target)
        × ((sniffed_outbound regexp (some result) request ob ≡ ob)
            ⊎ ((sniffed_outbound regexp (some result) request ob
                  ≡ record ob { target = parse result.domain })
                × ((result.domain == "") ≡ false)
                × (is_excluded regexp result.domain request.exclude_for_domain ≡ false)
                × ((not request.route_only
                      || protocol_of result == "fakedns"
                      || protocol_of result == "fakedns+others"
                      || (ob.target.is_ip && ob.target.in_pool))
                    ≡ true))
            ⊎ ((sniffed_outbound regexp (some result) request ob
                  ≡ record ob { route_target = some (parse result.domain) })
                × ((result.domain == "") ≡ false)
                × (is_excluded regexp result.domain request.exclude_for_domain ≡ false)
                × (request.route_only ≡ true)))
  unfolding sniffed_outbound should_override retarget
  sniffed_outbound_lem regexp result request ob = ground arith
