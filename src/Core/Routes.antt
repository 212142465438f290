-- ===== src/Core/Routes.antt =====
-- core/custom.go: the rules, DNS servers and outbounds that the routes of the nodes ask for.
-- Decoding and building an outbound are Xray's, as are the address parser and the last two Build
-- calls. Marshalling a rule, a map of texts, cannot fail, so its error branch is left out.
pub mod Laws
pub mod Rules
pub mod Tests
use v2node_pro.Prelude.{
  String, Bool, true, false, ◌≡◌, Option, none, some, List, [], ◌∷◌, ◌++◌, if◌then◌else◌,
}
use v2node_pro.Prelude.Eq.{◌==◌, string_eq}
use v2node_pro.Prelude.Text.{join_by}
use v2node_pro.Prelude.Flow.{Outcome, ok, err}
use v2node_pro.Panel.NodeInfo.{NodeInfo, Route}

pub record Outbounds : Type 1 where
  pub Address : Type 0
  pub parse_address : String → Address
  pub Detour : Type 0
  pub decode : String → Option Detour
  pub detour_tag : Detour → String
  pub Built : Type 0
  pub build : Detour → Option Built
  pub built_tag : Built → String

-- `Build` keeps the tag of an outbound.
abbrev pub KeepsTag : Outbounds → Type 0
KeepsTag x = (d : x.Detour) (b : x.Built) → x.build d ≡ some b → x.built_tag b ≡ x.detour_tag d

pub data Condition : Type 0 where
  on_domain : List String → Condition
  on_ip : List String → Condition
  on_port : String → Condition
  on_protocol : List String → Condition
  on_network : String → Condition
  on_network_port : (network port : String) → Condition

-- a rule of the router, for one inbound or for all
pub record Rule : Type 0 where
  pub inbound_tag : Option String
  pub condition : Condition
  pub outbound_tag : String

module _ (x : Outbounds) where
  pub record NameServer : Type 0 where
    pub address : x.Address
    pub domains : List String
    pub skip_fallback : Bool

  -- An outbound whose Build failed is nil.
  pub record CustomConfig : Type 0 where
    pub servers : List NameServer
    pub outbounds : List (Option x.Built)
    pub rules : List Rule

  unfoldable pub has_outbound_with_tag : List (Option x.Built) → String → Bool
  has_outbound_with_tag [] tag = false
  has_outbound_with_tag (Option.none ∷ os) tag = has_outbound_with_tag os tag
  has_outbound_with_tag (Option.some o ∷ os) tag =
      if x.built_tag o == tag then true else has_outbound_with_tag os tag

  abbrev pub add_rule : Rule → CustomConfig → CustomConfig
  add_rule r c = record c { rules = c.rules ++ (r ∷ []) }

  unfoldable pub add_outbound : x.Detour → CustomConfig → CustomConfig
  unfolding has_outbound_with_tag
  add_outbound d c =
      if has_outbound_with_tag c.outbounds (x.detour_tag d) then c else elim (x.build d) [
        | none ↦ c
        | some o ↦ record c { outbounds = c.outbounds ++ (some o ∷ []) }
      ]

  -- the cases "block", "block_ip", "block_port" and "protocol"
  unfoldable pub block : String → Condition → CustomConfig → CustomConfig
  block tag condition c =
      add_rule (record { inbound_tag = some tag; condition = condition; outbound_tag = "block" }) c

  -- the cases "route", "route_ip" and "default_out"
  unfoldable pub send : String → Condition → Option String → CustomConfig → CustomConfig
  unfolding add_outbound
  send tag condition value c = elim value [
    | none ↦ c
    | some text ↦ elim (x.decode text) [
      | none ↦ c
      | some d ↦ add_outbound d (
          add_rule
            (record {
              inbound_tag = some tag;
              condition = condition;
              outbound_tag = x.detour_tag d;
            })
            c)
    ]
  ]

  -- the case "dns"
  unfoldable pub add_server : Route → CustomConfig → CustomConfig
  add_server r c = elim r.action_value [
    | none ↦ c
    | some text ↦ record c {
      servers =
          c.servers
          ++ (record {
            address = x.parse_address text;
            domains = r.matches;
            skip_fallback = elim r.matches [ [] ↦ false | m ∷ ms ↦ true ];
          }
              ∷ []);
    }
  ]

  -- the `switch` on the action
  unfoldable pub add_route : String → Route → CustomConfig → CustomConfig
  unfolding add_server block send join_by
  add_route tag r c =
      if r.action == "dns"
      then add_server r c
      else if r.action == "block"
      then block tag (on_domain r.matches) c
      else if r.action == "block_ip"
      then block tag (on_ip r.matches) c
      else if r.action == "block_port"
      then block tag (on_port (join_by "," r.matches)) c
      else if r.action == "protocol"
      then block tag (on_protocol r.matches) c
      else if r.action == "route"
      then send tag (on_domain r.matches) r.action_value c
      else if r.action == "route_ip"
      then send tag (on_ip r.matches) r.action_value c
      else if r.action == "default_out"
      then send tag (on_network "tcp,udp") r.action_value c
      else c

  unfoldable pub add_routes : String → List Route → CustomConfig → CustomConfig
  unfolding add_route
  add_routes tag [] c = c
  add_routes tag (r ∷ rs) c = add_routes tag rs (add_route tag r c)

  unfoldable pub add_nodes : List NodeInfo → CustomConfig → CustomConfig
  unfolding add_routes
  add_nodes [] c = c
  add_nodes (n ∷ ns) c = add_nodes ns (add_routes n.tag n.common.routes c)

  -- the rule that sends DNS queries to the DNS outbound
  abbrev pub dns_rule : Rule
  dns_rule = record {
    inbound_tag = none;
    condition = on_network_port "udp" "53";
    outbound_tag = "dns_out";
  }

  -- the configuration before the loop, with the three outbounds of core/outbound.go
  abbrev pub first_config : (direct blocking dns : Option x.Built) → CustomConfig
  first_config direct blocking dns = record {
    servers =
        record { address = x.parse_address "localhost"; domains = []; skip_fallback = false } ∷ [];
    outbounds = direct ∷ blocking ∷ dns ∷ [];
    rules = dns_rule ∷ [];
  }

  -- GetCustomConfig, before the Build calls
  unfoldable pub get_custom_config :
      (direct blocking dns : Option x.Built) → List NodeInfo → CustomConfig
  unfolding add_nodes
  get_custom_config direct blocking dns infos = add_nodes infos (first_config direct blocking dns)
