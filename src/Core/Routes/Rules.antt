-- ===== src/Core/Routes/Rules.antt =====
-- The rules that GetCustomConfig of core/custom.go makes of the routes of each node.
use v2node_pro.Prelude.{
  String, ◌≡◌, refl, sym, ap, ◌∙◌, Bool, true, false, ◌||◌, inl, inr, Option, some, List, [], ◌∷◌,
  if◌then◌else◌, none, ◌++◌, append_assoc, append_nil, arith, Bool-cases, Option-cases,
}
use v2node_pro.Prelude.Eq.{◌==◌, string_eq, ==_iff}
use v2node_pro.Panel.NodeInfo.{NodeInfo, Route}
use v2node_pro.Core.Routes.{
  Outbounds, KeepsTag, Condition, Rule, CustomConfig, add_outbound, block, send, add_server,
  add_route, add_routes, add_nodes, first_config, dns_rule, get_custom_config,
}
use v2node_pro.Core.Routes.Laws.{IsDistinctTags, Extends, add_nodes-Extends}

abbrev pub is_blocking : String → Bool
is_blocking a = a == "block" || a == "block_ip" || a == "block_port" || a == "protocol"

abbrev pub is_sending : String → Bool
is_sending a = a == "route" || a == "route_ip" || a == "default_out"

-- The outbound that a route asks for: the decoded value, if the action sends.
abbrev pub sent : (x : Outbounds) → Route → Option x.Detour
sent x r =
    if is_sending r.action
    then elim r.action_value [ none ↦ none | some text ↦ x.decode text ]
    else none

-- What one route of the node with a tag adds: a rule for the inbound of that tag, which leads to
-- the outbound "block" if the action blocks, and to the outbound that the route asks for if there is
-- one; else nothing.
pub data OfRoute (x : Outbounds) (tag : String) (r : Route) : List Rule → Type 0 where
  adds_none : is_blocking r.action ≡ false → sent x r ≡ none → OfRoute x tag r []
  blocks :
      (rule : Rule)
      → is_blocking r.action ≡ true
      → rule.inbound_tag ≡ some tag
      → rule.outbound_tag ≡ "block"
      → OfRoute x tag r (rule ∷ [])
  sends :
      (rule : Rule) (d : x.Detour)
      → is_blocking r.action ≡ false
      → sent x r ≡ some d
      → rule.inbound_tag ≡ some tag
      → rule.outbound_tag ≡ x.detour_tag d
      → OfRoute x tag r (rule ∷ [])

-- Rules of some routes of one node, in the order of the routes.
pub data OfRoutes (x : Outbounds) (tag : String) : List Route → List Rule → Type 0 where
  no_route : OfRoutes x tag [] []
  next_route :
      {r : Route} {rs : List Route} {own rest : List Rule}
      → OfRoute x tag r own
      → OfRoutes x tag rs rest
      → OfRoutes x tag (r ∷ rs) (own ++ rest)

-- Rules of some nodes, in the order of the nodes.
pub data OfNodes (x : Outbounds) : List NodeInfo → List Rule → Type 0 where
  no_node : OfNodes x [] []
  next_node :
      {n : NodeInfo} {ns : List NodeInfo} {own rest : List Rule}
      → OfRoutes x n.tag n.common.routes own
      → OfNodes x ns rest
      → OfNodes x (n ∷ ns) (own ++ rest)

module _ (x : Outbounds) where
  rules-add_outbound : (d : x.Detour) (c : CustomConfig x) → (add_outbound x d c).rules ≡ c.rules
  unfolding add_outbound
  rules-add_outbound d c = ground arith

  rules-add_server : (r : Route) (c : CustomConfig x) → (add_server x r c).rules ≡ c.rules
  unfolding add_server
  rules-add_server r c = ground arith

  -- The rules behind those that were there are those of a route.
  record Adds (tag : String) (r : Route) (c c' : CustomConfig x) : Type 0 where
    more : List Rule
    added : c'.rules ≡ c.rules ++ more
    of_route : OfRoute x tag r more

  nothing-Adds :
      (tag : String) (r : Route) (c c' : CustomConfig x)
      → is_blocking r.action ≡ false
      → sent x r ≡ none
      → c'.rules ≡ c.rules
      → Adds tag r c c'
  nothing-Adds tag r c c' b n e = record {
    more = [];
    added = e ∙ sym (append_nil c.rules);
    of_route = adds_none b n;
  }

  block-Adds :
      (tag : String) (r : Route) (condition : Condition) (c : CustomConfig x)
      → is_blocking r.action ≡ true
      → Adds tag r c (block x tag condition c)
  unfolding block
  block-Adds tag r condition c b = record {
    more = record { inbound_tag = some tag; condition = condition; outbound_tag = "block" } ∷ [];
    added = refl;
    of_route = blocks _ b refl refl;
  }

  send-Adds :
      (tag : String) (r : Route) (condition : Condition) (value : Option String)
      (c : CustomConfig x)
      → r.action_value ≡ value
      → is_blocking r.action ≡ false
      → is_sending r.action ≡ true
      → Adds tag r c (send x tag condition value c)
  unfolding send
  send-Adds tag r condition (Option.none) c v b s = nothing-Adds tag r c c b (rw (s, v) refl) refl
  send-Adds tag r condition (Option.some text) c v b s = elim (Option-cases (x.decode text)) [
    | inl failed ↦ rw (send, failed) (nothing-Adds tag r c c b (rw (s, v, failed) refl) refl)
    | inr (d, decoded) ↦
        let rule : Rule = record {
          inbound_tag = some tag;
          condition = condition;
          outbound_tag = x.detour_tag d;
        } in
        rw (send, decoded)
          (record {
            more = rule ∷ [];
            added = rules-add_outbound d (record c { rules = c.rules ++ (rule ∷ []) });
            of_route = sends rule d b (rw (s, v, decoded) refl) refl refl;
          })
  ]

  add_route-Adds :
      (tag : String) (r : Route) (c : CustomConfig x) → Adds tag r c (add_route x tag r c)
  unfolding add_route
  add_route-Adds tag r c = elim (Bool-cases (r.action == "dns")) [
    | inl y ↦
        rw (add_route, y)
          (nothing-Adds tag r c (add_server x r c) (not_blocking "dns" y refl)
            (not_sending (ap is_sending ((==_iff r.action "dns").0 y))) (rules-add_server r c))
    | inr n0 ↦ elim (Bool-cases (r.action == "block")) [
      | inl y ↦
          rw (add_route, n0, y)
            (block-Adds tag r _ c (ap is_blocking ((==_iff r.action "block").0 y)))
      | inr n1 ↦ elim (Bool-cases (r.action == "block_ip")) [
        | inl y ↦
            rw (add_route, n0, n1, y)
              (block-Adds tag r _ c (ap is_blocking ((==_iff r.action "block_ip").0 y)))
        | inr n2 ↦ elim (Bool-cases (r.action == "block_port")) [
          | inl y ↦
              rw (add_route, n0, n1, n2, y)
                (block-Adds tag r _ c (ap is_blocking ((==_iff r.action "block_port").0 y)))
          | inr n3 ↦ elim (Bool-cases (r.action == "protocol")) [
            | inl y ↦
                rw (add_route, n0, n1, n2, n3, y)
                  (block-Adds tag r _ c (ap is_blocking ((==_iff r.action "protocol").0 y)))
            | inr n4 ↦ elim (Bool-cases (r.action == "route")) [
              | inl y ↦
                  rw (add_route, n0, n1, n2, n3, n4, y)
                    (send-Adds tag r _ r.action_value c refl (not_blocking "route" y refl)
                      (ap is_sending ((==_iff r.action "route").0 y)))
              | inr n5 ↦ elim (Bool-cases (r.action == "route_ip")) [
                | inl y ↦
                    rw (add_route, n0, n1, n2, n3, n4, n5, y)
                      (send-Adds tag r _ r.action_value c refl (not_blocking "route_ip" y refl)
                        (ap is_sending ((==_iff r.action "route_ip").0 y)))
                | inr n6 ↦ elim (Bool-cases (r.action == "default_out")) [
                  | inl y ↦
                      rw (add_route, n0, n1, n2, n3, n4, n5, n6, y)
                        (send-Adds tag r _ r.action_value c refl (not_blocking "default_out" y refl)
                          (ap is_sending ((==_iff r.action "default_out").0 y)))
                  | inr n7 ↦
                      rw (add_route, n0, n1, n2, n3, n4, n5, n6, n7)
                        (nothing-Adds tag r c c (rw (n1, n2, n3, n4) refl)
                          (not_sending (rw (n5, n6, n7) refl)) refl)
                ]
              ]
            ]
          ]
        ]
      ]
    ]
  ]
    where
      not_sending : is_sending r.action ≡ false → sent x r ≡ none
      not_sending e = rw e refl

      not_blocking :
          (a : String)
          → (r.action == a) ≡ true
          → is_blocking a ≡ false
          → is_blocking r.action ≡ false
      not_blocking a y b = ap is_blocking ((==_iff r.action a).0 y) ∙ b

  add_routes-rules :
      (tag : String) (rs : List Route) (c : CustomConfig x)
      → (more : List Rule) × ((add_routes x tag rs c).rules ≡ c.rules ++ more)
        × OfRoutes x tag rs more
  unfolding add_routes
  add_routes-rules tag [] c = ([], sym (append_nil c.rules), no_route)
  add_routes-rules tag (r ∷ rs) c =
      let a = add_route-Adds tag r c in
      let (rest, added, of_rest) = add_routes-rules tag rs (add_route x tag r c) in
      (
        a.more ++ rest,
        added ∙ ap (λ rules. rules ++ rest) a.added ∙ append_assoc c.rules a.more rest,
        next_route a.of_route of_rest,
      )

  add_nodes-rules :
      (ns : List NodeInfo) (c : CustomConfig x)
      → (more : List Rule) × ((add_nodes x ns c).rules ≡ c.rules ++ more) × OfNodes x ns more
  unfolding add_nodes
  add_nodes-rules [] c = ([], sym (append_nil c.rules), no_node)
  add_nodes-rules (n ∷ ns) c =
      let (own, own_added, of_own) = add_routes-rules n.tag n.common.routes c in
      let (rest, added, of_rest) = add_nodes-rules ns (add_routes x n.tag n.common.routes c) in
      (
        own ++ rest,
        added ∙ ap (λ rules. rules ++ rest) own_added ∙ append_assoc c.rules own rest,
        next_node of_own of_rest,
      )

  -- Where Xray's Build keeps the tag of an outbound, and no tag stands twice among the three
  -- outbounds of the program: whatever routes the nodes have, GetCustomConfig keeps those three
  -- first, so that the default outbound stays the default, and no tag stands twice among the
  -- outbounds that were built. The rule for DNS comes before all other rules. These stand in the
  -- order of the nodes and, for a node, of its routes; each of them is for the inbound of its own
  -- node; and each route that blocks has exactly one, which leads to the outbound "block", each
  -- route that sends and whose value decodes has exactly one, which leads to the tag of the decoded
  -- outbound, and any other has none.
  pub get_custom_config-Extends :
      (direct blocking dns : Option x.Built) (infos : List NodeInfo)
      → KeepsTag x
      → IsDistinctTags x (direct ∷ blocking ∷ dns ∷ [])
      → Extends x
          (first_config x direct blocking dns)
          (get_custom_config x direct blocking dns infos)
        × ((more : List Rule) × ((get_custom_config x direct blocking dns infos).rules
              ≡ dns_rule x ∷ more)
            × OfNodes x infos more)
  unfolding get_custom_config
  get_custom_config-Extends direct blocking dns infos keeps d = (
    add_nodes-Extends x keeps (first_config x direct blocking dns) infos
        (first_config x direct blocking dns) (record { more = []; outbounds = refl; distinct = d }),
    add_nodes-rules infos (first_config x direct blocking dns),
  )
