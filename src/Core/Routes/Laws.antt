-- ===== src/Core/Routes/Laws.antt =====
-- The routes of the nodes only add outbounds, and no outbound tag stands twice.
use v2node_pro.Prelude.{
  String, ◌≡◌, refl, ◌∙◌, ap, Bool, true, false, ◌||◌, Option, some, List, [], ◌∷◌, ◌++◌,
  append_assoc, arith, Bool-cases, Option-cases, inl, inr, if◌then◌else◌,
}
use v2node_pro.Prelude.Eq.{◌==◌, ==_iff, string_eq}
use v2node_pro.Panel.NodeInfo.{NodeInfo, Route}
use v2node_pro.Core.Routes.{
  Outbounds, KeepsTag, Condition, Rule, NameServer, CustomConfig, has_outbound_with_tag,
  add_outbound, block, send, add_server, add_route, add_routes, add_nodes, add_rule,
}

module _ (x : Outbounds) where
  -- No tag stands twice among the outbounds that were built.
  abbrev pub IsDistinctTags : List (Option x.Built) → Type 0
  IsDistinctTags [] = Unit
  IsDistinctTags (Option.none ∷ os) = IsDistinctTags os
  IsDistinctTags (Option.some o ∷ os) =
      (has_outbound_with_tag x os (x.built_tag o) ≡ false) × IsDistinctTags os

  has_outbound-append :
      (os : List (Option x.Built)) (o : x.Built) (tag : String)
      → has_outbound_with_tag x (os ++ (some o ∷ [])) tag
        ≡ (has_outbound_with_tag x os tag || x.built_tag o == tag)
  unfolding has_outbound_with_tag
  has_outbound-append [] o tag = ground arith
  has_outbound-append (Option.none ∷ os) o tag = has_outbound-append os o tag
  has_outbound-append (Option.some p ∷ os) o tag = ground (arith, has_outbound-append os o tag)

  append-IsDistinctTags :
      (os : List (Option x.Built)) (o : x.Built)
      → IsDistinctTags os
      → has_outbound_with_tag x os (x.built_tag o) ≡ false
      → IsDistinctTags (os ++ (some o ∷ []))
  unfolding has_outbound_with_tag
  append-IsDistinctTags [] o d new = (refl, tt)
  append-IsDistinctTags (Option.none ∷ os) o d new = append-IsDistinctTags os o d new
  append-IsDistinctTags (Option.some p ∷ os) o d new = ground (
    arith,
    has_outbound-append os o (x.built_tag p),
    ==_iff (x.built_tag p) (x.built_tag o),
    ==_iff (x.built_tag o) (x.built_tag p),
    append-IsDistinctTags os o,
  )

  -- `c` is `base` with more outbounds, under distinct tags.
  pub record Extends (base c : CustomConfig x) : Type 0 where
    pub more : List (Option x.Built)
    pub outbounds : c.outbounds ≡ base.outbounds ++ more
    pub distinct : IsDistinctTags c.outbounds

  add_rule-Extends :
      (base c : CustomConfig x) (r : Rule) → Extends base c → Extends base (add_rule x r c)
  add_rule-Extends base c r e = record {
    more = e.more;
    outbounds = e.outbounds;
    distinct = e.distinct;
  }

  append-Extends :
      (base c : CustomConfig x) (o : x.Built)
      → has_outbound_with_tag x c.outbounds (x.built_tag o) ≡ false
      → Extends base c
      → Extends base (record c { outbounds = c.outbounds ++ (some o ∷ []) })
  append-Extends base c o new e = record {
    more = e.more ++ (some o ∷ []);
    outbounds =
        ap (λ os. os ++ (some o ∷ [])) e.outbounds
        ∙ append_assoc base.outbounds e.more (some o ∷ []);
    distinct = append-IsDistinctTags c.outbounds o e.distinct new;
  }

  module _ (keeps : KeepsTag x) (base : CustomConfig x) where
    add_outbound-Extends :
        (d : x.Detour) (c : CustomConfig x) → Extends base c → Extends base (add_outbound x d c)
    unfolding add_outbound
    add_outbound-Extends d c e =
        elim (Bool-cases (has_outbound_with_tag x c.outbounds (x.detour_tag d))) [
          | inl old ↦ rw old e
          | inr new ↦ rw new (elim (Option-cases (x.build d)) [
            | inl failed ↦ rw failed e
            | inr (o, built) ↦ rw built (
                append-Extends base c o
                  (ap (has_outbound_with_tag x c.outbounds) (keeps d o built) ∙ new) e)
          ])
        ]

    send-Extends :
        (tag : String) (condition : Condition) (value : Option String) (c : CustomConfig x)
        → Extends base c
        → Extends base (send x tag condition value c)
    unfolding send
    send-Extends tag condition (Option.none) c e = e
    send-Extends tag condition (Option.some text) c e = elim (Option-cases (x.decode text)) [
      | inl failed ↦ rw (send, failed) e
      | inr (d, decoded) ↦
          rw (send, decoded) (add_outbound-Extends d _ (add_rule-Extends base c _ e))
    ]

    block-Extends :
        (tag : String) (condition : Condition) (c : CustomConfig x)
        → Extends base c
        → Extends base (block x tag condition c)
    unfolding block
    block-Extends tag condition c e = add_rule-Extends base c _ e

    same-Extends :
        (c : CustomConfig x) (servers : List (NameServer x))
        → Extends base c
        → Extends base (record c { servers = servers })
    same-Extends c servers e = record {
      more = e.more;
      outbounds = e.outbounds;
      distinct = e.distinct;
    }

    add_server-Extends :
        (r : Route) (value : Option String) (c : CustomConfig x)
        → Extends base c
        → Extends base (add_server x (record r { action_value = value }) c)
    unfolding add_server
    add_server-Extends r (Option.none) c e = e
    add_server-Extends r (Option.some text) c e = same-Extends c _ e

    if-Extends :
        (test : Bool) (c c' : CustomConfig x)
        → Extends base c
        → Extends base c'
        → Extends base (if test then c else c')
    if-Extends true c c' e e' = e
    if-Extends false c c' e e' = e'

    add_route-Extends :
        (tag : String) (r : Route) (c : CustomConfig x)
        → Extends base c
        → Extends base (add_route x tag r c)
    unfolding add_route
    add_route-Extends tag r c e = elim (Bool-cases (r.action == "dns")) [
      | inl y ↦ rw (add_route, y) (add_server-Extends r r.action_value c e)
      | inr n0 ↦ elim (Bool-cases (r.action == "block")) [
        | inl y ↦ rw (add_route, n0, y) (block-Extends tag _ c e)
        | inr n1 ↦ elim (Bool-cases (r.action == "block_ip")) [
          | inl y ↦ rw (add_route, n0, n1, y) (block-Extends tag _ c e)
          | inr n2 ↦ elim (Bool-cases (r.action == "block_port")) [
            | inl y ↦ rw (add_route, n0, n1, n2, y) (block-Extends tag _ c e)
            | inr n3 ↦ elim (Bool-cases (r.action == "protocol")) [
              | inl y ↦ rw (add_route, n0, n1, n2, n3, y) (block-Extends tag _ c e)
              | inr n4 ↦ elim (Bool-cases (r.action == "route")) [
                | inl y ↦
                    rw (add_route, n0, n1, n2, n3, n4, y) (send-Extends tag _ r.action_value c e)
                | inr n5 ↦ elim (Bool-cases (r.action == "route_ip")) [
                  | inl y ↦
                      rw (add_route, n0, n1, n2, n3, n4, n5, y)
                        (send-Extends tag _ r.action_value c e)
                  | inr n6 ↦ elim (Bool-cases (r.action == "default_out")) [
                    | inl y ↦
                        rw (add_route, n0, n1, n2, n3, n4, n5, n6, y)
                          (send-Extends tag _ r.action_value c e)
                    | inr n7 ↦ rw (add_route, n0, n1, n2, n3, n4, n5, n6, n7) e
                  ]
                ]
              ]
            ]
          ]
        ]
      ]
    ]

    add_routes-Extends :
        (tag : String) (rs : List Route) (c : CustomConfig x)
        → Extends base c
        → Extends base (add_routes x tag rs c)
    unfolding add_routes
    add_routes-Extends tag [] c e = e
    add_routes-Extends tag (r ∷ rs) c e =
        add_routes-Extends tag rs (add_route x tag r c) (add_route-Extends tag r c e)

    pub add_nodes-Extends :
        (ns : List NodeInfo) (c : CustomConfig x) → Extends base c → Extends base (add_nodes x ns c)
    unfolding add_nodes
    add_nodes-Extends [] c e = e
    add_nodes-Extends (n ∷ ns) c e =
        add_nodes-Extends ns (add_routes x n.tag n.common.routes c)
          (add_routes-Extends n.tag n.common.routes c e)
