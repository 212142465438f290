-- ===== src/Node/Fleet/Serving.antt =====
-- Start of all nodes: if it ends well, every controller has its own limiter in the registry.
use v2node_pro.Prelude.{
  String, subst, Bool, Option, false, ◌≡◌, refl, ◌∙◌, List, [], ◌∷◌, All, ◌||◌, arith,
}
use v2node_pro.Prelude.Eq.{string_eq}
use v2node_pro.Prelude.Dict.{lookup}
use v2node_pro.Prelude.Flow.{Outcome, ok, err, panic, hang}
use v2node_pro.Panel.{UserInfo, IsDistinctUsers}
use v2node_pro.Panel.NodeInfo.{NodeInfo}
use v2node_pro.Panel.Client.{Client, NodeConfig, Codec, Answer, new_client, get_node_info}
use v2node_pro.Panel.Users.{get_user_list}
use v2node_pro.Limiter.{Limiter}
use v2node_pro.Core.Users.{Inbounds}
use v2node_pro.Core.Nodes.{Host}
use v2node_pro.Core.Inbound.Types.{Xray}
use v2node_pro.Dispatcher.Links.{Closer}
use v2node_pro.Node.Lifecycle.{Controller, new_controller}
use v2node_pro.Node.Lifecycle.Start.{Env, Answers, World, start}
use v2node_pro.Node.Lifecycle.Rounds.{IsServed, start-IsServed}
use v2node_pro.Node.Lifecycle.Identity.{IsFor, new_client-IsFor, get_node_info-IsFor, start-IsFor}
use v2node_pro.Node.Lifecycle.Neighbours.{SparesOthers, start-SparesOthers}
use v2node_pro.Node.Fleet.{
  Fleet, Planned, with_controller, controllers_of, new_known, new_nodes, start_next, start_nodes,
}
use v2node_pro.Node.Fleet.Laws.{has_tag}

-- One controller for each configured node, in their order.
abbrev pub HasNodes : List NodeConfig → List Controller → Type 0
HasNodes [] [] = Unit {0}
HasNodes [] (c ∷ cs) = ⊥
HasNodes (n ∷ ns) [] = ⊥
HasNodes (n ∷ ns) (c ∷ cs) = IsFor n c.client × HasNodes ns cs

made_known :
    (r : Client × Outcome (Option NodeInfo)) (rest : Outcome (List Controller))
    {cs : List Controller}
    → new_known r rest ≡ ok cs
    → (made : List Controller) × (info : Option NodeInfo) × (rest ≡ ok made)
      × (new_controller r.0 info ∷ made ≡ cs)
unfolding new_known
made_known (client, ok info) (ok made) e = (made, info, refl, cc e)
made_known (client, ok info) (err m) e = cc
made_known (client, ok info) panic e = cc
made_known (client, ok info) hang e = cc
made_known (client, err m) rest e = cc
made_known (client, panic) rest e = cc
made_known (client, hang) rest e = cc

abbrev pub configs_of : List (NodeConfig × Answer) → List NodeConfig
configs_of [] = []
configs_of ((n, a) ∷ rest) = n ∷ configs_of rest

-- New makes one controller for each configured node.
pub new_nodes-HasNodes :
    (codec : Codec) (asked : List (NodeConfig × Answer)) (cs : List Controller)
    → new_nodes codec asked ≡ ok cs
    → HasNodes (configs_of asked) cs
unfolding new_nodes new_controller
new_nodes-HasNodes codec [] cs e =
    let none_made : [] ≡ cs = cc e in subst (HasNodes []) none_made tt
new_nodes-HasNodes codec ((n, a) ∷ rest) cs e =
    let (made, info, at, same) =
      made_known (get_node_info codec (new_client n) a) (new_nodes codec rest) e in
    subst (HasNodes (n ∷ configs_of rest)) same (
      get_node_info-IsFor n codec (new_client n) a (new_client-IsFor n),
      new_nodes-HasNodes codec rest made at,
    )

-- No two controllers have the same tag.
abbrev pub HasDistinctTags : List Controller → Type 0
HasDistinctTags [] = Unit {0}
HasDistinctTags (c ∷ cs) = (has_tag c.tag cs ≡ false) × HasDistinctTags cs

module _ (J Files : Type 0) (env : Env J Files) (x : Inbounds) (xray : Xray) (h : Host x xray)
    (close : Closer) where
  abbrev W : Type 0
  W = World J Files env x xray h

  -- The uuids of the users that an answer holds are distinct.
  abbrev pub SendsDistinct : Answers J → Type 0
  SendsDistinct a =
      (c : Client) (us : List UserInfo)
      → (get_user_list J env.decoder c a.users).1 ≡ ok us
      → IsDistinctUsers us

  -- A controller with its node, and with its own limiter in the registry, which has the limits of
  -- its users.
  abbrev pub IsServing : W → Controller → Type 0
  IsServing w c =
      (l : Limiter) × (node : NodeInfo) × IsServed J Files env x xray h close
        (with_controller J Files env x xray h w c) l node

  moved_IsServing :
      (v w : W)
      → lookup v.controller.tag w.registry ≡ lookup v.controller.tag v.registry
      → (l : Limiter) × (node : NodeInfo) × IsServed J Files env x xray h close v l node
      → IsServing w v.controller
  moved_IsServing v w same (l, node, s) = (
    l,
    node,
    record {
      own = s.own;
      registered = same ∙ s.registered;
      informed = s.informed;
      matches = s.matches;
      distinct = s.distinct;
    },
  )

  -- A start of some nodes that ends well, from the registry it begins with.
  record StartsAll (ns : List NodeConfig) (w : W) (r : Fleet J Files env x xray h) : Type 0 where
    nodes : HasNodes ns r.2
    serving : All (IsServing r.0) r.2
    spares :
        (tag : String) → has_tag tag r.2 ≡ false → lookup tag r.0.registry ≡ lookup tag w.registry

  next-StartsAll :
      (ns : List NodeConfig) (p : Planned J Files env x xray h)
      (ps : List (Planned J Files env x xray h)) (w : W) (next : W → Fleet J Files env x xray h)
      (r : W × Outcome (Unit {0}))
      → ((v : W)
          → r ≡ (v, ok tt)
          → ((l : Limiter) × (node : NodeInfo) × IsServed J Files env x xray h close v l node)
            × SparesOthers J Files env x xray h close w v
            × IsFor p.config v.controller.client)
      → ((v : W) → (next v).1 ≡ ok tt → HasDistinctTags (next v).2 → StartsAll ns v (next v))
      → (start_next J Files env x xray h p ps next r).1 ≡ ok tt
      → HasDistinctTags (start_next J Files env x xray h p ps next r).2
      → StartsAll (p.config ∷ ns) w (start_next J Files env x xray h p ps next r)
  unfolding start_next has_tag
  next-StartsAll ns p ps w next (v, ok _) first rest good (own, others) =
      let (served, spared, for_node) = first v refl in
      let later = rest v good others in
      record {
        nodes = (for_node, later.nodes);
        serving = (
          moved_IsServing v (next v).0 (later.spares v.controller.tag own) served,
          later.serving,
        );
        spares = λ tag free.
            let (mine, theirs) = or_false free in later.spares tag theirs ∙ spared tag mine;
      }
    where
      or_false : {a b : Bool} → (a || b) ≡ false → (a ≡ false) × (b ≡ false)
      or_false e = (ground arith, ground arith)
  next-StartsAll ns p ps w next (v, err e) first rest good distinct = cc
  next-StartsAll ns p ps w next (v, panic) first rest good distinct = cc
  next-StartsAll ns p ps w next (v, hang) first rest good distinct = cc

  abbrev pub PlansDistinct : Planned J Files env x xray h → Type 0
  PlansDistinct p = SendsDistinct p.answers

  abbrev pub configs : List (Planned J Files env x xray h) → List NodeConfig
  configs [] = []
  configs (p ∷ ps) = p.config ∷ configs ps

  starts-StartsAll :
      (ps : List (Planned J Files env x xray h)) (w : W)
      → All PlansDistinct ps
      → HasNodes (configs ps) (controllers_of J Files env x xray h ps)
      → (start_nodes J Files env x xray h close ps w).1 ≡ ok tt
      → HasDistinctTags (start_nodes J Files env x xray h close ps w).2
      → StartsAll (configs ps) w (start_nodes J Files env x xray h close ps w)
  unfolding start_nodes
  starts-StartsAll [] w sends made good distinct = record {
    nodes = tt;
    serving = tt;
    spares = λ tag free. refl;
  }
  starts-StartsAll (p ∷ ps) w (first, sends) (for_node, made) good distinct =
      let from : W = with_controller J Files env x xray h w p.controller in
      next-StartsAll (configs ps) p ps w (start_nodes J Files env x xray h close ps)
        (start J Files env x xray h close p.answers from)
        (λ v e. (
          start-IsServed J Files env x xray h close p.answers from v first e,
          start-SparesOthers J Files env x xray h close p.answers from v e,
          start-IsFor J Files env x xray h close p.config p.answers from v e for_node,
        ))
        (λ v. starts-StartsAll ps v sends made) good distinct

  -- If Start of all nodes returns no error, their controllers are for the configured nodes and no
  -- two have the same tag, then there still is one for each configured node, in their order; each has
  -- its own limiter in the registry, with the limits of its users, and the limiters of other tags
  -- are as they were.
  pub start_nodes-IsServing :
      (ps : List (Planned J Files env x xray h)) (w : W)
      → All PlansDistinct ps
      → HasNodes (configs ps) (controllers_of J Files env x xray h ps)
      → (start_nodes J Files env x xray h close ps w).1 ≡ ok tt
      → HasDistinctTags (start_nodes J Files env x xray h close ps w).2
      → HasNodes (configs ps) (start_nodes J Files env x xray h close ps w).2
        × All
            (IsServing (start_nodes J Files env x xray h close ps w).0)
            (start_nodes J Files env x xray h close ps w).2
        × ((tag : String)
            → has_tag tag (start_nodes J Files env x xray h close ps w).2 ≡ false
            → lookup tag (start_nodes J Files env x xray h close ps w).0.registry
              ≡ lookup tag w.registry)
  start_nodes-IsServing ps w sends made good distinct =
      let all = starts-StartsAll ps w sends made good distinct in
      (all.nodes, all.serving, all.spares)
