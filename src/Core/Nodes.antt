-- ===== src/Core/Nodes.antt =====
-- core/node.go, and addInbound and removeInbound of core/inbound.go: the inbound of a node comes and
-- goes. Xray's builder, its objects and its inbound manager are the parameter `Host`; the time limits
-- of its calls are left out.
use v2node_pro.Prelude.{ℕ, String, Option, none, some, List}
use v2node_pro.Prelude.Flow.{err}
use v2node_pro.Prelude.Stateful.{M, run, named_error, ended}
use v2node_pro.Panel.NodeInfo.{NodeInfo}
use v2node_pro.Core.Inbound.Types.{Xray, InboundDetour}
use v2node_pro.Core.Inbound.Build.{build_inbound}
use v2node_pro.Core.Users.{Inbounds}

-- Build; CreateObject, with an error if it makes no inbound handler; AddHandler and RemoveHandler
pub record Host (x : Inbounds) (xray : Xray) : Type 1 where
  pub Config : Type 0
  pub build : InboundDetour xray → Option Config
  pub create_object : Config → Option String
  pub add_handler : x.State → Config → x.State × Option String
  pub remove_handler : x.State → String → x.State × Option String

module _ (x : Inbounds) (xray : Xray) (h : Host x xray) where
  unfoldable pub add_inbound : h.Config → M x.State (Unit {0})
  add_inbound config s = elim (h.create_object config) [
    | some e ↦ (s, err e)
    | none ↦ ended (h.add_handler s config)
  ]

  unfoldable pub remove_inbound : String → M x.State (Unit {0})
  remove_inbound tag s = ended (h.remove_handler s tag)

  -- `random` is what crypto/rand gives to the key of a shadowsocks inbound.
  unfoldable pub add_node : Option (List ℕ) → String → NodeInfo → M x.State (Unit {0})
  unfolding build_inbound add_inbound
  add_node random tag info s =
      run (λ config s. named_error "add inbound error: " (add_inbound config s))
        (named_error "build inbound error: " (s, build_inbound xray h.build random info tag))

  unfoldable pub del_node : String → M x.State (Unit {0})
  unfolding remove_inbound
  del_node tag s = named_error "remove in error: " (remove_inbound tag s)
