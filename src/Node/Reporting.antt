-- ===== src/Node/Reporting.antt =====
-- reportUserTrafficTask of node/user.go, with the bodies that ReportUserTraffic and
-- ReportNodeOnlineUsers of api/v2board/user.go send. The panel is the parameter `accepts`, which says
-- whether a request gets through; the log of what failed is left out.
pub mod Laws
pub mod Tests
use v2node_pro.Prelude.{
  String, Bool, true, false, Option, none, some, List, [], ◌∷◌, ◌++◌, if◌then◌else◌,
}
use v2node_pro.Prelude.Int.{ℤ, pos, ltb_ℤ, add64, mul64}
use v2node_pro.Prelude.Eq.{int_eq}
use v2node_pro.Prelude.Dict.{Dict, lookup, insert}
use v2node_pro.Panel.{UserTraffic, OnlineUser}
use v2node_pro.Panel.NodeInfo.{BaseConfig}
use v2node_pro.Counter.{TrafficStorage, TrafficCounter}
use v2node_pro.Core.Traffic.{get_user_traffic_slice}
use v2node_pro.Limiter.{Limiter}
use v2node_pro.Limiter.Online.{get_online_device}

-- the body of ReportUserTraffic
unfoldable pub traffic_data : List UserTraffic → Dict ℤ (ℤ × ℤ) → Dict ℤ (ℤ × ℤ)
unfolding insert
traffic_data [] m = m
traffic_data (t ∷ ts) m = traffic_data ts (insert t.uid (t.upload, t.download) m)

-- `nocountUID`, the users whose devices do not count: their traffic was under the minimum
unfoldable pub nocount_uids : ℤ → List UserTraffic → Dict ℤ (Unit {0}) → Dict ℤ (Unit {0})
unfolding insert
nocount_uids devicemin [] uids = uids
nocount_uids devicemin (t ∷ ts) uids = nocount_uids devicemin ts (
    if ltb_ℤ (add64 t.upload t.download) (mul64 devicemin 1000) then insert t.uid tt uids else uids)

-- `result`
unfoldable pub counted_devices : Dict ℤ (Unit {0}) → List OnlineUser → List OnlineUser
unfolding lookup
counted_devices uids [] = []
counted_devices uids (o ∷ os) =
    let rest = counted_devices uids os in
    elim (lookup o.uid uids) [ none ↦ o ∷ rest | some _ ↦ rest ]

-- `data[uid]`, which is nil without an entry
unfoldable pub ips_at : Dict ℤ (List String) → ℤ → List String
unfolding lookup
ips_at m uid = elim (lookup uid m) [ none ↦ [] | some ips ↦ ips ]

-- `data[uid] = append(data[uid], ip)`
unfoldable pub add_ip : OnlineUser → Dict ℤ (List String) → Dict ℤ (List String)
unfolding ips_at insert
add_ip o m = insert o.uid (ips_at m o.uid ++ (o.ip ∷ [])) m

-- the body of ReportNodeOnlineUsers
unfoldable pub online_data : List OnlineUser → Dict ℤ (List String) → Dict ℤ (List String)
unfolding add_ip
online_data [] m = m
online_data (o ∷ os) m = online_data os (add_ip o m)

pub data Body : Type 0 where
  traffic : Dict ℤ (ℤ × ℤ) → Body
  online : Dict ℤ (List String) → Body

abbrev pub is_nil {ℓ} : {A : Type ℓ} → List A → Bool
is_nil [] = true
is_nil (x ∷ xs) = false

-- What of a request reaches the panel.
abbrev pub received : (Body → Bool) → Body → List Body
received accepts body = if accepts body then body ∷ [] else []

pub record Reported : Type 0 where
  pub counter : Dict String TrafficCounter
  pub limiter : Limiter
  pub bodies : List Body

abbrev pub node_report_min : Option BaseConfig → ℤ
node_report_min (Option.none) = pos 0
node_report_min (Option.some b) = b.node_report_min_traffic

abbrev pub device_online_min : Option BaseConfig → ℤ
device_online_min (Option.none) = pos 0
device_online_min (Option.some b) = b.device_online_min_traffic

-- the requests that get through, for a traffic slice and the devices that are online
unfoldable pub bodies_of : (Body → Bool) → ℤ → List UserTraffic → List OnlineUser → List Body
unfolding traffic_data nocount_uids counted_devices online_data
bodies_of accepts devicemin slice devices =
    let result = counted_devices (nocount_uids devicemin slice []) devices in
    (if is_nil slice then [] else received accepts (traffic (traffic_data slice [])))
    ++ (if is_nil devices then [] else received accepts (online (online_data result [])))

unfoldable pub report_user_traffic_task :
    (Body → Bool)
    → Option BaseConfig
    → Dict String ℤ
    → Dict String TrafficCounter
    → Limiter
    → (tag : String) → (late : String → TrafficStorage) → Reported
unfolding get_user_traffic_slice get_online_device bodies_of
report_user_traffic_task accepts config uid_map counter limiter tag late =
    let (counter', slice) =
      get_user_traffic_slice uid_map counter tag (node_report_min config) late in
    let (limiter', devices) = get_online_device limiter in
    record {
      counter = counter';
      limiter = limiter';
      bodies = bodies_of accepts (device_online_min config) slice devices;
    }
