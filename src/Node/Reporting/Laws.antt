-- ===== src/Node/Reporting/Laws.antt =====
-- What a report of the node tells the panel, and what it costs if the panel is not there.
use v2node_pro.Prelude.{
  String, ◌≡◌, refl, sym, ◌∙◌, ap, Bool, true, false, ◌&&◌, ◌||◌, Option, none, some, is_some, List,
  [], ◌∷◌, ◌++◌, if◌then◌else◌, arith, append_assoc, append_nil,
}
use v2node_pro.Prelude.Int.{ℤ, ltb_ℤ, add64, mul64}
use v2node_pro.Prelude.Eq.{◌==◌, ==_iff, int_eq}
use v2node_pro.Prelude.Dict.{Dict, lookup, insert, lookup-insert, lookup-nil}
use v2node_pro.Panel.{UserTraffic, OnlineUser}
use v2node_pro.Panel.NodeInfo.{BaseConfig}
use v2node_pro.Counter.{TrafficStorage, TrafficCounter}
use v2node_pro.Core.Traffic.{get_user_traffic_slice}
use v2node_pro.Limiter.{Limiter}
use v2node_pro.Limiter.Online.{get_online_device}
use v2node_pro.Node.Reporting.{
  bodies_of, traffic_data, nocount_uids, counted_devices, ips_at, add_ip, online_data, Body,
  node_report_min, device_online_min, report_user_traffic_task,
}

-- The addresses of a user in a list of devices, in their order.
unfoldable pub ips_of : ℤ → List OnlineUser → List String
ips_of uid [] = []
ips_of uid (o ∷ os) = if o.uid == uid then o.ip ∷ ips_of uid os else ips_of uid os

-- The user's traffic is in the slice and under the minimum, in some entry.
unfoldable pub is_idle : ℤ → ℤ → List UserTraffic → Bool
is_idle devicemin uid [] = false
is_idle devicemin uid (t ∷ ts) =
    (t.uid == uid && ltb_ℤ (add64 t.upload t.download) (mul64 devicemin 1000))
    || is_idle devicemin uid ts

nocount_uids-is_idle :
    (devicemin uid : ℤ) (ts : List UserTraffic) (uids : Dict ℤ (Unit {0}))
    → is_some (lookup uid (nocount_uids devicemin ts uids))
      ≡ (is_idle devicemin uid ts || is_some (lookup uid uids))
unfolding nocount_uids is_idle
nocount_uids-is_idle devicemin uid [] uids = refl
nocount_uids-is_idle devicemin uid (t ∷ ts) uids = ground (
  arith,
  nocount_uids-is_idle devicemin uid ts uids,
  nocount_uids-is_idle devicemin uid ts (insert t.uid tt uids),
  lookup-insert t.uid uid tt uids,
)

ips_of-counted_devices :
    (uid : ℤ) (uids : Dict ℤ (Unit {0})) (os : List OnlineUser)
    → ips_of uid (counted_devices uids os)
      ≡ (if is_some (lookup uid uids) then [] else ips_of uid os)
unfolding ips_of counted_devices
ips_of-counted_devices uid uids [] = ground arith
ips_of-counted_devices uid uids (o ∷ os) =
    ground (arith, ips_of-counted_devices uid uids os, ==_iff o.uid uid)

ips_at-add_ip :
    (uid : ℤ) (o : OnlineUser) (m : Dict ℤ (List String))
    → ips_at (add_ip o m) uid ≡ ips_at m uid ++ (if o.uid == uid then o.ip ∷ [] else [])
unfolding add_ip ips_at
ips_at-add_ip uid o m = ground (
  arith,
  ==_iff o.uid uid,
  lookup-insert o.uid uid (ips_at m o.uid ++ (o.ip ∷ [])) m,
  append_nil (ips_at m uid),
)

ips_at-online_data :
    (uid : ℤ) (os : List OnlineUser) (m : Dict ℤ (List String))
    → ips_at (online_data os m) uid ≡ ips_at m uid ++ ips_of uid os
unfolding online_data ips_of
ips_at-online_data uid [] m = sym (append_nil (ips_at m uid))
ips_at-online_data uid (o ∷ os) m =
    ips_at-online_data uid os (add_ip o m)
    ∙ ap (λ ips. ips ++ ips_of uid os) (ips_at-add_ip uid o m)
    ∙ append_assoc (ips_at m uid) (if o.uid == uid then o.ip ∷ [] else []) (ips_of uid os)
    ∙ ap (λ ips. ips_at m uid ++ ips) (ground arith)

ips_at-nil : (uid : ℤ) → ips_at [] uid ≡ []
unfolding ips_at
ips_at-nil uid = ground (arith, lookup-nil {V = List String} uid)

-- The last entry of a user in a slice.
unfoldable pub last_traffic : ℤ → List UserTraffic → Option (ℤ × ℤ)
last_traffic uid [] = none
last_traffic uid (t ∷ ts) = elim (last_traffic uid ts) [
  | some r ↦ some r
  | none ↦ if t.uid == uid then some (t.upload, t.download) else none
]

lookup-traffic_data :
    (uid : ℤ) (ts : List UserTraffic) (m : Dict ℤ (ℤ × ℤ))
    → lookup uid (traffic_data ts m)
      ≡ (elim (last_traffic uid ts) [ none ↦ lookup uid m | some r ↦ some r ])
unfolding traffic_data last_traffic
lookup-traffic_data uid [] m = refl
lookup-traffic_data uid (t ∷ ts) m = ground (
  arith,
  lookup-traffic_data uid ts (insert t.uid (t.upload, t.download) m),
  lookup-insert t.uid uid (t.upload, t.download) m,
)

-- What the panel has been told of a user.
unfoldable pub told_traffic : ℤ → List Body → Option (ℤ × ℤ)
told_traffic uid [] = none
told_traffic uid (Body.traffic m ∷ bodies) = lookup uid m
told_traffic uid (Body.online m ∷ bodies) = told_traffic uid bodies

unfoldable pub told_ips : ℤ → List Body → List String
told_ips uid [] = []
told_ips uid (Body.traffic m ∷ bodies) = told_ips uid bodies
told_ips uid (Body.online m ∷ bodies) = ips_at m uid

-- The devices of a user that a report names.
reported_ips :
    (uid devicemin : ℤ) (slice : List UserTraffic) (devices : List OnlineUser)
    → ips_at (online_data (counted_devices (nocount_uids devicemin slice []) devices) []) uid
      ≡ (if is_idle devicemin uid slice then [] else ips_of uid devices)
reported_ips uid devicemin slice devices = ground (
  arith,
  ips_at-online_data uid (counted_devices (nocount_uids devicemin slice []) devices) [],
  ips_at-nil uid,
  ips_of-counted_devices uid (nocount_uids devicemin slice []) devices,
  nocount_uids-is_idle devicemin uid slice [],
  lookup-nil {V = Unit {0}} uid,
)

told-bodies :
    (uid devicemin : ℤ) (slice : List UserTraffic) (devices : List OnlineUser)
    → (told_traffic uid (bodies_of (λ b. true) devicemin slice devices) ≡ last_traffic uid slice)
      × (told_ips uid (bodies_of (λ b. true) devicemin slice devices)
          ≡ (if is_idle devicemin uid slice then [] else ips_of uid devices))
unfolding bodies_of told_traffic told_ips last_traffic ips_of is_idle
told-bodies uid devicemin [] [] = (refl, refl)
told-bodies uid devicemin [] (d ∷ ds) = (refl, reported_ips uid devicemin [] (d ∷ ds))
told-bodies uid devicemin (t ∷ ts) [] =
    (lookup-traffic_data uid (t ∷ ts) [] ∙ ground (arith, lookup-nil {V = ℤ × ℤ} uid), ground arith)
told-bodies uid devicemin (t ∷ ts) (d ∷ ds) = (
  lookup-traffic_data uid (t ∷ ts) [] ∙ ground (arith, lookup-nil {V = ℤ × ℤ} uid),
  reported_ips uid devicemin (t ∷ ts) (d ∷ ds),
)

told-nothing :
    (devicemin : ℤ) (slice : List UserTraffic) (devices : List OnlineUser)
    → bodies_of (λ b. false) devicemin slice devices ≡ []
unfolding bodies_of
told-nothing devicemin [] [] = refl
told-nothing devicemin [] (d ∷ ds) = refl
told-nothing devicemin (t ∷ ts) [] = refl
told-nothing devicemin (t ∷ ts) (d ∷ ds) = refl

-- If both requests get through, the panel is told of each user the last traffic that the slice of
-- GetUserTrafficSlice has for its uid, and all addresses that GetOnlineDevice gives for it, in their
-- order; but no address of a user for whom the slice has traffic under the minimum for a device.
-- If neither gets through, the panel is told nothing, and the counters and the limiter are
-- afterwards the same as if both had.
pub report_user_traffic_task_lem :
    (config : Option BaseConfig) (uid_map : Dict String ℤ) (counter : Dict String TrafficCounter)
    (limiter : Limiter) (tag : String) (late : String → TrafficStorage) (uid : ℤ)
    → let slice = (get_user_traffic_slice uid_map counter tag (node_report_min config) late).1 in
      let done = report_user_traffic_task (λ b. true) config uid_map counter limiter tag late in
      let failed = report_user_traffic_task (λ b. false) config uid_map counter limiter tag late in
      (told_traffic uid done.bodies ≡ last_traffic uid slice)
      × (told_ips uid done.bodies ≡ (
          if is_idle (device_online_min config) uid slice
          then []
          else ips_of uid (get_online_device limiter).1))
      × (failed.bodies ≡ [])
      × (failed.counter ≡ done.counter)
      × (failed.limiter ≡ done.limiter)
unfolding report_user_traffic_task
report_user_traffic_task_lem config uid_map counter limiter tag late uid =
    let slice = (get_user_traffic_slice uid_map counter tag (node_report_min config) late).1 in
    let devices = (get_online_device limiter).1 in
    let (traffic_told, ips_told) = told-bodies uid (device_online_min config) slice devices in
    (traffic_told, ips_told, told-nothing (device_online_min config) slice devices, refl, refl)
