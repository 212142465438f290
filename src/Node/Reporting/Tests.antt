-- ===== src/Node/Reporting/Tests.antt =====
-- A report of a node with two users, of whom one is nearly idle.
use v2node_pro.Prelude.{String, ◌≡◌, refl, true, false, Option, some, [], ◌∷◌, if◌then◌else◌}
use v2node_pro.Prelude.Int.{ℤ, pos, add64, mul64}
use v2node_pro.Prelude.Dict.{Dict, lookup, insert}
use v2node_pro.Panel.NodeInfo.{BaseConfig, missing}
use v2node_pro.Counter.{TrafficStorage, TrafficCounter, new_storage}
use v2node_pro.Core.Traffic.{get_user_traffic_slice, is_due}
use v2node_pro.Limiter.{Limiter}
use v2node_pro.Limiter.Online.{get_online_device}
use v2node_pro.Node.Reporting.{
  online, traffic, report_user_traffic_task, node_report_min, device_online_min,
}
use v2node_pro.Node.Reporting.Laws.{
  told_traffic, told_ips, last_traffic, is_idle, ips_of, report_user_traffic_task_lem,
}

abbrev config : Option BaseConfig
config = some (record {
  certificate_report = false;
  certificate_revision = "";
  push_interval = missing;
  pull_interval = missing;
  device_online_min_traffic = pos 2;
  node_report_min_traffic = pos 0;
})

abbrev uids : Dict String ℤ
uids = ("n|a", pos 7) ∷ ("n|b", pos 8) ∷ []

abbrev counters : Dict String TrafficCounter
counters =
    (
      "n",
      ("n|a", record { up_counter = pos 3000; down_counter = pos 500 })
          ∷ ("n|b", record { up_counter = pos 10; down_counter = pos 20 })
          ∷ [],
    )
    ∷ []

abbrev two_online : Limiter
two_online = record {
  nodetype = "trojan";
  speed_limit = pos 0;
  user_online_ip =
      ("n|a", ("10.0.0.1", pos 7) ∷ ("10.0.0.2", pos 7) ∷ [])
      ∷ ("n|b", ("10.0.0.3", pos 8) ∷ [])
      ∷ [];
  old_user_online = [];
  uuid_to_uid = [];
  user_limit_info = [];
  speed_limiter = [];
  alive_list = [];
  buckets = [];
  next_bucket = 0;
}

-- No connection adds anything during the report.
abbrev quiet : String → TrafficStorage
quiet email = new_storage

bodies_run :
    (report_user_traffic_task (λ b. true) config uids counters two_online "n" quiet).bodies
    ≡ traffic ((pos 7, (pos 3000, pos 500)) ∷ (pos 8, (pos 10, pos 20)) ∷ [])
      ∷ online ((pos 7, "10.0.0.1" ∷ "10.0.0.2" ∷ []) ∷ [])
      ∷ []
unfolding report_user_traffic_task lookup insert is_due add64 mul64
bodies_run = refl

report_user_traffic_task_lem_example :
    let slice = (get_user_traffic_slice uids counters "n" (node_report_min config) quiet).1 in
    let done = report_user_traffic_task (λ b. true) config uids counters two_online "n" quiet in
    let failed = report_user_traffic_task (λ b. false) config uids counters two_online "n" quiet in
    (told_traffic (pos 7) done.bodies ≡ last_traffic (pos 7) slice)
    × (told_ips (pos 7) done.bodies ≡ (
        if is_idle (device_online_min config) (pos 7) slice
        then []
        else ips_of (pos 7) (get_online_device two_online).1))
    × (failed.bodies ≡ [])
    × (failed.counter ≡ done.counter)
    × (failed.limiter ≡ done.limiter)
report_user_traffic_task_lem_example =
    report_user_traffic_task_lem config uids counters two_online "n" quiet (pos 7)
