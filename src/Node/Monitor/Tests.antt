-- ===== src/Node/Monitor/Tests.antt =====
-- A round of the monitor in which one user goes and another comes.
use v2node_pro.Prelude.{ℕ, String, ◌≡◌, refl, ◌+◌, ◌-◌, false, inr, none, [], ◌∷◌}
use v2node_pro.Prelude.Int.{ℤ, pos}
use v2node_pro.Prelude.Dict.{lookup, insert, erase}
use v2node_pro.Panel.{UserInfo, find}
use v2node_pro.Limiter.{add_limiter}
use v2node_pro.Core.Users.{Inbounds, manages_users, add_users_loop, add_one}
use v2node_pro.Core.Accounts.{build_users, build_trojan_users}
use v2node_pro.Dispatcher.Links.{Closer}
use v2node_pro.Node.Monitor.{Controller, Fetched, node_info_monitor}
use v2node_pro.Node.Monitor.Laws.{IsInStep, node_info_monitor-IsInStep}

abbrev pub kind_inbounds : Inbounds
kind_inbounds = record {
  State = ℕ;
  get_handler = λ s tag. manages_users;
  to_memory_user = λ u. none;
  add_user = λ s tag u. (s + 1, none);
  remove_user = λ s tag user. (s - 1, none);
}

abbrev pub calling : Closer
calling f m = f m

abbrev pub member : ℤ → String → UserInfo
member id uuid = record { id = id; uuid = uuid; speed_limit = pos 0; device_limit = pos 2 }

abbrev fresh : Controller kind_inbounds calling
fresh = record {
  core = record { ihm = 0; uid_map = []; counter = []; link_managers = [] };
  limiter = (add_limiter [] "trojan" "n" [] []).1;
  tag = "n";
  info = record { type = "trojan"; flow = ""; cipher = ""; server_key = "" };
  user_list = [];
  reload_ch = none;
}

abbrev pub first_list : Fetched
first_list = record {
  node_info = inr false;
  user_list = inr (member (pos 7) "a" ∷ member (pos 8) "b" ∷ []);
  alive = inr none;
}

first_round :
    (node_info_monitor kind_inbounds calling fresh first_list).0.user_list
    ≡ member (pos 7) "a" ∷ member (pos 8) "b" ∷ []
unfolding node_info_monitor lookup insert erase build_users build_trojan_users add_users_loop
    add_one
first_round = refl

fresh-IsInStep : IsInStep kind_inbounds calling fresh
unfolding add_limiter lookup find
fresh-IsInStep = record { matches = λ uuid. refl; distinct = tt }

node_info_monitor-IsInStep_example :
    IsInStep kind_inbounds calling (node_info_monitor kind_inbounds calling fresh first_list).0
unfolding find
node_info_monitor-IsInStep_example =
    node_info_monitor-IsInStep kind_inbounds calling fresh first_list fresh-IsInStep
      (refl, (refl, tt))
