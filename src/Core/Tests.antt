-- ===== src/Core/Tests.antt =====
-- The core at concrete states.
use v2node_pro.Prelude.{
  ℕ, ◌+◌, ◌-◌, String, ◌≡◌, ◌≢◌, ◌↔◌, refl, false, none, ◌⊎◌, List, [], ◌∷◌, arith,
}
use v2node_pro.Prelude.Int.{ℤ, pos, add64, mul64}
use v2node_pro.Prelude.Eq.{string_eq, int_eq}
use v2node_pro.Prelude.Dict.{Dict, lookup, insert}
use v2node_pro.Prelude.Flow.{ok, panic, hang}
use v2node_pro.Panel.{UserInfo, find}
use v2node_pro.Format.{user_tag}
use v2node_pro.Counter.{TrafficStorage, TrafficCounter, new_storage}
use v2node_pro.Core.Traffic.{is_due, get_user_traffic_slice}
use v2node_pro.Core.Accounts.{
  User, Account, build_trojan_users, AccountSettings, build_users, build_ss_user,
}
use v2node_pro.Core.Accounts.Keys.{emails, emails-build_users, IsShort, build_ss_user-panic}
use v2node_pro.Core.Users.{Inbounds, manages_users, V2Core, remove_one, del_users_loop, del_users}
use v2node_pro.Core.Users.Deleted.{IsIdle, IsRemoving, del_users-outcome}
use v2node_pro.Core.Users.Forgotten.{lookup-del_users}
use v2node_pro.Dispatcher.Links.{Closer}

abbrev uids : Dict String ℤ
uids = ("n|a", pos 7) ∷ []

abbrev traffic : TrafficCounter
traffic = ("n|a", record { up_counter = pos 3000; down_counter = pos 500 }) ∷ []

abbrev counters : Dict String TrafficCounter
counters = ("n", traffic) ∷ []

abbrev late_bytes : TrafficStorage
late_bytes = record { up_counter = pos 40; down_counter = pos 0 }

-- The bytes that are added during the visit are in neither.
late_bytes_lost : get_user_traffic_slice uids counters "n" (pos 3) (λ email. late_bytes) ≡ (
  ("n", ("n|a", new_storage) ∷ []) ∷ [],
  record { uid = pos 7; upload = pos 3000; download = pos 500 } ∷ [],
)
unfolding get_user_traffic_slice lookup insert is_due add64 mul64
late_bytes_lost = refl

abbrev member : ℤ → String → UserInfo
member id uuid = record { id = id; uuid = uuid; speed_limit = pos 0; device_limit = pos 0 }

abbrev trojan_node : AccountSettings
trojan_node = record { type = "trojan"; flow = ""; cipher = ""; server_key = "" }

abbrev built_users : List User
built_users = record { level = 0; email = "n|a"; account = Account.trojan "a" } ∷ []

emails-build_users_example : emails built_users ≡ "n|a" ∷ []
unfolding user_tag build_users build_trojan_users
emails-build_users_example =
    emails-build_users trojan_node "n" (member (pos 7) "a" ∷ []) built_users refl

-- A UUID has 36 bytes; a shorter name is no key of 32 bytes.
build_ss_user-panic_example :
    ((build_ss_user "n" (member (pos 7) "short") "2022-blake3-aes-256-gcm" "k" ≡ panic)
      ↔ (◌≢◌ {A = String} "k" "" × IsShort "2022-blake3-aes-256-gcm" (member (pos 7) "short")))
    × ((build_ss_user "n" (member (pos 7) "short") "2022-blake3-aes-256-gcm" "k" ≡ panic)
        ⊎ ((user : User) × (build_ss_user "n" (member (pos 7) "short") "2022-blake3-aes-256-gcm" "k"
              ≡ ok user)))
build_ss_user-panic_example =
    build_ss_user-panic "n" (member (pos 7) "short") "2022-blake3-aes-256-gcm" "k"

-- An Xray that manages users under every tag, and never fails.
abbrev kind_inbounds : Inbounds
kind_inbounds = record {
  State = ℕ;
  get_handler = λ s tag. manages_users;
  to_memory_user = λ u. none;
  add_user = λ s tag u. (s + 1, none);
  remove_user = λ s tag user. (s - 1, none);
}

abbrev calling : Closer
calling f m = f m

abbrev busy_core : V2Core kind_inbounds
busy_core = record {
  ihm = 1;
  uid_map = uids;
  counter = counters;
  link_managers = ("n|a", record { links = (1, 2) ∷ []; locked = false }) ∷ [];
}

kind_inbounds-IsRemoving : IsRemoving kind_inbounds "n"
kind_inbounds-IsRemoving = record { manages = λ s. refl; removes = λ s user. refl }

busy_core-IsIdle : IsIdle busy_core
unfolding lookup
busy_core-IsIdle = record { unlocked = λ k lm e. ground arith }

-- Deleting the user whose link is open never ends.
del_users-outcome_example :
    (del_users kind_inbounds calling busy_core (member (pos 7) "a" ∷ []) "n").1 ≡ hang
unfolding user_tag lookup
del_users-outcome_example =
    del_users-outcome kind_inbounds calling (λ f m. refl) "n" kind_inbounds-IsRemoving busy_core
      (member (pos 7) "a" ∷ []) busy_core-IsIdle

abbrev quiet_core : V2Core kind_inbounds
quiet_core = record busy_core { link_managers = [] }

lookup-del_users_example :
    let w = (del_users kind_inbounds calling quiet_core (member (pos 7) "a" ∷ []) "n").0 in
    (lookup (user_tag "n" "a") w.uid_map ≡ none)
    × (lookup (user_tag "n" "a") w.link_managers ≡ none)
unfolding find del_users del_users_loop remove_one user_tag lookup
lookup-del_users_example =
    lookup-del_users kind_inbounds calling "n" quiet_core (member (pos 7) "a" ∷ []) "a" refl
