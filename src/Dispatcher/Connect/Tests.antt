-- ===== src/Dispatcher/Connect/Tests.antt =====
-- getLink and DispatchLink on a node with one user, who may use one device.
use v2node_pro.Prelude.{◌≡◌, refl, true, false, none, some, [], ◌∷◌}
use v2node_pro.Prelude.Int.{pos}
use v2node_pro.Prelude.Dict.{lookup, insert}
use v2node_pro.Limiter.{add_limiter}
use v2node_pro.Limiter.Connect.{check_limit}
use v2node_pro.Dispatcher.Connect.{
  manager_of, Dispatcher, Link, Inbound, user_of, pipe, pipe_reader,
}
use v2node_pro.Dispatcher.Connect.Registration.{decision, bucket_of}

abbrev pub idle : Dispatcher
idle = record {
  limiters =
      (add_limiter [] "vless" "t"
        (record { id = pos 7; uuid = "u"; speed_limit = pos 8; device_limit = pos 0 } ∷ []) []).0;
  counter = [];
  link_managers = [];
}

abbrev pub from_user : Inbound
from_user = record { tag = "t"; email = some "t|u"; source_ip = "10.0.0.1"; is_tcp = true }

abbrev from_stranger : Inbound
from_stranger = record { tag = "t"; email = some "t|x"; source_ip = "10.0.0.1"; is_tcp = true }

abbrev pub raw_link : Link
raw_link = record { reader = pipe_reader 5; writer = pipe 6 }

pub session_user : user_of (some from_user) ≡ some (from_user, "t|u")
unfolding user_of
session_user = refl

session_stranger : user_of (some from_stranger) ≡ some (from_stranger, "t|x")
unfolding user_of
session_stranger = refl

pub user_is_let_in : bucket_of (decision idle from_user "t|u" (pos 100)) ≡ some (some 0)
unfolding bucket_of decision add_limiter check_limit lookup insert
user_is_let_in = refl

stranger_is_refused : bucket_of (decision idle from_stranger "t|x" (pos 100)) ≡ none
unfolding bucket_of decision add_limiter check_limit lookup insert
stranger_is_refused = refl

pub idle_is_unlocked : (manager_of idle "t|u").locked ≡ false
unfolding manager_of
idle_is_unlocked = refl
