-- ===== src/Limiter/Online.antt =====
-- GetOnlineDevice of limiter/limiter.go: the report of the online addresses, and the reset.
use v2node_pro.Prelude.{String, List, [], ◌∷◌, ◌++◌}
use v2node_pro.Prelude.Int.{ℤ}
use v2node_pro.Prelude.Eq.{string_eq}
use v2node_pro.Prelude.Dict.{Dict, insert}
use v2node_pro.Panel.{OnlineUser}
use v2node_pro.Limiter.{Limiter}

-- the inner `Range`, over the addresses of one user
unfoldable pub visit_ips :
    Dict String ℤ → Dict String ℤ → List OnlineUser → Dict String ℤ × List OnlineUser
unfolding insert
visit_ips [] old out = (old, out)
visit_ips ((ip, uid) ∷ ips) old out =
    visit_ips ips (insert ip uid old) (out ++ record { uid = uid; ip = ip } ∷ [])

-- the outer `Range`; each entry is deleted when it has been visited
unfoldable pub visit_users :
    Dict String (Dict String ℤ) → Dict String ℤ → List OnlineUser → Dict String ℤ × List OnlineUser
unfolding visit_ips
visit_users [] old out = (old, out)
visit_users ((taguuid, ips) ∷ users) old out =
    let (old', out') = visit_ips ips old out in visit_users users old' out'

unfoldable pub get_online_device : Limiter → Limiter × List OnlineUser
unfolding visit_users
get_online_device l =
    let (old, out) = visit_users l.user_online_ip [] [] in
    (record l { old_user_online = old; user_online_ip = [] }, out)
