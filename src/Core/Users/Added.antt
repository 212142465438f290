-- ===== src/Core/Users/Added.antt =====
-- What AddUsers leaves behind, on success and on failure.
use v2node_pro.Prelude.{String, ◌≡◌, refl, Option, none, some, List, [], ◌∷◌, arith, length}
use v2node_pro.Prelude.Int.{ℤ}
use v2node_pro.Prelude.Eq.{==_iff, string_eq}
use v2node_pro.Prelude.Dict.{Dict, lookup, insert, lookup-insert}
use v2node_pro.Prelude.Flow.{Outcome, ok, err, panic, hang, ◌>>=◌}
use v2node_pro.Panel.{UserInfo, find, IsDistinctUsers}
use v2node_pro.Format.{user_tag, user_tag-==}
use v2node_pro.Core.Accounts.{User, AccountSettings, build_users}
use v2node_pro.Core.Users.{
  Inbounds, manages_users, V2Core, fill_uids, add_one, add_users_loop, add_built, add_outcome,
  add_users,
}
use v2node_pro.Dispatcher.Links.{Closer}

abbrev pub uid_or : Option UserInfo → Option ℤ → Option ℤ
uid_or none old = old
uid_or (some u) old = some u.id

lookup-fill_uids :
    (tag k : String) (us : List UserInfo) (m : Dict String ℤ)
    → IsDistinctUsers us
    → lookup (user_tag tag k) (fill_uids tag us m) ≡ uid_or (find k us) (lookup (user_tag tag k) m)
unfolding fill_uids find
lookup-fill_uids tag k [] m d = refl
lookup-fill_uids tag k (u ∷ us) m d = ground (
  arith,
  lookup-fill_uids tag k us (insert (user_tag tag u.uuid) u.id m) d.1,
  lookup-insert (user_tag tag u.uuid) (user_tag tag k) u.id m,
  user_tag-== tag u.uuid k,
  ==_iff u.uuid k,
)

-- Xray accepts every user.
pub record IsAccepting (x : Inbounds) (tag : String) : Type 0 where
  pub manages : (s : x.State) → x.get_handler s tag ≡ manages_users
  pub converts : (u : User) → x.to_memory_user u ≡ none
  pub accepts : (s : x.State) (u : User) → (x.add_user s tag u).1 ≡ none

module _ (x : Inbounds) (close : Closer) where
  -- What stays the same from one core to another while users are handed to Xray.
  record SameMaps (v w : V2Core x) : Type 0 where
    uid_map : w.uid_map ≡ v.uid_map
    counter : w.counter ≡ v.counter
    link_managers : w.link_managers ≡ v.link_managers

  add_one-SameMaps :
      (tag : String) (u : User) (vc : V2Core x) → SameMaps vc (add_one x close tag u vc).0
  unfolding add_one
  add_one-SameMaps tag u vc = ground arith

  add_users_loop-SameMaps :
      (tag : String) (us : List User) (vc : V2Core x)
      → SameMaps vc (add_users_loop x close tag us vc).0
  unfolding add_users_loop
  add_users_loop-SameMaps tag [] vc = record {
    uid_map = refl;
    counter = refl;
    link_managers = refl;
  }
  add_users_loop-SameMaps tag (u ∷ us) vc = ground (
    arith,
    add_one-SameMaps tag u vc,
    add_users_loop-SameMaps tag us (add_one x close tag u vc).0,
  )

  add_built-SameMaps :
      (tag : String) (us : List User) (vc : V2Core x) → SameMaps vc (add_built x close tag us vc).0
  unfolding add_built
  add_built-SameMaps tag us vc = ground (arith, add_users_loop-SameMaps tag us vc)

  add_outcome-SameMaps :
      (tag : String) (vc : V2Core x) (r : Outcome (List User))
      → SameMaps vc (add_outcome x close tag vc r).0
  unfolding add_outcome
  add_outcome-SameMaps tag vc (ok us) = add_built-SameMaps tag us vc
  add_outcome-SameMaps tag vc _ = record { uid_map = refl; counter = refl; link_managers = refl }

  -- Whatever comes of it (success, an unsupported type, an error of Xray, a panic on a short uuid),
  -- AddUsers has entered the uid of each user under its key, has left every other key as it was,
  -- and has touched neither the counters nor the links. No uuid is given twice.
  pub lookup-add_users :
      (vc : V2Core x) (tag : String) (us : List UserInfo) (info : AccountSettings)
      → IsDistinctUsers us
      → (k : String)
      → let vc' = (add_users x close vc tag us info).0 in
        (lookup (user_tag tag k) vc'.uid_map
          ≡ uid_or (find k us) (lookup (user_tag tag k) vc.uid_map))
        × (vc'.counter ≡ vc.counter)
        × (vc'.link_managers ≡ vc.link_managers)
  unfolding add_users
  lookup-add_users vc tag us info d k =
      let filled : V2Core x = record vc { uid_map = fill_uids tag us vc.uid_map } in
      ground (
        arith,
        add_outcome-SameMaps tag filled (build_users info tag us),
        lookup-fill_uids tag k us vc.uid_map d,
      )

  add_users_loop-accepted :
      (tag : String) (us : List User) (vc : V2Core x)
      → IsAccepting x tag
      → (add_users_loop x close tag us vc).1 ≡ ok tt
  unfolding add_users_loop add_one
  add_users_loop-accepted tag [] vc a = refl
  add_users_loop-accepted tag (u ∷ us) vc a = ground (
    arith,
    a.converts u,
    a.accepts vc.ihm u,
    add_users_loop-accepted tag us (record vc { ihm = (x.add_user vc.ihm tag u).0 }) a,
  )

  -- If Xray accepts every user, AddUsers ends as the building of the accounts does, and on success
  -- returns how many there are.
  pub add_users-accepted :
      (vc : V2Core x) (tag : String) (us : List UserInfo) (info : AccountSettings)
      → IsAccepting x tag
      → (add_users x close vc tag us info).1 ≡ (build_users info tag us >>= λ rs. ok (length rs))
  unfolding add_users
  add_users-accepted vc tag us info a =
      accepted (record vc { uid_map = fill_uids tag us vc.uid_map }) (build_users info tag us)
    where
      accepted :
          (v : V2Core x) (r : Outcome (List User))
          → (add_outcome x close tag v r).1 ≡ (r >>= λ rs. ok (length rs))
      accepted v (ok rs) = ground (arith, a.manages v.ihm, add_users_loop-accepted tag rs v a)
      accepted v (err e) = refl
      accepted v panic = refl
      accepted v hang = refl
