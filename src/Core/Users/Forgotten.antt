-- ===== src/Core/Users/Forgotten.antt =====
-- What DelUsers of core/user.go leaves of the users in the maps of the core when it ends.
use v2node_pro.Prelude.{
  String, ◌≡◌, refl, none, some, List, [], ◌∷◌, arith, if◌then◌else◌, is_some, Option-cases, inl,
  inr,
}
use v2node_pro.Prelude.Eq.{◌==◌, ==_iff, string_eq}
use v2node_pro.Prelude.Dict.{lookup, erase, lookup-erase}
use v2node_pro.Prelude.Flow.{Outcome, ok, err}
use v2node_pro.Panel.{UserInfo, find}
use v2node_pro.Format.{user_tag, user_tag-==}
use v2node_pro.Core.Users.{
  Inbounds, get_user_manager_error, V2Core, drop_counter, drop_links, remove_one, del_users_loop,
  del_users,
}
use v2node_pro.Dispatcher.Links.{Closer}

module _ (x : Inbounds) (close : Closer) where
  drop_links-managers :
      (user k : String) (vc : V2Core x)
      → (drop_links x close user vc).1 ≡ ok tt
      → lookup k (drop_links x close user vc).0.link_managers
        ≡ (if user == k then none else lookup k vc.link_managers)
  unfolding drop_links
  drop_links-managers user k vc h =
      ground (arith, h, ==_iff user k, lookup-erase user k vc.link_managers)

  drop_links-uid_map :
      (user : String) (vc : V2Core x) → (drop_links x close user vc).0.uid_map ≡ vc.uid_map
  unfolding drop_links
  drop_links-uid_map user vc = ground arith

  -- After one round that came to its end.
  pub record Removed (tag : String) (u : UserInfo) (v w : V2Core x) : Type 0 where
    pub managers :
        (k : String)
        → lookup k w.link_managers
          ≡ (if user_tag tag u.uuid == k then none else lookup k v.link_managers)
    pub uids :
        (k : String)
        → lookup k w.uid_map ≡ (if user_tag tag u.uuid == k then none else lookup k v.uid_map)

  module _ (tag : String) where
    abbrev round : UserInfo → V2Core x → V2Core x × Outcome (Unit {0})
    round u vc = remove_one x close tag (user_tag tag u.uuid) vc

    abbrev before_links : UserInfo → V2Core x → V2Core x
    before_links u vc = record vc {
      ihm = (x.remove_user vc.ihm tag (user_tag tag u.uuid)).0;
      uid_map = erase (user_tag tag u.uuid) vc.uid_map;
      counter = drop_counter tag (user_tag tag u.uuid) vc.counter;
    }

    linked-Removed :
        (u : UserInfo) (vc : V2Core x)
        → (drop_links x close (user_tag tag u.uuid) (before_links u vc)).1 ≡ ok tt
        → Removed tag u vc (drop_links x close (user_tag tag u.uuid) (before_links u vc)).0
    linked-Removed u vc h = record {
      managers = λ k. drop_links-managers (user_tag tag u.uuid) k (before_links u vc) h;
      uids = λ k.
          rw (drop_links-uid_map (user_tag tag u.uuid) (before_links u vc))
            (lookup-erase (user_tag tag u.uuid) k vc.uid_map);
    }

    removed_round :
        (u : UserInfo) (vc : V2Core x)
        → (x.remove_user vc.ihm tag (user_tag tag u.uuid)).1 ≡ none
        → round u vc ≡ drop_links x close (user_tag tag u.uuid) (before_links u vc)
    unfolding remove_one
    removed_round u vc removed = rw (removed, remove_one)

    failed_round :
        (u : UserInfo) (vc : V2Core x) (message : String)
        → (x.remove_user vc.ihm tag (user_tag tag u.uuid)).1 ≡ some message
        → (round u vc).1 ≡ err message
    unfolding remove_one
    failed_round u vc message failed = rw (remove_one, failed) refl

    pub round-Removed :
        (u : UserInfo) (vc : V2Core x) → (round u vc).1 ≡ ok tt → Removed tag u vc (round u vc).0
    round-Removed u vc h = elim (Option-cases (x.remove_user vc.ihm tag (user_tag tag u.uuid)).1) [
      | inr (message, failed) ↦ cc (failed_round u vc message failed, h)
      | inl removed ↦
          rw (removed_round u vc removed)
            (linked-Removed u vc (rw (removed_round u vc removed) at h))
    ]

    loop-maps :
        (us : List UserInfo) (vc : V2Core x) (k : String)
        → (del_users_loop x close tag us vc).1 ≡ ok tt
        → let w = (del_users_loop x close tag us vc).0 in
          (lookup (user_tag tag k) w.uid_map
            ≡ (if is_some (find k us) then none else lookup (user_tag tag k) vc.uid_map))
          × (lookup (user_tag tag k) w.link_managers
              ≡ (if is_some (find k us) then none else lookup (user_tag tag k) vc.link_managers))
    unfolding del_users_loop find
    loop-maps [] vc k h = (refl, refl)
    loop-maps (u ∷ us) vc k h =
        let done : (round u vc).1 ≡ ok tt = ground (arith, h) in
        let r = round-Removed u vc done in
        let rest : (del_users_loop x close tag us (round u vc).0).1 ≡ ok tt =
          ground (arith, h, done) in
        ground (
          arith,
          done,
          loop-maps us (round u vc).0 k rest,
          r.uids (user_tag tag k),
          r.managers (user_tag tag k),
          user_tag-== tag u.uuid k,
        )

    -- When DelUsers ends without an error, the users have neither a uid nor a link manager any
    -- more, and the other users of the node have kept theirs.
    pub lookup-del_users :
        (vc : V2Core x) (us : List UserInfo) (k : String)
        → (del_users x close vc us tag).1 ≡ ok tt
        → let w = (del_users x close vc us tag).0 in
          (lookup (user_tag tag k) w.uid_map
            ≡ (if is_some (find k us) then none else lookup (user_tag tag k) vc.uid_map))
          × (lookup (user_tag tag k) w.link_managers
              ≡ (if is_some (find k us) then none else lookup (user_tag tag k) vc.link_managers))
    unfolding del_users
    lookup-del_users vc us k h =
        elim (Option-cases (get_user_manager_error (x.get_handler vc.ihm tag) tag)) [
          | inr (message, failed) ↦ cc (rw (del_users, failed) at h)
          | inl managed ↦ rw (del_users, managed) (loop-maps us vc k (rw (del_users, managed) at h))
        ]
