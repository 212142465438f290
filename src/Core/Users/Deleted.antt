-- ===== src/Core/Users/Deleted.antt =====
-- What DelUsers does to the maps of the core, and when it does not come back.
use v2node_pro.Prelude.{
  String, ◌≡◌, refl, Bool, false, ◌||◌, not, Option, none, some, List, [], ◌∷◌, arith,
  if◌then◌else◌, Option-cases, inl, inr, Bool-cases,
}
use v2node_pro.Prelude.Eq.{==_iff, string_eq}
use v2node_pro.Prelude.Dict.{lookup, erase}
use v2node_pro.Prelude.Flow.{Outcome, ok, hang}
use v2node_pro.Panel.{UserInfo}
use v2node_pro.Format.{user_tag}
use v2node_pro.Core.Users.{
  Inbounds, manages_users, V2Core, drop_counter, drop_links, remove_one, del_users_loop, del_users,
}
use v2node_pro.Core.Users.Forgotten.{Removed, round-Removed}
use v2node_pro.Dispatcher.Links.{LinkManager, Closer, CallsClose}
use v2node_pro.Dispatcher.Links.Laws.{is_empty, close_all_lem}

abbrev has_links : Option LinkManager → Bool
has_links none = false
has_links (some lm) = not (is_empty lm.links)

-- The user under a key has an open link.
abbrev pub is_connected : {x : Inbounds} → V2Core x → String → Bool
is_connected vc key = has_links (lookup key vc.link_managers)

abbrev pub any_connected : {x : Inbounds} → V2Core x → String → List UserInfo → Bool
any_connected vc tag [] = false
any_connected vc tag (u ∷ us) = is_connected vc (user_tag tag u.uuid) || any_connected vc tag us

-- No operation on a link manager is under way.
pub record IsIdle {x : Inbounds} (vc : V2Core x) : Type 0 where
  pub unlocked :
      (k : String) (lm : LinkManager) → lookup k vc.link_managers ≡ some lm → lm.locked ≡ false

-- Xray has the users, and removes each without an error.
pub record IsRemoving (x : Inbounds) (tag : String) : Type 0 where
  pub manages : (s : x.State) → x.get_handler s tag ≡ manages_users
  pub removes : (s : x.State) (user : String) → (x.remove_user s tag user).1 ≡ none

module _ (x : Inbounds) (close : Closer) (calls : CallsClose close) where
  drop_links-outcome :
      (user : String) (vc : V2Core x)
      → IsIdle vc
      → (drop_links x close user vc).1 ≡ (if is_connected vc user then hang else ok tt)
  unfolding drop_links
  drop_links-outcome user vc idle = elim (Option-cases (lookup user vc.link_managers)) [
    | inl e ↦ ground (arith, e)
    | inr (lm, e) ↦ ground (arith, e, close_all_lem close lm calls (idle.unlocked user lm e))
  ]

  module _ (tag : String) (removing : IsRemoving x tag) where
    abbrev round : UserInfo → V2Core x → V2Core x × Outcome (Unit {0})
    round u vc = remove_one x close tag (user_tag tag u.uuid) vc

    abbrev before_links : UserInfo → V2Core x → V2Core x
    before_links u vc = record vc {
      ihm = (x.remove_user vc.ihm tag (user_tag tag u.uuid)).0;
      uid_map = erase (user_tag tag u.uuid) vc.uid_map;
      counter = drop_counter tag (user_tag tag u.uuid) vc.counter;
    }

    round_lem :
        (u : UserInfo) (vc : V2Core x)
        → round u vc ≡ drop_links x close (user_tag tag u.uuid) (before_links u vc)
    unfolding remove_one
    round_lem u vc = rw (removing.removes vc.ihm (user_tag tag u.uuid), remove_one)

    round-outcome :
        (u : UserInfo) (vc : V2Core x)
        → IsIdle vc
        → (round u vc).1 ≡ (if is_connected vc (user_tag tag u.uuid) then hang else ok tt)
    round-outcome u vc idle = rw (round_lem u vc) (
        drop_links-outcome (user_tag tag u.uuid) (before_links u vc)
          (record { unlocked = idle.unlocked }))

    module _ {u : UserInfo} {v w : V2Core x} (r : Removed x close tag u v w) where
      Removed-IsIdle : IsIdle v → IsIdle w
      Removed-IsIdle idle = record {
        unlocked = λ k lm e. ground (arith, e, r.managers k, idle.unlocked k lm);
      }

      Removed-is_connected :
          (k : String)
          → is_connected v (user_tag tag u.uuid) ≡ false
          → is_connected w k ≡ is_connected v k
      Removed-is_connected k h = ground (arith, h, r.managers k, ==_iff (user_tag tag u.uuid) k)

      Removed-any_connected :
          (us : List UserInfo)
          → is_connected v (user_tag tag u.uuid) ≡ false
          → any_connected w tag us ≡ any_connected v tag us
      Removed-any_connected [] h = refl
      Removed-any_connected (t ∷ us) h =
          ground (arith, Removed-is_connected (user_tag tag t.uuid) h, Removed-any_connected us h)

    loop-outcome :
        (us : List UserInfo) (vc : V2Core x)
        → IsIdle vc
        → (del_users_loop x close tag us vc).1 ≡ (if any_connected vc tag us then hang else ok tt)
    unfolding del_users_loop
    loop-outcome [] vc idle = refl
    loop-outcome (u ∷ us) vc idle = elim (Bool-cases (is_connected vc (user_tag tag u.uuid))) [
      | inl e ↦ ground (arith, e, round-outcome u vc idle)
      | inr e ↦
          let done : (round u vc).1 ≡ ok tt = ground (arith, e, round-outcome u vc idle) in
          let r = round-Removed x close tag u vc done in
          ground (
            arith,
            e,
            done,
            loop-outcome us (round u vc).0 (Removed-IsIdle r idle),
            Removed-any_connected r us e,
          )
    ]

    -- On an idle core, with Xray removing each user without an error: DelUsers ends exactly if none
    -- of the users has an open link. If one has, it waits for a lock that it holds itself.
    pub del_users-outcome :
        (vc : V2Core x) (us : List UserInfo)
        → IsIdle vc
        → (del_users x close vc us tag).1 ≡ (if any_connected vc tag us then hang else ok tt)
    unfolding del_users
    del_users-outcome vc us idle = ground (arith, removing.manages vc.ihm, loop-outcome us vc idle)
