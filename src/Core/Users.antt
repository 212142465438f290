-- ===== src/Core/Users.antt =====
-- GetUserManager, DelUsers and AddUsers of core/user.go.
-- Xray's inbound handlers and their user managers are the interface `Inbounds`, over a state of
-- their own. The locks of the core are left out: no method takes one while it holds one, except in
-- CloseAll, which is modelled.
pub mod Forgotten
pub mod Deleted
pub mod Added
use Prim.Native.String.{◌++◌ as text_append}
use v2node_pro.Prelude.{
  ℕ, String, Bool, true, false, Option, none, some, List, [], ◌∷◌, length, if◌then◌else◌,
}
use v2node_pro.Prelude.Int.{ℤ}
use v2node_pro.Prelude.Eq.{string_eq}
use v2node_pro.Prelude.Dict.{Dict, lookup, insert, erase}
use v2node_pro.Prelude.Flow.{Outcome, ok, err, panic, hang}
use v2node_pro.Panel.{UserInfo}
use v2node_pro.Format.{user_tag}
use v2node_pro.Counter
use v2node_pro.Counter.{TrafficCounter}
use v2node_pro.Core.Accounts.{User, AccountSettings, build_users}
use v2node_pro.Dispatcher.Links.{LinkManager, Closer, close_all}

-- What GetHandler finds under a tag.
pub data Handler : Type 0 where
  missing : String → Handler
  no_inbound : Handler
  no_user_manager : Handler
  manages_users : Handler

-- A call gives the new state and an error, or `none`.
pub record Inbounds : Type 1 where
  pub State : Type 0
  pub get_handler : State → String → Handler
  pub to_memory_user : User → Option String
  pub add_user : State → String → User → State × Option String
  pub remove_user : State → String → String → State × Option String

abbrev pub manager_error : String → String
manager_error e = text_append "get user manager error: " e

unfoldable pub get_user_manager_error : Handler → String → Option String
get_user_manager_error (missing e) tag = some (text_append "no such inbound tag: " e)
get_user_manager_error no_inbound tag =
    some (text_append "handler " (text_append tag " is not implement proxy.GetInbound"))
get_user_manager_error no_user_manager tag =
    some (text_append "handler " (text_append tag " is not implement proxy.UserManager"))
get_user_manager_error manages_users tag = none

-- The parts of V2Core and of its dispatcher that the methods change.
pub record V2Core (x : Inbounds) : Type 0 where
  pub ihm : x.State
  pub uid_map : Dict String ℤ
  pub counter : Dict String TrafficCounter
  pub link_managers : Dict String LinkManager

-- `tc.Delete(user)` on the counter of the node, if it has one
unfoldable pub drop_counter :
    String → String → Dict String TrafficCounter → Dict String TrafficCounter
drop_counter tag user counter = elim (lookup tag counter) [
  | none ↦ counter
  | some tc ↦ insert tag (Counter.delete tc user) counter
]

-- the loop of AddUsers that fills `uidMap`
unfoldable pub fill_uids : String → List UserInfo → Dict String ℤ → Dict String ℤ
fill_uids tag [] m = m
fill_uids tag (u ∷ us) m = fill_uids tag us (insert (user_tag tag u.uuid) u.id m)

module _ (x : Inbounds) (close : Closer) where
  -- `lm.CloseAll()` and the deletion of the manager, if the user has one
  unfoldable pub drop_links : String → V2Core x → V2Core x × Outcome (Unit {0})
  drop_links user vc = elim (lookup user vc.link_managers) [
    | none ↦ (vc, ok tt)
    | some lm ↦ elim (close_all close lm) [
      | ok _ ↦ (record vc { link_managers = erase user vc.link_managers }, ok tt)
      | err e ↦ (vc, err e)
      | panic ↦ (vc, panic)
      | hang ↦ (vc, hang)
    ]
  ]

  -- one round of the loop of DelUsers, behind the removal from Xray
  unfoldable pub forget_user : String → String → V2Core x → V2Core x × Outcome (Unit {0})
  unfolding drop_counter drop_links
  forget_user tag user vc =
      drop_links user
        (record vc { uid_map = erase user vc.uid_map; counter = drop_counter tag user vc.counter })

  abbrev next :
      {A : Type 0}
      → V2Core x × Outcome (Unit {0})
      → (V2Core x → V2Core x × Outcome A)
      → V2Core x × Outcome A
  next (vc, ok _) k = k vc
  next (vc, err e) k = (vc, err e)
  next (vc, panic) k = (vc, panic)
  next (vc, hang) k = (vc, hang)

  unfoldable pub remove_one : String → String → V2Core x → V2Core x × Outcome (Unit {0})
  unfolding forget_user
  remove_one tag user vc =
      let (ihm, e) = x.remove_user vc.ihm tag user in
      elim e [
        | some e ↦ (record vc { ihm = ihm }, err e)
        | none ↦ forget_user tag user (record vc { ihm = ihm })
      ]

  unfoldable pub del_users_loop : String → List UserInfo → V2Core x → V2Core x × Outcome (Unit {0})
  del_users_loop tag [] vc = (vc, ok tt)
  del_users_loop tag (u ∷ us) vc =
      next (remove_one tag (user_tag tag u.uuid) vc) (del_users_loop tag us)

  unfoldable pub del_users : V2Core x → List UserInfo → String → V2Core x × Outcome (Unit {0})
  unfolding get_user_manager_error
  del_users vc users tag = elim (get_user_manager_error (x.get_handler vc.ihm tag) tag) [
    | some e ↦ (vc, err (manager_error e))
    | none ↦ del_users_loop tag users vc
  ]

  unfoldable pub add_one : String → User → V2Core x → V2Core x × Outcome (Unit {0})
  add_one tag u vc = elim (x.to_memory_user u) [
    | some e ↦ (vc, err e)
    | none ↦
        let (ihm, e) = x.add_user vc.ihm tag u in
        elim e [
          | some e ↦ (record vc { ihm = ihm }, err e)
          | none ↦ (record vc { ihm = ihm }, ok tt)
        ]
  ]

  unfoldable pub add_users_loop : String → List User → V2Core x → V2Core x × Outcome (Unit {0})
  add_users_loop tag [] vc = (vc, ok tt)
  add_users_loop tag (u ∷ us) vc = next (add_one tag u vc) (add_users_loop tag us)

  unfoldable pub add_built : String → List User → V2Core x → V2Core x × Outcome ℕ
  unfolding get_user_manager_error
  add_built tag users vc = elim (get_user_manager_error (x.get_handler vc.ihm tag) tag) [
    | some e ↦ (vc, err (manager_error e))
    | none ↦ next (add_users_loop tag users vc) (λ vc. (vc, ok (length users)))
  ]

  -- what follows the switch on the type
  unfoldable pub add_outcome : String → V2Core x → Outcome (List User) → V2Core x × Outcome ℕ
  unfolding add_built
  add_outcome tag vc (ok us) = add_built tag us vc
  add_outcome tag vc (err e) = (vc, err e)
  add_outcome tag vc panic = (vc, panic)
  add_outcome tag vc hang = (vc, hang)

  unfoldable pub add_users :
      V2Core x → String → List UserInfo → AccountSettings → V2Core x × Outcome ℕ
  unfolding add_outcome fill_uids
  add_users vc tag users info =
      add_outcome tag (record vc { uid_map = fill_uids tag users vc.uid_map })
        (build_users info tag users)
