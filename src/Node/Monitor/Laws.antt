-- ===== src/Node/Monitor/Laws.antt =====
-- The monitor keeps the limiter in step with the controller's user list, whatever fails.
use v2node_pro.Prelude.{
  ℕ, String, ◌≡◌, refl, sym, subst, Bool, true, false, ◌⊎◌, inl, inr, suc, ltb, Option, some, List,
  [], ◌∷◌, if◌then◌else◌, ◌&&◌,
}
use v2node_pro.Prelude.Int.{ℤ}
use v2node_pro.Prelude.Dict.{Dict}
use v2node_pro.Prelude.Flow.{Outcome, ok, err, panic, hang}
use v2node_pro.Panel.{UserInfo, IsDistinctUsers}
use v2node_pro.Limiter.{Limiter, update_user}
use v2node_pro.Core.Users.{Inbounds, V2Core, del_users, add_users}
use v2node_pro.Dispatcher.Links.{Closer}
use v2node_pro.Node.Diff.{Diff, compare_user_list}
use v2node_pro.Node.Sync.{Matches, apply_diff-Matches}
use v2node_pro.Node.Monitor.{
  Controller, ReloadCh, Fetched, is_nil, signal_reload, commit, after_add, add_stage, after_delete,
  delete_stage, update_users, set_alive, follow_users, node_info_monitor,
}

-- The users that the panel sends, if it sends any, have distinct uuids.
abbrev pub IsDistinctAnswer : String ⊎ List UserInfo → Type 0
IsDistinctAnswer (inl e) = Unit
IsDistinctAnswer (inr new) = IsDistinctUsers new

unless_nil :
    (l : Limiter) (tag : String) (added deleted modified : List UserInfo)
    → (if is_nil added && is_nil deleted && is_nil modified
        then l
        else update_user l tag added deleted modified)
      ≡ update_user l tag added deleted modified
unfolding update_user
unless_nil l tag [] [] [] = refl
unless_nil l tag [] [] (u ∷ us) = refl
unless_nil l tag [] (u ∷ us) modified = refl
unless_nil l tag (u ∷ us) deleted modified = refl

module _ (x : Inbounds) (close : Closer) where
  -- The limiter has the limits of the controller's users, whose uuids are distinct.
  pub record IsInStep (c : Controller x close) : Type 0 where
    pub matches : Matches c.limiter c.tag c.user_list
    pub distinct : IsDistinctUsers c.user_list

  commit-IsInStep :
      (c : Controller x close) (new : List UserInfo)
      → IsInStep c
      → IsDistinctUsers new
      → IsInStep (commit x close c (compare_user_list c.user_list new) new)
  unfolding commit
  commit-IsInStep c new s d =
      let diff : Diff = compare_user_list c.user_list new in
      record {
        matches =
            subst (λ l. Matches l c.tag new)
              (sym (unless_nil c.limiter c.tag diff.added diff.deleted diff.modified))
              (apply_diff-Matches c.limiter c.tag c.user_list new s.distinct d s.matches);
        distinct = d;
      }

  if-IsInStep :
      (test : Bool) (r r' : Controller x close × Outcome (Unit {0}))
      → IsInStep r.0
      → IsInStep r'.0
      → IsInStep (if test then r else r').0
  if-IsInStep true r r' s s' = s
  if-IsInStep false r r' s s' = s'

  -- The same controller with another core.
  on_core :
      (c : Controller x close) (core : V2Core x) → IsInStep c → IsInStep (record c { core = core })
  on_core c core s = record { matches = s.matches; distinct = s.distinct }

  after_add-IsInStep :
      (c : Controller x close) (new : List UserInfo) (r : V2Core x × Outcome ℕ)
      → IsInStep c
      → IsDistinctUsers new
      → IsInStep (after_add x close c (compare_user_list c.user_list new) new r).0
  unfolding after_add
  after_add-IsInStep c new (core, ok n) s d =
      commit-IsInStep (record c { core = core }) new (on_core c core s) d
  after_add-IsInStep c new (core, err e) s d = on_core c core s
  after_add-IsInStep c new (core, panic) s d = on_core c core s
  after_add-IsInStep c new (core, hang) s d = on_core c core s

  add_stage-IsInStep :
      (c : Controller x close) (new : List UserInfo)
      → IsInStep c
      → IsDistinctUsers new
      → IsInStep (add_stage x close c (compare_user_list c.user_list new) new).0
  unfolding add_stage
  add_stage-IsInStep c new s d =
      let diff : Diff = compare_user_list c.user_list new in
      let none_added : V2Core x × Outcome ℕ = (c.core, ok 0) in
      let all_added : V2Core x × Outcome ℕ = add_users x close c.core c.tag diff.added c.info in
      if-IsInStep (is_nil diff.added) (after_add x close c diff new none_added)
        (after_add x close c diff new all_added) (after_add-IsInStep c new none_added s d)
        (after_add-IsInStep c new all_added s d)

  after_delete-IsInStep :
      (c : Controller x close) (new : List UserInfo) (r : V2Core x × Outcome (Unit {0}))
      → IsInStep c
      → IsDistinctUsers new
      → IsInStep (after_delete x close c (compare_user_list c.user_list new) new r).0
  unfolding after_delete
  after_delete-IsInStep c new (core, ok _) s d =
      add_stage-IsInStep (record c { core = core }) new (on_core c core s) d
  after_delete-IsInStep c new (core, err e) s d = on_core c core s
  after_delete-IsInStep c new (core, panic) s d = on_core c core s
  after_delete-IsInStep c new (core, hang) s d = on_core c core s

  delete_stage-IsInStep :
      (c : Controller x close) (new : List UserInfo)
      → IsInStep c
      → IsDistinctUsers new
      → IsInStep (delete_stage x close c (compare_user_list c.user_list new) new).0
  unfolding delete_stage
  delete_stage-IsInStep c new s d =
      let diff : Diff = compare_user_list c.user_list new in
      let none_deleted : V2Core x × Outcome (Unit {0}) = (c.core, ok tt) in
      let all_deleted : V2Core x × Outcome (Unit {0}) =
        del_users x close c.core diff.deleted c.tag in
      if-IsInStep (is_nil diff.deleted) (after_delete x close c diff new none_deleted)
        (after_delete x close c diff new all_deleted) (after_delete-IsInStep c new none_deleted s d)
        (after_delete-IsInStep c new all_deleted s d)

  update_users-IsInStep :
      (c : Controller x close) (new : List UserInfo)
      → IsInStep c
      → IsDistinctUsers new
      → IsInStep (update_users x close c new).0
  unfolding update_users
  update_users-IsInStep c new s d =
      if-IsInStep (is_nil new) (c, ok tt)
        (delete_stage x close c (compare_user_list c.user_list new) new) s
        (delete_stage-IsInStep c new s d)

  set_alive-IsInStep :
      (c : Controller x close) (alive : Option (Dict ℤ ℤ))
      → IsInStep c
      → IsInStep (set_alive x close c alive)
  set_alive-IsInStep c (Option.none) s = s
  set_alive-IsInStep c (Option.some a) s = record { matches = s.matches; distinct = s.distinct }

  users-IsInStep :
      (f : Fetched) (c : Controller x close) (list : String ⊎ List UserInfo)
      (alive : String ⊎ Option (Dict ℤ ℤ))
      → f.user_list ≡ list
      → f.alive ≡ alive
      → IsInStep c
      → IsDistinctAnswer list
      → IsInStep (follow_users x close f (c, ok tt)).0
  unfolding follow_users
  users-IsInStep f c (inl e) alive el ea s d = rw el s
  users-IsInStep f c (inr new) (inl e) el ea s d = rw (el, ea) s
  users-IsInStep f c (inr new) (inr a) el ea s d =
      rw (el, ea) (update_users-IsInStep (set_alive x close c a) new (set_alive-IsInStep c a s) d)

  signal_reload-IsInStep :
      (c : Controller x close) → IsInStep c → IsInStep (signal_reload x close c).0
  unfolding signal_reload
  signal_reload-IsInStep c s = signalled c.reload_ch
    where
      signalled :
          (ch : Option ReloadCh) → IsInStep (signal_reload x close (record c { reload_ch = ch })).0
      signalled (Option.none) = record { matches = s.matches; distinct = s.distinct }
      signalled (Option.some ch) =
          if-IsInStep (ltb ch.pending ch.capacity)
            (record c { reload_ch = some (record ch { pending = suc ch.pending }) }, ok tt)
            (record c { reload_ch = some ch }, ok tt)
            (record { matches = s.matches; distinct = s.distinct })
            (record { matches = s.matches; distinct = s.distinct })

  follow_users-IsInStep :
      (f : Fetched) (r : Controller x close × Outcome (Unit {0}))
      → IsInStep r.0
      → IsDistinctAnswer f.user_list
      → IsInStep (follow_users x close f r).0
  unfolding follow_users
  follow_users-IsInStep f (c, ok _) s d = users-IsInStep f c f.user_list f.alive refl refl s d
  follow_users-IsInStep f (c, err e) s d = s
  follow_users-IsInStep f (c, panic) s d = s
  follow_users-IsInStep f (c, hang) s d = s

  -- If the limiter has the limits of exactly the users of the controller's list, then so it has
  -- after a round of the monitor, with whatever list the controller holds then: whichever request to
  -- the panel fails, whichever call of the core ends with an error, a panic or a hang. The uuids of
  -- the list that the panel sends are distinct.
  pub node_info_monitor-IsInStep :
      (c : Controller x close) (f : Fetched)
      → IsInStep c
      → IsDistinctAnswer f.user_list
      → IsInStep (node_info_monitor x close c f).0
  unfolding node_info_monitor
  node_info_monitor-IsInStep c f s d = asked f.node_info
    where
      asked :
          (answer : String ⊎ Bool)
          → IsInStep (node_info_monitor x close c (record f { node_info = answer })).0
      asked (inl e) = s
      asked (inr is_new) =
          follow_users-IsInStep (record f { node_info = inr is_new })
            (if is_new then signal_reload x close c else (c, ok tt))
            (if-IsInStep is_new (signal_reload x close c) (c, ok tt) (signal_reload-IsInStep c s) s)
            d
