-- ===== src/Node/Monitor.antt =====
-- nodeInfoMonitor of node/task.go: one round of the task that follows the panel. What the panel
-- answers is an argument; the calls of the core are those of core/user.go.
pub mod Laws
pub mod Tests
use v2node_pro.Prelude.{
  ℕ, suc, String, Bool, true, false, ◌&&◌, ◌⊎◌, inl, inr, Option, none, some, List, [], ◌∷◌, ltb,
  if◌then◌else◌,
}
use v2node_pro.Prelude.Int.{ℤ}
use v2node_pro.Prelude.Dict.{Dict}
use v2node_pro.Prelude.Flow.{Outcome, ok, err, panic, hang}
use v2node_pro.Panel.{UserInfo}
use v2node_pro.Limiter.{Limiter, update_user}
use v2node_pro.Core.Accounts.{AccountSettings}
use v2node_pro.Core.Users.{Inbounds, V2Core, del_users, add_users}
use v2node_pro.Dispatcher.Links.{Closer}
use v2node_pro.Node.Diff.{Diff, compare_user_list}

-- A buffered channel of signals.
pub record ReloadCh : Type 0 where
  pub pending : ℕ
  pub capacity : ℕ

-- The answers of GetNodeInfo, which may be nil, of GetUserList and of GetUserAlive, whose map may be
-- nil: errors or values.
pub record Fetched : Type 0 where
  pub node_info : String ⊎ Bool
  pub user_list : String ⊎ List UserInfo
  pub alive : String ⊎ Option (Dict ℤ ℤ)

abbrev pub is_nil {ℓ} : {A : Type ℓ} → List A → Bool
is_nil [] = true
is_nil (x ∷ xs) = false

module _ (x : Inbounds) (close : Closer) where
  pub record Controller : Type 0 where
    pub core : V2Core x
    pub limiter : Limiter
    pub tag : String
    pub info : AccountSettings
    pub user_list : List UserInfo
    pub reload_ch : Option ReloadCh

  -- the signal that does not block; a nil channel is a panic
  unfoldable pub signal_reload : Controller → Controller × Outcome (Unit {0})
  signal_reload c = elim c.reload_ch [
    | none ↦ (c, panic)
    | some ch ↦
        if ltb ch.pending ch.capacity
        then (record c { reload_ch = some (record ch { pending = suc ch.pending }) }, ok tt)
        else (c, ok tt)
  ]

  -- the last part: the limiter and the list
  unfoldable pub commit : Controller → Diff → List UserInfo → Controller
  unfolding update_user
  commit c d new =
      let limiter =
        if is_nil d.added && is_nil d.deleted && is_nil d.modified
        then c.limiter
        else update_user c.limiter c.tag d.added d.deleted d.modified in
      record c { limiter = limiter; user_list = new }

  unfoldable pub after_add :
      Controller → Diff → List UserInfo → V2Core x × Outcome ℕ → Controller × Outcome (Unit {0})
  unfolding commit
  after_add c d new (core, ok n) = (commit (record c { core = core }) d new, ok tt)
  after_add c d new (core, err e) = (record c { core = core }, ok tt)
  after_add c d new (core, panic) = (record c { core = core }, panic)
  after_add c d new (core, hang) = (record c { core = core }, hang)

  -- `if len(added) > 0`
  unfoldable pub add_stage : Controller → Diff → List UserInfo → Controller × Outcome (Unit {0})
  unfolding after_add add_users
  add_stage c d new =
      if is_nil d.added
      then after_add c d new (c.core, ok 0)
      else after_add c d new (add_users x close c.core c.tag d.added c.info)

  unfoldable pub after_delete :
      Controller
      → Diff
      → List UserInfo
      → V2Core x × Outcome (Unit {0})
      → Controller × Outcome (Unit {0})
  unfolding add_stage
  after_delete c d new (core, ok _) = add_stage (record c { core = core }) d new
  after_delete c d new (core, err e) = (record c { core = core }, ok tt)
  after_delete c d new (core, panic) = (record c { core = core }, panic)
  after_delete c d new (core, hang) = (record c { core = core }, hang)

  -- `if len(deleted) > 0`
  unfoldable pub delete_stage : Controller → Diff → List UserInfo → Controller × Outcome (Unit {0})
  unfolding after_delete del_users
  delete_stage c d new =
      if is_nil d.deleted
      then after_delete c d new (c.core, ok tt)
      else after_delete c d new (del_users x close c.core d.deleted c.tag)

  -- the part after the lists are there
  unfoldable pub update_users : Controller → List UserInfo → Controller × Outcome (Unit {0})
  unfolding compare_user_list delete_stage
  update_users c new =
      if is_nil new then (c, ok tt) else delete_stage c (compare_user_list c.user_list new) new

  abbrev pub set_alive : Controller → Option (Dict ℤ ℤ) → Controller
  set_alive c (Option.none) = c
  set_alive c (Option.some alive) = record c { limiter = record c.limiter { alive_list = alive } }

  -- the part after the signal
  unfoldable pub follow_users :
      Fetched → Controller × Outcome (Unit {0}) → Controller × Outcome (Unit {0})
  unfolding update_users
  follow_users f (c, ok _) = elim f.user_list [
    | inl e ↦ (c, ok tt)
    | inr new ↦ elim f.alive [
      | inl e ↦ (c, ok tt)
      | inr alive ↦ update_users (set_alive c alive) new
    ]
  ]
  follow_users f (c, err e) = (c, err e)
  follow_users f (c, panic) = (c, panic)
  follow_users f (c, hang) = (c, hang)

  unfoldable pub node_info_monitor : Controller → Fetched → Controller × Outcome (Unit {0})
  unfolding signal_reload follow_users
  node_info_monitor c f = elim f.node_info [
    | inl e ↦ (c, ok tt)
    | inr is_new ↦ follow_users f (if is_new then signal_reload c else (c, ok tt))
  ]
