-- ===== src/Dispatcher/Connect/Registration.antt =====
-- core/app/dispatcher/default.go: what is left of a connection that was refused, and what is
-- registered of one that was admitted.
use v2node_pro.Prelude.{
  ℕ, String, ◌≡◌, refl, false, Option, none, some, List, [], ◌∷◌, if◌then◌else◌, arith, ap, ◌∙◌,
  ◌&&◌, ◌⊎◌, inl, inr, Option-cases,
}
use v2node_pro.Prelude.Int.{ℤ}
use v2node_pro.Prelude.Eq.{◌==◌, ==_iff, ==_refl, string_eq, nat_eq}
use v2node_pro.Prelude.Dict.{lookup, insert, lookup-insert, lookup-nil}
use v2node_pro.Prelude.Flow.{ok}
use v2node_pro.Counter.{TrafficCounter, TrafficStorage, new_storage, get_counter}
use v2node_pro.Limiter.{Registry, Limiter, get_limiter}
use v2node_pro.Limiter.Connect.{Check, reject, admit, check_limit}
use v2node_pro.Dispatcher.Links.{add_link}
use v2node_pro.Dispatcher.Connect.{
  Dispatcher, counter_of, Direction, Writer, Reader, Inbound, check_user, manager_of, register_link,
  register_user,
}

-- The decision on a user's connection, and the node's limiter after it.
unfoldable pub decision : Dispatcher → Inbound → String → ℤ → Option (Limiter × Check)
decision d inbound email now = elim (lookup inbound.tag d.limiters) [
  | none ↦ none
  | some l ↦ some (check_limit l email inbound.source_ip inbound.is_tcp now)
]

-- The user's entry in the counter of a tag.
unfoldable pub storage_of : Dispatcher → String → String → Option TrafficStorage
storage_of d tag user = elim (lookup tag d.counter) [ none ↦ none | some t ↦ lookup user t ]

Check-cases : (c : Check) → (c ≡ reject) ⊎ ((w : Option ℕ) × (c ≡ admit w))
Check-cases (Check.reject) = inl refl
Check-cases (Check.admit w) = inr (w, refl)

-- The bucket of a user that is let in, which may be none.
unfoldable pub bucket_of : Option (Limiter × Check) → Option (Option ℕ)
bucket_of (Option.none) = none
bucket_of (Option.some (l, Check.reject)) = none
bucket_of (Option.some (l, Check.admit w)) = some w

-- The counts that a byte adds to on its way through a writer, and the buckets that it waits for.
unfoldable pub counts : Writer → List (Direction × String × String)
counts (Writer.pipe n) = []
counts (Writer.managed n user w) = counts w
counts (Writer.limited b w) = counts w
counts (Writer.counted direction tag user w) = (direction, tag, user) ∷ counts w

unfoldable pub read_counts : Reader → List (Direction × String × String)
read_counts (Reader.pipe_reader n) = []
read_counts (Reader.counting direction tag user r) = (direction, tag, user) ∷ read_counts r
read_counts (Reader.cached r) = read_counts r

unfoldable pub buckets_on : Writer → List ℕ
buckets_on (Writer.pipe n) = []
buckets_on (Writer.managed n user w) = buckets_on w
buckets_on (Writer.limited b w) = b ∷ buckets_on w
buckets_on (Writer.counted direction tag user w) = buckets_on w

unfoldable pub bucket_list : Option ℕ → List ℕ
bucket_list (Option.none) = []
bucket_list (Option.some b) = b ∷ []

unfoldable pub kept_storage : Option TrafficStorage → TrafficStorage
kept_storage (Option.none) = new_storage
kept_storage (Option.some s) = s

-- A user is registered: its entry keeps what was counted, its manager has the link, and the entries
-- and the managers of all other users are as before.
pub record IsRegistered (d d' : Dispatcher) (tag email : String) (writer : ℕ) : Type 0 where
  pub link : lookup writer (manager_of d' email).links ≡ some writer
  pub unlocked : (manager_of d' email).locked ≡ false
  pub storage :
      (t user : String)
      → storage_of d' t user ≡ (
          if tag == t && email == user
          then some (kept_storage (storage_of d tag email))
          else storage_of d t user)
  pub managers :
      (user : String)
      → lookup user d'.link_managers
        ≡ (if email == user then some (manager_of d' email) else lookup user d.link_managers)

-- What CheckLimit has made of the limiter is kept, whatever it decides.
checked_limiters : Dispatcher → Inbound → String → ℤ → Limiter → Registry
checked_limiters d inbound email now l =
    insert inbound.tag (check_limit l email inbound.source_ip inbound.is_tcp now).0 d.limiters

pub check_user-bucket :
    (d : Dispatcher) (inbound : Inbound) (email : String) (now : ℤ) (w : Option ℕ)
    → bucket_of (decision d inbound email now) ≡ some w
    → (ls : Registry) × (check_user d inbound email now ≡ (record d { limiters = ls }, ok w))
unfolding check_user get_limiter decision bucket_of checked_limiters
check_user-bucket d inbound email now w h = elim (Option-cases (lookup inbound.tag d.limiters)) [
  | inl e ↦ ground (arith, e)
  | inr (l, e) ↦ elim (Check-cases (check_limit l email inbound.source_ip inbound.is_tcp now).1) [
    | inl r ↦ ground (arith, e, r)
    | inr (v, a) ↦ (checked_limiters d inbound email now l, ground (arith, e, a, h))
  ]
]

lookup-get_counter :
    (c : TrafficCounter) (email user : String)
    → lookup user (get_counter c email).0
      ≡ (if email == user then some (kept_storage (lookup email c)) else lookup user c)
unfolding get_counter kept_storage
lookup-get_counter c email user = elim (Option-cases (lookup email c)) [
  | inl e ↦ ground (arith, e, lookup-insert email user new_storage c)
  | inr (s, e) ↦ ground (arith, e, ==_iff email user)
]

storage_of-counter_of :
    (d : Dispatcher) (tag user : String) → lookup user (counter_of d tag) ≡ storage_of d tag user
unfolding counter_of storage_of
storage_of-counter_of d tag user = ground (arith, lookup-nil {V = TrafficStorage} user)

register_user-storage :
    (d : Dispatcher) (tag email t user : String)
    → storage_of (register_user d tag email) t user ≡ (
        if tag == t && email == user
        then some (kept_storage (storage_of d tag email))
        else storage_of d t user)
unfolding register_user storage_of
register_user-storage d tag email t user = ground (
  arith,
  lookup-insert tag t (get_counter (counter_of d tag) email).0 d.counter,
  lookup-get_counter (counter_of d tag) email user,
  storage_of-counter_of d tag email,
  storage_of-counter_of d tag user,
  ==_iff tag t,
)

pub register_link-ok :
    (d : Dispatcher) (email : String) (writer : ℕ)
    → (manager_of d email).locked ≡ false
    → register_link d email writer writer ≡ (
      record d {
        link_managers =
            insert email
              (record { links = insert writer writer (manager_of d email).links; locked = false })
              d.link_managers;
      },
      ok tt,
    )
unfolding register_link add_link
register_link-ok d email writer h = ground (arith, h)

-- the dispatcher with the user's link and entry
unfoldable pub registered : Dispatcher → String → String → ℕ → Dispatcher
registered d tag email writer =
    register_user
      (record d {
        link_managers =
            insert email
              (record { links = insert writer writer (manager_of d email).links; locked = false })
              d.link_managers;
      })
      tag email

registered-managers :
    (d : Dispatcher) (tag email : String) (writer : ℕ) (user : String)
    → lookup user (registered d tag email writer).link_managers ≡ (
        if email == user
        then some (manager_of (registered d tag email writer) email)
        else lookup user d.link_managers)
unfolding registered register_user manager_of
registered-managers d tag email writer user = ground (
  arith,
  ==_refl email,
  lookup-insert email user
      (record { links = insert writer writer (manager_of d email).links; locked = false })
      d.link_managers,
  lookup-insert email email
      (record { links = insert writer writer (manager_of d email).links; locked = false })
      d.link_managers,
)

registered-manager :
    (d : Dispatcher) (tag email : String) (writer : ℕ)
    → manager_of (registered d tag email writer) email
      ≡ record { links = insert writer writer (manager_of d email).links; locked = false }
unfolding registered register_user manager_of
registered-manager d tag email writer = ground (
  arith,
  ==_refl email,
  lookup-insert email email
      (record { links = insert writer writer (manager_of d email).links; locked = false })
      d.link_managers,
)

registered-storage :
    (d : Dispatcher) (tag email : String) (writer : ℕ) (t user : String)
    → storage_of (registered d tag email writer) t user ≡ (
        if tag == t && email == user
        then some (kept_storage (storage_of d tag email))
        else storage_of d t user)
unfolding registered storage_of
registered-storage d tag email writer t user = register_user-storage _ tag email t user

pub registered-IsRegistered :
    (d : Dispatcher) (ls : Registry) (tag email : String) (writer : ℕ)
    → IsRegistered d (registered (record d { limiters = ls }) tag email writer) tag email writer
unfolding manager_of storage_of
registered-IsRegistered d ls tag email writer =
    let d₁ : Dispatcher = record d { limiters = ls } in
    record {
      link =
          ap (λ m. lookup writer m.links) (registered-manager d₁ tag email writer)
          ∙ rw (lookup-insert writer writer writer (manager_of d₁ email).links, ==_refl writer)
              refl;
      unlocked = ap (λ m. m.locked) (registered-manager d₁ tag email writer);
      storage = registered-storage d₁ tag email writer;
      managers = registered-managers d₁ tag email writer;
    }
