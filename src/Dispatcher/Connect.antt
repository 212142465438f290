-- ===== src/Dispatcher/Connect.antt =====
-- core/app/dispatcher/default.go: getLink, and the first half of DispatchLink, which check the limits
-- of a user's connection and count and register its link. A pipe is a number, and so are its two
-- ends; a ManagedWriter has the number of the writer that it wraps. `limiters` is the map of
-- limiter/limiter.go, whose limiters are shared: what CheckLimit changes is written back.
-- The splice flag of the session and the log are left out, and a message is cut to its first words.
pub mod Registration
pub mod Admission
pub mod Tests
use v2node_pro.Prelude.{ℕ, suc, String, Bool, Option, none, some, List, [], ◌∷◌, if◌then◌else◌}
use v2node_pro.Prelude.Int.{ℤ}
use v2node_pro.Prelude.Eq.{◌==◌, string_eq}
use v2node_pro.Prelude.Dict.{Dict, lookup, insert}
use v2node_pro.Prelude.Flow.{Outcome, ok, err, panic, hang}
use v2node_pro.Counter.{TrafficCounter, new_traffic_counter, get_counter}
use v2node_pro.Limiter.{Registry, get_limiter}
use v2node_pro.Limiter.Connect.{Check, reject, admit, check_limit}
use v2node_pro.Dispatcher.Links.{LinkManager, new_link_manager, add_link}

pub record Dispatcher : Type 0 where
  pub limiters : Registry
  pub counter : Dict String TrafficCounter
  pub link_managers : Dict String LinkManager

pub data Direction : Type 0 where
  upload : Direction
  download : Direction

-- The writers that wrap a pipe: ManagedWriter, rate.Writer and SizeStatWriter, whose counter is the
-- user's under the tag.
pub data Writer : Type 0 where
  pipe : ℕ → Writer
  managed : ℕ → String → Writer → Writer
  limited : ℕ → Writer → Writer
  counted : Direction → (tag user : String) → Writer → Writer

-- A pipe's reader, CounterReader and cachedReader.
pub data Reader : Type 0 where
  pipe_reader : ℕ → Reader
  counting : Direction → (tag user : String) → Reader → Reader
  cached : Reader → Reader

pub record Link : Type 0 where
  pub reader : Reader
  pub writer : Writer

-- session.Inbound: the tag, the user's email, if there is a user, and the source
pub record Inbound : Type 0 where
  pub tag : String
  pub email : Option String
  pub source_ip : String
  pub is_tcp : Bool

-- What becomes of a connection. A refused one has these writers closed and readers interrupted.
pub data Linked {ℓ} (A : Type ℓ) : Type ℓ where
  refused : String → (closed : List Writer) → (interrupted : List Reader) → Linked A
  linked : A → Linked A

-- `user != nil && len(user.Email) > 0`
unfoldable pub user_of : Option Inbound → Option (Inbound × String)
user_of (Option.none) = none
user_of (Option.some inbound) = elim inbound.email [
  | none ↦ none
  | some email ↦ if email == "" then none else some (inbound, email)
]

-- GetLimiter and CheckLimit: a message, or the bucket of an admitted connection
unfoldable pub check_user :
    Dispatcher → Inbound → String → (now : ℤ) → Dispatcher × Outcome (Option ℕ)
unfolding get_limiter insert
check_user d inbound email now = elim (get_limiter d.limiters inbound.tag) [
  | ok l ↦
      let (l', check) = check_limit l email inbound.source_ip inbound.is_tcp now in
      (
        record d { limiters = insert inbound.tag l' d.limiters },
        elim check [ reject ↦ err "Limited by conn or ip" | admit w ↦ ok w ],
      )
  | err message ↦ (d, err "get limiter error")
  | panic ↦ (d, panic)
  | hang ↦ (d, hang)
]

-- the user's link manager, made if there is none
unfoldable pub manager_of : Dispatcher → String → LinkManager
unfolding lookup
manager_of d email = elim (lookup email d.link_managers) [ none ↦ new_link_manager | some lm ↦ lm ]

-- `lm.AddLink` on that manager, with the manager stored first
unfoldable pub register_link : Dispatcher → String → ℕ → ℕ → Dispatcher × Outcome (Unit {0})
unfolding manager_of insert add_link
register_link d email writer reader = elim (add_link (manager_of d email) writer reader) [
  | ok lm ↦ (record d { link_managers = insert email lm d.link_managers }, ok tt)
  | err message ↦ (d, err message)
  | panic ↦ (d, panic)
  | hang ↦ (record d { link_managers = insert email (manager_of d email) d.link_managers }, hang)
]

-- the node's counter, made if there is none
unfoldable pub counter_of : Dispatcher → String → TrafficCounter
unfolding lookup
counter_of d tag = elim (lookup tag d.counter) [ none ↦ new_traffic_counter | some t ↦ t ]

-- the counter of the node, with an entry for the user
unfoldable pub register_user : Dispatcher → String → String → Dispatcher
unfolding counter_of insert get_counter
register_user d tag email = record d {
  counter = insert tag (get_counter (counter_of d tag) email).0 d.counter;
}

unfoldable pub limit_writer : Option ℕ → Writer → Writer
limit_writer (Option.none) writer = writer
limit_writer (Option.some w) writer = limited w writer

-- The two links of getLink for an admitted user; the uplink is the pipe `up`, the downlink `down`.
unfoldable pub user_links : Inbound → String → Option ℕ → (up down : ℕ) → Link × Link
unfolding limit_writer
user_links inbound email w up down = (
  record {
    reader = pipe_reader down;
    writer = counted upload inbound.tag email (limit_writer w (managed up email (pipe up)));
  },
  record {
    reader = pipe_reader up;
    writer = counted download inbound.tag email (limit_writer w (pipe down));
  },
)

-- getLink after AddLink
unfoldable pub link_registered :
    Inbound
    → String
    → Option ℕ
    → (up down : ℕ) → Dispatcher × Outcome (Unit {0})
    → Dispatcher × Outcome (Linked (Link × Link))
unfolding register_user user_links
link_registered inbound email w up down (d, ok _) =
    (register_user d inbound.tag email, ok (linked (user_links inbound email w up down)))
link_registered inbound email w up down (d, err message) = (d, err message)
link_registered inbound email w up down (d, panic) = (d, panic)
link_registered inbound email w up down (d, hang) = (d, hang)

-- getLink after CheckLimit
unfoldable pub link_checked :
    Inbound
    → String
    → (up down : ℕ) → Dispatcher × Outcome (Option ℕ)
    → Dispatcher × Outcome (Linked (Link × Link))
unfolding register_link link_registered
link_checked inbound email up down (d, ok w) =
    link_registered inbound email w up down (register_link d email up up)
link_checked inbound email up down (d, err message) =
    (d, ok (refused message (pipe down ∷ pipe up ∷ []) (pipe_reader up ∷ pipe_reader down ∷ [])))
link_checked inbound email up down (d, panic) = (d, panic)
link_checked inbound email up down (d, hang) = (d, hang)

-- getLink: the inbound's link and the outbound's. `up` and `down` are the two pipes it makes.
unfoldable pub get_link :
    Dispatcher
    → Option Inbound
    → (up down : ℕ) → (now : ℤ) → Dispatcher × Outcome (Linked (Link × Link))
unfolding user_of check_user link_checked
get_link d session up down now = elim (user_of session) [
  | none ↦ (
    d,
    ok (
        linked (
          record { reader = pipe_reader down; writer = pipe up },
          record { reader = pipe_reader up; writer = pipe down },
        )),
  )
  | some (inbound, email) ↦ link_checked inbound email up down (check_user d inbound email now)
]

-- the outbound of DispatchLink for an admitted user
unfoldable pub user_outbound : Inbound → String → Option ℕ → ℕ → Link → Link
unfolding limit_writer
user_outbound inbound email w number outbound = record {
  reader = counting upload inbound.tag email outbound.reader;
  writer =
      counted download inbound.tag email (limit_writer w (managed number email outbound.writer));
}

-- DispatchLink after AddLink
unfoldable pub wrap_registered :
    Inbound
    → String
    → Option ℕ
    → ℕ
    → Link
    → Dispatcher × Outcome (Unit {0})
    → Dispatcher × Outcome (Linked Link)
unfolding user_outbound
wrap_registered inbound email w number outbound (d, ok _) =
    (d, ok (linked (user_outbound inbound email w number outbound)))
wrap_registered inbound email w number outbound (d, err message) = (d, err message)
wrap_registered inbound email w number outbound (d, panic) = (d, panic)
wrap_registered inbound email w number outbound (d, hang) = (d, hang)

-- DispatchLink after CheckLimit
unfoldable pub wrap_checked :
    Inbound
    → String
    → ℕ
    → Link
    → Dispatcher × Outcome (Option ℕ)
    → Dispatcher × Outcome (Linked Link)
unfolding register_user register_link wrap_registered
wrap_checked inbound email number outbound (d, ok w) =
    wrap_registered inbound email w number outbound
      (register_link (register_user d inbound.tag email) email number number)
wrap_checked inbound email number outbound (d, err message) =
    (d, ok (refused message (outbound.writer ∷ []) (outbound.reader ∷ [])))
wrap_checked inbound email number outbound (d, panic) = (d, panic)
wrap_checked inbound email number outbound (d, hang) = (d, hang)

-- DispatchLink, up to the sniffing: the outbound that goes on. `number` is its ManagedWriter.
unfoldable pub wrap_link :
    Dispatcher → Option Inbound → ℕ → Link → (now : ℤ) → Dispatcher × Outcome (Linked Link)
unfolding user_of check_user wrap_checked
wrap_link d session number outbound now = elim (user_of session) [
  | none ↦ (d, ok (linked outbound))
  | some (inbound, email) ↦
      wrap_checked inbound email number outbound (check_user d inbound email now)
]
