-- ===== src/Dispatcher/Connect/Admission.antt =====
-- core/app/dispatcher/default.go: what becomes of the connections of users.
use v2node_pro.Prelude.{ℕ, String, ◌≡◌, refl, ap, ◌∙◌, false, Option, some, [], ◌∷◌, ◌++◌}
use v2node_pro.Prelude.Int.{ℤ}
use v2node_pro.Prelude.Flow.{ok}
use v2node_pro.Dispatcher.Connect.{
  Dispatcher, Direction, upload, download, Link, Inbound, linked, manager_of, register_user,
  user_links, limit_writer, link_registered, link_checked, get_link, user_of, user_outbound,
  wrap_registered, wrap_checked, wrap_link,
}
use v2node_pro.Dispatcher.Connect.Registration.{
  decision, bucket_of, counts, read_counts, buckets_on, bucket_list, storage_of, IsRegistered,
  registered, registered-IsRegistered, register_link-ok, check_user-bucket,
}

-- A link on which a user's bytes are counted once, as `direction`, and wait for the user's bucket.
abbrev pub IsMetered : Link → Direction → String → String → Option ℕ → Type 0
IsMetered l direction tag email w =
    (counts l.writer ≡ (direction, tag, email) ∷ []) × (buckets_on l.writer ≡ bucket_list w)

user_links-IsMetered :
    (inbound : Inbound) (email : String) (w : Option ℕ) (up down : ℕ)
    → IsMetered (user_links inbound email w up down).0 upload inbound.tag email w
      × IsMetered (user_links inbound email w up down).1 download inbound.tag email w
unfolding user_links limit_writer counts buckets_on bucket_list
user_links-IsMetered inbound email (Option.none) up down = ((refl, refl), (refl, refl))
user_links-IsMetered inbound email (Option.some b) up down = ((refl, refl), (refl, refl))

-- The connection of a user whom CheckLimit lets in with the bucket `w`, or with none, while the
-- user's link manager is not locked: getLink gives two links, on which what the user sends is
-- counted once as its upload and what it is sent once as its download, and both wait for `w`. The
-- link is in the user's link manager; the user's entry in the counter is kept, or made with zeros;
-- and the entries and the managers of all others are as they were.
pub get_link-admitted :
    (d : Dispatcher) (session : Option Inbound) (inbound : Inbound) (email : String) (up down : ℕ)
    (now : ℤ) (w : Option ℕ)
    → user_of session ≡ some (inbound, email)
    → bucket_of (decision d inbound email now) ≡ some w
    → (manager_of d email).locked ≡ false
    → (d' : Dispatcher) × (inner : Link) × (outer : Link) × (get_link d session up down now
        ≡ (d', ok (linked (inner, outer))))
      × IsMetered inner upload inbound.tag email w
      × IsMetered outer download inbound.tag email w
      × IsRegistered d d' inbound.tag email up
unfolding get_link link_checked manager_of storage_of registered
get_link-admitted d session inbound email up down now w user let_in free =
    let (ls, checked) = check_user-bucket d inbound email now w let_in in
    let d₁ : Dispatcher = record d { limiters = ls } in
    let (inner, outer) = user_links-IsMetered inbound email w up down in
    (
      registered d₁ inbound.tag email up,
      (user_links inbound email w up down).0,
      (user_links inbound email w up down).1,
      rw (get_link, user)
          (ap (link_checked inbound email up down) checked
            ∙ ap (link_registered inbound email w up down) (register_link-ok d₁ email up free)),
      inner,
      outer,
      registered-IsRegistered d ls inbound.tag email up,
    )

user_outbound-IsMetered :
    (inbound : Inbound) (email : String) (w : Option ℕ) (number : ℕ) (outbound : Link)
    → (counts (user_outbound inbound email w number outbound).writer
        ≡ (download, inbound.tag, email) ∷ counts outbound.writer)
      × (read_counts (user_outbound inbound email w number outbound).reader
          ≡ (upload, inbound.tag, email) ∷ read_counts outbound.reader)
      × (buckets_on (user_outbound inbound email w number outbound).writer
          ≡ bucket_list w ++ buckets_on outbound.writer)
unfolding user_outbound limit_writer counts read_counts buckets_on bucket_list
user_outbound-IsMetered inbound email (Option.none) number outbound = (refl, refl, refl)
user_outbound-IsMetered inbound email (Option.some b) number outbound = (refl, refl, refl)

-- The connection of a user whom CheckLimit lets in with the bucket `w`, or with none, while the
-- user's link manager is not locked: DispatchLink wraps the link that it is given, so that what
-- is written to it is counted once more, as the user's download, and waits for `w` besides what
-- it waited for; and what is read from it is counted once more, as the user's upload. The link is
-- in the user's link manager; the user's entry in the counter is kept, or made with zeros; and
-- the entries and the managers of all others are as they were.
pub wrap_link-admitted :
    (d : Dispatcher) (session : Option Inbound) (inbound : Inbound) (email : String) (number : ℕ)
    (outbound : Link) (now : ℤ) (w : Option ℕ)
    → user_of session ≡ some (inbound, email)
    → bucket_of (decision d inbound email now) ≡ some w
    → (manager_of d email).locked ≡ false
    → (d' : Dispatcher) × (l : Link) × (wrap_link d session number outbound now
        ≡ (d', ok (linked l)))
      × (counts l.writer ≡ (download, inbound.tag, email) ∷ counts outbound.writer)
      × (read_counts l.reader ≡ (upload, inbound.tag, email) ∷ read_counts outbound.reader)
      × (buckets_on l.writer ≡ bucket_list w ++ buckets_on outbound.writer)
      × IsRegistered d d' inbound.tag email number
unfolding wrap_link wrap_checked register_user manager_of storage_of registered
wrap_link-admitted d session inbound email number outbound now w user let_in free =
    let (ls, checked) = check_user-bucket d inbound email now w let_in in
    let d₁ : Dispatcher = record d { limiters = ls } in
    let (writes, reads, waits) = user_outbound-IsMetered inbound email w number outbound in
    (
      registered d₁ inbound.tag email number,
      user_outbound inbound email w number outbound,
      rw (wrap_link, user)
          (ap (wrap_checked inbound email number outbound) checked
            ∙ ap (wrap_registered inbound email w number outbound)
                (register_link-ok (register_user d₁ inbound.tag email) email number free)),
      writes,
      reads,
      waits,
      registered-IsRegistered d ls inbound.tag email number,
    )
