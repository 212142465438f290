-- ===== src/Dispatcher/Routing/Whole.antt =====
-- Dispatch and DispatchLink as a whole: the links of users stay counted and limited on their way to
-- an outbound's handler.
use v2node_pro.Prelude.{
  ℕ, String, Bool, true, false, ◌≡◌, refl, sym, ap, subst, ◌∙◌, Option, none, some, List, [], ◌∷◌,
  ◌++◌,
}
use v2node_pro.Prelude.Int.{ℤ}
use v2node_pro.Prelude.Flow.{ok}
use v2node_pro.Dispatcher.Connect.{
  Dispatcher, Direction, upload, download, Reader, pipe_reader, counting, cached, Link, Inbound,
  linked, manager_of, user_of,
}
use v2node_pro.Dispatcher.Connect.Registration.{
  decision, bucket_of, counts, read_counts, buckets_on, bucket_list, IsRegistered,
}
use v2node_pro.Dispatcher.Connect.Admission.{IsMetered, get_link-admitted, wrap_link-admitted}
use v2node_pro.Dispatcher.Sniffer.Override.{Target, Outbound}
use v2node_pro.Dispatcher.Routing.{
  Handlers, Routed, interrupt, Request, cache_reader, dispatch_target, link_target, route,
  dispatch_linked, dispatch, link_dispatched, dispatch_link,
}
use v2node_pro.Dispatcher.Routing.Laws.{link_of, routed_dispatch-link}

cache-writer : {A : Type 0} (s : Option A) (l : Link) → (cache_reader s l).writer ≡ l.writer
cache-writer none l = refl
cache-writer (some a) l = refl

cache-read_counts :
    {A : Type 0} (s : Option A) (l : Link)
    → read_counts (cache_reader s l).reader ≡ read_counts l.reader
unfolding read_counts
cache-read_counts none l = refl
cache-read_counts (some a) l = refl

-- A reader that counts passes no interrupt on, with or without a cachedReader.
counted-interrupt :
    (r : Reader) {c : Direction × String × String} {cs : List (Direction × String × String)}
    → read_counts r ≡ c ∷ cs
    → interrupt r ≡ []
unfolding interrupt read_counts
counted-interrupt (pipe_reader n) h = cc
counted-interrupt (counting direction tag user r) h = refl
counted-interrupt (cached (pipe_reader n)) h = cc
counted-interrupt (cached (counting direction tag user r)) h = refl
counted-interrupt (cached (cached r)) h = refl

module _ (H Address : Type 0) (ohm : Handlers H) (router : Outbound Address → Option String)
    (regexp : String → Option (String → Bool)) (parse : String → Target Address) where
  -- The connection of a user whom CheckLimit lets in with the bucket `w`, or with none, while the
  -- user's link manager is not locked: whatever the sniffing finds and wherever routedDispatch sends
  -- it, Dispatch returns a link on which what the user sends is counted once as its upload, the
  -- link that is routed counts what the user is sent once as its download, both wait for `w`, and
  -- the link is in the user's link manager.
  pub dispatch-IsMetered :
      (d : Dispatcher) (q : Request Address) (rt : Option (Target Address)) (inbound : Inbound)
      (email : String) (up down : ℕ) (now : ℤ) (w : Option ℕ)
      → q.is_valid ≡ true
      → user_of q.session ≡ some (inbound, email)
      → bucket_of (decision d inbound email now) ≡ some w
      → (manager_of d email).locked ≡ false
      → (d' : Dispatcher) × (inner : Link) × (routed : Routed H) × (dispatch H Address ohm router
            regexp parse d q rt up down now
          ≡ (d', ok (linked (inner, routed))))
        × IsMetered inner upload inbound.tag email w
        × IsMetered (link_of routed) download inbound.tag email w
        × IsRegistered d d' inbound.tag email up
  unfolding dispatch dispatch_linked route
  dispatch-IsMetered d q rt inbound email up down now w valid user let_in free =
      let (d', inner, outer, got, sent, received, registered) =
        get_link-admitted d q.session inbound email up down now w user let_in free in
      let ob : Outbound Address = dispatch_target H Address ohm router regexp parse q rt in
      let link : Link = cache_reader q.sniffing outer in
      let routed : Routed H = route H Address ohm router regexp parse q ob link in
      (
        d',
        inner,
        routed,
        rw (valid, dispatch) (ap (dispatch_linked H Address ohm router regexp parse q rt) got),
        sent,
        subst (λ l. IsMetered l download inbound.tag email w)
            (sym (routed_dispatch-link H ohm q.forced (router ob) q.in_tag q.message link))
            (subst
              (λ x.
                (counts x ≡ (download, inbound.tag, email) ∷ []) × (buckets_on x ≡ bucket_list w))
              (sym (cache-writer q.sniffing outer)) received),
        registered,
      )

  -- The connection of a user whom CheckLimit lets in with the bucket `w`, or with none, while the
  -- user's link manager is not locked: whatever the sniffing finds, DispatchLink routes a link that
  -- counts what is written to it once more than the given link as the user's download, which waits
  -- for `w`, and what is read from it once more as the user's upload, and that is in the user's link
  -- manager; and interrupting the routed link's reader, as routedDispatch does for want of a
  -- handler, interrupts no pipe.
  pub dispatch_link-IsMetered :
      (d : Dispatcher) (q : Request Address) (rt : Option (Target Address)) (inbound : Inbound)
      (email : String) (number : ℕ) (outer : Link) (now : ℤ) (w : Option ℕ)
      → q.is_valid ≡ true
      → user_of q.session ≡ some (inbound, email)
      → bucket_of (decision d inbound email now) ≡ some w
      → (manager_of d email).locked ≡ false
      → (d' : Dispatcher) × (routed : Routed H) × (dispatch_link H Address ohm router regexp parse d
            q rt number outer now
          ≡ (d', ok (linked routed)))
        × (counts (link_of routed).writer ≡ (download, inbound.tag, email) ∷ counts outer.writer)
        × (buckets_on (link_of routed).writer ≡ bucket_list w ++ buckets_on outer.writer)
        × (read_counts (link_of routed).reader
            ≡ (upload, inbound.tag, email) ∷ read_counts outer.reader)
        × (interrupt (link_of routed).reader ≡ [])
        × IsRegistered d d' inbound.tag email number
  unfolding dispatch_link link_dispatched route
  dispatch_link-IsMetered d q rt inbound email number outer now w valid user let_in free =
      let (d', l, got, writes, reads, waits, registered) =
        wrap_link-admitted d q.session inbound email number outer now w user let_in free in
      let ob : Outbound Address = link_target H Address ohm router regexp parse q rt in
      let link : Link = cache_reader q.sniffing l in
      let routed : Routed H = route H Address ohm router regexp parse q ob link in
      let same : link_of routed ≡ link =
        routed_dispatch-link H ohm q.forced (router ob) q.in_tag q.message link in
      let read : read_counts (link_of routed).reader
          ≡ (upload, inbound.tag, email) ∷ read_counts outer.reader =
        ap (λ k. read_counts k.reader) same ∙ cache-read_counts q.sniffing l ∙ reads in
      let written : (link_of routed).writer ≡ l.writer =
        ap (λ k. k.writer) same ∙ cache-writer q.sniffing l in
      (
        d',
        routed,
        rw (valid, dispatch_link) (ap (link_dispatched H Address ohm router regexp parse q rt) got),
        ap counts written ∙ writes,
        ap buckets_on written ∙ waits,
        read,
        counted-interrupt (link_of routed).reader read,
        registered,
      )
