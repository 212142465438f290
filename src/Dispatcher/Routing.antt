-- ===== src/Dispatcher/Routing.antt =====
-- core/app/dispatcher/default.go: routedDispatch, and Dispatch and DispatchLink as a whole. Xray's
-- handler manager and router are parameters, and so is what the handler does with the link. The
-- sniffing is given by its result, which is `none` on an error; the goroutine that Dispatch starts has ended.
pub mod Laws
pub mod Whole
pub mod Tests
use Prim.Native.String.{◌++◌ as join}
use v2node_pro.Prelude.{
  ℕ, zero, suc, String, Bool, true, false, ◌≡◌, Option, none, some, List, [], ◌∷◌, if◌then◌else◌,
}
use v2node_pro.Prelude.Int.{ℤ}
use v2node_pro.Prelude.Eq.{◌==◌, string_eq}
use v2node_pro.Prelude.Flow.{Outcome, ok, err, panic, hang}
use v2node_pro.Dispatcher.Connect.{
  Dispatcher, Reader, pipe_reader, counting, cached, Writer, Link, Inbound, Linked, refused, linked,
  get_link, wrap_link,
}
use v2node_pro.Dispatcher.Sniffer.{SniffResult}
use v2node_pro.Dispatcher.Sniffer.Override.{
  SniffingRequest, Target, Outbound, should_override, retarget, sniffed_outbound,
}

-- outbound.Manager, for handlers H
pub record Handlers (H : Type 0) : Type 0 where
  pub get_handler : String → Option H
  pub get_default_handler : Option H
  pub tag : H → String

-- How routedDispatch leaves a link: its writer closed and its reader interrupted, or handed to a
-- handler, with the outbound's tag set and the Detour of the access message, if there is a message.
pub data Routed (H : Type 0) : Type 0 where
  stopped : Writer → Reader → Routed H
  dispatched : H → Link → (outbound_tag : String) → (detour : Option String) → Routed H

module _ (H : Type 0) (ohm : Handlers H) where
  -- the text between the tags, for isPickRoute 1, 2 and 0
  unfoldable pub detour_of : ℕ → (in_tag out_tag : String) → String
  detour_of is_pick_route in_tag out_tag =
      if in_tag == ""
      then out_tag
      else join in_tag (
          join
            (elim is_pick_route [
              | zero ↦ " >> "
              | suc n ↦ elim n [ zero ↦ " ==> " | suc _ ↦ " -> " ]
            ])
            out_tag)

  -- from `ob.Tag = handler.Tag()` on; `message` is the Detour that the access message has
  unfoldable pub hand_over : H → ℕ → String → Option String → Link → Routed H
  unfolding detour_of
  hand_over h is_pick_route in_tag message link = dispatched h link (ohm.tag h) (elim message [
    | none ↦ none
    | some old ↦ some (if ohm.tag h == "" then old else detour_of is_pick_route in_tag (ohm.tag h))
  ])

  unfoldable pub take_handler : Option H → ℕ → String → Option String → Link → Routed H
  unfolding hand_over
  take_handler handler is_pick_route in_tag message link = elim handler [
    | none ↦ stopped link.writer link.reader
    | some h ↦ hand_over h is_pick_route in_tag message link
  ]

  -- routedDispatch; `route` is the outbound tag that the router picks, if there is a router and it
  -- finds a route
  unfoldable pub routed_dispatch :
      (forced : String)
      → (route : Option String) → (in_tag : String) → (message : Option String) → Link
      → Routed H
  unfolding take_handler
  routed_dispatch forced route in_tag message link =
      if forced == ""
      then elim route [
        | none ↦ take_handler ohm.get_default_handler 0 in_tag message link
        | some out_tag ↦ take_handler (ohm.get_handler out_tag) 2 in_tag message link
      ]
      else take_handler (ohm.get_handler forced) 1 in_tag message link

-- Which pipes' readers `common.Interrupt(r)` interrupts: CounterReader has no Interrupt method, and
-- that of cachedReader passes it on to a pipe's reader only.
unfoldable pub interrupt : Reader → List ℕ
interrupt (pipe_reader n) = n ∷ []
interrupt (counting direction tag user r) = []
interrupt (cached (pipe_reader n)) = n ∷ []
interrupt (cached (counting direction tag user r)) = []
interrupt (cached (cached r)) = []

-- What a request is dispatched with: whether the destination is valid, the forced outbound tag, the
-- inbound's tag for the router, the access message, and the sniffing, if it is enabled.
pub record Request (Address : Type 0) : Type 0 where
  pub is_valid : Bool
  pub destination : Target Address
  pub session : Option Inbound
  pub forced : String
  pub in_tag : String
  pub message : Option String
  pub sniffing : Option (SniffingRequest × Option SniffResult)

-- `ob.OriginalTarget = destination; ob.Target = destination`
abbrev pub targeted {ℓ} :
    {Address : Type ℓ} → Option (Target Address) → Target Address → Outbound Address
targeted route_target destination = record {
  original_target = destination;
  target = destination;
  route_target = route_target;
}

-- the reader that is routed: behind a cachedReader, if there is sniffing
abbrev pub cache_reader {ℓ} : {A : Type ℓ} → Option A → Link → Link
cache_reader none link = link
cache_reader (some s) link = record link { reader = cached link.reader }

module _ (H Address : Type 0) (ohm : Handlers H) (router : Outbound Address → Option String)
    (regexp : String → Option (String → Bool)) (parse : String → Target Address) where
  -- the outbound that Dispatch routes
  unfoldable pub dispatch_target : Request Address → Option (Target Address) → Outbound Address
  unfolding sniffed_outbound
  dispatch_target q route_target = elim q.sniffing [
    | none ↦ targeted route_target q.destination
    | some (request, sniffed) ↦
        sniffed_outbound parse regexp sniffed request (targeted route_target q.destination)
  ]

  -- that of DispatchLink, which takes an address of the fake DNS' pool for a fake IP
  unfoldable pub link_target : Request Address → Option (Target Address) → Outbound Address
  unfolding should_override retarget
  link_target q route_target = elim q.sniffing [
    | none ↦ targeted route_target q.destination
    | some (request, sniffed) ↦ elim sniffed [
      | none ↦ targeted route_target q.destination
      | some result ↦
          if should_override regexp result request q.destination
          then retarget parse result request q.destination.in_pool
              (targeted route_target q.destination)
          else targeted route_target q.destination
    ]
  ]

  unfoldable pub route : Request Address → Outbound Address → Link → Routed H
  unfolding routed_dispatch
  route q ob link = routed_dispatch H ohm q.forced (router ob) q.in_tag q.message link

  unfoldable pub dispatch_linked :
      Request Address
      → Option (Target Address)
      → Dispatcher × Outcome (Linked (Link × Link))
      → Dispatcher × Outcome (Linked (Link × Routed H))
  unfolding route dispatch_target
  dispatch_linked q rt (d, ok (linked (inner, outer))) =
      (d, ok (linked (inner, route q (dispatch_target q rt) (cache_reader q.sniffing outer))))
  dispatch_linked q rt (d, ok (refused message closed interrupted)) =
      (d, ok (refused message closed interrupted))
  dispatch_linked q rt (d, err e) = (d, err e)
  dispatch_linked q rt (d, panic) = (d, panic)
  dispatch_linked q rt (d, hang) = (d, hang)

  -- Dispatch: the inbound's link, and what became of the outbound's
  unfoldable pub dispatch :
      Dispatcher
      → Request Address
      → Option (Target Address)
      → (up down : ℕ) → (now : ℤ) → Dispatcher × Outcome (Linked (Link × Routed H))
  unfolding get_link dispatch_linked
  dispatch d q rt up down now =
      if q.is_valid then dispatch_linked q rt (get_link d q.session up down now) else (d, panic)

  unfoldable pub link_dispatched :
      Request Address
      → Option (Target Address)
      → Dispatcher × Outcome (Linked Link)
      → Dispatcher × Outcome (Linked (Routed H))
  unfolding route link_target
  link_dispatched q rt (d, ok (linked outer)) =
      (d, ok (linked (route q (link_target q rt) (cache_reader q.sniffing outer))))
  link_dispatched q rt (d, ok (refused message closed interrupted)) =
      (d, ok (refused message closed interrupted))
  link_dispatched q rt (d, err e) = (d, err e)
  link_dispatched q rt (d, panic) = (d, panic)
  link_dispatched q rt (d, hang) = (d, hang)

  -- DispatchLink, on a link whose reader can be read with a timeout
  unfoldable pub dispatch_link :
      Dispatcher
      → Request Address
      → Option (Target Address)
      → (number : ℕ) → Link
      → (now : ℤ) → Dispatcher × Outcome (Linked (Routed H))
  unfolding wrap_link link_dispatched
  dispatch_link d q rt number outer now =
      if q.is_valid
      then link_dispatched q rt (wrap_link d q.session number outer now)
      else (d, err "Dispatcher: Invalid destination.")
