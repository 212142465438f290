-- ===== src/Dispatcher/Routing/Laws.antt =====
-- routedDispatch: which handler gets a link.
use v2node_pro.Prelude.{
  ℕ, String, ◌≡◌, refl, Option, none, some, if◌then◌else◌, is_some, Bool-cases, inl, inr,
}
use v2node_pro.Prelude.Eq.{◌==◌, string_eq}
use v2node_pro.Dispatcher.Connect.{Link}
use v2node_pro.Dispatcher.Routing.{
  Handlers, Routed, stopped, dispatched, detour_of, take_handler, routed_dispatch,
}

-- The tag that a request names: the forced one, or else the one that the router picks.
abbrev pub named : String → Option String → Option String
named forced route = if forced == "" then route else some forced

-- The link of an outcome.
unfoldable pub link_of : {H : Type 0} → Routed H → Link
link_of (stopped writer reader) = record { writer = writer; reader = reader }
link_of (dispatched h link tag detour) = link

module _ (H : Type 0) (ohm : Handlers H) where
  -- The handler of a name, and the default one without a name only.
  abbrev pub handler_for : Option String → Option H
  handler_for none = ohm.get_default_handler
  handler_for (some tag) = ohm.get_handler tag

  -- The link goes to the handler, if there is one; else it is stopped.
  pub GoesTo : Option H → Option String → Link → Routed H → Type 0
  GoesTo none message link r = r ≡ stopped link.writer link.reader
  GoesTo (some h) message link r =
      (detour : Option String) × (r ≡ dispatched h link (ohm.tag h) detour)
      × (is_some detour ≡ is_some message)

  take_handler-GoesTo :
      (handler : Option H) (n : ℕ) (in_tag : String) (message : Option String) (link : Link)
      → GoesTo handler message link (take_handler H ohm handler n in_tag message link)
  unfolding GoesTo take_handler
  take_handler-GoesTo none n in_tag message link = refl
  take_handler-GoesTo (some h) n in_tag none link = (none, refl, refl)
  take_handler-GoesTo (some h) n in_tag (some old) link =
      (some (if ohm.tag h == "" then old else detour_of H ohm n in_tag (ohm.tag h)), refl, refl)

  -- routedDispatch hands the whole link to the handler of the forced tag, or without one to that of
  -- the tag that the router picks, or without both to the default handler, and sets the outbound's
  -- tag to that handler's. If there is no such handler, the link's writer is closed and its reader
  -- interrupted: a link with a named but missing handler never goes to the default handler.
  pub routed_dispatch-GoesTo :
      (forced : String) (route : Option String) (in_tag : String) (message : Option String)
      (link : Link)
      → GoesTo
          (handler_for (named forced route))
          message
          link
          (routed_dispatch H ohm forced route in_tag message link)
  unfolding routed_dispatch
  routed_dispatch-GoesTo forced route in_tag message link = elim (Bool-cases (forced == "")) [
    | inl empty ↦ rw empty (routed_to route)
    | inr given ↦ rw given (take_handler-GoesTo (ohm.get_handler forced) 1 in_tag message link)
  ]
    where
      routed_to :
          (route : Option String)
          → GoesTo (handler_for route) message link (elim route [
            | none ↦ take_handler H ohm ohm.get_default_handler 0 in_tag message link
            | some out_tag ↦ take_handler H ohm (ohm.get_handler out_tag) 2 in_tag message link
          ])
      routed_to none = take_handler-GoesTo ohm.get_default_handler 0 in_tag message link
      routed_to (some t) = take_handler-GoesTo (ohm.get_handler t) 2 in_tag message link

  take_handler-link :
      (handler : Option H) (n : ℕ) (in_tag : String) (message : Option String) (link : Link)
      → link_of (take_handler H ohm handler n in_tag message link) ≡ link
  unfolding take_handler link_of
  take_handler-link none n in_tag message link = refl
  take_handler-link (some h) n in_tag message link = refl

  pub routed_dispatch-link :
      (forced : String) (route : Option String) (in_tag : String) (message : Option String)
      (link : Link)
      → link_of (routed_dispatch H ohm forced route in_tag message link) ≡ link
  unfolding routed_dispatch
  routed_dispatch-link forced route in_tag message link = elim (Bool-cases (forced == "")) [
    | inl empty ↦ rw empty (routed_to route)
    | inr given ↦ rw given (take_handler-link (ohm.get_handler forced) 1 in_tag message link)
  ]
    where
      routed_to :
          (route : Option String)
          → link_of (elim route [
            | none ↦ take_handler H ohm ohm.get_default_handler 0 in_tag message link
            | some out_tag ↦ take_handler H ohm (ohm.get_handler out_tag) 2 in_tag message link
          ])
            ≡ link
      routed_to none = take_handler-link ohm.get_default_handler 0 in_tag message link
      routed_to (some t) = take_handler-link (ohm.get_handler t) 2 in_tag message link
