-- ===== src/Dispatcher/Routing/Tests.antt =====
-- routedDispatch, Dispatch and DispatchLink with two outbounds and a router that wants a third.
use v2node_pro.Prelude.{
  String, Bool, true, false, ◌≡◌, refl, Option, none, some, [], ◌∷◌, ◌++◌, if◌then◌else◌,
}
use v2node_pro.Prelude.Int.{pos}
use v2node_pro.Prelude.Eq.{◌==◌, string_eq}
use v2node_pro.Prelude.Flow.{ok}
use v2node_pro.Dispatcher.Connect.{Dispatcher, upload, download, Link, linked}
use v2node_pro.Dispatcher.Connect.Registration.{
  counts, read_counts, buckets_on, bucket_list, IsRegistered,
}
use v2node_pro.Dispatcher.Connect.Admission.{IsMetered}
use v2node_pro.Dispatcher.Connect.Tests.{
  idle, from_user, raw_link, session_user, user_is_let_in, idle_is_unlocked,
}
use v2node_pro.Dispatcher.Sniffer.{SniffResult}
use v2node_pro.Dispatcher.Sniffer.Override.{SniffingRequest, Target, Outbound}
use v2node_pro.Dispatcher.Routing.{
  Handlers, Routed, stopped, dispatched, interrupt, Request, dispatch, dispatch_link,
  routed_dispatch,
}
use v2node_pro.Dispatcher.Routing.Laws.{GoesTo, link_of, routed_dispatch-GoesTo}
use v2node_pro.Dispatcher.Routing.Whole.{dispatch-IsMetered, dispatch_link-IsMetered}

-- Handlers are their tags.
abbrev outbounds : Handlers String
outbounds = record {
  get_handler =
      λ t. if t == "direct" then some "direct" else if t == "block" then some "block" else none;
  get_default_handler = some "direct";
  tag = λ h. h;
}

detours :
    (routed_dispatch String outbounds "block" none "in" (some "") raw_link
      ≡ dispatched "block" raw_link "block" (some "in ==> block"))
    × (routed_dispatch String outbounds "" (some "block") "in" (some "") raw_link
        ≡ dispatched "block" raw_link "block" (some "in -> block"))
    × (routed_dispatch String outbounds "" none "in" none raw_link
        ≡ dispatched "direct" raw_link "direct" none)
    × (routed_dispatch String outbounds "" (some "proxy") "in" none raw_link
        ≡ stopped raw_link.writer raw_link.reader)
unfolding routed_dispatch
detours = (refl, refl, refl, refl)

routed_dispatch-GoesTo_example :
    GoesTo String outbounds none none raw_link
      (routed_dispatch String outbounds "" (some "proxy") "in" none raw_link)
routed_dispatch-GoesTo_example =
    routed_dispatch-GoesTo String outbounds "" (some "proxy") "in" none raw_link

abbrev place : String → Target String
place s = record { address = s; is_ip = false; in_pool = false }

abbrev router : Outbound String → Option String
router ob = if ob.target.address == "ads" then some "proxy" else none

abbrev regexp : String → Option (String → Bool)
regexp pattern = none

abbrev sniff : SniffingRequest
sniff = record {
  exclude_for_domain = [];
  override_destination_for_protocol = "http" ∷ [];
  route_only = false;
}

abbrev to_ads : Option SniffResult
to_ads = some (record {
  protocol = "http1";
  domain = "ads";
  protocol_for_domain = none;
  original_protocol = none;
})

abbrev wanted : Request String
wanted = record {
  is_valid = true;
  destination = place "10.1.1.1";
  session = some from_user;
  forced = "";
  in_tag = "t";
  message = none;
  sniffing = some (sniff, to_ads);
}

dispatch-IsMetered_example :
    (d' : Dispatcher) × (inner : Link) × (routed : Routed String) × (dispatch String String
        outbounds router regexp place idle wanted none 1 2
        (pos 100)
      ≡ (d', ok (linked (inner, routed))))
    × IsMetered inner upload "t" "t|u" (some 0)
    × IsMetered (link_of routed) download "t" "t|u" (some 0)
    × IsRegistered idle d' "t" "t|u" 1
dispatch-IsMetered_example =
    dispatch-IsMetered String String outbounds router regexp place idle wanted none from_user "t|u"
      1 2 (pos 100) (some 0) refl session_user user_is_let_in idle_is_unlocked

dispatch_link-IsMetered_example :
    (d' : Dispatcher) × (routed : Routed String) × (dispatch_link String String outbounds router
        regexp place idle wanted none 3 raw_link
        (pos 100)
      ≡ (d', ok (linked routed)))
    × (counts (link_of routed).writer ≡ (download, "t", "t|u") ∷ counts raw_link.writer)
    × (buckets_on (link_of routed).writer ≡ bucket_list (some 0) ++ buckets_on raw_link.writer)
    × (read_counts (link_of routed).reader ≡ (upload, "t", "t|u") ∷ read_counts raw_link.reader)
    × (interrupt (link_of routed).reader ≡ [])
    × IsRegistered idle d' "t" "t|u" 3
dispatch_link-IsMetered_example =
    dispatch_link-IsMetered String String outbounds router regexp place idle wanted none from_user
      "t|u" 3 raw_link (pos 100) (some 0) refl session_user user_is_let_in idle_is_unlocked

-- A link that counts nothing is interrupted.
raw_link_is_interrupted : interrupt raw_link.reader ≡ 5 ∷ []
unfolding interrupt
raw_link_is_interrupted = refl
