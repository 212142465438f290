-- ===== src/Panel/Client/Laws.antt =====
-- GetNodeInfo: what counts as a new configuration, and what a configuration that it returns holds.
use v2node_pro.Prelude.{
  String, ◌≡◌, ◌≢◌, refl, sym, ap, ◌∙◌, true, false, ◌⊎◌, inl, inr, Option, none, some, List, [],
  ◌∷◌, map, All, Bool-cases,
}
use v2node_pro.Prelude.Int.{pos}
use v2node_pro.Prelude.Eq.{◌==◌, string_eq, int_eq, ==_iff, ==_refl, ==_ne}
use v2node_pro.Prelude.Flow.{Outcome, ok, err}
use v2node_pro.Panel.NodeInfo.{NodeInfo}
use v2node_pro.Panel.Client.{
  Codec, Client, Response, Answer, get_node_info, receive, decode, node_of, complete,
}

-- A response with or without an error.
abbrev pub answer : Response → Option String → Answer
answer r e = record { response = some r; error = e }

receive-hash :
    (x : Codec) (c : Client) (r : Response) (e : Option String)
    → (receive x c r e).0.response_body_hash ≡ x.hash r.body
unfolding receive
receive-hash x c r e = elim (Bool-cases (c.response_body_hash == x.hash r.body)) [
  | inl same ↦ rw same ((==_iff _ _).0 same)
  | inr new ↦ rw new refl
]

receive_known :
    (x : Codec) (c : Client) (r : Response) (e : Option String)
    → c.response_body_hash ≡ x.hash r.body
    → receive x c r e ≡ (c, ok none)
unfolding receive
receive_known x c r e known = rw (known, ==_refl (x.hash r.body)) refl

pub read-receive :
    (x : Codec) (c : Client) (r : Response) (e : Option String)
    → (r.status == pos 304) ≡ false
    → get_node_info x c (answer r e) ≡ receive x c r e
unfolding get_node_info
read-receive x c r e fresh = rw fresh refl

-- An answer with status 304 is "no change", as is one with the body that the client has read.
known_body :
    (x : Codec) (c : Client) (r : Response) (e : Option String)
    → c.response_body_hash ≡ x.hash r.body
    → get_node_info x c (answer r e) ≡ (c, ok none)
unfolding get_node_info
known_body x c r e known = elim (Bool-cases (r.status == pos 304)) [
  | inl kept ↦ rw kept refl
  | inr read ↦ rw read (receive_known x c r e known)
]

-- A client that gets some answers, one after the other, and what each call returns.
unfoldable pub ask_all :
    Codec → Client → List (Response × Option String) → Client × List (Outcome (Option NodeInfo))
unfolding get_node_info
ask_all x c [] = (c, [])
ask_all x c ((r, e) ∷ rest) =
    let (c', o) = get_node_info x c (answer r e) in
    let (last, os) = ask_all x c' rest in (last, o ∷ os)

-- An answer with a body, or with status 304.
abbrev pub Repeats : String → Response × Option String → Type 0
Repeats body a = (a.0.body ≡ body) ⊎ ((a.0.status == pos 304) ≡ true)

unchanged_answers :
    (x : Codec) (c : Client) (body : String) (later : List (Response × Option String))
    → c.response_body_hash ≡ x.hash body
    → All (Repeats body) later
    → ask_all x c later ≡ (c, map (λ _. ok none) later)
unfolding ask_all
unchanged_answers x c body [] known same = refl
unchanged_answers x c body ((r, e) ∷ rest) known (repeats, more) =
    rw (unchanged repeats, unchanged_answers x c body rest known more) refl
  where
    unchanged : Repeats body (r, e) → get_node_info x c (answer r e) ≡ (c, ok none)
    unchanged (inl same) = known_body x c r e (known ∙ ap (λ b. x.hash b) (sym same))
    unchanged (inr kept) = unfold get_node_info in rw kept refl

-- Once an answer other than 304 was read, whatever became of it (a transport error, a body that
-- does not decode, a protocol that is not supported, a panic), each of the answers that follow it
-- is taken for "no change", with no error, and leaves the client as it is, as long as all of them
-- have the same body or status 304.
pub get_node_info_again :
    (x : Codec) (c : Client) (r : Response) (e : Option String)
    (later : List (Response × Option String))
    → (r.status == pos 304) ≡ false
    → All (Repeats r.body) later
    → ask_all x (get_node_info x c (answer r e)).0 later
      ≡ ((get_node_info x c (answer r e)).0, map (λ _. ok none) later)
get_node_info_again x c r e later fresh same =
    unchanged_answers x (get_node_info x c (answer r e)).0 r.body later
      (ap (λ o. o.0.response_body_hash) (read-receive x c r e fresh) ∙ receive-hash x c r e) same

pub decode_other :
    (x : Codec) (c : Client) (h t b : String)
    → decode x (record c { response_body_hash = h; node_etag = t }) b ≡ decode x c b
unfolding decode node_of complete
decode_other x c h t b = refl

pub receive_new :
    (x : Codec) (c : Client) (r : Response)
    → c.response_body_hash ≢ x.hash r.body
    → (receive x c r none).1 ≡ decode x c r.body
unfolding receive
receive_new x c r differs =
    rw (==_ne c.response_body_hash (x.hash r.body) differs)
      (decode_other x c (x.hash r.body) r.etag r.body)

-- If a request fails without an answer, whose empty body has another hash than the configuration
-- that the client had read, then the next answer with that very configuration is returned as a new
-- one (and the node reloads), although nothing has changed.
pub get_node_info_after_failure :
    (x : Codec) (c : Client) (message : String) (r : Response) (node : NodeInfo)
    → c.response_body_hash ≡ x.hash r.body
    → x.hash "" ≢ x.hash r.body
    → (r.status == pos 304) ≡ false
    → decode x c r.body ≡ ok (some node)
    → (let failed : Response = record { status = pos 0; body = ""; etag = "" } in
        let c' : Client = (get_node_info x c (answer failed (some message))).0 in
        ((get_node_info x c (answer failed (some message))).1 ≡ err message)
        × ((get_node_info x c' (answer r none)).1 ≡ ok (some node)))
unfolding get_node_info receive
get_node_info_after_failure x c message r node known differs fresh good =
    let other_hash = ==_ne c.response_body_hash (x.hash "") (λ same. differs (sym same ∙ known)) in
    rw (other_hash, fresh, ==_ne (x.hash "") (x.hash r.body) differs)
      (refl, decode_other x c (x.hash r.body) r.etag r.body ∙ good)
