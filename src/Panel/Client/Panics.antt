-- ===== src/Panel/Client/Panics.antt =====
-- GetNodeInfo: the configurations on which it panics.
use v2node_pro.Prelude.{
  String, ◌≡◌, ◌≢◌, refl, ap, ◌∙◌, Bool, true, false, ◌&&◌, ◌||◌, inl, inr, Option, none, some,
  Bool-cases,
}
use v2node_pro.Prelude.Int.{ℤ, pos}
use v2node_pro.Prelude.Eq.{◌==◌, string_eq, int_eq}
use v2node_pro.Prelude.Flow.{Outcome, ok, err, panic, hang, ◌>>=◌, is_panic}
use v2node_pro.Panel.NodeInfo.{
  Any, missing, bool, text, float, int, int64, other, BaseConfig, CommonNode, NodeInfo,
}
use v2node_pro.Panel.Client.{
  Codec, Client, Response, get_node_info, decode, node_of, complete, build_node, interval_to_time,
  is_tls_protocol,
}
use v2node_pro.Panel.Client.Laws.{answer, read-receive, receive_new}

or_false : (b : Bool) → (b || false) ≡ b
or_false true = refl
or_false false = refl

-- An interval that intervalToTime cannot read: none at all, a Boolean, a list or an object.
unfoldable pub is_unreadable : Any → Bool
is_unreadable missing = true
is_unreadable (bool b) = true
is_unreadable other = true
is_unreadable (text s) = false
is_unreadable (float f) = false
is_unreadable (int i) = false
is_unreadable (int64 i) = false

unfoldable pub lacks_intervals : Option BaseConfig → Bool
unfolding is_unreadable
lacks_intervals none = true
lacks_intervals (some base) = is_unreadable base.push_interval || is_unreadable base.pull_interval

interval-panic : (x : Codec) (a : Any) → is_panic (interval_to_time x a) ≡ is_unreadable a
unfolding is_unreadable interval_to_time
interval-panic x missing = refl
interval-panic x (bool b) = refl
interval-panic x other = refl
interval-panic x (text s) = refl
interval-panic x (float f) = refl
interval-panic x (int i) = refl
interval-panic x (int64 i) = refl

is_panic-bind {ℓ κ} :
    {A : Type ℓ} {B : Type κ} (first : Outcome A) (next : A → Outcome B) (rest : Bool)
    → ((e : String) → first ≢ err e)
    → first ≢ hang
    → ((a : A) → is_panic (next a) ≡ rest)
    → is_panic (first >>= next) ≡ (is_panic first || rest)
is_panic-bind (ok a) next rest calm awake p = p a
is_panic-bind (err e) next rest calm awake p = absurd (calm e refl)
is_panic-bind panic next rest calm awake p = refl
is_panic-bind hang next rest calm awake p = absurd (awake refl)

interval-ne-err : (x : Codec) (a : Any) (e : String) → interval_to_time x a ≢ err e
unfolding interval_to_time
interval-ne-err x missing e = λ h. cc
interval-ne-err x (bool b) e = λ h. cc
interval-ne-err x other e = λ h. cc
interval-ne-err x (text s) e = λ h. cc
interval-ne-err x (float f) e = λ h. cc
interval-ne-err x (int i) e = λ h. cc
interval-ne-err x (int64 i) e = λ h. cc

interval-ne-hang : (x : Codec) (a : Any) → interval_to_time x a ≢ hang
unfolding interval_to_time
interval-ne-hang x missing = λ h. cc
interval-ne-hang x (bool b) = λ h. cc
interval-ne-hang x other = λ h. cc
interval-ne-hang x (text s) = λ h. cc
interval-ne-hang x (float f) = λ h. cc
interval-ne-hang x (int i) = λ h. cc
interval-ne-hang x (int64 i) = λ h. cc

bind_interval :
    (x : Codec) (a : Any) {B : Type 0} (next : ℤ → Outcome B) (rest : Bool)
    → ((z : ℤ) → is_panic (next z) ≡ rest)
    → is_panic (interval_to_time x a >>= next) ≡ (is_unreadable a || rest)
bind_interval x a next rest p =
    is_panic-bind (interval_to_time x a) next rest (interval-ne-err x a) (interval-ne-hang x a) p
    ∙ ap (λ b. b || rest) (interval-panic x a)

complete-panic :
    (x : Codec) (c : Client) (cm : CommonNode) (s : ℤ)
    → is_panic (complete x c cm s) ≡ lacks_intervals cm.base_config
unfolding complete lacks_intervals
complete-panic x c cm s =
    elim cm.base_config
      as (λ b.
        is_panic (elim b [
          | none ↦ panic
          | some base ↦ interval_to_time x base.push_interval >>= λ push.
              interval_to_time x base.pull_interval >>= λ pull. ok (build_node c cm s push pull)
        ])
        ≡ lacks_intervals b) [
          | none ↦ refl
          | some base ↦
              bind_interval x base.push_interval _ (is_unreadable base.pull_interval) (λ push.
                bind_interval x base.pull_interval _ false (λ pull. refl)
                ∙ or_false (is_unreadable base.pull_interval))
        ]

unfoldable pub is_supported : CommonNode → Bool
is_supported cm = is_tls_protocol cm.protocol || cm.protocol == "shadowsocks"

node_of-panic :
    (x : Codec) (c : Client) (cm : CommonNode)
    → is_panic (node_of x c cm) ≡ (is_supported cm && lacks_intervals cm.base_config)
unfolding node_of is_supported
node_of-panic x c cm = elim (Bool-cases (is_tls_protocol cm.protocol)) [
  | inl tls ↦ rw tls (complete-panic x c cm cm.tls)
  | inr plain ↦ elim (Bool-cases (cm.protocol == "shadowsocks")) [
    | inl ss ↦ rw (plain, ss) (complete-panic x c cm (pos 0))
    | inr unknown ↦ rw (plain, unknown) refl
  ]
]

is_panic-some : (o : Outcome NodeInfo) → is_panic (o >>= λ node. ok (some node)) ≡ is_panic o
is_panic-some (ok node) = refl
is_panic-some (err e) = refl
is_panic-some panic = refl
is_panic-some hang = refl

-- On a body that the client has not read before, that was received without an error and decodes,
-- GetNodeInfo panics exactly if the protocol is one of the seven and there is no base configuration
-- or one of its two intervals is missing, a Boolean, a list or an object.
pub get_node_info-panic :
    (x : Codec) (c : Client) (r : Response) (cm : CommonNode)
    → (r.status == pos 304) ≡ false
    → c.response_body_hash ≢ x.hash r.body
    → x.decode_node r.body ≡ inr cm
    → is_panic (get_node_info x c (answer r none)).1
      ≡ (is_supported cm && lacks_intervals cm.base_config)
unfolding decode
get_node_info-panic x c r cm fresh new decoded =
    rw (read-receive x c r none fresh, receive_new x c r new, decode, decoded)
      (is_panic-some (node_of x c cm) ∙ node_of-panic x c cm)
