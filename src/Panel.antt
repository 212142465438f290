-- ===== src/Panel.antt =====
-- api/v2board/user.go: what the panel sends of its users, and what is reported back.
-- `msgpack` and JSON decoding is done by libraries; the model starts from the decoded values.
pub mod NodeInfo
pub mod Client
pub mod Users
use v2node_pro.Prelude.{
  String, ◌≡◌, false, Option, none, some, List, [], ◌∷◌, if◌then◌else◌, is_some,
}
use v2node_pro.Prelude.Eq.{◌==◌, string_eq}
use v2node_pro.Prelude.Int.{ℤ}

pub record UserInfo : Type 0 where
  pub id : ℤ
  pub uuid : String
  pub speed_limit : ℤ
  pub device_limit : ℤ

pub record OnlineUser : Type 0 where
  pub uid : ℤ
  pub ip : String

pub record UserTraffic : Type 0 where
  pub uid : ℤ
  pub upload : ℤ
  pub download : ℤ

-- The first user of a list with a uuid.
unfoldable pub find : String → List UserInfo → Option UserInfo
find k [] = none
find k (u ∷ us) = if u.uuid == k then some u else find k us

-- No uuid stands twice in a list.
abbrev pub IsDistinctUsers : List UserInfo → Type 0
IsDistinctUsers [] = Unit
IsDistinctUsers (u ∷ us) = (is_some (find u.uuid us) ≡ false) × IsDistinctUsers us
