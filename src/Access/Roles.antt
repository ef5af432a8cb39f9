-- ===== src/Access/Roles.antt =====
-- src/blackboard/types.ts: roles and actors.
use kerf_app.Common.{HasEq, String, arith, index_eq, ℕ, ◌≡◌}

pub data Role : Type 0 where
  owner moo pm field_super office sub client : Role

pub record Actor : Type 0 where
  pub id : String
  pub role : Role

abbrev pub role_index : Role → ℕ
role_index owner = 0
role_index moo = 1
role_index pm = 2
role_index field_super = 3
role_index office = 4
role_index sub = 5
role_index client = 6

pub role_index_injective : (a b : Role) → role_index a ≡ role_index b → a ≡ b
role_index_injective a b h = ground arith

instance abbrev pub role_eq : HasEq Role
role_eq = index_eq role_index role_index_injective
