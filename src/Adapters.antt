-- ===== src/Adapters.antt =====
-- internal/adapters/adapter.go: planned actions and their outcomes.
pub mod Local
use agentspec.Base.{String, List, Option, Bool, true, false}
use agentspec.Ir.{Resource}
use agentspec.State.{Result}

pub data ActionType : Type 0 where
  create update delete noop : ActionType

pub record Action : Type 0 where
  pub fqn : String
  pub type : ActionType
  pub resource : Option Resource
  pub reason : String

pub data ResultStatus : Type 0 where
  success failure : ResultStatus

pub record ActionResult : Type 0 where
  pub fqn : String
  pub action : ActionType
  pub status : ResultStatus
  pub error : String
  pub artifact : String

-- The part of the interface `Adapter` that the apply engine calls.
pub record Adapter : Type 0 where
  pub name : String
  pub apply : List Action → Result (List ActionResult)

abbrev pub is_noop : ActionType → Bool
is_noop noop = true
is_noop _ = false
