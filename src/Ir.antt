-- ===== src/Ir.antt =====
-- internal/ir/ir.go: the resources, policies, bindings and deploy targets of the intermediate
-- representation. `interface{}` values are JSON values.
use agentspec.Base.{ℕ, String, Bool, List}

mutual
  pub data Value : Type 0 where
    nil : Value
    bool : Bool → Value
    number : ℕ → Value
    text : String → Value
    slice : Values → Value
    object : Fields → Value

  pub data Values : Type 0 where
    none_left : Values
    item : Value → Values → Values

  pub data Fields : Type 0 where
    no_field : Fields
    field : String → Value → Fields → Fields

pub record Resource : Type 0 where
  pub kind : String
  pub name : String
  pub fqn : String
  pub attributes : Fields
  pub references : List String
  pub hash : String
  pub metadata : Fields

pub record Rule : Type 0 where
  pub action : String
  pub resource : String
  pub subject : String

pub record Policy : Type 0 where
  pub name : String
  pub rules : List Rule

pub record Binding : Type 0 where
  pub name : String
  pub adapter : String
  pub default : Bool
  pub config : Fields

pub record DeployTarget : Type 0 where
  pub name : String
  pub target : String
  pub default : Bool
  pub config : Fields
