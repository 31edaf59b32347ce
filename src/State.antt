-- ===== src/State.antt =====
-- internal/state/state.go: the entries that a state backend keeps, and the backend's interface.
-- A `time.Time` is a number of ticks, with 0 for the zero time.
pub mod Local
pub mod Migrate
use agentspec.Base.{ℕ, String, List, Option}

pub data Status : Type 0 where
  applied failed orphaned : Status

pub Status-discrete : Discrete Status
Status-discrete = hlevel

pub record Entry : Type 0 where
  pub fqn : String
  pub hash : String
  pub status : Status
  pub last_applied : ℕ
  pub adapter : String
  pub error : String
  pub orphaned_at : ℕ

-- What `error`, a Go value or nil, carries beside a result.
pub data Result {ℓ} (A : Type ℓ) : Type ℓ where
  ok : A → Result A
  err : String → Result A

-- The interfaces `Backend` and `Locker`, over the backend's own state `S`. `save` and the lock
-- report an error as `some message`, and may have changed the state all the same.
pub record Locker (S : Type 0) : Type 0 where
  pub lock : S → Option String × S
  pub unlock : S → S

pub record Backend (S : Type 0) : Type 0 where
  pub load : S → Result (List Entry) × S
  pub save : List Entry → S → Option String × S
  pub locker : Option (Locker S)
