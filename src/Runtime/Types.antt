-- ===== src/Runtime/Types.antt =====
-- The state of the runtime. A channel of capacity one is an address into `channels`, which holds
-- what the channel buffers; `next_channel` is the next free one.
use serverless.Base.{ℕ, String, Bool, List, Option, Dict}

pub record InvokeResult : Type 0 where
  pub status_code : ℕ
  pub body : List ℕ

pub record Invocation : Type 0 where
  pub id : String
  pub payload : List ℕ
  pub event_type : String
  pub deadline : ℕ
  pub result : ℕ

-- `notify` says whether the channel `notify` holds its token.
pub record Runtime : Type 0 where
  pub queue : List Invocation
  pub inflight : Dict ℕ
  pub notify : Bool
  pub channels : ℕ → Option InvokeResult
  pub next_channel : ℕ
