-- ===== src/Runtime/Loop.antt =====
-- The loop of `handleNext` as steps of its own among those of the other requests.
use serverless.Base.{◌≡◌, ℤ, List, All}
use serverless.Runtime.Types.{Runtime}
use serverless.Runtime.Answers.{Event, popped, forgotten, run}

-- The steps that `handleNext` makes: it takes an invocation off the queue, or deletes an id.
abbrev pub IsPoll : Event → Type 0
IsPoll popped = Unit
IsPoll (forgotten id) = Unit
IsPoll _ = ⊥

module _ (env : ℤ) where
  -- The steps that the loop makes, with where they end.
  abbrev pub Polls : Runtime → Runtime → Type 0
  Polls s t = (es : List Event) × All IsPoll es × ((run env es s).1 ≡ t)
