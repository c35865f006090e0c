-- ===== src/Logs/Tests.antt =====
-- The log daemon's theorem at a concrete value.
use serverless.Base.{
  ℕ, ◌≡◌, refl, pos, ℤ, String, Bool, true, false, Option, none, some, any, last, All, Sorted, List,
  [], ◌∷◌, min, length, keep, str_eq, if◌then◌else◌,
}
use serverless.Logs.Ring.{LogEntry, ring_size, local_entries}
use serverless.Logs.Recent.{write_all, history_of, wanted, local_entries-last}
use serverless.Logs.Proxy.{InstanceInfo, CollectorPod, fetch_logs, send_new, stream_logs}
use serverless.Logs.Fetched.{Fetched, fetch_logs-Fetched}
use serverless.Logs.Stream.{Rising, Covered, stream_logs-Streamed}
use serverless.Logs.Collector.{
  PodInfo, run_collector, Follows, has_name, is_ever_listed, run_collector-Followed,
}

abbrev entry : ℕ → LogEntry
entry t = record { time = t; function = "resize"; stream = "stdout"; line = "done" }

abbrev written : List LogEntry
written =
    entry 1
    ∷ record { time = 2; function = "mail"; stream = "stdout"; line = "sent" }
    ∷ entry 3
    ∷ entry 4
    ∷ []

last_two : local_entries "resize" (pos 2) "" (write_all written []) ≡ entry 3 ∷ entry 4 ∷ []
unfolding local_entries write_all serverless.Base.lookup serverless.Base.insert
last_two = refl

local_entries-last_example :
    let history = history_of "resize" written in
    let recent = last (wanted (pos 2) (min ring_size (length history))) history in
    local_entries "resize" (pos 2) "" (write_all written [])
    ≡ (if str_eq "" "" then recent else keep (λ e. str_eq e.stream "") recent)
local_entries-last_example = local_entries-last written "resize" (pos 2) ""

abbrev on_node : String → InstanceInfo
on_node node = record { id = "i"; func_name = "resize"; node_name = node; state = "idle" }

abbrev instances : List InstanceInfo
instances = on_node "a" ∷ on_node "b" ∷ on_node "a" ∷ on_node "" ∷ []

abbrev pods : List CollectorPod
pods =
    record { node_name = "a"; pod_name = "pa" } ∷ record { node_name = "b"; pod_name = "pb" } ∷ []

-- Two collectors, whose entries interleave.
abbrev two_collectors : String → Option (List LogEntry)
two_collectors pod = if str_eq pod "pa" then some (entry 1 ∷ entry 4 ∷ []) else some (entry 3 ∷ [])

fetch_logs-Fetched_example :
    Fetched two_collectors
      (pos 2)
      (some instances)
      (some pods)
      (fetch_logs two_collectors (pos 2) (some instances) (some pods))
fetch_logs-Fetched_example = fetch_logs-Fetched two_collectors (pos 2) (some instances) (some pods)

fetched_test :
    fetch_logs two_collectors (pos 2) (some instances) (some pods) ≡ some (entry 3 ∷ entry 4 ∷ [])
unfolding fetch_logs serverless.Base.lookup serverless.Base.insert serverless.Base.sort_by
fetched_test = refl

stream_logs-Streamed_example :
    let (sent, now) = stream_logs 0 (some written ∷ none ∷ []) in
    Rising 0 sent now
    × All (Covered now (send_new now (entry 4 ∷ entry 5 ∷ [])).0) (entry 4 ∷ entry 5 ∷ [])
stream_logs-Streamed_example =
    stream_logs-Streamed 0 (some written ∷ none ∷ []) (entry 4 ∷ entry 5 ∷ [])
      ((refl, tt), (tt, tt))

-- Of two entries at the same time only the first is sent.
same_time_test :
    (send_new 0 (
      entry 1
      ∷ record { time = 1; function = "resize"; stream = "stderr"; line = "failed" }
      ∷ [])).0
    ≡ entry 1 ∷ []
unfolding send_new
same_time_test = refl

abbrev pod_a : PodInfo
pod_a = record { name = "pod-a"; function = "resize"; node_name = "n1"; phase = "Running" }

abbrev rounds : List (Option (List PodInfo))
rounds =
    some (pod_a ∷ record pod_a { node_name = "n2"; name = "pod-b" } ∷ [])
    ∷ none
    ∷ some (pod_a ∷ [])
    ∷ []

run_collector-Followed_example :
    let (followed, seen) = run_collector "n1" rounds [] in
    Follows "n1" [] followed seen
    × ((name : String) → has_name name followed ≡ is_ever_listed "n1" name rounds)
run_collector-Followed_example = run_collector-Followed "n1" rounds
