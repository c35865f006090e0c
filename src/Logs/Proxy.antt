-- ===== src/Logs/Proxy.antt =====
-- logdaemon/shared.go: the proxy. The answers of the gateway, of Kubernetes and of the collectors are
-- arguments; `ask` is `fetchCollectorLogs` for the function, the tail and the stream at hand.
use serverless.Base.{
  ℕ, ℤ, pos, ltb_ℤ, pos_part, String, Bool, true, false, ◌||◌, ◌&&◌, List, [], ◌∷◌, ◌++◌, Option,
  none, some, Dict, lookup, insert, str_eq, any, ltb, length, drop, ◌-◌, sort_by, if◌then◌else◌,
}
use serverless.Logs.Ring.{LogEntry, Ring, local_entries}
use serverless.Logs.Recent.{write_all}

pub record InstanceInfo : Type 0 where
  pub id : String
  pub func_name : String
  pub node_name : String
  pub state : String

pub record CollectorPod : Type 0 where
  pub node_name : String
  pub pod_name : String

-- `collectorsByNode`, from the pods that Kubernetes lists.
unfoldable pub collectors_from : List CollectorPod → Dict CollectorPod → Dict CollectorPod
collectors_from [] collectors = collectors
collectors_from (pod ∷ pods) collectors =
    if str_eq pod.node_name "" || str_eq pod.pod_name ""
    then collectors_from pods collectors
    else collectors_from pods (insert pod.node_name pod collectors)

-- The loop of `fetchLogs`; `seen` are the pods that have been asked.
unfoldable pub gather :
    (String → Option (List LogEntry))
    → Dict CollectorPod
    → List String
    → List InstanceInfo
    → List LogEntry
gather ask collectors seen [] = []
gather ask collectors seen (inst ∷ rest) =
    let skipped = gather ask collectors seen rest in
    if str_eq inst.node_name "" then skipped else elim (lookup inst.node_name collectors) [
      | none ↦ skipped
      | some pod ↦
          let later = gather ask collectors (pod.pod_name ∷ seen) rest in
          if str_eq pod.pod_name "" || any (str_eq pod.pod_name) seen
          then skipped
          else elim (ask pod.pod_name) [ none ↦ later | some entries ↦ entries ++ later ]
    ]

abbrev pub before : LogEntry → LogEntry → Bool
before a b = ltb a.time b.time

-- The newest `n` of sorted entries, or all if `n` is not positive.
unfoldable pub newest : ℤ → List LogEntry → List LogEntry
newest n all =
    if ltb_ℤ (pos 0) n && ltb_ℤ n (pos (length all))
    then drop (length all - pos_part n) all
    else all

-- `fetchLogs`; an error is none.
unfoldable pub fetch_logs :
    (String → Option (List LogEntry))
    → ℤ
    → Option (List InstanceInfo)
    → Option (List CollectorPod)
    → Option (List LogEntry)
unfolding collectors_from gather newest
fetch_logs ask n none pods = none
fetch_logs ask n (some instances) none = none
fetch_logs ask n (some instances) (some pods) =
    some (newest n (sort_by before (gather ask (collectors_from pods []) [] instances)))

-- The loop of `streamLogs` over the entries of a poll: what is sent, and the time of the last.
unfoldable pub send_new : ℕ → List LogEntry → List LogEntry × ℕ
send_new last [] = ([], last)
send_new last (e ∷ entries) =
    let sent = send_new e.time entries in
    let skipped = send_new last entries in if ltb last e.time then (e ∷ sent.0, sent.1) else skipped

-- The polls of `streamLogs`, by what each of them fetches.
unfoldable pub stream_logs : ℕ → List (Option (List LogEntry)) → List LogEntry × ℕ
unfolding send_new
stream_logs last [] = ([], last)
stream_logs last (none ∷ polls) = stream_logs last polls
stream_logs last (some entries ∷ polls) =
    let now = send_new last entries in
    let later = stream_logs now.1 polls in (now.0 ++ later.0, later.1)

-- `entriesFor`; `proxy` says that the daemon is one, and then `fetched` is what `fetchLogs` gives.
unfoldable pub entries_for :
    Bool
    → Option (List LogEntry)
    → String
    → ℤ
    → String
    → Dict Ring
    → Option (List LogEntry) × Dict Ring
unfolding local_entries write_all
entries_for true none name n filter_stream rings = (none, rings)
entries_for true (some entries) name n filter_stream rings = (some entries, write_all entries rings)
entries_for false fetched name n filter_stream rings =
    (some (local_entries name n filter_stream rings), rings)
