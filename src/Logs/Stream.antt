-- ===== src/Logs/Stream.antt =====
-- logdaemon/shared.go: what the polls of `streamLogs` send.
use serverless.Base.{
  ℕ, ◌<◌, ◌≡◌, refl, sym, subst, List, [], ◌∷◌, ◌++◌, Option, none, some, true, any, ltb, ◌==◌, All,
  arith, Bool-cases, inl, inr, Sorted, Below,
}
use serverless.Logs.Ring.{LogEntry}
use serverless.Logs.Proxy.{before, send_new, stream_logs}

-- Every entry is newer than the one before, the first than `last`, and `now` is the time of the
-- last one.
abbrev pub Rising : ℕ → List LogEntry → ℕ → Type 0
Rising last [] now = now ≡ last
Rising last (e ∷ entries) now = (last < e.time) × Rising e.time entries now

Rising-append :
    (last middle now : ℕ) (front back : List LogEntry)
    → Rising last front middle
    → Rising middle back now
    → Rising last (front ++ back) now
Rising-append last middle now [] back h k = ground (arith, h, k)
Rising-append last middle now (e ∷ front) back h k =
    (h.0, Rising-append e.time middle now front back h.1 k)

send_new-Rising :
    (last : ℕ) (entries : List LogEntry)
    → Rising last (send_new last entries).0 (send_new last entries).1
unfolding send_new
send_new-Rising last [] = refl
send_new-Rising last (e ∷ entries) =
    ground (arith, send_new-Rising e.time entries, send_new-Rising last entries)

-- The time is that of an entry, or is past.
abbrev pub Covered : ℕ → List LogEntry → LogEntry → Type 0
Covered last sent e = last < e.time → any (λ s. s.time == e.time) sent ≡ true

stream_logs-Rising :
    (last : ℕ) (polls : List (Option (List LogEntry)))
    → Rising last (stream_logs last polls).0 (stream_logs last polls).1
unfolding stream_logs
stream_logs-Rising last [] = refl
stream_logs-Rising last (none ∷ polls) = stream_logs-Rising last polls
stream_logs-Rising last (some entries ∷ polls) =
    let now = send_new last entries in
    let later = stream_logs now.1 polls in
    Rising-append last now.1 later.1 now.0 later.0 (send_new-Rising last entries)
      (stream_logs-Rising now.1 polls)

Covered-weaken :
    (last : ℕ) (e : LogEntry) (sent entries : List LogEntry)
    → Below before e entries
    → All (Covered e.time sent) entries
    → All (Covered last (e ∷ sent)) entries
Covered-weaken last e sent [] b h = tt
Covered-weaken last e sent (y ∷ entries) b h =
    (λ k. ground (arith, b.0, h.0), Covered-weaken last e sent entries b.1 h.1)

send_new-Covered :
    (last : ℕ) (entries : List LogEntry)
    → Sorted before entries
    → All (Covered last (send_new last entries).0) entries
unfolding send_new
send_new-Covered last [] s = tt
send_new-Covered last (e ∷ entries) s = elim (Bool-cases (ltb last e.time)) [
  | inl h ↦
      let rest = send_new e.time entries in
      let step : (send_new last (e ∷ entries)).0 ≡ e ∷ rest.0 = rw (send_new, h) refl in
      subst (λ sent. All (Covered last sent) (e ∷ entries)) (sym step)
        (
          λ k. ground arith,
          Covered-weaken last e rest.0 entries s.0 (send_new-Covered e.time entries s.1),
        )
  | inr h ↦
      let step : (send_new last (e ∷ entries)).0 ≡ (send_new last entries).0 =
        rw (send_new, h) refl in
      subst (λ sent. All (Covered last sent) (e ∷ entries)) (sym step)
        (λ k. ground (arith, h, k), send_new-Covered last entries s.1)
]

-- What `streamLogs` sends has strictly rising times, so that nothing is sent twice, over any polls;
-- and of a further poll, whose entries are sorted by time, every entry that is newer than all that
-- was sent before it is sent, or another of the same time.
pub stream_logs-Streamed :
    (last : ℕ) (polls : List (Option (List LogEntry))) (entries : List LogEntry)
    → Sorted before entries
    → let (sent, now) = stream_logs last polls in
      Rising last sent now × All (Covered now (send_new now entries).0) entries
stream_logs-Streamed last polls entries s =
    (stream_logs-Rising last polls, send_new-Covered (stream_logs last polls).1 entries s)
