-- ===== src/Logs/Ring.antt =====
-- logdaemon/shared.go: the ring buffer of a function, with its subscribers, and the daemon's map of
-- rings. An index is a number below the size, and a channel is an address with what it buffers.
use serverless.Base.{
  ℕ, zero, suc, ◌+◌, ◌-◌, ◌%◌, ℤ, pos, leb_ℤ, ltb_ℤ, pos_part, String, ◌||◌, if◌then◌else◌, List,
  [], ◌∷◌, ◌++◌, none, some, ltb, ◌==◌, length, keep, str_eq, Dict, lookup, insert,
}

pub record LogEntry : Type 0 where
  pub time : ℕ
  pub function : String
  pub stream : String
  pub line : String

abbrev pub ring_size : ℕ
ring_size = 1000

abbrev pub channel_size : ℕ
channel_size = 64

pub record Ring : Type 0 where
  pub entries : ℕ → LogEntry
  pub head : ℕ
  pub count : ℕ
  pub subs : List ℕ

abbrev pub zero_entry : LogEntry
zero_entry = record { time = 0; function = ""; stream = ""; line = "" }

abbrev pub new_ring : Ring
new_ring = record { entries = λ i. zero_entry; head = 0; count = 0; subs = [] }

-- The critical section of `push`.
unfoldable pub push : LogEntry → Ring → Ring
push e r = record {
  entries = λ i. if i == r.head then e else r.entries i;
  head = (r.head + 1) % ring_size;
  count = if ltb r.count ring_size then r.count + 1 else r.count;
  subs = r.subs;
}

-- The sends that follow, to the subscribers copied in the critical section: a full channel is
-- passed over.
unfoldable pub broadcast : LogEntry → List ℕ → (ℕ → List LogEntry) → ℕ → List LogEntry
broadcast e [] channels = channels
broadcast e (c ∷ subs) channels = broadcast e subs (
    if ltb (length (channels c)) channel_size
    then (λ d. if d == c then channels c ++ (e ∷ []) else channels d)
    else channels)

-- The loop of `tail`, for the entries from number `i` on.
unfoldable pub copy_from : (ℕ → LogEntry) → ℕ → ℕ → ℕ → List LogEntry
copy_from entries start i zero = []
copy_from entries start i (suc left) =
    entries ((start + i) % ring_size) ∷ copy_from entries start (suc i) left

unfoldable pub tail : ℤ → Ring → List LogEntry
unfolding copy_from
tail n r =
    if r.count == 0
    then []
    else let m = if leb_ℤ n (pos 0) || ltb_ℤ (pos r.count) n then r.count else pos_part n in
      let start = (r.head + ring_size - m) % ring_size in copy_from r.entries start 0 m

unfoldable pub subscribe : ℕ → Ring → Ring
subscribe c r = record r { subs = r.subs ++ (c ∷ []) }

unfoldable pub remove_sub : ℕ → List ℕ → List ℕ
remove_sub c [] = []
remove_sub c (d ∷ subs) = if d == c then subs else d ∷ remove_sub c subs

unfoldable pub unsubscribe : ℕ → Ring → Ring
unfolding remove_sub
unsubscribe c r = record r { subs = remove_sub c r.subs }

-- `ringFor` gives an unknown function a new ring.
abbrev pub ring_for : String → Dict Ring → Ring
ring_for name rings = elim (lookup name rings) [ none ↦ new_ring | some r ↦ r ]

-- `write`, up to the log file.
unfoldable pub write : LogEntry → Dict Ring → Dict Ring
unfolding push
write e rings = insert e.function (push e (ring_for e.function rings)) rings

unfoldable pub local_entries : String → ℤ → String → Dict Ring → List LogEntry
unfolding tail
local_entries name n filter_stream rings = elim (lookup name rings) [
  | none ↦ []
  | some r ↦
      let entries = tail n r in
      if str_eq filter_stream "" then entries else keep (λ e. str_eq e.stream filter_stream) entries
]
