-- ===== src/Logs.antt =====
-- The multiplexer of core/infrastructure/log/multiplexer.go: a ring of entries, the channels of its
-- subscribers, and its filters, with the entries and sources of core/domain/log. A channel is named
-- by a number. What the JSON decoder makes of a line and the clock are arguments.
pub mod Ring
pub mod Latest
pub mod Filters
use vyx.Base.{
  ℕ, zero, suc, ◌+◌, ◌-◌, ◌%◌, Bool, true, false, ◌&&◌, ◌||◌, Option, none, some, List, [], ◌∷◌,
  ◌++◌, length, get_elem?, replicate, Text, lit, str_eq, to_upper, Dict, lookup, if◌then◌else◌, leb,
  ltb, ◌==◌,
}

pub record Entry : Type 0 where
  pub timestamp : ℕ
  pub source : Text
  pub level : Text
  pub message : Text
  pub correlation_id : Text
  pub fields : Dict Text
  pub raw : Text

-- The zero value of an entry.
abbrev pub blank : Entry
blank = record {
  timestamp = 0;
  source = [];
  level = [];
  message = [];
  correlation_id = [];
  fields = [];
  raw = [];
}

abbrev pub raw_entry : Text → Text → ℕ → Entry
raw_entry worker_id line now = record blank {
  timestamp = now;
  source = worker_id;
  level = lit "INFO";
  raw = line;
}

-- `ParseEntry`: a line that is not JSON or has no time is taken as it is.
abbrev pub entry_of : Option Entry → Entry → Entry
entry_of none fallback = fallback
entry_of (some e) fallback = if e.timestamp == 0 then fallback else e

unfoldable pub parse_entry : (Text → Option Entry) → ℕ → Text → Text → Entry
parse_entry decode now worker_id line = entry_of (decode line) (raw_entry worker_id line now)

-- The channel of a subscriber with what waits in its buffer.
pub record Subscriber : Type 0 where
  pub channel : ℕ
  pub waiting : List Entry

abbrev pub buffer_size : ℕ
buffer_size = 256

pub record Multiplexer : Type 0 where
  pub entries : List Entry
  pub size : ℕ
  pub head : ℕ
  pub count : ℕ
  pub subs : List Subscriber

abbrev pub default_buffer_size : ℕ
default_buffer_size = 5000

abbrev pub capacity_of : Option ℕ → ℕ
capacity_of none = default_buffer_size
capacity_of (some zero) = default_buffer_size
capacity_of (some (suc n)) = suc n

unfoldable pub new : Option ℕ → Multiplexer
new capacity = record {
  entries = replicate (capacity_of capacity) blank;
  size = capacity_of capacity;
  head = 0;
  count = 0;
  subs = [];
}

abbrev pub set_at : ℕ → Entry → List Entry → List Entry
set_at i e [] = []
set_at zero e (x ∷ xs) = e ∷ xs
set_at (suc i) e (x ∷ xs) = x ∷ set_at i e xs

-- The send of `notify`: a subscriber with a full buffer misses the entry.
abbrev pub sent_to : Entry → Subscriber → Subscriber
sent_to e c =
    if ltb (length c.waiting) buffer_size then record c { waiting = c.waiting ++ e ∷ [] } else c

unfoldable pub notify : Entry → List Subscriber → List Subscriber
notify e [] = []
notify e (c ∷ cs) = sent_to e c ∷ notify e cs

unfoldable pub push : Entry → Multiplexer → Multiplexer
push e m = record m {
  entries = set_at m.head e m.entries;
  head = (m.head + 1) % m.size;
  count = if ltb m.count m.size then m.count + 1 else m.count;
  subs = notify e m.subs;
}

-- The loop of `Entries` from index `i` on, for `n` more; an index out of range is a panic.
abbrev pub onto : Option Entry → Option (List Entry) → Option (List Entry)
onto (some e) (some es) = some (e ∷ es)
onto (some e) none = none
onto none es = none

unfoldable pub collect : Multiplexer → ℕ → ℕ → ℕ → Option (List Entry)
collect m start zero i = some []
collect m start (suc n) i =
    onto (get_elem? m.entries ((start + i) % m.size)) (collect m start n (suc i))

unfoldable pub entries_of : Multiplexer → Option (List Entry)
entries_of m = collect m ((m.head + m.size - m.count) % m.size) m.count 0

abbrev pub with_source : Text → Entry → Entry
with_source worker_id e = elim e.source [ [] ↦ record e { source = worker_id } | b ∷ s ↦ e ]

-- `processScannerLine`, with what the parser makes of the line.
unfoldable pub process_scanner_line :
    Text → (Text → Text → Entry) → Text → Multiplexer → Multiplexer
process_scanner_line worker_id parse [] m = m
process_scanner_line worker_id parse (b ∷ s) m =
    push (with_source worker_id (parse worker_id (b ∷ s))) m

unfoldable pub subscribe : ℕ → Multiplexer → Multiplexer
subscribe channel m = record m { subs = m.subs ++ record { channel = channel; waiting = [] } ∷ [] }

abbrev pub without : ℕ → List Subscriber → List Subscriber
without channel [] = []
without channel (c ∷ cs) =
    let rest = without channel cs in if c.channel == channel then cs else c ∷ rest

unfoldable pub unsubscribe : ℕ → Multiplexer → Multiplexer
unsubscribe channel m = record m { subs = without channel m.subs }
