-- ===== src/Durability/FileLog.antt =====
-- `ExampleDurabilityLayer` of src/durability/example_durability.rs: a layer with one handle, its two
-- tasks, the channels between them and the file. A spawned `send` waits for its turn, in any order.
pub mod Reading
pub mod Ending
pub mod Tracking
pub mod Reached
pub mod Draining
pub mod Torn
use mathlib.Core.Option
use distributed_omnipaxos_db.Base.{
  ℕ, zero, suc, ◌<◌, ◌≡◌, Bool, true, false, Option, none, some, List, [], ◌∷◌, ◌++◌, length,
  Outcome, ok, err, panic, ◌>>=◌, if◌then◌else◌,
}
use distributed_omnipaxos_db.TxData.{TxOffset, TxData}
use distributed_omnipaxos_db.Durability.Entry.{LogEntry, serialize_log_entry, deserialize_log_entry}
use distributed_omnipaxos_db.Durability.EntryRoundTrip.{EntryFits}
use distributed_omnipaxos_db.Varint.{IoError}

-- `started`: `tx` is set, and the tasks are spawned. `created`: the writing task has opened its file.
-- `sending`: spawned sends; `queue` and `acks`: the two channels; `unacked`: what the writing task
-- sends on `acks` next. `log_file`: the handle holds an open file there, beside that of the writing task.
pub record FileLog : Type 0 where
  pub started : Bool
  pub created : Bool
  pub file : Option (List ℕ)
  pub sending : List LogEntry
  pub queue : List LogEntry
  pub unacked : Option TxOffset
  pub acks : List TxOffset
  pub durable_offset : Option TxOffset
  pub log_file : Bool

-- The file may be there from an earlier run.
unfoldable pub new : Option (List ℕ) → FileLog
new file = record {
  started = false;
  created = false;
  file = file;
  sending = [];
  queue = [];
  unacked = none;
  acks = [];
  durable_offset = none;
  log_file = false;
}

unfoldable pub close_log_file : FileLog → FileLog
close_log_file s = record s { log_file = false }

unfoldable pub append_tx : FileLog → TxOffset → TxData → FileLog
append_tx s tx_offset tx_data = record s {
  started = true;
  sending = s.sending ++ record { tx_offset = tx_offset; tx_data = tx_data } ∷ [];
}

-- `AsyncFile::create` truncates a file that is there.
unfoldable pub create_file : FileLog → FileLog
create_file s = record s { created = true; file = some [] }

abbrev pub appended : Option (List ℕ) → LogEntry → Option (List ℕ)
appended none entry = none
appended (some bytes) entry = some (bytes ++ serialize_log_entry entry [])

-- One round of the writing task, up to the send of its offset.
unfoldable pub write_request : FileLog → LogEntry → List LogEntry → FileLog
write_request s request queue = record s {
  file = appended s.file request;
  queue = queue;
  unacked = some request.tx_offset;
}

-- The call of the iterator's closure: an error ends the iteration.
abbrev pub next_entry : Outcome IoError (LogEntry × List ℕ) → Outcome ⊥ (Option (LogEntry × List ℕ))
next_entry (ok found) = ok (some found)
next_entry (err e) = ok none
next_entry panic = panic

abbrev pub read_on :
    Outcome ⊥ (Option (LogEntry × List ℕ))
    → (List ℕ → Outcome ⊥ (List (TxOffset × TxData)))
    → Outcome ⊥ (List (TxOffset × TxData))
read_on (ok none) more = ok []
read_on (ok (some (e, rest))) more = do entries ← more rest; ok ((e.tx_offset, e.tx_data) ∷ entries)
read_on (err x) more = absurd x
read_on panic more = panic

-- All entries from a position of the file on, `n` at most.
unfoldable pub read_entries : ℕ → List ℕ → Outcome ⊥ (List (TxOffset × TxData))
read_entries zero bytes = ok []
read_entries (suc n) bytes = read_on (next_entry (deserialize_log_entry bytes)) (read_entries n)

-- `n` starts as the number of bytes; Ending is about that bound.
unfoldable pub iter_file : Option (List ℕ) → Outcome ⊥ (List (TxOffset × TxData))
unfolding read_entries
iter_file none = panic
iter_file (some bytes) = read_entries (length bytes) bytes

unfoldable pub iter : FileLog → Outcome ⊥ (List (TxOffset × TxData))
unfolding iter_file
iter s = iter_file s.file

-- `.last().map(..).unwrap_or(TxOffset(0))`
abbrev pub last_offset : TxOffset → List (TxOffset × TxData) → TxOffset
last_offset o [] = o
last_offset o ((offset, tx_data) ∷ entries) = last_offset offset entries

abbrev pub note_offset :
    Outcome ⊥ (List (TxOffset × TxData)) → FileLog → Outcome ⊥ TxOffset × FileLog
note_offset (ok entries) s =
    (ok (last_offset 0 entries), record s { durable_offset = some (last_offset 0 entries) })
note_offset (err e) s = absurd e
note_offset panic s = (panic, s)

abbrev pub known_offset : Option TxOffset → FileLog → Outcome ⊥ TxOffset × FileLog
known_offset (some offset) s = (ok offset, s)
known_offset none s = note_offset (iter_file s.file) s

unfoldable pub get_durable_tx_offset : FileLog → Outcome ⊥ TxOffset × FileLog
unfolding iter_file
get_durable_tx_offset s = known_offset s.durable_offset s

-- What happens next, as the caller and the scheduler choose, where the lengths of appended data fit 32
-- bits. Both channels have 64 places.
pub data Step (s : FileLog) : FileLog → Type 0 where
  appends :
      (tx_offset : TxOffset) (tx_data : TxData)
      → EntryFits (record { tx_offset = tx_offset; tx_data = tx_data })
      → Step s (append_tx s tx_offset tx_data)
  creates : s.started ≡ true → s.created ≡ false → Step s (create_file s)
  sends :
      (before after : List LogEntry) (request : LogEntry)
      → s.sending ≡ before ++ request ∷ after
      → length s.queue < 64
      → Step s (record s { sending = before ++ after; queue = s.queue ++ request ∷ [] })
  writes :
      (request : LogEntry) (queue : List LogEntry)
      → s.created ≡ true
      → s.unacked ≡ none
      → s.queue ≡ request ∷ queue
      → Step s (write_request s request queue)
  acks :
      (offset : TxOffset)
      → s.unacked ≡ some offset
      → length s.acks < 64
      → Step s (record s { unacked = none; acks = s.acks ++ offset ∷ [] })
  notes :
      (offset : TxOffset) (rest : List TxOffset)
      → s.acks ≡ offset ∷ rest
      → Step s (record s { acks = rest; durable_offset = some offset })
  asks : Step s (get_durable_tx_offset s).1
  closes : Step s (close_log_file s)

pub data Reaches (s : FileLog) : FileLog → Type 0 where
  stays : Reaches s s
  moves : {t u : FileLog} → Reaches s t → Step t u → Reaches s u

-- What a step, and what the steps of a run, appended.
abbrev pub appended_by : {s t : FileLog} → Step s t → List LogEntry
appended_by (appends tx_offset tx_data fit) =
    record { tx_offset = tx_offset; tx_data = tx_data } ∷ []
appended_by (creates started created) = []
appended_by (sends before after request e room) = []
appended_by (writes request queue created unacked e) = []
appended_by (acks offset e room) = []
appended_by (notes offset rest e) = []
appended_by asks = []
appended_by closes = []

abbrev pub appends_of : {s t : FileLog} → Reaches s t → List LogEntry
appends_of stays = []
appends_of (moves run step) = appended_by step ++ appends_of run
