-- ===== src/Examples/Files.antt =====
-- The layer over a file at concrete inputs: two appends, of which the second one is sent first.
use mathlib.Core.List.{Perm}
use distributed_omnipaxos_db.Base.{
  ℕ, ◌+◌, ◌≡◌, refl, true, ◌⊎◌, none, some, List, [], ◌∷◌, ◌++◌, map, arith, ok, take, drop,
}
use distributed_omnipaxos_db.TxData.{TxOffset}
use distributed_omnipaxos_db.TxData.Shape.{concat}
use distributed_omnipaxos_db.Durability.Entry.{LogEntry}
use distributed_omnipaxos_db.Durability.EntryRoundTrip.{EntryFits, entry_bytes}
use distributed_omnipaxos_db.Durability.FileLog.{
  FileLog, new, append_tx, create_file, write_request, iter_file, iter, appends, creates, sends,
  writes, acks, notes, Reaches, stays, moves, appends_of,
}
use distributed_omnipaxos_db.Durability.FileLog.Reading.{pair_of}
use distributed_omnipaxos_db.Durability.FileLog.Tracking.{Has}
use distributed_omnipaxos_db.Durability.FileLog.Reached.{reached_file}
use distributed_omnipaxos_db.Durability.FileLog.Torn.{iter_file-torn}
use distributed_omnipaxos_db.Durability.Entry.{to_le_bytes}
use distributed_omnipaxos_db.Varint.RoundTrip.{groups}
use distributed_omnipaxos_db.Durability.FileLog.Draining.{
  pending, steps, TaskStep, any_schedule, drains,
}
use distributed_omnipaxos_db.Examples.Data.{sample_data, sample_data-DataFits}

abbrev entry : ℕ → LogEntry
entry offset = record { tx_offset = offset; tx_data = sample_data }

zero_fits : EntryFits (entry 0)
zero_fits = record { offset = omega arith; tx = sample_data-DataFits }

one_fits : EntryFits (entry 1)
one_fits = record { offset = omega arith; tx = sample_data-DataFits }

abbrev asked : FileLog
asked = append_tx (append_tx (new none) 0 sample_data) 1 sample_data

two_appends : Reaches (new none) asked
two_appends = moves (moves stays (appends 0 sample_data zero_fits)) (appends 1 sample_data one_fits)

abbrev opened : FileLog
opened = create_file asked

abbrev queued : FileLog
queued = record opened { sending = entry 0 ∷ []; queue = entry 1 ∷ [] }

one_queued : Reaches (new none) queued
unfolding new append_tx create_file
one_queued =
    moves (moves two_appends (creates refl refl))
      (sends (entry 0 ∷ []) [] (entry 1) refl (omega arith))

abbrev written : FileLog
written = write_request queued (entry 1) []

one_written : Reaches (new none) written
unfolding new append_tx create_file
one_written = moves one_queued (writes (entry 1) [] refl refl refl)

abbrev noted : FileLog
noted = record written { unacked = none; acks = []; durable_offset = some 1 }

one_noted : Reaches (new none) noted
unfolding new append_tx create_file write_request
one_noted = moves (moves one_written (acks 1 refl (omega arith))) (notes 1 [] refl)

reached_file_example :
    (entries : List LogEntry) × Perm
      (appends_of one_noted)
      (entries ++ (noted.queue ++ noted.sending))
    × (noted.created ≡ true → iter noted ≡ ok (map pair_of entries))
    × ((o : TxOffset) → noted.durable_offset ≡ some o → (o ≡ 0) ⊎ Has o entries)
reached_file_example = reached_file one_noted

drains_example :
    (t : FileLog) × (more : Reaches written t) × (steps more ≡ pending written)
    × (appends_of more ≡ [])
    × (entries : List LogEntry) × Perm (appends_of one_written) entries
    × (iter t ≡ ok (map pair_of entries))
unfolding new append_tx create_file write_request
drains_example = drains one_written refl

abbrev waiting : FileLog
waiting = record written { unacked = none; acks = 1 ∷ [] }

-- The writing task sends the offset that it wrote.
any_schedule_example :
    (1 + pending waiting ≡ pending written) × ((pending waiting ≡ 0) ⊎ TaskStep waiting)
unfolding new append_tx create_file write_request
any_schedule_example =
    any_schedule {s = written} (moves stays (acks 1 refl (omega arith))) refl (tt, refl)

-- The second write is cut off behind its first nine bytes.
iter_file-torn_example :
    iter_file (some (concat entry_bytes (entry 1 ∷ []) ++ take 9 (entry_bytes (entry 0))))
    ≡ ok (map pair_of (entry 1 ∷ []))
unfolding to_le_bytes groups
iter_file-torn_example =
    iter_file-torn (entry 1 ∷ []) (entry 0) (take 9 (entry_bytes (entry 0)))
      (drop 9 (entry_bytes (entry 0))) (one_fits, tt) zero_fits refl (omega arith)
