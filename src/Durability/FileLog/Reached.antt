-- ===== src/Durability/FileLog/Reached.antt =====
-- What holds in every state that the layer of src/durability/example_durability.rs reaches.
use mathlib.Core.List.{Perm, perm_middle}
use mathlib.Core.List.Perm
use distributed_omnipaxos_db.Base.{
  ◌≡◌, sym, ap, ◌∙◌, subst, true, ◌⊎◌, Option, none, some, List, [], ◌∷◌, ◌++◌, map, append-nil,
  append_assoc, Outcome, ok, err, panic,
}
use distributed_omnipaxos_db.TxData.{TxOffset, TxData}
use distributed_omnipaxos_db.Durability.Entry.{LogEntry}
use distributed_omnipaxos_db.Durability.FileLog.{
  FileLog, new, append_tx, create_file, write_request, iter_file, iter, known_offset, note_offset,
  get_durable_tx_offset, close_log_file, Step, appends, creates, sends, writes, acks, notes, asks,
  closes, Reaches, stays, moves, appended_by, appends_of,
}
use distributed_omnipaxos_db.Durability.FileLog.Reading.{pair_of, iter_file-entries}
use distributed_omnipaxos_db.Durability.FileLog.Tracking.{
  Has, content, Tracks, new-Tracks, appends-Tracks, creates-Tracks, sends-Tracks, writes-Tracks,
  acks-Tracks, notes-Tracks, closes-Tracks, known-Tracks,
}

-- What was appended is written, in the channel, or on its way to it.
abbrev Accounts : List LogEntry → List LogEntry → FileLog → Type 0
Accounts appended written s = Perm appended (written ++ (s.queue ++ s.sending))

to_middle :
    {A : Type 0} (xs ys : List A) (x : A) {zs : List A}
    → Perm zs (xs ++ ys)
    → Perm (x ∷ zs) (xs ++ x ∷ ys)
to_middle xs ys x p = Perm.trans (Perm.cons x p) (Perm.symm (perm_middle xs ys))

appends-accounts :
    (all written queue sending : List LogEntry) (e : LogEntry)
    → Perm all (written ++ (queue ++ sending))
    → Perm (e ∷ all) (written ++ (queue ++ (sending ++ e ∷ [])))
appends-accounts all written queue sending e p =
    subst (Perm (e ∷ all))
      (append_assoc written (queue ++ sending) (e ∷ [])
        ∙ ap (◌++◌ written) (append_assoc queue sending (e ∷ [])))
      (to_middle (written ++ (queue ++ sending)) [] e
        (subst (Perm all) (sym (append-nil (written ++ (queue ++ sending)))) p))

sends-accounts :
    (all written queue before after : List LogEntry) (e : LogEntry)
    → Perm all (written ++ (queue ++ (before ++ e ∷ after)))
    → Perm all (written ++ ((queue ++ e ∷ []) ++ (before ++ after)))
sends-accounts all written queue before after e p = Perm.trans p (
    Perm.append_left written (
      subst (Perm (queue ++ (before ++ e ∷ after)))
        (sym (append_assoc queue (e ∷ []) (before ++ after)))
        (Perm.append_left queue (perm_middle before after))))

writes-accounts :
    (all written queue sending : List LogEntry) (e : LogEntry)
    → Perm all (written ++ ((e ∷ queue) ++ sending))
    → Perm all ((written ++ e ∷ []) ++ (queue ++ sending))
writes-accounts all written queue sending e p =
    subst (Perm all) (sym (append_assoc written (e ∷ []) (queue ++ sending))) p

noted-same :
    (r : Outcome ⊥ (List (TxOffset × TxData))) (all written : List LogEntry) (s : FileLog)
    → Accounts all written s
    → Accounts all written (note_offset r s).1
noted-same (ok entries) all written s p = p
noted-same (err x) all written s p = absurd x
noted-same panic all written s p = p

known-same :
    (o : Option TxOffset) (all written : List LogEntry) (s : FileLog)
    → Accounts all written s
    → Accounts all written (known_offset o s).1
known-same (some o) all written s p = p
known-same none all written s p = noted-same (iter_file s.file) all written s p

step-kept :
    {s t : FileLog} (all written : List LogEntry) (step : Step s t)
    → Tracks s written
    → Accounts all written s
    → (written' : List LogEntry) × Tracks t written' × Accounts (appended_by step ++ all) written' t
unfolding append_tx create_file write_request get_durable_tx_offset close_log_file
step-kept {s} all written (appends o d fit) k p =
    (written, appends-Tracks k o d fit, appends-accounts all written s.queue s.sending _ p)
step-kept {s} all written (creates started created) k p = (written, creates-Tracks k created, p)
step-kept {s} all written (sends before after e split room) k p = (
  written,
  sends-Tracks k before after e split,
  sends-accounts all written s.queue before after e
      (subst (λ l. Perm all (written ++ (s.queue ++ l))) split p),
)
step-kept {s} all written (writes e queue created unacked split) k p = (
  written ++ e ∷ [],
  writes-Tracks k e queue created split,
  writes-accounts all written queue s.sending e
      (subst (λ l. Perm all (written ++ (l ++ s.sending))) split p),
)
step-kept {s} all written (acks o e room) k p = (written, acks-Tracks k o e, p)
step-kept {s} all written (notes o rest e) k p = (written, notes-Tracks k o rest e, p)
step-kept {s} all written asks k p =
    (written, known-Tracks k s.durable_offset, known-same s.durable_offset all written s p)
step-kept all written closes k p = (written, closes-Tracks k, p)

reached-kept :
    {s : FileLog} (run : Reaches (new none) s)
    → (written : List LogEntry) × Tracks s written × Accounts (appends_of run) written s
unfolding new
reached-kept stays = ([], new-Tracks, Perm.nil)
reached-kept (moves run step) =
    let (written, k, p) = reached-kept run in step-kept (appends_of run) written step k p

-- In every state that a layer without a file reaches, where the lengths of appended data fit 32
-- bits, the appended entries are, up to their order, those in the file, those in the channel and
-- those on their way to it: none is lost or doubled. Once the file is created the iteration gives
-- exactly the written entries, and a durable offset is that of a written entry, or 0.
pub reached_file :
    {s : FileLog} (run : Reaches (new none) s)
    → (written : List LogEntry) × Perm (appends_of run) (written ++ (s.queue ++ s.sending))
      × (s.created ≡ true → iter s ≡ ok (map pair_of written))
      × ((o : TxOffset) → s.durable_offset ≡ some o → (o ≡ 0) ⊎ Has o written)
unfolding iter
reached_file run =
    let (written, k, p) = reached-kept run in
    (
      written,
      p,
      λ c. ap iter_file (k.file ∙ ap (λ b. content b written) c) ∙ iter_file-entries written k.fits,
      k.durable,
    )
