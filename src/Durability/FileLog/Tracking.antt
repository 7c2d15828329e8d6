-- ===== src/Durability/FileLog/Tracking.antt =====
-- What the file and the queues of src/durability/example_durability.rs hold, and how each step keeps it.
use distributed_omnipaxos_db.Base.{
  ℕ, ◌≡◌, refl, sym, ap, ◌∙◌, subst, Bool, true, false, Bool-cases, inl, inr, ◌⊎◌, Option, none,
  some, List, [], ◌∷◌, ◌++◌, map, append-nil, append_assoc, All, All-last, All-map, All-middle,
}
use distributed_omnipaxos_db.TxData.{TxOffset, TxData}
use distributed_omnipaxos_db.TxData.Shape.{concat}
use distributed_omnipaxos_db.Durability.Entry.{LogEntry}
use distributed_omnipaxos_db.Durability.EntryRoundTrip.{
  EntryFits, entry_bytes, serialize_log_entry-append,
}
use distributed_omnipaxos_db.Durability.FileLog.{
  close_log_file, FileLog, new, append_tx, create_file, write_request, appended, iter_file,
  last_offset, known_offset, note_offset,
}
use distributed_omnipaxos_db.Durability.FileLog.Reading.{pair_of, iter_file-entries}

-- An entry with this offset is among the entries.
abbrev pub Has : TxOffset → List LogEntry → Type 0
Has o [] = ⊥
Has o (e ∷ es) = (e.tx_offset ≡ o) ⊎ Has o es

Has-last : (e : LogEntry) (es : List LogEntry) → Has e.tx_offset (es ++ e ∷ [])
Has-last e [] = inl refl
Has-last e (x ∷ es) = inr (Has-last e es)

Has-append : (o : TxOffset) (es : List LogEntry) (e : LogEntry) → Has o es → Has o (es ++ e ∷ [])
Has-append o (x ∷ es) e (inl h) = inl h
Has-append o (x ∷ es) e (inr h) = inr (Has-append o es e h)
Has-append o [] e h = absurd h

last_offset-Has :
    (o : TxOffset) (es : List LogEntry)
    → (last_offset o (map pair_of es) ≡ o) ⊎ Has (last_offset o (map pair_of es)) es
last_offset-Has o [] = inl refl
last_offset-Has o (e ∷ es) = elim (last_offset-Has e.tx_offset es) [
  | inl same ↦ inr (inl (sym same))
  | inr found ↦ inr (inr found)
]

concat-last :
    (es : List LogEntry) (e : LogEntry)
    → concat entry_bytes (es ++ e ∷ []) ≡ concat entry_bytes es ++ entry_bytes e
concat-last [] e = append-nil (entry_bytes e)
concat-last (x ∷ es) e =
    ap (◌++◌ (entry_bytes x)) (concat-last es e)
    ∙ sym (append_assoc (entry_bytes x) (concat entry_bytes es) (entry_bytes e))

-- What the file holds after `written`, for a layer without a file at its start.
abbrev pub content : Bool → List LogEntry → Option (List ℕ)
content true written = some (concat entry_bytes written)
content false written = none

-- The entries that the writing task has written, and what is known of them.
pub record Tracks (s : FileLog) (written : List LogEntry) : Type 0 where
  pub file : s.file ≡ content s.created written
  pub none_yet : s.created ≡ false → written ≡ []
  pub fits : All EntryFits written
  pub sending : All EntryFits s.sending
  pub queue : All EntryFits s.queue
  pub unacked : (o : TxOffset) → s.unacked ≡ some o → Has o written
  pub acks : All (λ o. Has o written) s.acks
  pub durable : (o : TxOffset) → s.durable_offset ≡ some o → (o ≡ 0) ⊎ Has o written

pub new-Tracks : Tracks (new none) []
unfolding new
new-Tracks = record {
  file = refl;
  none_yet = λ e. refl;
  fits = tt;
  sending = tt;
  queue = tt;
  unacked = λ o e. absurd (cc e);
  acks = tt;
  durable = λ o e. absurd (cc e);
}

module _ {s : FileLog} {written : List LogEntry} (t : Tracks s written) where
  pub appends-Tracks :
      (o : TxOffset) (d : TxData)
      → EntryFits (record { tx_offset = o; tx_data = d })
      → Tracks (append_tx s o d) written
  unfolding append_tx
  appends-Tracks o d fit = record {
    file = t.file;
    none_yet = t.none_yet;
    fits = t.fits;
    sending = All-last EntryFits s.sending (record { tx_offset = o; tx_data = d }) t.sending fit;
    queue = t.queue;
    unacked = t.unacked;
    acks = t.acks;
    durable = t.durable;
  }

  pub creates-Tracks : s.created ≡ false → Tracks (create_file s) written
  unfolding create_file
  creates-Tracks c = record {
    file = rw (t.none_yet c) refl;
    none_yet = λ e. t.none_yet c;
    fits = t.fits;
    sending = t.sending;
    queue = t.queue;
    unacked = t.unacked;
    acks = t.acks;
    durable = t.durable;
  }

  pub sends-Tracks :
      (before after : List LogEntry) (request : LogEntry)
      → s.sending ≡ before ++ request ∷ after
      → Tracks (record s { sending = before ++ after; queue = s.queue ++ request ∷ [] }) written
  sends-Tracks before after request e =
      let (fit, rest) =
        All-middle EntryFits before after request (subst (All EntryFits) e t.sending) in
      record {
        file = t.file;
        none_yet = t.none_yet;
        fits = t.fits;
        sending = rest;
        queue = All-last EntryFits s.queue request t.queue fit;
        unacked = t.unacked;
        acks = t.acks;
        durable = t.durable;
      }

  longer :
      (o : TxOffset) (e : LogEntry) → (o ≡ 0) ⊎ Has o written → (o ≡ 0) ⊎ Has o (written ++ e ∷ [])
  longer o e (inl zero_offset) = inl zero_offset
  longer o e (inr found) = inr (Has-append o written e found)

  pub writes-Tracks :
      (request : LogEntry) (queue : List LogEntry)
      → s.created ≡ true
      → s.queue ≡ request ∷ queue
      → Tracks (write_request s request queue) (written ++ request ∷ [])
  unfolding write_request
  writes-Tracks request queue c e =
      let fit = subst (All EntryFits) e t.queue in
      record {
        file =
            ap (λ f. appended f request) (t.file ∙ ap (λ b. content b written) c)
            ∙ ap (λ bytes. some (concat entry_bytes written ++ bytes))
                (serialize_log_entry-append request [] fit.0)
            ∙ ap some (sym (concat-last written request))
            ∙ ap (λ b. content b (written ++ request ∷ [])) (sym c);
        none_yet = λ f. absurd (cc (f, c));
        fits = All-last EntryFits written request t.fits fit.0;
        sending = t.sending;
        queue = fit.1;
        unacked = λ o found.
            subst (λ p. Has p (written ++ request ∷ [])) (cc found) (Has-last request written);
        acks = All-map _ _ s.acks (λ o. Has-append o written request) t.acks;
        durable = λ o found. longer o request (t.durable o found);
      }

  pub acks-Tracks :
      (o : TxOffset)
      → s.unacked ≡ some o
      → Tracks (record s { unacked = none; acks = s.acks ++ o ∷ [] }) written
  acks-Tracks o e = record {
    file = t.file;
    none_yet = t.none_yet;
    fits = t.fits;
    sending = t.sending;
    queue = t.queue;
    unacked = λ p found. absurd (cc found);
    acks = All-last _ s.acks o t.acks (t.unacked o e);
    durable = t.durable;
  }

  pub notes-Tracks :
      (o : TxOffset) (rest : List TxOffset)
      → s.acks ≡ o ∷ rest
      → Tracks (record s { acks = rest; durable_offset = some o }) written
  notes-Tracks o rest e =
      let noted = subst (All (λ p. Has p written)) e t.acks in
      record {
        file = t.file;
        none_yet = t.none_yet;
        fits = t.fits;
        sending = t.sending;
        queue = t.queue;
        unacked = t.unacked;
        acks = noted.1;
        durable = λ p found. inr (subst (λ q. Has q written) (cc found) noted.0);
      }

  pub closes-Tracks : Tracks (close_log_file s) written
  unfolding close_log_file
  closes-Tracks = record {
    file = t.file;
    none_yet = t.none_yet;
    fits = t.fits;
    sending = t.sending;
    queue = t.queue;
    unacked = t.unacked;
    acks = t.acks;
    durable = t.durable;
  }

  noted-Tracks : Tracks (note_offset (iter_file s.file) s).1 written
  noted-Tracks = elim (Bool-cases s.created) [
    | inl c ↦
        subst (λ r. Tracks (note_offset r s).1 written)
          (sym (
            ap iter_file (t.file ∙ ap (λ b. content b written) c)
            ∙ iter_file-entries written t.fits))
          (record {
            file = t.file;
            none_yet = t.none_yet;
            fits = t.fits;
            sending = t.sending;
            queue = t.queue;
            unacked = t.unacked;
            acks = t.acks;
            durable = λ p found.
                subst (λ q. (q ≡ 0) ⊎ Has q written) (cc found) (last_offset-Has 0 written);
          })
    | inr c ↦
        subst (λ r. Tracks (note_offset r s).1 written)
          (sym (ap iter_file (t.file ∙ ap (λ b. content b written) c))) (unfold iter_file in t)
  ]

  pub known-Tracks : (o : Option TxOffset) → Tracks (known_offset o s).1 written
  known-Tracks none = noted-Tracks
  known-Tracks (some o) = t
