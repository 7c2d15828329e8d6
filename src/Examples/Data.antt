-- ===== src/Examples/Data.antt =====
-- The inputs that the examples share: strings, transactions, and a log kept in memory in the place of
-- OmniPaxos.
use distributed_omnipaxos_db.Base.{
  ℕ, ◌≡◌, ◌≢◌, refl, Option, none, some, List, [], ◌∷◌, ◌++◌, arith, length, get_elem?,
}
use distributed_omnipaxos_db.Base.Utf8.{Str, from_utf8}
use distributed_omnipaxos_db.TxData.{TxData}
use distributed_omnipaxos_db.TxData.Shape.{DataFits}
use distributed_omnipaxos_db.Row.RoundTrip.{IsString}
use distributed_omnipaxos_db.Durability.Entry.{DatabaseLogEntry}
use distributed_omnipaxos_db.Durability.OmniPaxos.{
  ReadEntry, decided, undecided, OmniPaxos, HasDecided,
}
use distributed_omnipaxos_db.Datastore.Session.{Op, sets, deletes, AllFit}

abbrev pub foo : Str
foo = 102 ∷ 111 ∷ 111 ∷ []

abbrev pub bar : Str
bar = 98 ∷ 195 ∷ 164 ∷ 114 ∷ []

pub foo-IsString : IsString foo
unfolding from_utf8
foo-IsString = record { well_formed = refl; short = omega arith }

pub bar-IsString : IsString bar
unfolding from_utf8
bar-IsString = record { well_formed = refl; short = omega arith }

pub foo-bar : foo ≢ bar
foo-bar e = absurd (cc e)

pub bar-foo : bar ≢ foo
bar-foo e = absurd (cc e)

-- A transaction that writes both keys, and one that overwrites the first and deletes the second.
abbrev pub writes_both : List Op
writes_both = sets foo bar ∷ sets bar foo ∷ []

abbrev pub overwrites : List Op
overwrites = sets foo foo ∷ deletes bar ∷ []

pub writes_both-AllFit : AllFit writes_both
writes_both-AllFit = ((foo-IsString, bar-IsString), ((bar-IsString, foo-IsString), tt))

pub overwrites-AllFit : AllFit overwrites
overwrites-AllFit = ((foo-IsString, foo-IsString), (bar-IsString, tt))

-- Data with an insertion, a deletion and a truncation.
abbrev pub sample_data : TxData
sample_data = record {
  inserts = record { table_id = 0; inserts = foo ∷ bar ∷ [] } ∷ [];
  deletes = record { table_id = 300; deletes = foo ∷ [] } ∷ [];
  truncs = 7 ∷ [];
}

pub sample_data-DataFits : DataFits sample_data
sample_data-DataFits = record {
  inserts = (omega arith, ((omega arith, omega arith, (omega arith, (omega arith, tt))), tt));
  deletes = (omega arith, ((omega arith, omega arith, (omega arith, tt)), tt));
  truncs = (omega arith, (omega arith, tt));
}

-- A node of a log: what is decided, what is not decided yet, and who leads.
pub record MemoryLog : Type 0 where
  pub entries : List DatabaseLogEntry
  pub pending : List DatabaseLogEntry
  pub leader : Option ℕ

abbrev pub read_pending : List DatabaseLogEntry → Option ReadEntry
read_pending [] = none
read_pending (e ∷ es) = some undecided

abbrev pub read_log : Option DatabaseLogEntry → MemoryLog → Option ReadEntry
read_log (some e) s = some (decided e)
read_log none s = read_pending s.pending

-- A message is its receiver; each round has messages for 2 and 3.
abbrev pub memory_paxos : OmniPaxos
memory_paxos = record {
  State = MemoryLog;
  Message = ℕ;
  build = λ config nodes id timeout. some (record { entries = []; pending = []; leader = none });
  get_decided_idx = λ s. length s.entries;
  read = λ s i. read_log (get_elem? s.entries i) s;
  append = λ s e. some (record s { pending = s.pending ++ e ∷ [] });
  get_current_leader = λ s. s.leader;
  tick = λ s. s;
  handle_incoming = λ s msg. s;
  outgoing_messages = λ s. (2 ∷ 3 ∷ [], s);
  get_receiver = λ msg. msg;
}

get_elem?-length : {A : Type 0} (xs : List A) → get_elem? xs (length xs) ≡ none
get_elem?-length [] = refl
get_elem?-length (x ∷ xs) = get_elem?-length xs

pub read_pending-undecided :
    (es : List DatabaseLogEntry) (e : DatabaseLogEntry) → read_pending es ≢ some (decided e)
read_pending-undecided [] e h = absurd (cc h)
read_pending-undecided (x ∷ es) e h = absurd (cc h)

-- The log in memory does what is documented of a decided log.
pub memory_log-HasDecided : (s : MemoryLog) → HasDecided memory_paxos s s.entries
memory_log-HasDecided s = record {
  index = refl;
  below = λ i e found. rw found refl;
  above = λ e. rw (get_elem?-length s.entries) (read_pending-undecided s.pending e);
}
