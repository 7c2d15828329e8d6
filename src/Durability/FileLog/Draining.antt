-- ===== src/Durability/FileLog/Draining.antt =====
-- The tasks of src/durability/example_durability.rs do not wait for each other in a circle, and finish
-- what was appended.
use mathlib.Core.Path.{ap₂}
use mathlib.Core.List.{Perm}
use distributed_omnipaxos_db.Base.{
  ℕ, zero, suc, ◌+◌, ◌*◌, ◌<◌, ◌≡◌, refl, sym, ap, ◌∙◌, subst, Bool, true, false, inl, inr, ◌⊎◌,
  Option, none, some, List, [], ◌∷◌, ◌++◌, map, append-nil, append_assoc, arith, length,
  length-append, ok,
}
use distributed_omnipaxos_db.TxData.{TxOffset}
use distributed_omnipaxos_db.Durability.Entry.{LogEntry}
use distributed_omnipaxos_db.Durability.FileLog.{
  FileLog, new, append_tx, create_file, write_request, iter, Step, appends, creates, sends, writes,
  acks, notes, asks, closes, Reaches, stays, moves, appended_by, appends_of,
}
use distributed_omnipaxos_db.Durability.FileLog.Reading.{pair_of}
use distributed_omnipaxos_db.Durability.FileLog.Reached.{reached_file}

-- Steps of the tasks, unlike those of the caller.
abbrev pub is_task : {s t : FileLog} → Step s t → Bool
is_task (appends tx_offset tx_data fit) = false
is_task (creates started created) = true
is_task (sends before after request e room) = true
is_task (writes request queue created unacked e) = true
is_task (acks offset e room) = true
is_task (notes offset rest e) = true
is_task asks = false
is_task closes = false

abbrev pub uncreated : Bool → ℕ
uncreated true = 0
uncreated false = 1

abbrev pub count : Option TxOffset → ℕ
count none = 0
count (some o) = 1

-- How many steps the tasks have before them: a spawned send has four, a request in the channel three,
-- an offset that waits for its channel two, and one in the channel one.
abbrev pub pending : FileLog → ℕ
pending s =
    4 * length s.sending
    + 3 * length s.queue
    + 2 * count s.unacked
    + length s.acks
    + uncreated s.created

-- Each step of a task leaves one step less.
task_counts : {s t : FileLog} (step : Step s t) → is_task step ≡ true → pending s ≡ suc (pending t)
unfolding append_tx create_file write_request
task_counts (appends o d fit) task = absurd (cc task)
task_counts {s} (creates started created) task = omega (arith, ap uncreated created)
task_counts {s} (sends before after request e room) task = omega (
  arith,
  ap length e,
  length-append before (request ∷ after),
  length-append before after,
  length-append s.queue (request ∷ []),
)
task_counts {s} (writes request queue created unacked e) task =
    omega (arith, ap length e, ap count unacked)
task_counts {s} (acks o e room) task = omega (arith, ap count e, length-append s.acks (o ∷ []))
task_counts {s} (notes o rest e) task = omega (arith, ap length e)
task_counts asks task = absurd (cc task)
task_counts closes task = absurd (cc task)

abbrev pub TaskStep : FileLog → Type 0
TaskStep s = (t : FileLog) × (step : Step s t) × (is_task step ≡ true)

step_of :
    (s : FileLog) (sending queue : List LogEntry) (unacked : Option TxOffset)
    (noted : List TxOffset) (created : Bool)
    → s.sending ≡ sending
    → s.queue ≡ queue
    → s.unacked ≡ unacked
    → s.acks ≡ noted
    → s.created ≡ created
    → s.started ≡ true
    → 0 < pending s
    → TaskStep s
step_of s sending queue unacked noted false p q u a c started pos = (_, creates started c, refl)
step_of s sending queue unacked (o ∷ rest) true p q u a c started pos = (_, notes o rest a, refl)
step_of s sending queue (some o) [] true p q u a c started pos =
    (_, acks o u (omega (arith, ap length a)), refl)
step_of s sending (e ∷ queue) none [] true p q u a c started pos = (_, writes e queue c u q, refl)
step_of s (e ∷ sending) [] none [] true p q u a c started pos =
    (_, sends [] sending e p (omega (arith, ap length q)), refl)
step_of s [] [] none [] true p q u a c started pos =
    absurd (omega (arith, ap length p, ap length q, ap count u, ap length a, ap uncreated c, pos))

-- No deadlock.
task_ready : (s : FileLog) → s.started ≡ true → 0 < pending s → TaskStep s
task_ready s started pos =
    step_of s s.sending s.queue s.unacked s.acks s.created refl refl refl refl refl started pos

task_started : {s t : FileLog} (step : Step s t) → is_task step ≡ true → t.started ≡ s.started
unfolding append_tx create_file write_request
task_started (appends o d fit) task = absurd (cc task)
task_started (creates started created) task = refl
task_started (sends before after request e room) task = refl
task_started (writes request queue created unacked e) task = refl
task_started (acks o e room) task = refl
task_started (notes o rest e) task = refl
task_started asks task = absurd (cc task)
task_started closes task = absurd (cc task)

task_appends : {s t : FileLog} (step : Step s t) → is_task step ≡ true → appended_by step ≡ []
task_appends (appends o d fit) task = absurd (cc task)
task_appends (creates started created) task = refl
task_appends (sends before after request e room) task = refl
task_appends (writes request queue created unacked e) task = refl
task_appends (acks o e room) task = refl
task_appends (notes o rest e) task = refl
task_appends asks task = absurd (cc task)
task_appends closes task = absurd (cc task)

abbrev pub steps : {s t : FileLog} → Reaches s t → ℕ
steps stays = 0
steps (moves run step) = suc (steps run)

abbrev pub TasksOnly : {s t : FileLog} → Reaches s t → Type 0
TasksOnly stays = Unit
TasksOnly (moves run step) = TasksOnly run × (is_task step ≡ true)

schedule_counts :
    {s t : FileLog} (run : Reaches s t) → TasksOnly run → steps run + pending t ≡ pending s
schedule_counts stays only = omega arith
schedule_counts (moves run step) only =
    omega (arith, schedule_counts run only.0, task_counts step only.1)

schedule_started : {s t : FileLog} (run : Reaches s t) → TasksOnly run → t.started ≡ s.started
schedule_started stays only = refl
schedule_started (moves run step) only = task_started step only.1 ∙ schedule_started run only.0

ready_or_done :
    (n : ℕ) (s : FileLog) → pending s ≡ n → s.started ≡ true → (pending s ≡ 0) ⊎ TaskStep s
ready_or_done zero s e started = inl e
ready_or_done (suc n) s e started = inr (task_ready s started (omega (arith, e)))

-- Whatever order the tasks of a started layer take turns in, each of their steps leaves one less
-- pending, and as long as any is pending one of the tasks can go on: no schedule ends in a
-- deadlock, or goes on forever without the caller.
pub any_schedule :
    {s t : FileLog} (run : Reaches s t)
    → s.started ≡ true
    → TasksOnly run
    → (steps run + pending t ≡ pending s) × ((pending t ≡ 0) ⊎ TaskStep t)
any_schedule {t} run started only = (
  schedule_counts run only,
  ready_or_done (pending t) t refl (schedule_started run only ∙ started),
)

first_step : {s t u : FileLog} → Step s t → Reaches t u → Reaches s u
first_step step stays = moves stays step
first_step step (moves run last) = moves (first_step step run) last

steps-first_step :
    {s t u : FileLog} (step : Step s t) (run : Reaches t u)
    → steps (first_step step run) ≡ suc (steps run)
unfolding first_step
steps-first_step step stays = refl
steps-first_step step (moves run last) = ap suc (steps-first_step step run)

appends_of-first_step :
    {s t u : FileLog} (step : Step s t) (run : Reaches t u)
    → appends_of (first_step step run) ≡ appends_of run ++ appended_by step
unfolding first_step
appends_of-first_step step stays = append-nil (appended_by step)
appends_of-first_step step (moves run last) =
    ap (◌++◌ (appended_by last)) (appends_of-first_step step run)
    ∙ sym (append_assoc (appended_by last) (appends_of run) (appended_by step))

onward : {s t u : FileLog} → Reaches s t → Reaches t u → Reaches s u
onward run stays = run
onward run (moves more step) = moves (onward run more) step

appends_of-onward :
    {s t u : FileLog} (run : Reaches s t) (more : Reaches t u)
    → appends_of (onward run more) ≡ appends_of more ++ appends_of run
unfolding onward
appends_of-onward run stays = refl
appends_of-onward run (moves more step) =
    ap (◌++◌ (appended_by step)) (appends_of-onward run more)
    ∙ sym (append_assoc (appended_by step) (appends_of more) (appends_of run))

drained :
    (n : ℕ) (s : FileLog)
    → s.started ≡ true
    → pending s ≡ n
    → (t : FileLog) × (more : Reaches s t) × (steps more ≡ n)
      × (appends_of more ≡ [])
      × (pending t ≡ 0)
drained zero s started e = (s, stays, refl, refl, e)
drained (suc n) s started e =
    let (t, step, task) = task_ready s started (omega (arith, e)) in
    let (u, more, taken, silent, done) =
      drained n t (task_started step task ∙ started) (omega (arith, task_counts step task, e)) in
    (
      u,
      first_step step more,
      steps-first_step step more ∙ ap suc taken,
      appends_of-first_step step more
          ∙ ap (λ l. l ++ appended_by step) silent
          ∙ task_appends step task,
      done,
    )

is_created : (s : FileLog) (created : Bool) → s.created ≡ created → pending s ≡ 0 → s.created ≡ true
is_created s true c e = c
is_created s false c e = absurd (omega (arith, ap uncreated c, e))

no_entries : (l : List LogEntry) → length l ≡ 0 → l ≡ []
no_entries [] e = refl
no_entries (x ∷ l) e = absurd (omega (arith, e))

-- From every state that a started layer without a file reaches, where the lengths of appended data
-- fit 32 bits, the tasks can go on without the caller and finish in as many steps as are pending.
-- The iteration over the file then gives all appended entries, up to their order.
pub drains :
    {s : FileLog} (run : Reaches (new none) s)
    → s.started ≡ true
    → (t : FileLog) × (more : Reaches s t) × (steps more ≡ pending s)
      × (appends_of more ≡ [])
      × (written : List LogEntry) × Perm (appends_of run) written
      × (iter t ≡ ok (map pair_of written))
drains {s} run started =
    let (t, more, taken, silent, done) = drained (pending s) s started refl in
    let (written, p, content, _) = reached_file (onward run more) in
    (
      t,
      more,
      taken,
      silent,
      written,
      subst (λ l. Perm l written)
          (appends_of-onward run more ∙ ap (λ l. l ++ appends_of run) silent)
          (subst (Perm (appends_of (onward run more)))
            (ap (λ l. written ++ l)
                (ap₂ ◌++◌ (no_entries t.queue (omega (arith, done)))
                  (no_entries t.sending (omega (arith, done))))
              ∙ append-nil written)
            p),
      content (is_created t t.created refl done),
    )
