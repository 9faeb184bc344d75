-- ===== src/Transport/Client/Queues.antt =====
-- What the queue of tasks of the Local Runner is like, and the operations on it.
use automated_workflow.Prelude.{
  String, Bool, true, false, not, ◌&&◌, Option, none, some, List, [], ◌∷◌, ◌≡◌, ◌≢◌, refl, sym, ap,
  ◌∙◌, inl, inr, map, arith, subst, str_eq,
}
use automated_workflow.Prelude.Tests.{Bool-cases, holds_text, ne→str_eq, eq→str_eq}
use automated_workflow.Prelude.Table.{All, insert_row, delete_where, member, any_where}
use automated_workflow.Prelude.Rows.{Unique, Unique-insert_row, All-insert_row, All-map}
use automated_workflow.Protocol.{MessageEnvelope, reconnect}
use automated_workflow.Prelude.Steps.{Preserves}
use automated_workflow.Transport.{ProtocolState, pending_messages, discard_types}
use automated_workflow.Schema.{TaskRow}
use automated_workflow.Transport.Client.{
  given, queue_task, RunnerProtocolClient, queue_task, next_task, task_finished, disconnected, took,
  try_send, is_opened, with_state, send_each, is_flushed, flush_pending, handle_reconnected,
  discarded,
}

abbrev pub id_of : TaskRow → String
id_of t = t.id

-- The queue holds no task twice, `queued_task_ids` are the identifiers of its tasks, in their order, and
-- the task that runs is not among them.
pub record IsQueueing (c : RunnerProtocolClient) : Type 0 where
  pub distinct : Unique id_of c.tasks
  pub listed : c.queued_task_ids ≡ map id_of c.tasks
  pub not_active : All (λ (t : TaskRow). holds_text c.active_task_id t.id ≡ false) c.tasks

member-map_any :
    (t : TaskRow) (ts : List TaskRow)
    → any_where (λ (x : TaskRow). str_eq x.id t.id) ts ≡ member t.id (map id_of ts)
unfolding any_where member
member-map_any t [] = refl
member-map_any t (x ∷ xs) = ground (arith, member-map_any t xs)

map-insert_row :
    (t : TaskRow) (ts : List TaskRow) → map id_of (insert_row t ts) ≡ insert_row t.id (map id_of ts)
unfolding insert_row
map-insert_row t [] = refl
map-insert_row t (x ∷ xs) = ap (λ r. x.id ∷ r) (map-insert_row t xs)

-- The test of `queue_task`.
abbrev test : TaskRow → RunnerProtocolClient → Bool
test t c = not (holds_text c.active_task_id t.id) && not (member t.id c.queued_task_ids)

queued-IsQueueing :
    (t : TaskRow) (c : RunnerProtocolClient)
    → IsQueueing c
    → test t c ≡ true
    → IsQueueing (record c {
      queued_task_ids = insert_row t.id c.queued_task_ids;
      tasks = insert_row t c.tasks;
    })
queued-IsQueueing t c h e = record {
  distinct =
      Unique-insert_row id_of t c.tasks h.distinct
        (member-map_any t c.tasks ∙ ap (member t.id) (sym h.listed) ∙ ground (arith, e));
  listed = ap (insert_row t.id) h.listed ∙ sym (map-insert_row t c.tasks);
  not_active =
      All-insert_row (λ (x : TaskRow). holds_text c.active_task_id x.id ≡ false) t c.tasks
        (ground (arith, e)) h.not_active;
}

pub queue_task-IsQueueing :
    (t : TaskRow) (c : RunnerProtocolClient) → IsQueueing c → IsQueueing (queue_task t c)
unfolding queue_task
queue_task-IsQueueing t c h = elim (Bool-cases (test t c)) [
  | inl e ↦ rw e (queued-IsQueueing t c h e)
  | inr e ↦ rw e h
]

-- The steps that leave the queue and the active task alone.
abbrev pub IsSame : RunnerProtocolClient → RunnerProtocolClient → Type 0
IsSame c d =
    (d.tasks ≡ c.tasks)
    × (d.queued_task_ids ≡ c.queued_task_ids)
    × (d.active_task_id ≡ c.active_task_id)

pub same-IsQueueing : (c d : RunnerProtocolClient) → IsSame c d → IsQueueing c → IsQueueing d
same-IsQueueing c d (t, q, a) h = record {
  distinct = rw t h.distinct;
  listed = rw (t, q) h.listed;
  not_active = rw (t, a) h.not_active;
}

pub try_send-IsQueueing :
    (e : MessageEnvelope) (c : RunnerProtocolClient) → IsQueueing c → IsQueueing (try_send e c)
unfolding try_send
try_send-IsQueueing e c h = elim (Bool-cases (c.ready && is_opened c.connection)) [
  | inl t ↦ rw t (same-IsQueueing c (record c { sent = insert_row e c.sent }) (refl, refl, refl) h)
  | inr f ↦ rw f h
]

pub with_state-IsQueueing :
    (f : ProtocolState → ProtocolState) (c : RunnerProtocolClient)
    → IsQueueing c
    → IsQueueing (with_state f c)
with_state-IsQueueing f c h = same-IsQueueing c (with_state f c) (refl, refl, refl) h

send_each-IsQueueing :
    (es : List MessageEnvelope) (c : RunnerProtocolClient)
    → IsQueueing c
    → IsQueueing (send_each es c)
unfolding send_each
send_each-IsQueueing [] c h = h
send_each-IsQueueing (e ∷ es) c h = elim (Bool-cases (is_flushed e)) [
  | inl f ↦ rw f (send_each-IsQueueing es (try_send e c) (try_send-IsQueueing e c h))
  | inr f ↦ rw f (send_each-IsQueueing es c h)
]

pub flush_pending-IsQueueing :
    (c : RunnerProtocolClient) → IsQueueing c → IsQueueing (flush_pending c)
unfolding flush_pending
flush_pending-IsQueueing c h = send_each-IsQueueing (pending_messages c.state) c h

pub handle_reconnected-IsQueueing : Preserves IsQueueing handle_reconnected
unfolding handle_reconnected
handle_reconnected-IsQueueing c h =
    let s1 = discard_types (reconnect ∷ []) c.state in
    flush_pending-IsQueueing (record c { state = s1; ready = true })
      (same-IsQueueing c (record c { state = s1; ready = true }) (refl, refl, refl) h)

delete_where_gone :
    (t : String) (ts : List TaskRow)
    → All (λ (y : TaskRow). t ≢ y.id) ts
    → discarded t (map id_of ts) ≡ map id_of ts
unfolding delete_where
delete_where_gone t [] a = refl
delete_where_gone t (x ∷ xs) a =
    rw (ne→str_eq x.id t (λ e. a.0 (sym e)), delete_where_gone t xs a.1)

discarded_here : (t : String) (ts : List String) → discarded t (t ∷ ts) ≡ discarded t ts
unfolding delete_where
discarded_here t ts = rw (eq→str_eq t t refl) refl

taken :
    (ts : List TaskRow) (c : RunnerProtocolClient)
    → c.tasks ≡ ts
    → IsQueueing c
    → IsQueueing (took ts c).1
taken [] c e h = h
taken (t ∷ ts) c e h =
    let u : Unique id_of (t ∷ ts) = subst (Unique id_of) e h.distinct in
    record {
      distinct = u.1;
      listed =
          ap (discarded t.id) (h.listed ∙ ap (map id_of) e)
          ∙ discarded_here t.id (map id_of ts)
          ∙ delete_where_gone t.id ts u.0;
      not_active = All-map (λ (x : TaskRow) (n : t.id ≢ x.id). ne→str_eq t.id x.id n) ts u.0;
    }

pub next_task-IsQueueing : (c : RunnerProtocolClient) → IsQueueing c → IsQueueing (next_task c).1
unfolding next_task
next_task-IsQueueing c h = taken c.tasks c refl h

pub disconnected-IsQueueing :
    (c : RunnerProtocolClient) → IsQueueing c → IsQueueing (disconnected c)
unfolding disconnected
disconnected-IsQueueing c h = same-IsQueueing c _ (refl, refl, refl) h

none_active : (ts : List TaskRow) → All (λ (t : TaskRow). holds_text none t.id ≡ false) ts
none_active [] = tt
none_active (t ∷ ts) = (refl, none_active ts)

pub task_finished-IsQueueing :
    (t : String) (c : RunnerProtocolClient) → IsQueueing c → IsQueueing (task_finished t c)
unfolding task_finished
task_finished-IsQueueing t c h = elim (Bool-cases (holds_text c.active_task_id t)) [
  | inl e ↦
      rw e (record { distinct = h.distinct; listed = h.listed; not_active = none_active c.tasks })
  | inr e ↦ rw e h
]

pub given-IsQueueing :
    {A : Type 0} (text : String) (o : Option A) → Preserves IsQueueing (given text o)
given-IsQueueing text none c h = h
given-IsQueueing text (some a) c h = h
