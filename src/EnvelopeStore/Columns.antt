-- ===== src/EnvelopeStore/Columns.antt =====
-- The columns of a row in hermes/internal/envelopestore/sqlite.go: what Insert writes, and what a scan of
-- the row reads. `Raw` is a JSON text of encoding/json.
use hermes_forge_public.Prelude.{
  ℕ, zero, suc, String, Bool, false, ◌≡◌, Option, none, some, List, [], ◌∷◌, ◌==◌, if◌then◌else◌,
}
use hermes_forge_public.Prelude.Int.{pos}
use hermes_forge_public.Envelope.{Time, Delivery, Metrics, Message, Proof, Envelope, lookup}

-- The envelope as Go has it: a nil slice or map is `none`.
pub record Given : Type 0 where
  pub id : String
  pub created_at : Time
  pub created_by : String
  pub title : String
  pub domain : String
  pub project : String
  pub target_node : String
  pub target_executor : String
  pub task_title : String
  pub task_goal : String
  pub task_steps : Option (List String)
  pub success_criteria : Option (List String)
  pub escalation_criteria : Option (List String)
  pub proof_required : Option (List String)
  pub status : String
  pub delivery : Delivery
  pub capability_hints : Option (List String)
  pub session_binding : Option String
  pub executor_session_id : String
  pub thread : Option (List Message)
  pub metrics : Metrics
  pub history : Option (List String)
  pub proof : Option Proof

-- `stringsOrEmpty`, `messagesOrEmpty` and `mapOrEmpty`
abbrev pub never_nil : {A : Type 0} → Option (List A) → List A
never_nil none = []
never_nil (some l) = l

-- The envelope with an empty list for each nil.
abbrev pub whole : Given → Envelope
whole w = record {
  id = w.id;
  created_at = w.created_at;
  created_by = w.created_by;
  title = w.title;
  domain = w.domain;
  project = w.project;
  target_node = w.target_node;
  target_executor = w.target_executor;
  task_title = w.task_title;
  task_goal = w.task_goal;
  task_steps = never_nil w.task_steps;
  success_criteria = never_nil w.success_criteria;
  escalation_criteria = never_nil w.escalation_criteria;
  proof_required = never_nil w.proof_required;
  status = w.status;
  delivery = w.delivery;
  capability_hints = never_nil w.capability_hints;
  session_binding = w.session_binding;
  executor_session_id = w.executor_session_id;
  thread = never_nil w.thread;
  metrics = w.metrics;
  history = never_nil w.history;
  proof = never_nil w.proof;
}

-- Two maps with the same value at every key.
abbrev pub IsSameMap : Proof → Proof → Type 0
IsSameMap m n = (k : String) → lookup k m ≡ lookup k n

-- What SQLite holds in a column.
pub data Value (Raw : Type 0) : Type 0 where
  text : String → Value Raw
  time : Time → Value Raw
  json : Raw → Value Raw
  null : Value Raw

-- `json.Marshal` and `json.Unmarshal` at one type: what is written is not empty and reads as a value that
-- is the same as the one written.
pub record Json (Raw A : Type 0) (Same : A → A → Type 0) : Type 0 where
  pub marshal : A → Raw
  pub decode : Raw → Option A
  pub is_empty : Raw → Bool
  pub filled : (a : A) → is_empty (marshal a) ≡ false
  pub reads_back : (a : A) → (b : A) × (decode (marshal a) ≡ some b) × Same a b

abbrev pub Equal : {A : Type 0} → A → A → Type 0
Equal a b = a ≡ b

pub record Codec (Raw : Type 0) : Type 0 where
  pub strings : Json Raw (List String) Equal
  pub delivery : Json Raw Delivery Equal
  pub messages : Json Raw (List Message) Equal
  pub metrics : Json Raw Metrics Equal
  pub proof : Json Raw Proof IsSameMap

-- `jsonCols`
pub record JsonCols (Raw : Type 0) : Type 0 where
  pub task_steps : Raw
  pub success_criteria : Raw
  pub escalation_criteria : Raw
  pub proof_required : Raw
  pub delivery : Raw
  pub capability_hints : Raw
  pub thread : Raw
  pub metrics : Raw
  pub history : Raw
  pub proof : Raw

infixl 5 ◌>>=◌
abbrev pub ◌>>=◌ : {A B : Type 0} → Option A → (A → Option B) → Option B
none >>= f = none
some a >>= f = f a

abbrev pub nullable : {Raw : Type 0} → Option String → Value Raw
nullable none = null
nullable (some s) = text s

-- `&session`, a `sql.NullString`
abbrev pub null_string : {Raw : Type 0} → Value Raw → Option (Option String)
null_string (text s) = some (some s)
null_string null = some none
null_string (time t) = none
null_string (json raw) = none

abbrev pub string_at : {Raw : Type 0} → Value Raw → Option String
string_at (text s) = some s
string_at v = none

abbrev pub time_at : {Raw : Type 0} → Value Raw → Option Time
time_at (time t) = some t
time_at v = none

abbrev pub json_at : {Raw : Type 0} → Value Raw → Option Raw
json_at (json raw) = some raw
json_at v = none

-- The columns in the order of the INSERT.
abbrev pub insert_columns : List String
insert_columns =
    "id" ∷ "created_at" ∷ "created_by" ∷ "title" ∷ "domain" ∷ "project" ∷ "target_node"
    ∷ "target_executor" ∷ "task_title" ∷ "task_goal" ∷ "task_steps" ∷ "success_criteria"
    ∷ "escalation_criteria" ∷ "proof_required" ∷ "status" ∷ "delivery" ∷ "capability_hints"
    ∷ "session_binding" ∷ "executor_session_id" ∷ "thread" ∷ "metrics" ∷ "history" ∷ "proof" ∷ []

-- `selectColumns`
abbrev pub select_columns : List String
select_columns =
    "id" ∷ "created_at" ∷ "created_by" ∷ "title" ∷ "domain" ∷ "project" ∷ "target_node"
    ∷ "target_executor" ∷ "task_title" ∷ "task_goal" ∷ "task_steps" ∷ "success_criteria"
    ∷ "escalation_criteria" ∷ "proof_required" ∷ "status" ∷ "delivery" ∷ "capability_hints"
    ∷ "session_binding" ∷ "executor_session_id" ∷ "thread" ∷ "metrics" ∷ "history" ∷ "proof" ∷ []

-- A row: each column with its value; the INSERT names every one of the table.
abbrev pub Row : Type 0 → Type 0
Row Raw = List (String × Value Raw)

unfoldable pub written : {Raw : Type 0} → List String → List (Value Raw) → Row Raw
written (c ∷ columns) (v ∷ values) = (c, v) ∷ written columns values
written columns values = []

unfoldable pub value_of : {Raw : Type 0} → String → Row Raw → Value Raw
value_of c [] = null
value_of c ((d, v) ∷ row) = if d == c then v else value_of c row

-- SELECT of the columns
unfoldable pub selected : {Raw : Type 0} → List String → Row Raw → List (Value Raw)
selected [] row = []
selected (c ∷ columns) row = value_of c row ∷ selected columns row

-- The n-th value of a row that was selected.
abbrev pub nth : {Raw : Type 0} → ℕ → List (Value Raw) → Value Raw
nth n [] = null
nth zero (v ∷ values) = v
nth (suc n) (v ∷ values) = nth n values

module _ {Raw : Type 0} (j : Codec Raw) where
  abbrev pub marshal_cols : Given → JsonCols Raw
  marshal_cols w = record {
    task_steps = j.strings.marshal (never_nil w.task_steps);
    success_criteria = j.strings.marshal (never_nil w.success_criteria);
    escalation_criteria = j.strings.marshal (never_nil w.escalation_criteria);
    proof_required = j.strings.marshal (never_nil w.proof_required);
    delivery = j.delivery.marshal w.delivery;
    capability_hints = j.strings.marshal (never_nil w.capability_hints);
    thread = j.messages.marshal (never_nil w.thread);
    metrics = j.metrics.marshal w.metrics;
    history = j.strings.marshal (never_nil w.history);
    proof = j.proof.marshal (never_nil w.proof);
  }

  -- The arguments of the INSERT.
  abbrev pub arguments : Given → List (Value Raw)
  arguments w =
      let c = marshal_cols w in
      text w.id
      ∷ time w.created_at
      ∷ text w.created_by
      ∷ text w.title
      ∷ text w.domain
      ∷ text w.project
      ∷ text w.target_node
      ∷ text w.target_executor
      ∷ text w.task_title
      ∷ text w.task_goal
      ∷ json c.task_steps
      ∷ json c.success_criteria
      ∷ json c.escalation_criteria
      ∷ json c.proof_required
      ∷ text w.status
      ∷ json c.delivery
      ∷ json c.capability_hints
      ∷ nullable w.session_binding
      ∷ text w.executor_session_id
      ∷ json c.thread
      ∷ json c.metrics
      ∷ json c.history
      ∷ json c.proof
      ∷ []

  -- The row that Insert writes.
  abbrev pub insert_row : Given → Row Raw
  insert_row w = written insert_columns (arguments w)

-- One round of the loop in `unmarshalInto`: an empty column leaves the field as it is.
abbrev pub unmarshal :
    {Raw A : Type 0} {Same : A → A → Type 0} → Json Raw A Same → A → Raw → Option A
unmarshal j field raw = if j.is_empty raw then some field else j.decode raw

module _ {Raw : Type 0} (j : Codec Raw) where
  unfoldable pub unmarshal_into : Envelope → JsonCols Raw → Option Envelope
  unmarshal_into e c = do
    task_steps ← unmarshal j.strings e.task_steps c.task_steps
    success_criteria ← unmarshal j.strings e.success_criteria c.success_criteria
    escalation_criteria ← unmarshal j.strings e.escalation_criteria c.escalation_criteria
    proof_required ← unmarshal j.strings e.proof_required c.proof_required
    delivery ← unmarshal j.delivery e.delivery c.delivery
    capability_hints ← unmarshal j.strings e.capability_hints c.capability_hints
    thread ← unmarshal j.messages e.thread c.thread
    metrics ← unmarshal j.metrics e.metrics c.metrics
    history ← unmarshal j.strings e.history c.history
    proof ← unmarshal j.proof e.proof c.proof
    some (record e {
      task_steps = task_steps;
      success_criteria = success_criteria;
      escalation_criteria = escalation_criteria;
      proof_required = proof_required;
      delivery = delivery;
      capability_hints = capability_hints;
      thread = thread;
      metrics = metrics;
      history = history;
      proof = proof;
    })

-- The zero values of Go.
abbrev pub no_delivery : Delivery
no_delivery = record { delivered = false; delivered_at = none; is_read = false; read_at = none }

abbrev pub no_metrics : Metrics
no_metrics = record {
  started_at = none;
  updated_at = none;
  completed_at = none;
  retry_count = pos 0;
}

-- An envelope whose JSON columns are not read yet.
abbrev pub unfilled : Envelope → Envelope
unfilled e = record e {
  task_steps = [];
  success_criteria = [];
  escalation_criteria = [];
  proof_required = [];
  delivery = no_delivery;
  capability_hints = [];
  thread = [];
  metrics = no_metrics;
  history = [];
  proof = [];
}

module _ {Raw : Type 0} (j : Codec Raw) where
  -- `scanRow` and `scanFromRows` of the values in the order of `selectColumns`, `none` on an error.
  unfoldable pub scan_values : List (Value Raw) → Option Envelope
  scan_values v = do
    id ← string_at (nth 0 v)
    created_at ← time_at (nth 1 v)
    created_by ← string_at (nth 2 v)
    title ← string_at (nth 3 v)
    domain ← string_at (nth 4 v)
    project ← string_at (nth 5 v)
    target_node ← string_at (nth 6 v)
    target_executor ← string_at (nth 7 v)
    task_title ← string_at (nth 8 v)
    task_goal ← string_at (nth 9 v)
    task_steps ← json_at (nth 10 v)
    success_criteria ← json_at (nth 11 v)
    escalation_criteria ← json_at (nth 12 v)
    proof_required ← json_at (nth 13 v)
    status ← string_at (nth 14 v)
    delivery ← json_at (nth 15 v)
    capability_hints ← json_at (nth 16 v)
    session_binding ← null_string (nth 17 v)
    executor_session_id ← string_at (nth 18 v)
    thread ← json_at (nth 19 v)
    metrics ← json_at (nth 20 v)
    history ← json_at (nth 21 v)
    proof ← json_at (nth 22 v)
    unmarshal_into j
        (record {
          id = id;
          created_at = created_at;
          created_by = created_by;
          title = title;
          domain = domain;
          project = project;
          target_node = target_node;
          target_executor = target_executor;
          task_title = task_title;
          task_goal = task_goal;
          task_steps = [];
          success_criteria = [];
          escalation_criteria = [];
          proof_required = [];
          status = status;
          delivery = no_delivery;
          capability_hints = [];
          session_binding = session_binding;
          executor_session_id = executor_session_id;
          thread = [];
          metrics = no_metrics;
          history = [];
          proof = [];
        })
        (record {
          task_steps = task_steps;
          success_criteria = success_criteria;
          escalation_criteria = escalation_criteria;
          proof_required = proof_required;
          delivery = delivery;
          capability_hints = capability_hints;
          thread = thread;
          metrics = metrics;
          history = history;
          proof = proof;
        })
