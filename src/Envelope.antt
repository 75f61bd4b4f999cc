-- ===== src/Envelope.antt =====
-- hermes/envelope/envelope.go: the envelope, its status values, validation and transitions.
-- Where nothing depends on its offset, a `time.Time` is its instant in nanoseconds. A nil slice or map is
-- the empty list; a `map[string]string` is the list of its pairs, each key once.
pub mod Proof
pub mod Status
pub mod Samples
mod Tests
use hermes_forge_public.Prelude.{
  ℕ, String, Bool, true, false, ◌||◌, Option, none, some, List, [], ◌∷◌, ◌==◌, Result, ok, err,
  if◌then◌else◌,
}
use hermes_forge_public.Prelude.Int.{ℤ}

-- `type Status string`: a client may send any text.
abbrev pub Status : Type 0
Status = String

unfoldable pub is_terminal : Status → Bool
is_terminal s = s == "done" || s == "failed" || s == "lost"

unfoldable pub known : Status → Bool
known s =
    s == "created"
    || s == "delivered"
    || s == "read"
    || s == "in_progress"
    || s == "paused"
    || s == "blocked"
    || s == "awaiting_confirm"
    || s == "done"
    || s == "failed"
    || s == "lost"

pub record Delivery : Type 0 where
  pub delivered : Bool
  pub delivered_at : Option ℕ
  pub is_read : Bool
  pub read_at : Option ℕ

pub record Metrics : Type 0 where
  pub started_at : Option ℕ
  pub updated_at : Option ℕ
  pub completed_at : Option ℕ
  pub retry_count : ℤ

pub record Message : Type 0 where
  pub id : String
  pub from : String
  pub kind : String
  pub text : String
  pub reply_to : String
  pub at : ℕ

abbrev pub Proof : Type 0
Proof = List (String × String)

-- `time.Time`: its instant, 0 for the zero time, and the text as which the SQLite driver writes it. That
-- text has the clock time at the offset of the value, which a client chooses, so that of two times the
-- later one may have the smaller text.
pub record Time : Type 0 where
  pub instant : ℕ
  pub stored : String

pub record Envelope : Type 0 where
  pub id : String
  pub created_at : Time
  pub created_by : String
  pub title : String
  pub domain : String
  pub project : String
  pub target_node : String
  pub target_executor : String
  pub task_title : String
  pub task_goal : String
  pub task_steps : List String
  pub success_criteria : List String
  pub escalation_criteria : List String
  pub proof_required : List String
  pub status : Status
  pub delivery : Delivery
  pub capability_hints : List String
  pub session_binding : Option String
  pub executor_session_id : String
  pub thread : List Message
  pub metrics : Metrics
  pub history : List String
  pub proof : Proof

-- The error values that the two packages envelope and envelopestore return, as `errors.Is` tells
-- them apart. `driver n` is the failure of the n-th driver call of an operation.
pub data Error : Type 0 where
  required : String → Error
  terminal_transition done_without_proof unknown_status : Error
  not_found duplicate terminal_session : Error
  driver : ℕ → Error

unfoldable pub validate : Envelope → Result Error (Unit {0})
validate e =
    if e.id == ""
    then err (required "id")
    else if e.title == ""
    then err (required "title")
    else if e.task_title == ""
    then err (required "task_title")
    else if e.target_executor == ""
    then err (required "target_executor")
    else if known e.status
    then ok tt
    else err unknown_status

-- `proof[key]`, with Go's second result as the option
unfoldable pub lookup : String → Proof → Option String
lookup k [] = none
lookup k ((j, v) ∷ m) = if j == k then some v else lookup k m

unfoldable pub has_key : String → Proof → Bool
has_key k m = elim (lookup k m) [ none ↦ false | some v ↦ true ]

-- The loop of `CanTransition` over the required keys: true where one is missing.
unfoldable pub missing_key : List String → Proof → Bool
missing_key [] m = false
missing_key (k ∷ ks) m = if has_key k m then missing_key ks m else true

-- `ValidateProofValues`: true where it returns an error.
unfoldable pub empty_value : Proof → Bool
empty_value [] = false
empty_value ((k, v) ∷ m) = if v == "" then true else empty_value m

unfoldable pub can_transition : Envelope → Status → Result Error (Unit {0})
can_transition e next =
    if is_terminal e.status
    then err terminal_transition
    else if known next
    then (if next == "done"
        then if missing_key e.proof_required e.proof
          then err done_without_proof
          else if empty_value e.proof
          then err done_without_proof
          else ok tt
        else ok tt)
    else err unknown_status
