-- ===== src/Application/PreviewSession.antt =====
-- crates/ferritex-application/src/preview_session_service.rs: the previews that are open, one for a
-- target, and whether a compile may publish to one. An `f64` is only stored, and stands as its bits.
-- What the service logs is left out.
pub mod Service
pub mod Invariant
pub mod Publishing
pub mod Lifetime
pub mod Exclusive
mod Examples
use ferritex.Prelude.{
  ℕ, ◌+◌, ◌≡◌, ◌↔◌, refl, sym, ap, ap₂, ◌∙◌, Bool, true, false, ◌&&◌, not, Option, none, some, List,
  [], ◌∷◌, ◌++◌, Str, codes, ltb, ◌==◌, if◌then◌else◌, Eq, ◌=?◌, eq_of_=?, =?_refl, list_eq, nat_eq,
}
use ferritex.Prelude.Decimal.{display, digits_before}
use ferritex.Prelude.HashMap
use ferritex.Prelude.HashMap.{HashMap}
use ferritex.Prelude.Order.{pair_eq}

abbrev pub PathBuf : Type 0
PathBuf = List Str

abbrev pub SessionId : Type 0
SessionId = Str

pub record PreviewTarget : Type 0 where
  pub input_file : PathBuf
  pub jobname : Str

abbrev target_parts : PreviewTarget → PathBuf × Str
target_parts t = (t.input_file, t.jobname)

pub target_beq_iff : (t u : PreviewTarget) → ((target_parts t =? target_parts u) ≡ true) ↔ (t ≡ u)
target_beq_iff t u = (
  λ h.
      let p = eq_of_=? h in
      ap (λ (q : PathBuf × Str). record { input_file = q.0; jobname = q.1 }) p,
  λ h. ap (λ i. target_parts t =? target_parts i) (sym h) ∙ =?_refl (target_parts t),
)

instance abbrev pub target_eq : Eq PreviewTarget
target_eq = record { beq = λ t u. target_parts t =? target_parts u; beq_iff = target_beq_iff }

pub record PreviewViewState : Type 0 where
  pub page_number : ℕ
  pub zoom : ℕ
  pub viewport_offset_y : ℕ

-- `1.0` and `0.0`
abbrev pub default_view_state : PreviewViewState
default_view_state = record { page_number = 1; zoom = 0x3FF0_0000_0000_0000; viewport_offset_y = 0 }

abbrev min : ℕ → ℕ → ℕ
min a b = if ltb b a then b else a

abbrev max : ℕ → ℕ → ℕ
max a b = if ltb a b then b else a

unfoldable pub clamp_to_page_count : PreviewViewState → ℕ → PreviewViewState
clamp_to_page_count v page_count = record v {
  page_number = if page_count == 0 then 1 else max (min v.page_number page_count) 1;
}

pub record PreviewRevision : Type 0 where
  pub target : PreviewTarget
  pub revision : ℕ
  pub page_count : ℕ

pub data SessionErrorKind : Type 0 where
  preview_disabled loopback_required session_expired session_unknown target_mismatch :
      SessionErrorKind

pub record PreviewSession : Type 0 where
  pub session_id : SessionId
  pub target : PreviewTarget
  pub document_url : Str
  pub events_url : Str
  pub view_state : PreviewViewState
  pub revision : ℕ
  pub active : Bool

pub record SessionBootstrapPayload : Type 0 where
  pub session_id : SessionId
  pub document_url : Str
  pub events_url : Str

pub record SessionErrorResponse : Type 0 where
  pub error_kind : SessionErrorKind
  pub session_id : SessionId
  pub recovery_instruction : Str

pub data PublishDecision : Type 0 where
  allowed : PublishDecision
  denied : SessionErrorResponse → PublishDecision

-- crates/ferritex-core/src/policy/execution_policy.rs
pub record PreviewPublicationPolicy : Type 0 where
  pub loopback_only : Bool
  pub active_job_only : Bool

pub record ExecutionPolicy : Type 0 where
  pub shell_escape_allowed : Bool
  pub allowed_read_paths : List PathBuf
  pub allowed_write_paths : List PathBuf
  pub output_dir : PathBuf
  pub jobname : Str
  pub preview_publication : Option PreviewPublicationPolicy

-- What the service asks of `PreviewTransportPort`; what it tells it is a result of the call.
pub record PreviewTransportPort : Type 0 where
  pub document_url : SessionId → Str
  pub events_url : SessionId → Str

-- The service without its transport, which does not change.
pub record PreviewSessionService : Type 0 where
  pub sessions : HashMap SessionId PreviewSession
  pub target_sessions : HashMap PreviewTarget SessionId
  pub next_session_id : ℕ

abbrev pub new_service : PreviewSessionService
new_service = record { sessions = []; target_sessions = []; next_session_id = 0 }
