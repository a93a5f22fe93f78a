-- ===== src/Application/PreviewSession/Service.antt =====
-- The methods of `PreviewSessionService`.
use ferritex.Prelude.{
  ℕ, true, false, ◌&&◌, not, Option, none, some, List, [], ◌∷◌, ◌++◌, ◌⊎◌, inl, inr, Str, codes,
  if◌then◌else◌, ◌=?◌, list_eq, nat_eq,
}
use ferritex.Prelude.Decimal.{display, digits_before}
use ferritex.Prelude.HashMap
use ferritex.Prelude.HashMap.{HashMap}
use ferritex.Prelude.Order.{pair_eq}
use ferritex.Prelude.Integer.{next_u64}
use ferritex.Application.PreviewSession.{
  SessionId, PreviewTarget, target_eq, PreviewViewState, default_view_state, clamp_to_page_count,
  PreviewRevision, SessionErrorKind, preview_disabled, loopback_required, session_expired,
  session_unknown, target_mismatch, PreviewSession, SessionBootstrapPayload, SessionErrorResponse,
  PublishDecision, allowed, denied, PreviewPublicationPolicy, ExecutionPolicy, PreviewTransportPort,
  PreviewSessionService,
}

abbrev pub session_id_of : ℕ → SessionId
unfolding digits_before
session_id_of n = codes "preview-session-" ++ display n

unfoldable pub allocate_session_id : PreviewSessionService → SessionId × PreviewSessionService
unfolding digits_before
allocate_session_id s =
    let n = next_u64 s.next_session_id in (session_id_of n, record s { next_session_id = n })

abbrev pub session_error : SessionErrorKind → SessionId → Str → SessionErrorResponse
session_error kind id instruction = record {
  error_kind = kind;
  session_id = id;
  recovery_instruction = instruction;
}

abbrev pub if_active : Option PreviewSession → Option PreviewSession
if_active none = none
if_active (some session) = if session.active then some session else none

abbrev pub session_at : PreviewSessionService → Option SessionId → Option PreviewSession
session_at s none = none
session_at s (some id) = HashMap.get s.sessions id

unfoldable pub find_active_session : PreviewSessionService → PreviewTarget → Option PreviewSession
find_active_session s target = if_active (session_at s (HashMap.get s.target_sessions target))

abbrev pub new_session : PreviewTransportPort → SessionId → PreviewTarget → PreviewSession
new_session transport id target = record {
  session_id = id;
  target = target;
  document_url = transport.document_url id;
  events_url = transport.events_url id;
  view_state = default_view_state;
  revision = 0;
  active = true;
}

abbrev pub payload_of : PreviewSession → SessionBootstrapPayload
payload_of session = record {
  session_id = session.session_id;
  document_url = session.document_url;
  events_url = session.events_url;
}

abbrev pub register : PreviewSessionService → PreviewSession → PreviewSessionService
register s session = record s {
  sessions = HashMap.insert s.sessions session.session_id session;
  target_sessions = HashMap.insert s.target_sessions session.target session.session_id;
}

-- The part of `create_session` behind the test of the policy: what is found is used again.
abbrev pub reuse_or_create :
    PreviewTransportPort
    → PreviewSessionService
    → PreviewTarget
    → Option PreviewSession
    → (SessionBootstrapPayload ⊎ SessionErrorResponse) × PreviewSessionService
unfolding allocate_session_id
reuse_or_create transport s target (some session) = (inl (payload_of session), s)
reuse_or_create transport s target none =
    let (id, s') = allocate_session_id s in
    let session = new_session transport id target in (inl (payload_of session), register s' session)

abbrev pub create_if :
    PreviewTransportPort
    → PreviewSessionService
    → PreviewTarget
    → Option PreviewPublicationPolicy
    → (SessionBootstrapPayload ⊎ SessionErrorResponse) × PreviewSessionService
unfolding allocate_session_id find_active_session
create_if transport s target none =
    let (id, s') = allocate_session_id s in
    (inr (session_error preview_disabled id (codes "rerun with preview publication enabled")), s')
create_if transport s target (some policy) =
    reuse_or_create transport s target (find_active_session s target)

-- `Ok` is `inl`.
unfoldable pub create_session :
    PreviewTransportPort
    → PreviewSessionService
    → PreviewTarget
    → ExecutionPolicy
    → (SessionBootstrapPayload ⊎ SessionErrorResponse) × PreviewSessionService
unfolding allocate_session_id find_active_session
create_session transport s target policy = create_if transport s target policy.preview_publication

unfoldable pub update_view_state :
    PreviewSessionService → SessionId → PreviewViewState → PreviewSessionService
update_view_state s id view_state = record s {
  sessions = HashMap.modify s.sessions id (λ session. record session { view_state = view_state });
}

abbrev pub clamped : ℕ → PreviewSession → PreviewSession
unfolding clamp_to_page_count
clamped page_count session = record session {
  view_state = clamp_to_page_count session.view_state page_count;
}

abbrev view_of : Option PreviewSession → Option PreviewViewState
view_of none = none
view_of (some session) = some session.view_state

unfoldable pub apply_page_fallback :
    PreviewSessionService → SessionId → ℕ → Option PreviewViewState × PreviewSessionService
unfolding clamp_to_page_count
apply_page_fallback s id page_count =
    let sessions = HashMap.modify s.sessions id (clamped page_count) in
    (view_of (HashMap.get sessions id), record s { sessions = sessions })

abbrev pub advanced : PreviewSession → PreviewSession
advanced session = record session { revision = next_u64 session.revision }

abbrev revision_of : ℕ → Option PreviewSession → Option PreviewRevision
revision_of page_count none = none
revision_of page_count (some session) =
    some (record { target = session.target; revision = session.revision; page_count = page_count })

unfoldable pub advance_revision :
    PreviewSessionService → SessionId → ℕ → Option PreviewRevision × PreviewSessionService
advance_revision s id page_count =
    let sessions = HashMap.modify s.sessions id advanced in
    (revision_of page_count (HashMap.get sessions id), record s { sessions = sessions })

-- `Ok` is `none`.
abbrev pub events_error : Option PreviewSession → Option SessionErrorKind
events_error none = some session_unknown
events_error (some session) = if session.active then none else some session_expired

unfoldable pub check_events_session : PreviewSessionService → SessionId → Option SessionErrorKind
check_events_session s id = events_error (HashMap.get s.sessions id)

abbrev pub bootstrap : Str
bootstrap = codes "bootstrap a new preview session via POST /preview/session"

abbrev pub publish_to :
    SessionId → PreviewTarget → PreviewPublicationPolicy → Option PreviewSession → PublishDecision
publish_to id compile_target policy none = denied (session_error session_unknown id bootstrap)
publish_to id compile_target policy (some session) =
    if not session.active
    then denied (session_error session_expired id bootstrap)
    else if policy.active_job_only && not (session.target =? compile_target)
    then denied (
        session_error target_mismatch id
          (codes "request a new session for the active preview target"))
    else allowed

abbrev pub publish_under :
    PreviewSessionService
    → SessionId
    → PreviewTarget
    → Option PreviewPublicationPolicy
    → PublishDecision
publish_under s id compile_target none =
    denied (session_error preview_disabled id (codes "rerun with preview publication enabled"))
publish_under s id compile_target (some policy) =
    if not policy.loopback_only
    then denied (
        session_error loopback_required id (codes "connect through the loopback preview transport"))
    else publish_to id compile_target policy (HashMap.get s.sessions id)

unfoldable pub check_publish :
    PreviewSessionService → SessionId → PreviewTarget → ExecutionPolicy → PublishDecision
check_publish s id compile_target policy =
    publish_under s id compile_target policy.preview_publication

-- The session becomes inactive and its target's entry goes; the transport is told of the ids in the
-- list.
abbrev pub invalidate_found :
    PreviewSessionService
    → SessionId
    → Option PreviewSession
    → List SessionId × PreviewSessionService
invalidate_found s id none = ([], s)
invalidate_found s id (some session) = (
  id ∷ [],
  record s {
    sessions = HashMap.insert s.sessions id (record session { active = false });
    target_sessions = HashMap.remove s.target_sessions session.target;
  },
)

unfoldable pub invalidate_session :
    PreviewSessionService → SessionId → List SessionId × PreviewSessionService
invalidate_session s id = invalidate_found s id (HashMap.get s.sessions id)

unfoldable pub get_session : PreviewSessionService → SessionId → Option PreviewSession
get_session s id = HashMap.get s.sessions id
