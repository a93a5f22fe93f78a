-- ===== src/Application/PreviewSession/Examples.antt =====
-- Tests of the preview sessions, and their theorems at concrete inputs.
use ferritex.Prelude.{
  arith, ◌≡◌, ◌↔◌, refl, true, false, none, some, List, [], ◌∷◌, codes, list_eq, list_beq, nat_eq,
}
use ferritex.Prelude.Decimal.{digits_before}
use ferritex.Prelude.HashMap.{get, insert, remove, modify}
use ferritex.Prelude.Order.{pair_beq}
use ferritex.Application.PreviewSession.{
  PreviewTarget, PreviewPublicationPolicy, ExecutionPolicy, PreviewTransportPort, PreviewSession,
  PreviewSessionService, new_service, allowed, session_expired, clamp_to_page_count,
}
use ferritex.Application.PreviewSession.Service.{
  allocate_session_id, find_active_session, create_session, apply_page_fallback, advance_revision,
  check_events_session, check_publish, invalidate_session, get_session, new_session,
}
use ferritex.Application.PreviewSession.Invariant.{
  Call, create, page_fallback, advance, invalidate, run, IsValid, new_service-IsValid,
  service-IsValid,
}
use ferritex.Application.PreviewSession.Publishing.{IsPublic, check_publish_iff}
use ferritex.Application.PreviewSession.Lifetime.{expired_for_good}
use ferritex.Application.PreviewSession.Exclusive.{one_for_target, invalidate_twice}

abbrev loopback : PreviewTransportPort
loopback = record { document_url = λ id. id; events_url = λ id. id }

abbrev publication : PreviewPublicationPolicy
publication = record { loopback_only = true; active_job_only = true }

abbrev previews : ExecutionPolicy
previews = record {
  shell_escape_allowed = false;
  allowed_read_paths = [];
  allowed_write_paths = [];
  output_dir = [];
  jobname = codes "main";
  preview_publication = some publication;
}

abbrev main_target : PreviewTarget
main_target = record { input_file = codes "main.tex" ∷ []; jobname = codes "main" }

abbrev calls : List Call
calls =
    create main_target previews
    ∷ create main_target previews
    ∷ advance (codes "preview-session-1") 3
    ∷ page_fallback (codes "preview-session-1") 0
    ∷ []

abbrev restarted : List Call
restarted =
    create main_target previews
    ∷ invalidate (codes "preview-session-1")
    ∷ create main_target previews
    ∷ []

found_again :
    find_active_session (run loopback calls new_service) main_target
    ≡ some (record (new_session loopback (codes "preview-session-1") main_target) { revision = 1 })
unfolding run find_active_session create_session allocate_session_id digits_before advance_revision
    apply_page_fallback clamp_to_page_count get insert modify list_beq pair_beq
found_again = refl

service-IsValid_example : IsValid (run loopback calls new_service)
service-IsValid_example =
    service-IsValid loopback calls new_service (omega arith) new_service-IsValid

check_publish_iff_example :
    (check_publish (run loopback calls new_service) (codes "preview-session-1") main_target previews
      ≡ allowed)
    ↔ ((p : PreviewPublicationPolicy) × (previews.preview_publication ≡ some p)
        × (p.loopback_only ≡ true)
        × ((x : PreviewSession) × IsPublic
              (run loopback calls new_service)
              (codes "preview-session-1")
              main_target
              p
              x))
check_publish_iff_example =
    check_publish_iff (run loopback calls new_service) (codes "preview-session-1") main_target
      previews

expired_for_good_example :
    check_events_session
      (run loopback calls (run loopback restarted new_service))
      (codes "preview-session-1")
    ≡ some session_expired
unfolding run find_active_session create_session allocate_session_id digits_before
    invalidate_session check_events_session get insert remove modify list_beq pair_beq
expired_for_good_example =
    expired_for_good loopback calls (run loopback restarted new_service) (codes "preview-session-1")
      (omega arith)
      (service-IsValid loopback restarted new_service (omega arith) new_service-IsValid) refl

abbrev first_session : PreviewSession
first_session = new_session loopback (codes "preview-session-1") main_target

abbrev second_session : PreviewSession
second_session = new_session loopback (codes "preview-session-2") main_target

one_for_target_example :
    (find_active_session (run loopback restarted new_service) main_target ≡ some second_session)
    × (main_target ≡ main_target → codes "preview-session-2" ≡ codes "preview-session-2")
unfolding run find_active_session create_session allocate_session_id digits_before
    invalidate_session check_events_session get_session get insert remove list_beq pair_beq
one_for_target_example =
    one_for_target loopback restarted (codes "preview-session-2") (codes "preview-session-2")
      second_session second_session (refl, tt) refl refl refl refl

abbrev stale : PreviewSessionService
stale = run loopback restarted new_service

invalidate_twice_example :
    let s' = (invalidate_session stale (codes "preview-session-1")).1 in
    (get_session s' (codes "preview-session-2") ≡ some second_session)
    × (find_active_session s' main_target ≡ none)
unfolding run find_active_session create_session allocate_session_id digits_before
    invalidate_session get_session get insert remove list_beq pair_beq
invalidate_twice_example =
    invalidate_twice stale (codes "preview-session-1") (codes "preview-session-2")
      (record first_session { active = false }) second_session refl refl refl refl refl
