-- ===== src/Application/PreviewSession/Lifetime.antt =====
-- A preview that has expired stays expired, and a target has one active preview.
use ferritex.Prelude.{
  ◌+◌, ◌^◌, ◌<◌, arith, length, ◌≡◌, inl, inr, refl, ap, ◌∙◌, Bool, true, false, Option, none, some,
  List, [], ◌∷◌, ◌=?◌, eq_of_=?, list_eq, nat_eq, if◌then◌else◌, Bool-cases,
}
use ferritex.Prelude.HashMap
use ferritex.Prelude.HashMap.{insert_inv, remove_inv, modify_inv, map_option}
use ferritex.Prelude.Order.{pair_eq}
use ferritex.Application.PreviewSession.{
  SessionId, PreviewTarget, target_eq, PreviewSession, PreviewPublicationPolicy,
  PreviewTransportPort, PreviewSessionService, session_expired,
}
use ferritex.Application.PreviewSession.Service.{
  check_events_session, events_error, create_session, create_if, reuse_or_create,
  find_active_session, allocate_session_id, update_view_state, apply_page_fallback,
  advance_revision, invalidate_session, invalidate_found, new_session, clamped, advanced,
}
use ferritex.Application.PreviewSession.Invariant.{
  IsValid, Call, create, update_view, page_fallback, advance, invalidate, step, run, step-IsValid,
  fresh, next_id, Keeps, HasRoom, count-step,
}

-- A session that was invalidated stands at the id.
abbrev pub IsExpired : PreviewSessionService → SessionId → Type 0
IsExpired s id = (x : PreviewSession) × (HashMap.get s.sessions id ≡ some x) × (x.active ≡ false)

modify-IsExpired :
    (s : PreviewSessionService) (k id : SessionId) (f : PreviewSession → PreviewSession)
    → Keeps f
    → IsExpired s id
    → IsExpired (record s { sessions = HashMap.modify s.sessions k f }) id
modify-IsExpired s k id f keeps (x, g, a) = elim (Bool-cases (k =? id)) [
  | inl t ↦ (f x, HashMap.get-modify s.sessions k f id ∙ rw (t, g) refl, keeps.activity x ∙ a)
  | inr n ↦ (x, HashMap.get-modify s.sessions k f id ∙ rw n g, a)
]

create-IsExpired :
    (transport : PreviewTransportPort) (s : PreviewSessionService) (target : PreviewTarget)
    (o : Option PreviewPublicationPolicy) (id : SessionId)
    → HasRoom s
    → IsValid s
    → IsExpired s id
    → IsExpired (create_if transport s target o).1 id
unfolding allocate_session_id find_active_session
create-IsExpired transport s target none id room v e = e
create-IsExpired transport s target (some policy) id room v (x, g, a) =
    reused (find_active_session s target)
  where
    reused : (o : Option PreviewSession) → IsExpired (reuse_or_create transport s target o).1 id
    reused (some session) = (x, g, a)
    reused none = elim (Bool-cases (next_id s =? id)) [
      | inl t ↦ absurd (fresh s x room v (ap (HashMap.get s.sessions) (eq_of_=? t) ∙ g))
      | inr n ↦ (
        x,
        HashMap.get-insert s.sessions (next_id s) (new_session transport (next_id s) target) id
            ∙ rw n g,
        a,
      )
    ]

invalidate-IsExpired :
    (s : PreviewSessionService) (k id : SessionId) (o : Option PreviewSession)
    → IsExpired s id
    → IsExpired (invalidate_found s k o).1 id
invalidate-IsExpired s k id none e = e
invalidate-IsExpired s k id (some y) (x, g, a) = elim (Bool-cases (k =? id)) [
  | inl t ↦ (
    record y { active = false },
    HashMap.get-insert s.sessions k (record y { active = false }) id ∙ rw t refl,
    refl,
  )
  | inr n ↦ (x, HashMap.get-insert s.sessions k (record y { active = false }) id ∙ rw n g, a)
]

step-IsExpired :
    (transport : PreviewTransportPort) (c : Call) (s : PreviewSessionService) (id : SessionId)
    → HasRoom s
    → IsValid s
    → IsExpired s id
    → IsExpired (step transport c s) id
unfolding create_session update_view_state apply_page_fallback advance_revision invalidate_session
step-IsExpired transport (create target policy) s id room v e =
    create-IsExpired transport s target policy.preview_publication id room v e
step-IsExpired transport (update_view k view_state) s id room v e =
    modify-IsExpired s k id _ (record { id = λ x. refl; target = λ x. refl; activity = λ x. refl })
      e
step-IsExpired transport (page_fallback k page_count) s id room v e =
    modify-IsExpired s k id (clamped page_count)
      (record { id = λ x. refl; target = λ x. refl; activity = λ x. refl }) e
step-IsExpired transport (advance k page_count) s id room v e =
    modify-IsExpired s k id advanced
      (record { id = λ x. refl; target = λ x. refl; activity = λ x. refl }) e
step-IsExpired transport (invalidate k) s id room v e =
    invalidate-IsExpired s k id (HashMap.get s.sessions k) e

run-IsExpired :
    (transport : PreviewTransportPort) (cs : List Call) (s : PreviewSessionService) (id : SessionId)
    → s.next_session_id + length cs < 2 ^ 64
    → IsValid s
    → IsExpired s id
    → IsExpired (run transport cs s) id
unfolding run
run-IsExpired transport [] s id room v e = e
run-IsExpired transport (c ∷ cs) s id room v e =
    run-IsExpired transport cs (step transport c s) id
      (omega (arith, room, count-step transport c s (omega (arith, room))))
      (step-IsValid transport c s (omega (arith, room)) v)
      (step-IsExpired transport c s id (omega (arith, room)) v e)

IsExpired-iff :
    (s : PreviewSessionService) (id : SessionId) (o : Option PreviewSession)
    → HashMap.get s.sessions id ≡ o
    → events_error o ≡ some session_expired
    → IsExpired s id
IsExpired-iff s id none g h = absurd (cc)
IsExpired-iff s id (some x) g h = elim (Bool-cases x.active) [
  | inl on ↦ absurd (live x.active on h)
  | inr off ↦ (x, g, off)
]
  where
    live :
        (b : Bool)
        → b ≡ true
        → (if b then none else some session_expired) ≡ some session_expired
        → ⊥
    live true e h = cc
    live false e h = cc

-- In a valid service, once a session's events are refused as expired they stay so, whatever is called
-- later, as long as the counter of sessions and the number of calls stay below `2 ^ 64` together: no
-- later session takes its id.
pub expired_for_good :
    (transport : PreviewTransportPort) (cs : List Call) (s : PreviewSessionService) (id : SessionId)
    → s.next_session_id + length cs < 2 ^ 64
    → IsValid s
    → check_events_session s id ≡ some session_expired
    → check_events_session (run transport cs s) id ≡ some session_expired
unfolding check_events_session
expired_for_good transport cs s id room v h =
    let (x, g, a) =
      run-IsExpired transport cs s id room v
        (IsExpired-iff s id (HashMap.get s.sessions id) refl h) in
    ap events_error g ∙ rw a refl

-- An active session is the one that its target leads to.
pub record IsExclusive (s : PreviewSessionService) : Type 0 where
  pub reached :
      (id : SessionId) (x : PreviewSession)
      → HashMap.get s.sessions id ≡ some x
      → x.active ≡ true
      → HashMap.get s.target_sessions x.target ≡ some id

-- The calls invalidate sessions only while they are active.
abbrev pub InvalidatesActive : PreviewTransportPort → List Call → PreviewSessionService → Type 0
InvalidatesActive transport [] s = Unit
InvalidatesActive transport (create target policy ∷ cs) s =
    InvalidatesActive transport cs (step transport (create target policy) s)
InvalidatesActive transport (update_view id view_state ∷ cs) s =
    InvalidatesActive transport cs (step transport (update_view id view_state) s)
InvalidatesActive transport (page_fallback id page_count ∷ cs) s =
    InvalidatesActive transport cs (step transport (page_fallback id page_count) s)
InvalidatesActive transport (advance id page_count ∷ cs) s =
    InvalidatesActive transport cs (step transport (advance id page_count) s)
InvalidatesActive transport (invalidate id ∷ cs) s =
    (check_events_session s id ≡ none)
    × InvalidatesActive transport cs (step transport (invalidate id) s)
