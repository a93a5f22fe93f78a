-- ===== src/Application/PreviewSession/Exclusive.antt =====
-- A target has one active preview, as long as no expired one is invalidated again.
use ferritex.Prelude.{
  ◌≡◌, ◌⊎◌, inl, inr, refl, sym, ap, ◌∙◌, Bool, true, false, Option, none, some, List, [], ◌∷◌,
  ◌=?◌, eq_of_=?, =?_refl, list_eq, nat_eq, if◌then◌else◌, Bool-cases,
}
use ferritex.Prelude.HashMap
use ferritex.Prelude.HashMap.{insert_inv, modify_inv}
use ferritex.Prelude.Order.{pair_eq}
use ferritex.Application.PreviewSession.{
  SessionId, PreviewTarget, target_eq, PreviewSession, PreviewPublicationPolicy,
  PreviewTransportPort, PreviewSessionService, new_service, session_expired,
}
use ferritex.Application.PreviewSession.Service.{
  check_events_session, events_error, create_session, create_if, reuse_or_create,
  find_active_session, if_active, session_at, allocate_session_id, update_view_state,
  apply_page_fallback, advance_revision, invalidate_session, invalidate_found, new_session, clamped,
  advanced, get_session,
}
use ferritex.Application.PreviewSession.Invariant.{
  Call, create, update_view, page_fallback, advance, invalidate, run, next_id, session_eq, clash,
  Keeps,
}
use ferritex.Application.PreviewSession.Lifetime.{IsExclusive, InvalidatesActive}

id_eq : (i j : SessionId) → some i ≡ some j → i ≡ j
id_eq i j p = cc

nothing : (x : PreviewSession) → none ≡ some x → ⊥
nothing x q = cc

active_found :
    (s : PreviewSessionService) (t : PreviewTarget) (id : SessionId) (x : PreviewSession)
    → HashMap.get s.target_sessions t ≡ some id
    → HashMap.get s.sessions id ≡ some x
    → x.active ≡ true
    → find_active_session s t ≡ some x
unfolding find_active_session
active_found s t id x h g a = ap (λ o. if_active (session_at s o)) h ∙ ap if_active g ∙ rw a refl

modified-IsExclusive :
    (s : PreviewSessionService) (k : SessionId) (f : PreviewSession → PreviewSession)
    → Keeps f
    → IsExclusive s
    → IsExclusive (record s { sessions = HashMap.modify s.sessions k f })
modified-IsExclusive s k f keeps e = record {
  reached = λ id x g a. let (y, p, c) = modify_inv s.sessions k f id x g in kept id x y p a c;
}
  where
    kept :
        (id : SessionId) (x y : PreviewSession)
        → HashMap.get s.sessions id ≡ some y
        → x.active ≡ true
        → (f y ≡ x) ⊎ (y ≡ x)
        → HashMap.get s.target_sessions x.target ≡ some id
    kept id x y p a (inl q) =
        ap (λ (z : PreviewSession). HashMap.get s.target_sessions z.target) (sym q)
        ∙ ap (HashMap.get s.target_sessions) (keeps.target y)
        ∙ e.reached id y p (sym (keeps.activity y) ∙ ap (λ (z : PreviewSession). z.active) q ∙ a)
    kept id x y p a (inr q) =
        ap (λ (z : PreviewSession). HashMap.get s.target_sessions z.target) (sym q)
        ∙ e.reached id y p (ap (λ (z : PreviewSession). z.active) q ∙ a)

created-IsExclusive :
    (transport : PreviewTransportPort) (s : PreviewSessionService) (target : PreviewTarget)
    (o : Option PreviewPublicationPolicy)
    → IsExclusive s
    → IsExclusive (create_if transport s target o).1
unfolding allocate_session_id find_active_session
created-IsExclusive transport s target none e = record { reached = e.reached }
created-IsExclusive transport s target (some policy) e = reused (find_active_session s target) refl
  where
    reused :
        (o : Option PreviewSession)
        → find_active_session s target ≡ o
        → IsExclusive (reuse_or_create transport s target o).1
    reused (some session) f = e
    reused none f = record {
      reached = λ id x g a.
          elim (insert_inv s.sessions (next_id s) (new_session transport (next_id s) target) id x
            g) [
              | inl (i, w) ↦
                  ap
                    (λ (z : PreviewSession).
                      HashMap.get (HashMap.insert s.target_sessions target (next_id s)) z.target)
                    (sym w)
                  ∙ HashMap.get-insert s.target_sessions target (next_id s) target
                  ∙ rw (=?_refl target) (ap some i)
              | inr (i, p) ↦
                  HashMap.get-insert s.target_sessions target (next_id s) x.target
                  ∙ rw (other id x p a) (e.reached id x p a)
            ];
    }
      where
        other :
            (id : SessionId) (x : PreviewSession)
            → HashMap.get s.sessions id ≡ some x
            → x.active ≡ true
            → (target =? x.target) ≡ false
        other id x p a = elim (Bool-cases (target =? x.target)) [
          | inr n ↦ n
          | inl t ↦
              let r =
                active_found s target id x
                  (ap (HashMap.get s.target_sessions) (eq_of_=? t) ∙ e.reached id x p a) p a in
              absurd (nothing x (sym f ∙ r))
        ]

invalidated-IsExclusive :
    (s : PreviewSessionService) (k : SessionId) (o : Option PreviewSession)
    → HashMap.get s.sessions k ≡ o
    → events_error o ≡ none
    → IsExclusive s
    → IsExclusive (invalidate_found s k o).1
invalidated-IsExclusive s k none h c e = e
invalidated-IsExclusive s k (some y) h c e = record {
  reached = λ id x g a. elim (insert_inv s.sessions k (record y { active = false }) id x g) [
    | inl (i, w) ↦ absurd (clash (sym a ∙ ap (λ (z : PreviewSession). z.active) (sym w)))
    | inr (i, p) ↦
        HashMap.get-remove s.target_sessions y.target x.target
        ∙ rw (other id x i p a) (e.reached id x p a)
  ];
}
  where
    live : (b : Bool) → (if b then none else some session_expired) ≡ none → b ≡ true
    live true q = refl
    live false q = absurd (cc)

    other :
        (id : SessionId) (x : PreviewSession)
        → (k =? id) ≡ false
        → HashMap.get s.sessions id ≡ some x
        → x.active ≡ true
        → (y.target =? x.target) ≡ false
    other id x i p a = elim (Bool-cases (y.target =? x.target)) [
      | inr n ↦ n
      | inl t ↦
          let q = id_eq k id (
            sym (e.reached k y h (live y.active c))
            ∙ ap (HashMap.get s.target_sessions) (eq_of_=? t)
            ∙ e.reached id x p a) in
          absurd (clash (sym (ap (λ j. k =? j) (sym q) ∙ =?_refl k) ∙ i))
    ]

run-IsExclusive :
    (transport : PreviewTransportPort) (cs : List Call) (s : PreviewSessionService)
    → InvalidatesActive transport cs s
    → IsExclusive s
    → IsExclusive (run transport cs s)
unfolding run create_session update_view_state apply_page_fallback advance_revision
    invalidate_session check_events_session
run-IsExclusive transport [] s g e = e
run-IsExclusive transport (create target policy ∷ cs) s g e =
    run-IsExclusive transport cs _ g
      (created-IsExclusive transport s target policy.preview_publication e)
run-IsExclusive transport (update_view k view_state ∷ cs) s g e = run-IsExclusive transport cs _ g (
    modified-IsExclusive s k (λ x. record x { view_state = view_state })
      (record { id = λ x. refl; target = λ x. refl; activity = λ x. refl }) e)
run-IsExclusive transport (page_fallback k page_count ∷ cs) s g e =
    run-IsExclusive transport cs _ g (
      modified-IsExclusive s k (clamped page_count)
        (record { id = λ x. refl; target = λ x. refl; activity = λ x. refl }) e)
run-IsExclusive transport (advance k page_count ∷ cs) s g e = run-IsExclusive transport cs _ g (
    modified-IsExclusive s k advanced
      (record { id = λ x. refl; target = λ x. refl; activity = λ x. refl }) e)
run-IsExclusive transport (invalidate k ∷ cs) s g e =
    run-IsExclusive transport cs _ g.1
      (invalidated-IsExclusive s k (HashMap.get s.sessions k) refl g.0 e)

new_service-IsExclusive : IsExclusive new_service
unfolding HashMap.get
new_service-IsExclusive = record { reached = λ id x g a. absurd (cc) }

-- After any calls to a new service that invalidate sessions only while they are active, the active
-- session of a target is the one that is found for it, and two active sessions are not for one target.
pub one_for_target :
    (transport : PreviewTransportPort) (cs : List Call) (i j : SessionId) (x y : PreviewSession)
    → InvalidatesActive transport cs new_service
    → get_session (run transport cs new_service) i ≡ some x
    → get_session (run transport cs new_service) j ≡ some y
    → x.active ≡ true
    → y.active ≡ true
    → (find_active_session (run transport cs new_service) x.target ≡ some x)
      × (x.target ≡ y.target → i ≡ j)
unfolding get_session
one_for_target transport cs i j x y g p q a b =
    let s = run transport cs new_service in
    let e = run-IsExclusive transport cs new_service g new_service-IsExclusive in
    (
      active_found s x.target i x (e.reached i x p a) p a,
      λ t.
          id_eq i j
            (sym (e.reached i x p a) ∙ ap (HashMap.get s.target_sessions) t ∙ e.reached j y q b),
    )

-- If an expired session is invalidated once more while its target has an active session, that one
-- stays active and its target no longer leads to it.
pub invalidate_twice :
    (s : PreviewSessionService) (old id : SessionId) (x y : PreviewSession)
    → get_session s old ≡ some x
    → x.active ≡ false
    → get_session s id ≡ some y
    → y.active ≡ true
    → y.target ≡ x.target
    → let s' = (invalidate_session s old).1 in
      (get_session s' id ≡ some y) × (find_active_session s' y.target ≡ none)
unfolding get_session invalidate_session find_active_session
invalidate_twice s old id x y p a q b t = (
  ap (λ o. HashMap.get (invalidate_found s old o).1.sessions id) p
      ∙ HashMap.get-insert s.sessions old (record x { active = false }) id
      ∙ rw other q,
  ap
        (λ o. if_active (
          session_at (invalidate_found s old o).1
            (HashMap.get (invalidate_found s old o).1.target_sessions y.target)))
        p
      ∙ ap (λ o. if_active (session_at (invalidate_found s old (some x)).1 o)) gone,
)
  where
    same : (x.target =? y.target) ≡ true
    same = ap (λ z. x.target =? z) t ∙ =?_refl x.target

    gone : HashMap.get (HashMap.remove s.target_sessions x.target) y.target ≡ none
    gone = HashMap.get-remove s.target_sessions x.target y.target ∙ rw same refl

    other : (old =? id) ≡ false
    other = elim (Bool-cases (old =? id)) [
      | inr n ↦ n
      | inl e ↦
          let r = session_eq x y (sym p ∙ ap (HashMap.get s.sessions) (eq_of_=? e) ∙ q) in
          absurd (clash (sym b ∙ ap (λ (z : PreviewSession). z.active) (sym r) ∙ a))
    ]
