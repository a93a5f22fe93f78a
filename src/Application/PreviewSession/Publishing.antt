-- ===== src/Application/PreviewSession/Publishing.antt =====
-- When a compile may publish to a preview.
use ferritex.Prelude.{
  ◌≡◌, ◌↔◌, inl, inr, refl, sym, ap, ◌∙◌, subst, Bool, true, false, ◌&&◌, not, Option, none, some,
  ◌=?◌, list_eq, nat_eq, if◌then◌else◌, Bool-cases,
}
use ferritex.Prelude.HashMap
use ferritex.Prelude.HashMap.{insert_inv}
use ferritex.Prelude.Order.{pair_eq}
use ferritex.Application.PreviewSession.{
  SessionId, PreviewTarget, target_eq, target_beq_iff, PreviewSession, ExecutionPolicy,
  PreviewPublicationPolicy, PreviewSessionService, SessionErrorResponse, PublishDecision, allowed,
  denied,
}
use ferritex.Application.PreviewSession.Service.{check_publish, publish_under, publish_to}
use ferritex.Application.PreviewSession.Invariant.{session_eq, clash}

-- The session is known and active, and is for the target if the policy asks for that.
abbrev pub IsPublic :
    PreviewSessionService
    → SessionId
    → PreviewTarget
    → PreviewPublicationPolicy
    → PreviewSession
    → Type 0
IsPublic s id target p x =
    (HashMap.get s.sessions id ≡ some x)
    × (x.active ≡ true)
    × (p.active_job_only ≡ true → x.target ≡ target)

decided_iff :
    (a m same : Bool) (r q : SessionErrorResponse)
    → ((if not a then denied r else if m && not same then denied q else allowed) ≡ allowed)
      ↔ ((a ≡ true) × (m ≡ true → same ≡ true))
decided_iff false m same r q = (λ h. absurd (cc), λ h. absurd (clash (sym h.0)))
decided_iff true false same r q = (λ h. (refl, λ k. absurd (clash (sym k))), λ h. refl)
decided_iff true true true r q = (λ h. (refl, λ k. refl), λ h. refl)
decided_iff true true false r q = (λ h. absurd (cc), λ h. absurd (clash (sym (h.1 refl))))

publish_to_iff :
    (id : SessionId) (target : PreviewTarget) (p : PreviewPublicationPolicy) (x : PreviewSession)
    → (publish_to id target p (some x) ≡ allowed)
      ↔ ((x.active ≡ true) × (p.active_job_only ≡ true → x.target ≡ target))
publish_to_iff id target p x =
    let d = decided_iff x.active p.active_job_only (x.target =? target) _ _ in
    let e = target_beq_iff x.target target in
    (λ h. let r = d.0 h in (r.0, λ m. e.0 (r.1 m)), λ h. d.1 (h.0, λ m. e.1 (h.1 m)))

publish_found :
    (s : PreviewSessionService) (id : SessionId) (target : PreviewTarget)
    (p : PreviewPublicationPolicy) (o : Option PreviewSession)
    → HashMap.get s.sessions id ≡ o
    → (publish_to id target p o ≡ allowed) ↔ ((x : PreviewSession) × IsPublic s id target p x)
publish_found s id target p none e = (λ h. absurd (cc), λ (x, g). absurd (missing x (sym e ∙ g.0)))
  where
    missing : (x : PreviewSession) → none ≡ some x → ⊥
    missing x q = cc
publish_found s id target p (some y) e =
    let f = publish_to_iff id target p y in
    (
      λ h. let r = f.0 h in (y, (e, r.0, r.1)),
      λ (x, (g, a, m)).
          let q = session_eq x y (sym g ∙ e) in
          f.1 (
            ap (λ (z : PreviewSession). z.active) (sym q) ∙ a,
            λ k. ap (λ (z : PreviewSession). z.target) (sym q) ∙ m k,
          ),
    )

publish_under_iff :
    (s : PreviewSessionService) (id : SessionId) (target : PreviewTarget)
    (o : Option PreviewPublicationPolicy)
    → (publish_under s id target o ≡ allowed) ↔ (
        (p : PreviewPublicationPolicy) × (o ≡ some p)
        × (p.loopback_only ≡ true)
        × ((x : PreviewSession) × IsPublic s id target p x))
publish_under_iff s id target none = (λ h. absurd (cc), λ (p, e, l, r). absurd (cc))
publish_under_iff s id target (some p) = elim (Bool-cases p.loopback_only) [
  | inl on ↦
      let f = publish_found s id target p (HashMap.get s.sessions id) refl in
      (
        λ h. (p, refl, on, f.0 (unguarded _ _ p.loopback_only on h)),
        λ (q, e, l, r). guarded _ _ p.loopback_only on (f.1 (moved q p (sym e) r)),
      )
  | inr off ↦ (
    λ h. absurd (closed _ _ p.loopback_only off h),
    λ (q, e, l, r). absurd (
        clash (
          sym l
          ∙ ap (λ (z : PreviewPublicationPolicy). z.loopback_only) (policy_eq q p (sym e))
          ∙ off)),
  )
]
  where
    policy_eq : (q p : PreviewPublicationPolicy) → some q ≡ some p → q ≡ p
    policy_eq q p e = cc

    moved :
        (q p : PreviewPublicationPolicy)
        → some q ≡ some p
        → ((x : PreviewSession) × IsPublic s id target q x)
        → (x : PreviewSession) × IsPublic s id target p x
    moved q p e r = subst (λ z. (x : PreviewSession) × IsPublic s id target z x) (policy_eq q p e) r

    unguarded :
        (r : SessionErrorResponse) (d : PublishDecision) (b : Bool)
        → b ≡ true
        → (if not b then denied r else d) ≡ allowed
        → d ≡ allowed
    unguarded r d true e h = h
    unguarded r d false e h = absurd (cc)

    guarded :
        (r : SessionErrorResponse) (d : PublishDecision) (b : Bool)
        → b ≡ true
        → d ≡ allowed
        → (if not b then denied r else d) ≡ allowed
    guarded r d true e h = h
    guarded r d false e h = absurd (clash (sym e))

    closed :
        (r : SessionErrorResponse) (d : PublishDecision) (b : Bool)
        → b ≡ false
        → (if not b then denied r else d) ≡ allowed
        → ⊥
    closed r d true e h = clash e
    closed r d false e h = cc

-- A compile may publish to a session if and only if the policy allows previews on the loopback
-- transport and the session is known, active and, where the policy asks for it, for that target.
pub check_publish_iff :
    (s : PreviewSessionService) (id : SessionId) (target : PreviewTarget) (policy : ExecutionPolicy)
    → (check_publish s id target policy ≡ allowed) ↔ (
        (p : PreviewPublicationPolicy) × (policy.preview_publication ≡ some p)
        × (p.loopback_only ≡ true)
        × ((x : PreviewSession) × IsPublic s id target p x))
unfolding check_publish
check_publish_iff s id target policy = publish_under_iff s id target policy.preview_publication
