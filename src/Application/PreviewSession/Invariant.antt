-- ===== src/Application/PreviewSession/Invariant.antt =====
-- The invariant of the service, over any calls.
use ferritex.Prelude.{
  ℕ, ◌+◌, ◌^◌, ◌≤◌, ◌<◌, length, ◌≡◌, ◌⊎◌, inl, inr, refl, sym, ap, ◌∙◌, subst, Bool, true, false,
  Option, none, some, List, [], ◌∷◌, drop, arith, ◌=?◌, eq_of_=?, =?_refl, list_eq, nat_eq,
  Bool-cases,
}
use ferritex.Prelude.Decimal.{display_inj, digits_before}
use ferritex.Prelude.HashMap
use ferritex.Prelude.HashMap.{HashMap, insert_inv, remove_inv, modify_inv}
use ferritex.Prelude.Order.{pair_eq}
use ferritex.Prelude.Integer.{next_u64}
use ferritex.Application.PreviewSession.{
  SessionId, PreviewTarget, target_eq, PreviewViewState, PreviewSession, ExecutionPolicy,
  PreviewPublicationPolicy, PreviewTransportPort, PreviewSessionService, new_service,
}
use ferritex.Application.PreviewSession.Service.{
  session_id_of, allocate_session_id, find_active_session, new_session, register, reuse_or_create,
  create_if, create_session, update_view_state, clamped, apply_page_fallback, advanced,
  advance_revision, invalidate_found, invalidate_session,
}

pub session_id_of_inj : (m n : ℕ) → session_id_of m ≡ session_id_of n → m ≡ n
unfolding digits_before
session_id_of_inj m n h = display_inj m n (ap (drop 16) h)

-- A session stands under its own id, which was allocated.
pub record IsIssued (s : PreviewSessionService) (id : SessionId) (x : PreviewSession) : Type 0 where
  pub own : x.session_id ≡ id
  pub number : ℕ
  pub named : id ≡ session_id_of number
  pub allocated : number ≤ s.next_session_id

pub record IsValid (s : PreviewSessionService) : Type 0 where
  pub issued :
      (id : SessionId) (x : PreviewSession) → HashMap.get s.sessions id ≡ some x → IsIssued s id x
  -- The entry of a target leads to an active session for it.
  pub leads :
      (t : PreviewTarget) (id : SessionId)
      → HashMap.get s.target_sessions t ≡ some id
      → (x : PreviewSession) × (HashMap.get s.sessions id ≡ some x)
        × (x.target ≡ t)
        × (x.active ≡ true)

pub new_service-IsValid : IsValid new_service
unfolding HashMap.get
new_service-IsValid = record { issued = λ id x h. absurd (cc); leads = λ t id h. absurd (cc) }

-- The method changes no session's id, target or activity.
pub record Keeps (f : PreviewSession → PreviewSession) : Type 0 where
  pub id : (x : PreviewSession) → (f x).session_id ≡ x.session_id
  pub target : (x : PreviewSession) → (f x).target ≡ x.target
  pub activity : (x : PreviewSession) → (f x).active ≡ x.active

IsIssued-more :
    (s s' : PreviewSessionService) (id : SessionId) (x y : PreviewSession)
    → s.next_session_id ≤ s'.next_session_id
    → y.session_id ≡ x.session_id
    → IsIssued s id x
    → IsIssued s' id y
IsIssued-more s s' id x y h e i = record {
  own = e ∙ i.own;
  number = i.number;
  named = i.named;
  allocated = omega (arith, i.allocated);
}

modified :
    (s : PreviewSessionService) (k : SessionId) (f : PreviewSession → PreviewSession)
    → Keeps f
    → IsValid s
    → IsValid (record s { sessions = HashMap.modify s.sessions k f })
modified s k f keeps v = record {
  issued = λ id x h.
      let (y, p, c) = modify_inv s.sessions k f id x h in
      IsIssued-more s _ id y x (omega arith) (kept x y c) (v.issued id y p);
  leads = λ t id h. let (x, p, e, a) = v.leads t id h in found id x t p e a (k =? id) refl;
}
  where
    kept : (x y : PreviewSession) → (f y ≡ x) ⊎ (y ≡ x) → x.session_id ≡ y.session_id
    kept x y (inl e) = ap (λ (z : PreviewSession). z.session_id) (sym e) ∙ keeps.id y
    kept x y (inr e) = ap (λ (z : PreviewSession). z.session_id) (sym e)

    found :
        (id : SessionId) (x : PreviewSession) (t : PreviewTarget)
        → HashMap.get s.sessions id ≡ some x
        → x.target ≡ t
        → x.active ≡ true
        → (b : Bool) → (k =? id) ≡ b
        → (y : PreviewSession) × (HashMap.get (HashMap.modify s.sessions k f) id ≡ some y)
          × (y.target ≡ t)
          × (y.active ≡ true)
    found id x t p e a true c = (
      f x,
      HashMap.get-modify s.sessions k f id ∙ rw (c, p) refl,
      keeps.target x ∙ e,
      keeps.activity x ∙ a,
    )
    found id x t p e a false c = (x, HashMap.get-modify s.sessions k f id ∙ rw c p, e, a)

abbrev pub next_id : PreviewSessionService → SessionId
next_id s = session_id_of (next_u64 s.next_session_id)

-- The counter has a number left.
abbrev pub HasRoom : PreviewSessionService → Type 0
HasRoom s = s.next_session_id + 1 < 2 ^ 64

next_lem : (n : ℕ) → n + 1 < 2 ^ 64 → next_u64 n ≡ n + 1
next_lem n h = ground arith

pub fresh :
    (s : PreviewSessionService) (x : PreviewSession)
    → HasRoom s
    → IsValid s
    → HashMap.get s.sessions (next_id s) ≡ some x
    → ⊥
fresh s x room v h =
    let i = v.issued (next_id s) x h in
    let next = next_lem s.next_session_id room in
    omega
      (arith, next, session_id_of_inj (next_u64 s.next_session_id) i.number i.named, i.allocated)

allocated-IsValid :
    (s : PreviewSessionService) → HasRoom s → IsValid s → IsValid (allocate_session_id s).1
unfolding allocate_session_id
allocated-IsValid s room v = record {
  issued = λ id x h.
      IsIssued-more s _ id x x (omega (arith, next_lem s.next_session_id room)) refl
        (v.issued id x h);
  leads = v.leads;
}

pub session_eq : (x y : PreviewSession) → some x ≡ some y → x ≡ y
session_eq x y p = cc

registered-IsValid :
    (transport : PreviewTransportPort) (s : PreviewSessionService) (target : PreviewTarget)
    → HasRoom s
    → IsValid s
    → IsValid (register (allocate_session_id s).1 (new_session transport (next_id s) target))
unfolding allocate_session_id
registered-IsValid transport s target room v = record {
  issued = λ id x h. elim (insert_inv s.sessions (next_id s) _ id x h) [
    | inl (e, w) ↦ record {
      own = ap (λ (z : PreviewSession). z.session_id) (sym w) ∙ e;
      number = next_u64 s.next_session_id;
      named = sym e;
      allocated = omega arith;
    }
    | inr (e, p) ↦
        IsIssued-more s _ id x x (omega (arith, next_lem s.next_session_id room)) refl
          (v.issued id x p)
  ];
  leads = λ t id h. elim (insert_inv s.target_sessions target (next_id s) t id h) [
    | inl (e, w) ↦ (
      new_session transport (next_id s) target,
      ap
            (HashMap.get
              (HashMap.insert s.sessions (next_id s) (new_session transport (next_id s) target)))
            (sym w)
          ∙ HashMap.get-insert s.sessions (next_id s) (new_session transport (next_id s) target)
              (next_id s)
          ∙ rw (=?_refl (next_id s)) refl,
      e,
      refl,
    )
    | inr (e, p) ↦
        let (x, q, r, a) = v.leads t id p in
        (x, HashMap.get-insert s.sessions (next_id s) _ id ∙ rw (other id x q) q, r, a)
  ];
}
  where
    other :
        (id : SessionId) (x : PreviewSession)
        → HashMap.get s.sessions id ≡ some x
        → (next_id s =? id) ≡ false
    other id x q = elim (Bool-cases (next_id s =? id)) [
      | inl t ↦ absurd (fresh s x room v (ap (HashMap.get s.sessions) (eq_of_=? t) ∙ q))
      | inr n ↦ n
    ]

pub clash : true ≡ false → ⊥
clash p = cc

invalidated-IsValid :
    (s : PreviewSessionService) (id : SessionId) (o : Option PreviewSession)
    → IsValid s
    → HashMap.get s.sessions id ≡ o
    → IsValid (invalidate_found s id o).1
invalidated-IsValid s id none v h = v
invalidated-IsValid s id (some y) v h = record {
  issued = λ j x p. elim (insert_inv s.sessions id _ j x p) [
    | inl (e, w) ↦
        subst (λ k. IsIssued (invalidate_found s id (some y)).1 k x) e
          (IsIssued-more s (invalidate_found s id (some y)).1 id y x (omega arith)
            (ap (λ (z : PreviewSession). z.session_id) (sym w)) (v.issued id y h))
    | inr (e, q) ↦ IsIssued-more s _ j x x (omega arith) refl (v.issued j x q)
  ];
  leads = λ t j p.
      let (ne, q) = remove_inv s.target_sessions y.target t j p in
      let (x, r, e, a) = v.leads t j q in
      (x, HashMap.get-insert s.sessions id _ j ∙ rw (other t j x ne r e) r, e, a);
}
  where
    other :
        (t : PreviewTarget) (j : SessionId) (x : PreviewSession)
        → (y.target =? t) ≡ false
        → HashMap.get s.sessions j ≡ some x
        → x.target ≡ t
        → (id =? j) ≡ false
    other t j x ne r e = elim (Bool-cases (id =? j)) [
      | inl same ↦
          let p = session_eq y x (sym h ∙ ap (HashMap.get s.sessions) (eq_of_=? same) ∙ r) in
          let q : (y.target =? t) ≡ true =
            ap (λ (z : PreviewTarget). z =? t) (ap (λ (z : PreviewSession). z.target) p ∙ e)
            ∙ =?_refl t in
          absurd (clash (sym q ∙ ne))
      | inr n ↦ n
    ]

pub data Call : Type 0 where
  create : PreviewTarget → ExecutionPolicy → Call
  update_view : SessionId → PreviewViewState → Call
  page_fallback : SessionId → ℕ → Call
  advance : SessionId → ℕ → Call
  invalidate : SessionId → Call

abbrev pub step : PreviewTransportPort → Call → PreviewSessionService → PreviewSessionService
step transport (create target policy) s = (create_session transport s target policy).1
step transport (update_view id view_state) s = update_view_state s id view_state
step transport (page_fallback id page_count) s = (apply_page_fallback s id page_count).1
step transport (advance id page_count) s = (advance_revision s id page_count).1
step transport (invalidate id) s = (invalidate_session s id).1

unfoldable pub run :
    PreviewTransportPort → List Call → PreviewSessionService → PreviewSessionService
run transport [] s = s
run transport (c ∷ cs) s = run transport cs (step transport c s)

created-IsValid :
    (transport : PreviewTransportPort) (s : PreviewSessionService) (target : PreviewTarget)
    (o : Option PreviewPublicationPolicy)
    → HasRoom s
    → IsValid s
    → IsValid (create_if transport s target o).1
unfolding allocate_session_id find_active_session
created-IsValid transport s target none room v = allocated-IsValid s room v
created-IsValid transport s target (some policy) room v = reused (find_active_session s target)
  where
    reused : (o : Option PreviewSession) → IsValid (reuse_or_create transport s target o).1
    reused (some session) = v
    reused none = registered-IsValid transport s target room v

pub step-IsValid :
    (transport : PreviewTransportPort) (c : Call) (s : PreviewSessionService)
    → HasRoom s
    → IsValid s
    → IsValid (step transport c s)
unfolding create_session update_view_state apply_page_fallback advance_revision invalidate_session
step-IsValid transport (create target policy) s room v =
    created-IsValid transport s target policy.preview_publication room v
step-IsValid transport (update_view id view_state) s room v =
    modified s id _ (record { id = λ x. refl; target = λ x. refl; activity = λ x. refl }) v
step-IsValid transport (page_fallback id page_count) s room v =
    modified s id (clamped page_count)
      (record { id = λ x. refl; target = λ x. refl; activity = λ x. refl }) v
step-IsValid transport (advance id page_count) s room v =
    modified s id advanced (record { id = λ x. refl; target = λ x. refl; activity = λ x. refl }) v
step-IsValid transport (invalidate id) s room v =
    invalidated-IsValid s id (HashMap.get s.sessions id) v refl

-- A call takes at most one number.
pub count-step :
    (transport : PreviewTransportPort) (c : Call) (s : PreviewSessionService)
    → HasRoom s
    → (step transport c s).next_session_id ≤ s.next_session_id + 1
unfolding create_session update_view_state apply_page_fallback advance_revision invalidate_session
    allocate_session_id find_active_session
count-step transport (create target policy) s room = created policy.preview_publication
  where
    reused :
        (o : Option PreviewSession)
        → (reuse_or_create transport s target o).1.next_session_id ≤ s.next_session_id + 1
    reused (some session) = omega arith
    reused none = omega (arith, next_lem s.next_session_id room)

    created :
        (o : Option PreviewPublicationPolicy)
        → (create_if transport s target o).1.next_session_id ≤ s.next_session_id + 1
    created none = omega (arith, next_lem s.next_session_id room)
    created (some policy) = reused (find_active_session s target)
count-step transport (update_view id view_state) s room = omega arith
count-step transport (page_fallback id page_count) s room = omega arith
count-step transport (advance id page_count) s room = omega arith
count-step transport (invalidate id) s room = invalidated (HashMap.get s.sessions id)
  where
    invalidated :
        (o : Option PreviewSession)
        → (invalidate_found s id o).1.next_session_id ≤ s.next_session_id + 1
    invalidated none = omega arith
    invalidated (some x) = omega arith

-- Whatever is called of a valid service, as long as the counter of sessions and the number of calls
-- stay below `2 ^ 64` together, it stays valid: each session stands under its own id, which was
-- allocated to it, and what a target leads to is an active session for that target.
pub service-IsValid :
    (transport : PreviewTransportPort) (cs : List Call) (s : PreviewSessionService)
    → s.next_session_id + length cs < 2 ^ 64
    → IsValid s
    → IsValid (run transport cs s)
unfolding run
service-IsValid transport [] s room v = v
service-IsValid transport (c ∷ cs) s room v =
    service-IsValid transport cs (step transport c s)
      (omega (arith, room, count-step transport c s (omega (arith, room))))
      (step-IsValid transport c s (omega (arith, room)) v)
