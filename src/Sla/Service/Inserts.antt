-- ===== src/Sla/Service/Inserts.antt =====
-- modules/sla/sla.repository.ts: the target of a ticket and kind after insertTarget.
use prime_focus_css_api.Common.{
  ◌≡◌, refl, ◌∙◌, true, false, some, none, arith, inl, inr, ==_refl, Bool-cases, Option-cases, Uuid,
  is_some, find_where, find_where-update, find_where-append, find_where-append_other,
  find_where-update_other, find_where_sound,
}
use prime_focus_css_api.Sla.Store.{
  SlaTargetKind, first_response, resolution, TicketSlaTargetRow, SlaStore, NewTarget, find_target,
  is_target, same_kind, insert_target, restart, fresh_target,
}

-- A clock that has just been started with the given values.
abbrev pub IsFresh : NewTarget → TicketSlaTargetRow → Type 0
IsFresh v t =
    (t.started_at ≡ v.started_at)
    × (t.due_at ≡ v.due_at)
    × (t.target_minutes ≡ v.target_minutes)
    × (t.paused_at ≡ none)
    × (t.paused_minutes ≡ 0)
    × (t.satisfied_at ≡ none)
    × (t.breached_at ≡ none)

abbrev pub FreshIn : NewTarget → SlaStore → Type 0
FreshIn v s = (t : TicketSlaTargetRow) × (find_target v.ticket_id v.kind s ≡ some t) × IsFresh v t

same_kind_refl : (k : SlaTargetKind) → same_kind k k ≡ true
same_kind_refl first_response = refl
same_kind_refl resolution = refl

kinds_apart :
    (a b c : SlaTargetKind) → same_kind b a ≡ false → same_kind c a ≡ true → same_kind c b ≡ false
kinds_apart first_response first_response c h k = cc h
kinds_apart first_response resolution first_response h k = refl
kinds_apart first_response resolution resolution h k = cc k
kinds_apart resolution first_response first_response h k = cc k
kinds_apart resolution first_response resolution h k = refl
kinds_apart resolution resolution c h k = cc h

pub insert_target-fresh : (v : NewTarget) (s : SlaStore) → FreshIn v (insert_target v s)
unfolding insert_target find_target
insert_target-fresh v s =
    elim (Option-cases (find_where (is_target v.ticket_id v.kind) s.targets)) [
      | inl absent ↦
          let same_ticket = ==_refl v.ticket_id in
          let same = same_kind_refl v.kind in
          (
            fresh_target s.next_id v,
            rw absent (
                find_where-append (is_target v.ticket_id v.kind) s.targets
                  (fresh_target s.next_id v) absent (rw same_ticket (rw same refl))),
            (refl, refl, refl, refl, refl, refl, refl),
          )
      | inr (t, there) ↦ (
        restart v t,
        rw there (
            find_where-update (is_target v.ticket_id v.kind) (is_target v.ticket_id v.kind)
              (restart v) s.targets (λ x. refl) there
            ∙ rw (find_where_sound (is_target v.ticket_id v.kind) s.targets there) refl),
        (refl, refl, refl, refl, refl, refl, refl),
      )
    ]

pub insert_target-other :
    (v : NewTarget) (ticket_id : Uuid) (kind : SlaTargetKind) (s : SlaStore)
    → same_kind kind v.kind ≡ false
    → find_target ticket_id kind (insert_target v s) ≡ find_target ticket_id kind s
unfolding insert_target find_target
insert_target-other v ticket_id kind s apart =
    elim (Bool-cases (is_some (find_where (is_target v.ticket_id v.kind) s.targets))) [
      | inl there ↦ rw there (
          find_where-update_other (is_target ticket_id kind) (is_target v.ticket_id v.kind)
            (restart v) s.targets (λ x h. let miss = clash x h in (miss, miss)))
      | inr absent ↦ rw absent (
          find_where-append_other (is_target ticket_id kind) s.targets (fresh_target s.next_id v)
            (clash (fresh_target s.next_id v) (rw (==_refl v.ticket_id) (same_kind_refl v.kind))))
    ]
  where
    clash :
        (x : TicketSlaTargetRow)
        → is_target v.ticket_id v.kind x ≡ true
        → is_target ticket_id kind x ≡ false
    clash x h =
        let k : same_kind x.kind kind ≡ false =
          kinds_apart v.kind kind x.kind apart (ground arith) in
        ground arith
