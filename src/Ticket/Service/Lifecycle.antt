-- ===== src/Ticket/Service/Lifecycle.antt =====
-- modules/ticket/ticket.service.ts: updateFields, reopen and registerCustomerReply, by what a call
-- that succeeds leaves in the row of its ticket.
use prime_focus_css_api.Common.{
  ◌+◌, ◌≡◌, refl, sym, ap, ◌∙◌, true, Option, some, [], ◌∷◌, if◌then◌else◌, inl, inr, Bool-cases,
  Uuid, Instant,
}
use prime_focus_css_api.Common.Errors.{Result, ok, ◌>>=◌, both-ok, ensure, validation}
use prime_focus_css_api.Sla.Clock.{BusinessCalendar}
use prime_focus_css_api.Sla.Clock.Windows.{Text}
use prime_focus_css_api.Sla.Clock.Zone.{Formatter}
use prime_focus_css_api.Sla.Service.{is_finished}
use prime_focus_css_api.Ticket.Status.{TicketStatus, open_status, can_transition}
use prime_focus_css_api.Ticket.Store.{
  TicketRow, Actor, Db, announce, audited, ticket_reopened, find_raw_by_id, update,
}
use prime_focus_css_api.Ticket.Service.{
  TicketPatch, context_of, update_effects, require_accessible, patch_ticket, check_category,
  check_transition, update_fields, update_clocks, clocks_on_status_changed, reopen, reopen_row,
  register_customer_reply, reply_patch, is_open_for_reply,
}
use prime_focus_css_api.Ticket.Service.Rows.{
  IsConsistent, check_transition-ok, clocks_on_status_changed-tickets, ensure-ok,
  find_raw_by_id-same, patch_ticket-IsConsistent, patch_ticket-id, reply_patch-facts,
  reply_patch-id, require_accessible-ok, update-found, update_clocks-tickets,
}

module _ (intl : Text → Option Formatter)
    (calendar_for : Option Uuid → Result BusinessCalendar) where
  -- A successful updateFields makes a legal move, if it changes the status, leaves the patched row
  -- under the id of the ticket, and keeps the agreement of its status with its times of resolution
  -- and closing.
  pub update_fields-row :
      (id : Uuid) (patch : TicketPatch) (actor : Actor) (now : Instant) (db db' : Db)
      → update_fields intl calendar_for id patch actor now db ≡ ok db'
      → (before : TicketRow) × (find_raw_by_id id db ≡ some before)
        × ((to : TicketStatus) → patch.status ≡ some to → can_transition before.status to ≡ true)
        × (find_raw_by_id id db' ≡ some (patch_ticket patch now before))
        × (IsConsistent before → IsConsistent (patch_ticket patch now before))
  unfolding update_fields find_raw_by_id
  update_fields-row id patch actor now db db' e =
      let (before, accessible, e₁) = both-ok (require_accessible id actor db) _ e in
      let (_, _, e₂) = both-ok (check_category patch.category_id before.product_id db) _ e₁ in
      let (u, legal, e₃) = both-ok (check_transition before.status patch.status) _ e₂ in
      let (db₁, clocks, e₄) =
        both-ok
          (update_clocks intl calendar_for patch.status before (patch_ticket patch now before) now
            (update id (patch_ticket patch now) db))
          _ e₃ in
      let there = require_accessible-ok id actor db before accessible in
      let written =
        update-found id (patch_ticket patch now) db before (patch_ticket-id patch now) there in
      let same : announce (update_effects before patch.status (patch_ticket patch now before)) db₁
          ≡ db' =
        cc e₄ in
      (
        before,
        there,
        check_transition-ok before.status patch.status u legal,
        find_raw_by_id-same id (update id (patch_ticket patch now) db) db' (
              ap (λ (d : Db). d.tickets) (sym same)
              ∙ update_clocks-tickets intl calendar_for patch.status before _ now _ db₁ clocks)
            ∙ written,
        patch_ticket-IsConsistent patch now before,
      )

  -- A successful reopen was of a resolved or closed ticket, which is then open, counted as
  -- reopened once more, without times of resolution and closing.
  pub reopen-row :
      (id : Uuid) (actor : Actor) (now : Instant) (db db' : Db)
      → reopen intl calendar_for id actor now db ≡ ok db'
      → (before : TicketRow) × (find_raw_by_id id db ≡ some before)
        × (is_finished before.status ≡ true)
        × (find_raw_by_id id db' ≡ some (reopen_row (before.reopened_count + 1) before))
        × IsConsistent (reopen_row (before.reopened_count + 1) before)
  unfolding reopen
  reopen-row id actor now db db' e =
      let (before, accessible, e₁) = both-ok (require_accessible id actor db) _ e in
      let (_, finished, e₂) = both-ok (ensure (is_finished before.status) validation) _ e₁ in
      let patch = reopen_row (before.reopened_count + 1) in
      let (db₁, clocks, e₃) =
        both-ok
          (clocks_on_status_changed intl calendar_for (context_of before) before.status open_status
            now (update id patch db))
          _ e₂ in
      let there = require_accessible-ok id actor db before accessible in
      let same : announce (audited id ∷ ticket_reopened id ∷ []) db₁ ≡ db' = cc e₃ in
      (
        before,
        there,
        ensure-ok (is_finished before.status) validation finished,
        find_raw_by_id-same id (update id patch db) db' (
              ap (λ (d : Db). d.tickets) (sym same)
              ∙ clocks_on_status_changed-tickets intl calendar_for (context_of before) before.status
                  open_status now _ db₁ clocks)
            ∙ update-found id patch db before (λ x. refl) there,
        refl,
      )

  -- Where registerCustomerReply of a stored ticket succeeds, the ticket has the patched row; a
  -- finished ticket is counted as reopened, others are not; the status returned is the one stored,
  -- and the agreement of status and times is kept.
  pub register_customer_reply-row :
      (ticket : TicketRow) (now : Instant) (db db' : Db) (status : TicketStatus)
      → find_raw_by_id ticket.id db ≡ some ticket
      → register_customer_reply intl calendar_for ticket now db ≡ ok (status, db')
      → (find_raw_by_id ticket.id db' ≡ some (reply_patch ticket now ticket))
        × ((reply_patch ticket now ticket).status ≡ status)
        × ((reply_patch ticket now ticket).reopened_count ≡ (
            if is_finished ticket.status then ticket.reopened_count + 1 else ticket.reopened_count))
        × (IsConsistent ticket → IsConsistent (reply_patch ticket now ticket))
  unfolding register_customer_reply find_raw_by_id
  register_customer_reply-row ticket now db db' status there e =
      let written =
        update-found ticket.id (reply_patch ticket now) db ticket (reply_patch-id ticket now)
          there in
      let facts = reply_patch-facts ticket now in
      elim (Bool-cases (is_open_for_reply ticket.status)) [
        | inl opens ↦
            let e₀ : (clocks_on_status_changed intl calendar_for (context_of ticket) ticket.status
                    open_status now (update ticket.id (reply_patch ticket now) db)
                  >>= λ d. ok (open_status, d))
                ≡ ok (status, db') =
              rw (opens, register_customer_reply) at e in
            let (db₁, clocks, e₁) =
              both-ok
                (clocks_on_status_changed intl calendar_for (context_of ticket) ticket.status
                  open_status now (update ticket.id (reply_patch ticket now) db))
                (λ d. ok (open_status, d)) e₀ in
            let same : db₁ ≡ db' = cc e₁ in
            let told : open_status ≡ status = cc e₁ in
            (
              find_raw_by_id-same ticket.id (update ticket.id (reply_patch ticket now) db) db' (
                    ap (λ (d : Db). d.tickets) (sym same)
                    ∙ clocks_on_status_changed-tickets intl calendar_for (context_of ticket)
                        ticket.status open_status now _ db₁ clocks)
                  ∙ written,
              facts.0 ∙ (rw opens refl) ∙ told,
              facts.1,
              facts.2,
            )
        | inr stays ↦
            let e₀ : ok (ticket.status, update ticket.id (reply_patch ticket now) db)
                ≡ ok (status, db') =
              rw (stays, register_customer_reply) at e in
            let same : update ticket.id (reply_patch ticket now) db ≡ db' = cc e₀ in
            let told : ticket.status ≡ status = cc e₀ in
            (rw (← same) written, facts.0 ∙ (rw stays refl) ∙ told, facts.1, facts.2)
      ]
