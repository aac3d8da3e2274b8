-- ===== src/Projections/Mailbox/Runs.antt =====
-- Runs of the mailbox projection of packages/mailbox-projection.
use local_first_p2p_app.Common.{
  ◌≡◌, sym, subst, ◌∙◌, String, Option, List, [], ◌∷◌, arith, contains, inl, inr, Bool-cases,
}
use local_first_p2p_app.Common.Result.{ok}
use local_first_p2p_app.Projections.Replay.{kept, kept_lem, run}
use local_first_p2p_app.Projections.Entries.{Steps, Steps-trans, Entries, Entries-empty}
use local_first_p2p_app.Projections.Mailbox.{
  MailboxState, create_empty_mailbox_state, empty_mailbox_state, is_empty, apply_mailbox_event,
}
use local_first_p2p_app.Projections.Mailbox.Laws.{
  MailboxEvent, mailbox_projection, seen_lem, fresh_lem,
}
use local_first_p2p_app.Projections.Mailbox.Lifecycle.{
  InProgress, OutProgress, InProgress-trans, OutProgress-trans, Received, Sent, Advances,
  Advances-refl, kind-Advances,
}

Advances-trans : (a b c : MailboxState) → Advances a b → Advances b c → Advances a c
Advances-trans a b c p q = record {
  same_identity = q.same_identity ∙ p.same_identity;
  inbox_steps =
      Steps-trans InProgress InProgress-trans a.inbox b.inbox c.inbox p.inbox_steps q.inbox_steps;
  outbox_steps =
      Steps-trans OutProgress OutProgress-trans a.outbox b.outbox c.outbox p.outbox_steps
        q.outbox_steps;
  received = λ h.
      subst (λ i. Entries (Received i) c.inbox) p.same_identity
        (q.received
          (subst (λ i. Entries (Received i) b.inbox) (sym p.same_identity) (p.received h)));
  sent = λ h.
      subst (λ i. Entries (Sent i) c.outbox) p.same_identity
        (q.sent (subst (λ i. Entries (Sent i) b.outbox) (sym p.same_identity) (p.sent h)));
}

module _ (iso : String → Option String) where
  event-Advances :
      (s : MailboxState) (e : MailboxEvent) (s' : MailboxState)
      → apply_mailbox_event iso s e.payload e.meta ≡ ok s'
      → Advances s s'
  event-Advances s e s' h = elim (Bool-cases (contains s.applied_event_ids e.meta.event_id)) [
    | inl old ↦
        let same : s ≡ s' = cc (h, seen_lem iso s e old) in
        subst (Advances s) same (Advances-refl s)
    | inr new ↦
        let (fields, base, done, ids, identity, inbox, outbox, checkpoints) =
          fresh_lem iso s e.payload e.meta s' new h in
        let a = kind-Advances iso s base fields e.meta.kind done in
        record {
          same_identity = identity ∙ a.same_identity;
          inbox_steps = subst (Steps InProgress s.inbox) (sym inbox) a.inbox_steps;
          outbox_steps = subst (Steps OutProgress s.outbox) (sym outbox) a.outbox_steps;
          received = λ k. subst (Entries (Received s.identity_id)) (sym inbox) (a.received k);
          sent = λ k. subst (Entries (Sent s.identity_id)) (sym outbox) (a.sent k);
        }
  ]

  run-Advances :
      (es : List MailboxEvent) (s : MailboxState) → Advances s (run (mailbox_projection iso) es s)
  unfolding run
  run-Advances [] s = Advances-refl s
  run-Advances (e ∷ es) s =
      let made = apply_mailbox_event iso s e.payload e.meta in
      Advances-trans s (kept s made) (run (mailbox_projection iso) es (kept s made))
        (kept_lem (Advances s) s made (Advances-refl s) (event-Advances s e))
        (run-Advances es (kept s made))

  -- However many events are folded in, also where some are skipped because the projection throws on
  -- them, no entry of the inbox or the outbox goes. Each keeps its envelope and its delivery never goes
  -- back; once it has expired nothing of it changes but its receipts or its ack.
  pub run-Steps :
      (es : List MailboxEvent) (s : MailboxState)
      → Steps InProgress s.inbox (run (mailbox_projection iso) es s).inbox
        × Steps OutProgress s.outbox (run (mailbox_projection iso) es s).outbox
  run-Steps es s = let a = run-Advances es s in (a.inbox_steps, a.outbox_steps)

  -- From the mailbox that an identity starts with, every entry of the inbox is an envelope to that
  -- identity and every entry of the outbox one from it, each under its own envelope id.
  run-Entries :
      (es : List MailboxEvent) (identity : String) (first : MailboxState)
      → create_empty_mailbox_state identity ≡ ok first
      → Entries (Received identity) (run (mailbox_projection iso) es first).inbox
        × Entries (Sent identity) (run (mailbox_projection iso) es first).outbox
  unfolding create_empty_mailbox_state
  run-Entries es identity first start = elim (Bool-cases (is_empty identity)) [
    | inl empty ↦ ground (arith, start, empty)
    | inr named ↦
        let same : first ≡ empty_mailbox_state identity = ground (arith, start, named) in
        let a = run-Advances es (empty_mailbox_state identity) in
        rw same
          (a.received (Entries-empty (Received identity)), a.sent (Entries-empty (Sent identity)))
  ]
