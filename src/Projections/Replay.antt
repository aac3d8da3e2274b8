-- ===== src/Projections/Replay.antt =====
-- What the projections of packages/chat-projection, packages/udr-projection and
-- packages/mailbox-projection share, and the fold of a log in loadUdrState and loadMailboxInboxState
-- of packages/local-store/src/index.ts: the events in their order, without those that the projection
-- throws on. `run` gets the events whose payloads were decrypted. Chat has no fold in the source; its
-- logs are folded in the same way here, and a caller that stops at a throw has folded a part of one.
use local_first_p2p_app.Common.{◌≡◌, refl, List, [], ◌∷◌}
use local_first_p2p_app.Common.Result.{Result, ok, err}

pub record Projection : Type 1 where
  pub State : Type 0
  pub Event : Type 0
  pub Error : Type 0
  pub apply : State → Event → Result Error State

-- The state after the `try` around one event.
abbrev pub kept : {E S : Type 0} → S → Result E S → S
kept s (ok s') = s'
kept s (err x) = s

-- What holds of the state before holds of the one after, if it does where the event is folded in.
pub kept_lem :
    {E S : Type 0} (Q : S → Type 0) (s : S) (r : Result E S)
    → Q s
    → ((s' : S) → r ≡ ok s' → Q s')
    → Q (kept s r)
kept_lem Q s (ok s') before after = after s' refl
kept_lem Q s (err x) before after = before

module _ (P : Projection) where
  open P use {State, Event, apply}

  unfoldable pub run : List Event → State → State
  run [] s = s
  run (e ∷ es) s = run es (kept s (apply s e))
