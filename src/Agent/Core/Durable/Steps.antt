-- ===== src/Agent/Core/Durable/Steps.antt =====
-- What the checkpoint of henk/agent/core.py may do, and steps that leave it.
use henk.Base.{
  ◌≡◌, refl, ◌∙◌, ◌⊎◌, inl, inr, Bool, true, false, Option, none, some, List, [], ◌∷◌, ◌++◌, Text,
  All, In,
}
use henk.Coordinator.{CoreItem}
use henk.Agent.Core.{
  ToolCall, SessionAudit, SessionRecord, Core, CoreTurn, session_record, identity_keys,
}

-- The record is not of a triage, or it is written.
abbrev pub IsWritten : SessionRecord × Bool → Type 0
IsWritten (r, ok) = (r.events ≡ none) ⊎ (ok ≡ true)

-- Between turns an accumulator is flushed, or it is of no triage.
abbrev pub IsCalm : Option SessionAudit → Type 0
IsCalm none = Unit
IsCalm (some a) = (a.flushed ≡ true) ⊎ (a.had_event_turn ≡ false)

-- The checkpoint is frozen, or every triage has its record.
pub record IsDurable (c : Core) : Type 0 where
  pub calm : IsCalm c.acc
  pub latched : (c.checkpoint_blocked ≡ true) ⊎ All IsWritten c.attempted

abbrev pub offset_of : CoreTurn → Option Text
offset_of (CoreTurn.owner text command) = none
offset_of (CoreTurn.submitted (CoreItem.turn t offset)) = offset
offset_of (CoreTurn.submitted (CoreItem.marker offset)) = some offset

-- A written record names the incidents of a turn.
abbrev pub Covers : CoreTurn → List (SessionRecord × Bool) → Type 0
Covers (CoreTurn.owner text command) l = Unit
Covers (CoreTurn.submitted (CoreItem.marker offset)) l = Unit
Covers (CoreTurn.submitted (CoreItem.turn t offset)) l =
    (r : SessionRecord) × In (r, true) l × (r.events ≡ some (identity_keys t))

-- The checkpoint stays, or it moves to the turn's offset and nothing before it is missing.
abbrev pub Moves : CoreTurn → Core → Core → Type 0
Moves t c d =
    (d.checkpoints ≡ c.checkpoints)
    ⊎ ((offset : Text) × (offset_of t ≡ some offset)
        × (d.checkpoints ≡ c.checkpoints ++ offset ∷ [])
        × (c.checkpoint_blocked ≡ false)
        × All IsWritten d.attempted
        × Covers t d.attempted)

-- A step that leaves the checkpoint and the latch, adds no triage that is not written, and
-- loses no record.
pub record Quiet (c d : Core) : Type 0 where
  pub still : d.checkpoints ≡ c.checkpoints
  pub unlatched : d.checkpoint_blocked ≡ c.checkpoint_blocked
  pub kept : All IsWritten c.attempted → All IsWritten d.attempted
  pub grows : (x : SessionRecord × Bool) → In x c.attempted → In x d.attempted

pub Quiet-refl : (c : Core) → Quiet c c
Quiet-refl c = record { still = refl; unlatched = refl; kept = λ h. h; grows = λ x i. i }

pub Quiet-trans : (c d e : Core) → Quiet c d → Quiet d e → Quiet c e
Quiet-trans c d e p q = record {
  still = q.still ∙ p.still;
  unlatched = q.unlatched ∙ p.unlatched;
  kept = λ h. q.kept (p.kept h);
  grows = λ x i. q.grows x (p.grows x i);
}

pub Quiet-IsDurable : (c d : Core) → Quiet c d → IsCalm d.acc → IsDurable c → IsDurable d
Quiet-IsDurable c d q k v = record {
  calm = k;
  latched = elim v.latched [ inl b ↦ inl (q.unlatched ∙ b) | inr h ↦ inr (q.kept h) ];
}

pub session_record-IsWritten :
    (l : List ToolCall) (a : SessionAudit) (w : Bool)
    → a.had_event_turn ≡ false
    → IsWritten (session_record l a, w)
unfolding session_record
session_record-IsWritten l a w e = inl (simp e refl)
