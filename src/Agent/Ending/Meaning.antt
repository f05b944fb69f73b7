-- ===== src/Agent/Ending/Meaning.antt =====
-- What the endings of henk/agent/ending.py mean, written without the tests of its code.
use henk.Base.{
  ℕ, ◌≤◌, ◌<◌, ◌≡◌, ◌≢◌, ◌⊎◌, Bool, true, false, Option, none, some, [], ◌∷◌, ◌++◌, Text, has_key,
  codes,
}
use henk.Store.Content.{strip}
use henk.Agent.Ending.{TurnEnding, TriageEnding}

-- The reply without the space around it
abbrev pub trimmed : Option Text → Text
trimmed none = []
trimmed (some t) = strip t

-- The client reports no error: it names none, the result is none, no HTTP status came, and the turn
-- ran to its end if it says how it ended.
pub record Reports (s : TurnEnding) : Type 0 where
  pub unnamed : (s.assistant_error ≡ none) ⊎ (s.assistant_error ≡ some [])
  pub sound : s.result_is_error ≡ false
  pub without_status : s.api_error_status ≡ none
  pub finished : (s.terminal_reason ≡ none) ⊎ (s.terminal_reason ≡ some (codes "completed"))

abbrev pub IsUnfailing : Option TurnEnding → Type 0
IsUnfailing none = Unit
IsUnfailing (some s) = Reports s

abbrev pub Refuses : Option TurnEnding → Type 0
Refuses none = ⊥
Refuses (some s) = s.refusal ≡ true

-- Nothing fails: the client reports no error, the turn did not raise, and the reply is no error of
-- the API.
pub record IsSound (signals : Option TurnEnding) (raised : Bool) (reply : Option Text)
    : Type 0 where
  pub unsignalled : IsUnfailing signals
  pub returned : raised ≡ false
  pub replied : (rest : Text) → trimmed reply ≢ codes "API Error" ++ rest

-- What each ending says of the turn: an error comes before a refusal, and a refusal before the reply.
abbrev pub Means : Option TurnEnding → Bool → Option Text → TriageEnding → Type 0
Means signals raised reply TriageEnding.completed =
    IsSound signals raised reply × ¬ Refuses signals × (trimmed reply ≢ [])
Means signals raised reply TriageEnding.refused = IsSound signals raised reply × Refuses signals
Means signals raised reply TriageEnding.no_reply =
    IsSound signals raised reply × ¬ Refuses signals × (trimmed reply ≡ [])
Means signals raised reply (TriageEnding.error c s) = ¬ IsSound signals raised reply

-- The error classes that an ending may name
abbrev pub listed : Text → Bool
listed k = has_key k (
    codes "authentication_failed"
    ∷ codes "billing_error"
    ∷ codes "rate_limit"
    ∷ codes "invalid_request"
    ∷ codes "server_error"
    ∷ codes "unknown"
    ∷ [])

-- The class of the client's error: its own name if that is listed, else unknown; none if it names none.
abbrev pub NamesClass : Option Text → Option Text → Type 0
NamesClass none c = c ≡ none
NamesClass (some []) c = c ≡ none
NamesClass (some (k ∷ t)) c =
    ((listed (k ∷ t) ≡ true) × (c ≡ some (k ∷ t)))
    ⊎ ((listed (k ∷ t) ≡ false) × (c ≡ some (codes "unknown")))

-- The client's status, if it is one of HTTP
abbrev pub NamesStatus : Option ℕ → Option ℕ → Type 0
NamesStatus none s = s ≡ none
NamesStatus (some v) s =
    ((100 ≤ v) × (v ≤ 599) × (s ≡ some v)) ⊎ (((v < 100) ⊎ (599 < v)) × (s ≡ none))

-- What an error says
abbrev pub Says : Option TurnEnding → TriageEnding → Type 0
Says signals TriageEnding.completed = Unit
Says signals TriageEnding.refused = Unit
Says signals TriageEnding.no_reply = Unit
Says none (TriageEnding.error c s) = (c ≡ none) × (s ≡ none)
Says (some e) (TriageEnding.error c s) =
    NamesClass e.assistant_error c × NamesStatus e.api_error_status s
