-- ===== src/Agent/Ending.antt =====
-- `classify_ending` of henk/agent/ending.py.
pub mod Meaning
pub mod Delivered
use henk.Base.{
  ℕ, Bool, true, false, not, ◌||◌, ◌&&◌, Option, none, some, List, [], ◌∷◌, Text, codes, text_eq,
  leb, ◌==◌, if◌then◌else◌, length, has_key,
}
use henk.Channel.Split.{starts_with}
use henk.Store.Content.{strip}

pub record TurnEnding : Type 0 where
  pub refusal : Bool
  pub assistant_error : Option Text
  pub api_error_status : Option ℕ
  pub result_is_error : Bool
  pub terminal_reason : Option Text

pub data TriageEnding : Type 0 where
  completed refused no_reply : TriageEnding
  error : (error_class : Option Text) (http_status : Option ℕ) → TriageEnding

-- `ASSISTANT_ERROR_CLASSES`
abbrev pub assistant_error_classes : List Text
assistant_error_classes =
    codes "authentication_failed"
    ∷ codes "billing_error"
    ∷ codes "rate_limit"
    ∷ codes "invalid_request"
    ∷ codes "server_error"
    ∷ codes "unknown"
    ∷ []

abbrev pub api_error_prefix : Text
api_error_prefix = codes "API Error"

-- The truth of `assistant_error`
abbrev pub is_given : Option Text → Bool
is_given none = false
is_given (some []) = false
is_given (some (_ ∷ _)) = true

-- `_http_status`
unfoldable pub http_status : Option ℕ → Option ℕ
http_status none = none
http_status (some v) = if leb 100 v && leb v 599 then some v else none

unfoldable pub error_class : Option Text → Option Text
error_class none = none
error_class (some []) = none
error_class (some (c ∷ s)) =
    if has_key (c ∷ s) assistant_error_classes then some (c ∷ s) else some (codes "unknown")

-- `_error`
unfoldable pub error_ending : Option TurnEnding → TriageEnding
error_ending none = TriageEnding.error none none
error_ending (some s) =
    TriageEnding.error (error_class s.assistant_error) (http_status s.api_error_status)

abbrev pub has_status : Option ℕ → Bool
has_status none = false
has_status (some _) = true

abbrev pub is_unfinished : Option Text → Bool
is_unfinished none = false
is_unfinished (some reason) = not (text_eq reason (codes "completed"))

-- The tests on the signals
unfoldable pub signals_error : Option TurnEnding → Bool
signals_error none = false
signals_error (some s) =
    is_given s.assistant_error
    || (s.result_is_error || (has_status s.api_error_status || is_unfinished s.terminal_reason))

abbrev pub signals_refusal : Option TurnEnding → Bool
signals_refusal none = false
signals_refusal (some s) = s.refusal

abbrev pub reply_text : Option Text → Text
reply_text none = []
reply_text (some t) = strip t

-- `classify_ending`
unfoldable pub classify_ending : Option TurnEnding → Bool → Option Text → TriageEnding
classify_ending signals raised reply =
    let text = reply_text reply in
    if signals_error signals
    then error_ending signals
    else if raised
    then error_ending signals
    else if starts_with api_error_prefix text
    then error_ending signals
    else if signals_refusal signals
    then TriageEnding.refused
    else if length text == 0
    then TriageEnding.no_reply
    else TriageEnding.completed
