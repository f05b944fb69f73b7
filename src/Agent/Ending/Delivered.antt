-- ===== src/Agent/Ending/Delivered.antt =====
-- What an ending of henk/agent/ending.py says of the turn, and what an error says.
use henk.Base.{
  ℕ, ◌≡◌, ◌≢◌, refl, sym, ap, ◌∙◌, ◌++◌, ==_refl, text_eq_sound, text_eq_refl, ◌⊎◌, inl, inr, Bool,
  true, false, ◌&&◌, Option, none, some, [], ◌∷◌, Text, ◌==◌, length, leb, arith, Bool-cases, codes,
  text_eq,
}
use henk.Channel.Split.{starts_with}
use henk.Agent.Ending.{
  TurnEnding, api_error_prefix, http_status, error_class, error_ending, is_given, has_status,
  is_unfinished, signals_error, signals_refusal, reply_text, classify_ending,
}
use henk.Agent.Ending.Meaning.{
  trimmed, Reports, IsUnfailing, Refuses, IsSound, Means, listed, NamesClass, NamesStatus, Says,
}

trimmed_lem : (o : Option Text) → reply_text o ≡ trimmed o
trimmed_lem none = refl
trimmed_lem (some t) = refl

error_class_lem : (o : Option Text) → NamesClass o (error_class o)
unfolding error_class
error_class_lem none = refl
error_class_lem (some []) = refl
error_class_lem (some (c ∷ s)) = elim (Bool-cases (listed (c ∷ s))) [
  | inl e ↦ inl (e, rw e refl)
  | inr e ↦ inr (e, rw e refl)
]

http_status_lem : (o : Option ℕ) → NamesStatus o (http_status o)
unfolding http_status
http_status_lem none = refl
http_status_lem (some v) = elim (Bool-cases (leb 100 v && leb v 599)) [
  | inl e ↦ inl (ground arith, ground arith, rw e refl)
  | inr e ↦ inr (ground arith, rw e refl)
]

error_ending-Says : (signals : Option TurnEnding) → Says signals (error_ending signals)
unfolding error_ending
error_ending-Says none = (refl, refl)
error_ending-Says (some s) = (error_class_lem s.assistant_error, http_status_lem s.api_error_status)

starts_with_split : (p s : Text) → starts_with p s ≡ true → (rest : Text) × (s ≡ p ++ rest)
unfolding starts_with
starts_with_split [] s h = (s, refl)
starts_with_split (a ∷ p) [] h = absurd (cc)
starts_with_split (a ∷ p) (c ∷ s) h =
    let (rest, e) = starts_with_split p s (ground arith) in (rest, ground arith)

starts_with-append : (p rest : Text) → starts_with p (p ++ rest) ≡ true
unfolding starts_with
starts_with-append [] rest = refl
starts_with-append (a ∷ p) rest = rw (==_refl a) (starts_with-append p rest)

given_lem : (o : Option Text) → is_given o ≡ false → (o ≡ none) ⊎ (o ≡ some [])
given_lem none h = inl refl
given_lem (some []) h = inr refl
given_lem (some (c ∷ s)) h = absurd (cc)

finished_lem :
    (o : Option Text) → is_unfinished o ≡ false → (o ≡ none) ⊎ (o ≡ some (codes "completed"))
finished_lem none h = inl refl
finished_lem (some t) h = inr (ap some (text_eq_sound t (codes "completed") (ground arith)))

status_lem : (o : Option ℕ) → has_status o ≡ false → o ≡ none
status_lem none h = refl
status_lem (some v) h = absurd (cc)

-- The tests on the signals, both ways
unsignalled_lem : (s : TurnEnding) → signals_error (some s) ≡ false → Reports s
unfolding signals_error
unsignalled_lem s h = record {
  unnamed = given_lem s.assistant_error (ground arith);
  sound = ground arith;
  without_status = status_lem s.api_error_status (ground arith);
  finished = finished_lem s.terminal_reason (ground arith);
}

signals_error_lem :
    (signals : Option TurnEnding) → signals_error signals ≡ false → IsUnfailing signals
signals_error_lem none h = tt
signals_error_lem (some s) h = unsignalled_lem s h

completed_lem : text_eq (codes "completed") (codes "completed") ≡ true
completed_lem = text_eq_refl (codes "completed")

quiet_lem :
    (o : Option Text) → (o ≡ none) ⊎ (o ≡ some (codes "completed")) → is_unfinished o ≡ false
quiet_lem o (inl e) = rw e refl
quiet_lem o (inr e) = rw e (rw completed_lem refl)

unnamed_lem : (o : Option Text) → (o ≡ none) ⊎ (o ≡ some []) → is_given o ≡ false
unnamed_lem o (inl e) = rw e refl
unnamed_lem o (inr e) = rw e refl

unfailing_lem : (signals : Option TurnEnding) → IsUnfailing signals → signals_error signals ≡ false
unfolding signals_error
unfailing_lem none h = refl
unfailing_lem (some s) h =
    let a = unnamed_lem s.assistant_error h.unnamed in
    let b = h.sound in
    let c = ap has_status h.without_status in
    let d = quiet_lem s.terminal_reason h.finished in rw (a, b, c, d) refl

refusal_lem :
    (signals : Option TurnEnding)
    → (signals_refusal signals ≡ true → Refuses signals)
      × (signals_refusal signals ≡ false → ¬ Refuses signals)
refusal_lem none = ((λ e. absurd (cc)), (λ e h. h))
refusal_lem (some s) = ((λ e. e), (λ e h. absurd (let f = sym e ∙ h in cc)))

blank_lem : (t : Text) → (length t == 0) ≡ true → t ≡ []
blank_lem [] e = refl
blank_lem (c ∷ s) e = absurd (ground arith)

nonblank_lem : (t : Text) → (length t == 0) ≡ false → t ≢ []
nonblank_lem [] e = absurd (ground arith)
nonblank_lem (c ∷ s) e = λ q. cc

error_ending-Means :
    (signals : Option TurnEnding) (raised : Bool) (reply : Option Text)
    → ¬ IsSound signals raised reply
    → Means signals raised reply (error_ending signals)
unfolding error_ending
error_ending-Means none raised reply h = h
error_ending-Means (some s) raised reply h = h

-- For all signals, exceptions and replies, the ending says what the turn was: an error exactly where
-- the client reports one (a name, the result's flag, an HTTP status or an unfinished turn), the turn
-- raised, or the reply is an error of the API; else a refusal exactly where the client signals one;
-- else no reply exactly where the reply is blank; else completed. And an error gives the class that the
-- client names if it is one of the six, else unknown, and none where the client names none; and the
-- client's status where it is one of HTTP, and none otherwise.
pub classify_ending-Means :
    (signals : Option TurnEnding) (raised : Bool) (reply : Option Text)
    → Means signals raised reply (classify_ending signals raised reply)
      × Says signals (classify_ending signals raised reply)
unfolding classify_ending
classify_ending-Means signals raised reply =
    let text = trimmed reply in
    let safe = error_ending-Says signals in
    let wrong = error_ending-Means signals raised reply in
    rw (trimmed_lem reply) (elim (Bool-cases (signals_error signals)) [
      | inl a ↦ rw a (wrong (λ c. let f = unfailing_lem signals c.unsignalled in cc), safe)
      | inr a ↦ elim (Bool-cases raised) [
        | inl b ↦ rw (a, b) (rw b at wrong (λ c. let f = c.returned in cc), safe)
        | inr b ↦ elim (Bool-cases (starts_with api_error_prefix text)) [
          | inl d ↦
              let (rest, e) = starts_with_split api_error_prefix text d in
              rw (a, b, d) (rw b at wrong (λ c. absurd (c.replied rest e)), safe)
          | inr d ↦
              let sound : IsSound signals false reply = record {
                unsignalled = signals_error_lem signals a;
                returned = refl;
                replied = λ rest e.
                    let f = starts_with-append api_error_prefix rest in
                    let g = ap (starts_with api_error_prefix) e in cc;
              } in
              let (yes_, no_) = refusal_lem signals in
              elim (Bool-cases (signals_refusal signals)) [
                | inl r ↦ rw (a, b, d, r) ((sound, yes_ r), tt)
                | inr r ↦ elim (Bool-cases (length text == 0)) [
                  | inl z ↦ rw (a, b, d, r, z) ((sound, no_ r, blank_lem text z), tt)
                  | inr z ↦ rw (a, b, d, r, z) ((sound, no_ r, nonblank_lem text z), tt)
                ]
              ]
        ]
      ]
    ])
