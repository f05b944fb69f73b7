-- ===== src/Reminders/Compose.antt =====
-- The texts that henk/reminders/scheduler.py composes. How an instant is rendered
-- (`TimeResolver.render`) is a parameter.
use henk.Base.{ℕ, Bool, Option, none, some, List, [], ◌∷◌, ◌++◌, Text, codes, ltb, if◌then◌else◌}
use henk.Reminders.Row.{abandoned, same_status, Reminder}

abbrev pub marker : Text
marker = codes "⏰ Reminder"

abbrev pub summary_heading : Text
summary_heading = codes "⏰ Catch-up: reminders that came due but were not delivered on time."

abbrev pub abandoned_suffix : Text
abandoned_suffix = codes "(I tried to send this one and gave up.)"

-- `render` is the time resolver's rendering of an instant, `wire` what happens at each send.
module _ (render : ℕ → Text) where
  -- `_compose_delivery`
  unfoldable pub compose_delivery : Reminder → Bool → Text
  compose_delivery row late =
      if late
      then marker ++ (codes " (was due " ++ (render row.due_at ++ (codes "): " ++ row.text)))
      else marker ++ (codes ": " ++ row.text)

  -- `_notice_for`
  unfoldable pub notice_for : Reminder → Option Text
  notice_for row =
      if ltb row.due_at row.next_attempt_at
      then none
      else some (
          codes "[⚠ the reminder due "
          ++ (render row.due_at ++ codes " could not be fully delivered]"))

  -- One line of the summary, with the line break before it.
  unfoldable pub summary_line : Reminder → Text
  summary_line row =
      codes "\n• "
      ++ (render row.due_at
          ++ (codes " — "
              ++ (row.text
                  ++ (if same_status row.status abandoned
                      then codes " " ++ abandoned_suffix
                      else []))))

  unfoldable pub summary_lines : List Reminder → Text
  unfolding summary_line
  summary_lines [] = []
  summary_lines (row ∷ rows) = summary_line row ++ summary_lines rows

  -- `_compose_summary`: the lines joined by line breaks, the second of them empty
  unfoldable pub compose_summary : List Reminder → Text
  unfolding summary_lines
  compose_summary rows = summary_heading ++ (codes "\n" ++ summary_lines rows)
