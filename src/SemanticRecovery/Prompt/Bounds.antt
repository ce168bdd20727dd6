-- ===== src/SemanticRecovery/Prompt/Bounds.antt =====
-- src/managed-runtime/semantic-recovery.ts: the length of the prompt, and what is kept when all fits.
use mathlib.Core.List.{append-nil}
use openma_common.Common.{
  ℕ, ◌+◌, ◌-◌, ◌/◌, ◌≤◌, ◌<◌, Option, none, some, max, sym, List, [], ◌∷◌, ◌++◌, length,
  length-append, leb, ◌≡◌, refl, arith, inl, inr, Bool-cases, ◌∙◌,
}
use openma_common.Common.Units.{
  Units, take, drop, length-take, length-drop, trim, join, length-join,
}
use openma_common.SemanticRecovery.{
  RecoveryReason, native_state_missing, native_state_stale, ManagedRecoveryEvent,
}
use openma_common.SemanticRecovery.Prompt.{
  marker, truncate_current_request, line_cost, clipped, select_lines, omitted, make_room, reversed,
  take_recent_lines, reason_name, reason_line, prefix_of, current_label, closing_tag,
  max_characters, payload_budget, current_budget, envelope, build_managed_event_recovery_prompt,
}

truncate-length :
    (text : Units) (budget : ℕ)
    → length marker ≤ budget
    → length (truncate_current_request text budget) ≤ budget
unfolding truncate_current_request
truncate-length text budget h = ground (
  arith,
  h,
  length-append (take ((budget - length marker + 1) / 2) text)
      (marker ++ drop (length text - (budget - length marker) / 2) text),
  length-append marker (drop (length text - (budget - length marker) / 2) text),
  length-take ((budget - length marker + 1) / 2) text,
  length-drop (length text - (budget - length marker) / 2) text,
)

truncate_whole :
    (text : Units) (budget : ℕ) → length text ≤ budget → truncate_current_request text budget ≡ text
unfolding truncate_current_request
truncate_whole text budget h = ground (arith, h)

prefix_length : (reason : RecoveryReason) → length (prefix_of reason) ≤ 400
unfolding prefix_of reason_name reason_line
prefix_length native_state_missing = omega arith
prefix_length native_state_stale = omega arith

abbrev size : List Units → ℕ
size lines = length (join lines)

size_lem :
    (line : Units) (selected : List Units)
    → size (line ∷ selected) ≡ line_cost line selected + size selected
unfolding line_cost
size_lem line [] = omega arith
size_lem line (s ∷ selected) = omega (arith, length-join line s selected)

clipped-fits :
    (line : Units) (selected : List Units) (remaining budget : ℕ)
    → 1 ≤ budget
    → size selected + remaining ≡ budget
    → remaining < line_cost line selected
    → size (clipped line remaining selected) ≤ budget
unfolding clipped line_cost
clipped-fits line [] remaining budget p e h =
    omega (arith, p, e, h, length-drop (length line + 1 - remaining) line)
clipped-fits line (s ∷ selected) remaining budget p e h = omega (arith, e)

select_lines-fits :
    (lines selected : List Units) (remaining budget : ℕ)
    → 1 ≤ budget
    → size selected + remaining ≡ budget
    → size (select_lines lines selected remaining) ≤ budget
unfolding select_lines
select_lines-fits [] selected remaining budget p e = omega (arith, e)
select_lines-fits (line ∷ earlier) selected remaining budget p e =
    elim (Bool-cases (leb (line_cost line selected) remaining)) [
      | inl fits ↦
          rw (fits, select_lines)
            (select_lines-fits earlier (line ∷ selected) (remaining - line_cost line selected)
              budget p (ground (arith, e, fits, size_lem line selected)))
      | inr long ↦
          rw (long, select_lines)
            (clipped-fits line selected remaining budget p e (ground (arith, long)))
    ]

make_room-fits :
    (selected : List Units) (budget : ℕ)
    → length omitted ≤ budget
    → size (omitted ∷ make_room selected budget) ≤ budget
unfolding make_room
make_room-fits [] budget h = omega (arith, h)
make_room-fits (line ∷ selected) budget h =
    ground (arith, h, make_room-fits selected budget h, length-join omitted line selected)

take_recent_lines-length :
    (lines : List Units) (budget : ℕ)
    → length omitted ≤ budget
    → length (take_recent_lines lines budget) ≤ budget
unfolding take_recent_lines
take_recent_lines-length lines budget h = ground (
  arith,
  make_room-fits (select_lines (reversed lines []) [] budget) budget h,
  select_lines-fits (reversed lines []) [] budget budget (omega (arith, h)) (omega arith),
)

-- What the parts need: room for the notices.
budgets :
    (lines : List Units) (reason : RecoveryReason) (option : ℕ) (payload bounded : ℕ)
    → 1024 ≤ option
    → payload ≡ option - length (prefix_of reason) - length current_label - length closing_tag - 4
    → bounded ≤ current_budget lines payload
    → ((length marker ≤ current_budget lines payload) × (bounded ≤ payload))
      × (length (prefix_of reason) + length current_label + length closing_tag + 4 + payload
          ≡ option)
unfolding current_budget
budgets [] reason option payload bounded h e b = omega (arith, h, e, b, prefix_length reason)
budgets (l ∷ lines) reason option payload bounded h e b =
    omega (arith, h, e, b, prefix_length reason)

nothing-length : (budget : ℕ) → length (take_recent_lines [] budget) ≤ budget
unfolding take_recent_lines select_lines reversed
nothing-length budget = omega arith

history-length :
    (lines : List Units) (payload bounded : ℕ)
    → 584 ≤ payload
    → bounded ≤ current_budget lines payload
    → length (take_recent_lines lines (payload - bounded)) ≤ payload - bounded
unfolding current_budget
history-length [] payload bounded p b = nothing-length (payload - bounded)
history-length (l ∷ lines) payload bounded p b =
    take_recent_lines-length (l ∷ lines) (payload - bounded) (omega (arith, p, b))

max_characters-ge : (option : Option ℕ) → 1024 ≤ max_characters option
unfolding max_characters
max_characters-ge option = omega arith

-- The five parts of the prompt, with the four line breaks between them.
five-length :
    (a b c d e : Units)
    → length (join (a ∷ b ∷ c ∷ d ∷ e ∷ []))
      ≡ length a + length b + length c + length d + length e + 4
five-length a b c d e = omega (
  arith,
  length-join a b (c ∷ d ∷ e ∷ []),
  length-join b c (d ∷ e ∷ []),
  length-join c d (e ∷ []),
  length-join d e [],
)

envelope-length :
    (lines : List Units) (current : Units) (reason : RecoveryReason) (option : Option ℕ)
    → length (envelope lines current reason option) ≤ max_characters option
unfolding envelope payload_budget
envelope-length lines current reason option =
    let payload = payload_budget reason option in
    let bounded = truncate_current_request (trim current) (current_budget lines payload) in
    let history = take_recent_lines lines (payload - length bounded) in
    let least =
      budgets lines reason (max_characters option) payload 0 (max_characters-ge option) refl
        (omega arith) in
    let cut = truncate-length (trim current) (current_budget lines payload) least.0.0 in
    let kept =
      budgets lines reason (max_characters option) payload (length bounded)
        (max_characters-ge option) refl cut in
    omega (
      arith,
      kept.0.1,
      kept.1,
      five-length (prefix_of reason) history current_label bounded closing_tag,
      max_characters-ge option,
      history-length lines payload (length bounded)
          (omega (arith, kept.1, max_characters-ge option, prefix_length reason)) cut,
    )

-- The most characters that a prompt may have.
abbrev pub limit : Option ℕ → ℕ
limit none = 32000
limit (some n) = max 1024 n

max_characters-limit : (option : Option ℕ) → max_characters option ≡ limit option
unfolding max_characters
max_characters-limit none = refl
max_characters-limit (some n) = refl

-- The recovery prompt never has more characters than the greater of 1024 and the given number, or
-- than 32000 where none is given, whatever the history and the current prompt.
pub recovery_prompt_bounded :
    (events : List ManagedRecoveryEvent) (current : Units) (reason : RecoveryReason)
    (option : Option ℕ)
    → length (build_managed_event_recovery_prompt events current reason option) ≤ limit option
unfolding build_managed_event_recovery_prompt
recovery_prompt_bounded events current reason option =
    rw (sym (max_characters-limit option)) (envelope-length _ current reason option)

reversed-size : (lines selected : List Units) → size selected ≤ size (reversed lines selected)
unfolding reversed
reversed-size [] selected = omega arith
reversed-size (line ∷ lines) selected =
    omega (arith, reversed-size lines (line ∷ selected), size_lem line selected)

select_lines-all :
    (lines selected : List Units) (remaining : ℕ)
    → size (reversed lines selected) ≤ size selected + remaining
    → select_lines lines selected remaining ≡ reversed lines selected
unfolding select_lines reversed
select_lines-all [] selected remaining h = refl
select_lines-all (line ∷ earlier) selected remaining h = ground (
  arith,
  h,
  size_lem line selected,
  reversed-size earlier (line ∷ selected),
  select_lines-all earlier (line ∷ selected) (remaining - line_cost line selected),
)

reversed-reversed :
    (lines a b : List Units) → reversed (reversed lines a) b ≡ reversed a (lines ++ b)
unfolding reversed
reversed-reversed [] a b = refl
reversed-reversed (line ∷ lines) a b = reversed-reversed lines (line ∷ a) b

take_recent_lines-all :
    (lines : List Units) (budget : ℕ)
    → size lines ≤ budget
    → take_recent_lines lines budget ≡ join lines
unfolding take_recent_lines reversed
take_recent_lines-all lines budget h =
    let back = reversed-reversed lines [] [] ∙ append-nil lines in
    let all = select_lines-all (reversed lines []) [] budget (rw back (omega (arith, h))) ∙ back in
    rw all (ground arith)

-- Where the trimmed request is within its budget and, with the lines of the history, within the
-- payload budget, the prompt holds the request and every line in order and uncut.
envelope_whole :
    (lines : List Units) (current : Units) (reason : RecoveryReason) (option : Option ℕ)
    → length (trim current) ≤ current_budget lines (payload_budget reason option)
    → length (trim current) + length (join lines) ≤ payload_budget reason option
    → envelope lines current reason option
      ≡ join (prefix_of reason ∷ join lines ∷ current_label ∷ trim current ∷ closing_tag ∷ [])
unfolding envelope
envelope_whole lines current reason option h k =
    let whole =
      truncate_whole (trim current) (current_budget lines (payload_budget reason option)) h in
    rw whole (
      rw
        (take_recent_lines-all lines (payload_budget reason option - length (trim current))
          (omega (arith, k)))
        refl)
