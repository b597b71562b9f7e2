-- ===== src/Cloudwatch/Message/Markers.antt =====
-- The phase markers of `parseLogPhaseAndStep` (src/logs/services/cloudwatch/cloudwatch.service.ts).
use otto_handler.Prelude.{
  ◌≡◌, ◌≢◌, refl, inl, inr, true, Bool-cases, String, Option, none, some, is_some, arith,
}
use otto_handler.Prelude.Text.{strip_prefix}
use otto_handler.Cloudwatch.Message.{
  includes, with_marker, by_pattern, with_command, parse_log_phase_and_step, Parsed, first_match,
  spaced_line,
}

includes_here : (part s : String) → is_some (strip_prefix part s) ≡ true → includes part s ≡ true
unfolding includes
includes_here part String.[] e = e
includes_here part (String.◌∷◌ c s) e = rw e refl

-- The first text with the second behind it.
behind : String → String → String
behind String.[] part = part
behind (String.◌∷◌ c before) part = String.◌∷◌ c (behind before part)

-- A text that starts with a word includes each part of its end.
includes-behind :
    (before part s : String)
    → is_some (strip_prefix (behind before part) s) ≡ true
    → includes part s ≡ true
unfolding includes strip_prefix behind
includes-behind String.[] part s e = includes_here part s e
includes-behind (String.◌∷◌ c before) part String.[] e = absurd (ground arith)
includes-behind (String.◌∷◌ c before) part (String.◌∷◌ d s) e =
    ground (arith, includes-behind before part s)

includes_end :
    (before part s : String) → includes (behind before part) s ≡ true → includes part s ≡ true
unfolding includes
includes_end before part String.[] e = includes-behind before part "" e
includes_end before part (String.◌∷◌ c s) e =
    elim (Bool-cases (is_some (strip_prefix (behind before part) (String.◌∷◌ c s)))) [
      | inl f ↦ includes-behind before part (String.◌∷◌ c s) f
      | inr f ↦ ground (arith, includes_end before part s)
    ]

with_marker_order :
    (message : String) (parsed : Parsed)
    → parsed.step_order ≡ none
    → (with_marker message parsed).step_order ≢ some 5
unfolding with_marker behind
with_marker_order message parsed n e = ground (arith, includes_end "POST_" "BUILD" message)

with_command_order :
    (command : Option String) (parsed : Parsed)
    → (with_command command parsed).step_order ≡ parsed.step_order
unfolding with_command
with_command_order none parsed = refl
with_command_order (some command) parsed = refl

by_pattern_order : (message : String) → (by_pattern message).step_order ≡ none
unfolding by_pattern
by_pattern_order message = refl

-- No message gets the order 5, which the code has for the phase POST_BUILD.
pub parse_log_phase_and_step_order :
    (message : String) → (parse_log_phase_and_step message).step_order ≢ some 5
unfolding parse_log_phase_and_step
parse_log_phase_and_step_order message e =
    with_marker_order message (by_pattern message) (by_pattern_order message) (
      rw
        (← with_command_order (first_match (strip_prefix "Running command") spaced_line message)
          (with_marker message (by_pattern message)))
        e)
