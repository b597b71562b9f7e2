-- ===== src/Cloudwatch/Message.antt =====
-- The level, phase and step of a message, as `detectLogLevel` and `parseLogPhaseAndStep` of
-- src/logs/services/cloudwatch/cloudwatch.service.ts find them. Positions count characters, and the
-- case and the spaces that the patterns ignore are those of ASCII.
pub mod Markers
use Prim.Native.Char.{Char, code}
use Prim.Native.String
use otto_handler.Prelude.{
  ℕ, zero, suc, ◌+◌, Bool, true, false, String, [], ◌∷◌, Option, none, some, is_some, nonempty, leb,
  ◌==◌, if◌then◌else◌,
}
use otto_handler.Prelude.Text.{strip_prefix, template}
use otto_handler.Cloudwatch.Types.{LogLevel, info, warning, error_level}

-- The code of a letter in lower case.
abbrev lower : ℕ → ℕ
lower n = if leb 65 n then if leb n 90 then n + 32 else n else n

-- `strip_prefix` for a prefix in lower case, whatever the case of the text.
pub strip_lower : String → String → Option String
strip_lower String.[] s = some s
strip_lower (String.◌∷◌ c p) String.[] = none
strip_lower (String.◌∷◌ c p) (String.◌∷◌ d s) =
    if code c == lower (code d) then strip_lower p s else none

-- `s.includes(part)`
unfoldable pub includes : String → String → Bool
includes part String.[] = is_some (strip_prefix part "")
includes part (String.◌∷◌ c s) =
    if is_some (strip_prefix part (String.◌∷◌ c s)) then true else includes part s

-- `s.toLowerCase().includes(part)`
unfoldable pub includes_lower : String → String → Bool
unfolding strip_lower
includes_lower part String.[] = is_some (strip_lower part "")
includes_lower part (String.◌∷◌ c s) =
    if is_some (strip_lower part (String.◌∷◌ c s)) then true else includes_lower part s

unfoldable pub detect_log_level : String → LogLevel
detect_log_level message =
    if includes_lower "error" message
    then error_level
    else if includes_lower "fail" message
    then error_level
    else if includes_lower "warn" message
    then warning
    else if includes_lower "warning" message
    then warning
    else info

-- `\s`: a tab, a line end, or a space
abbrev is_space : Char → Bool
is_space c = if code c == 32 then true else if leb 9 (code c) then leb (code c) 13 else false

-- `\w`: a digit, a letter, or `_`
abbrev is_word : Char → Bool
is_word c =
    if leb 97 (lower (code c))
    then leb (lower (code c)) 122
    else if leb 48 (code c)
    then if leb (code c) 57 then true else code c == 95
    else false

skip_spaces : String → String
skip_spaces String.[] = ""
skip_spaces (String.◌∷◌ c s) = if is_space c then skip_spaces s else String.◌∷◌ c s

word : String → String
word String.[] = ""
word (String.◌∷◌ c s) = if is_word c then String.◌∷◌ c (word s) else ""

-- `(.*)`: up to the end of the line
line : String → String
line String.[] = ""
line (String.◌∷◌ c s) =
    if code c == 10 then "" else if code c == 13 then "" else String.◌∷◌ c (line s)

trim_end : String → String
trim_end String.[] = ""
trim_end (String.◌∷◌ c s) =
    let rest = trim_end s in
    if nonempty rest then String.◌∷◌ c rest else if is_space c then "" else String.◌∷◌ c ""

pub trim : String → String
unfolding trim_end skip_spaces
trim s = trim_end (skip_spaces s)

pub take_text : ℕ → String → String
take_text zero s = ""
take_text (suc n) String.[] = ""
take_text (suc n) (String.◌∷◌ c s) = String.◌∷◌ c (take_text n s)

-- `\s+(\w+)` and `\s+(.*)` at the start of a text.
abbrev present : String → Option String
present s = if nonempty s then some s else none

pub spaced_word : String → Option String
unfolding skip_spaces word
spaced_word String.[] = none
spaced_word (String.◌∷◌ c s) = if is_space c then present (word (skip_spaces s)) else none

pub spaced_line : String → Option String
unfolding skip_spaces line
spaced_line String.[] = none
spaced_line (String.◌∷◌ c s) = if is_space c then some (line (skip_spaces s)) else none

abbrev then_match : Option String → (String → Option String) → Option String
then_match none f = none
then_match (some rest) f = f rest

abbrev or_match : Option String → Option String → Option String
or_match none o = o
or_match (some s) o = some s

-- The group of the first match of a pattern: a prefix, and then `\s+` and a group.
pub first_match : (String → Option String) → (String → Option String) → String → Option String
first_match strip group String.[] = then_match (strip "") group
first_match strip group (String.◌∷◌ c s) =
    or_match (then_match (strip (String.◌∷◌ c s)) group) (first_match strip group s)

pub record Parsed : Type 0 where
  pub phase : Option String
  pub step : Option String
  pub step_order : Option ℕ

-- The phase markers, in the order of the tests; `parsed` has the phase and step found before.
unfoldable pub with_marker : String → Parsed → Parsed
with_marker message parsed =
    let marked : String → String → ℕ → Parsed =
      λ phase step n. record { phase = some phase; step = some step; step_order = some n } in
    if includes "DOWNLOAD_SOURCE" message
    then marked "DOWNLOAD_SOURCE" "Downloading source code" 1
    else if includes "INSTALL" message
    then marked "INSTALL" "Installing dependencies" 2
    else if includes "PRE_BUILD" message
    then marked "PRE_BUILD" "Pre-build setup" 3
    else if includes "BUILD" message
    then marked "BUILD" "Building application" 4
    else if includes "POST_BUILD" message
    then marked "POST_BUILD" "Post-build tasks" 5
    else if includes "UPLOAD_ARTIFACTS" message
    then marked "UPLOAD_ARTIFACTS" "Uploading artifacts" 6
    else if includes "FINALIZING" message
    then marked "FINALIZING" "Finalizing build" 7
    else parsed

abbrev running : Option String → Option String
running none = none
running (some command) = some (template ("Running: " ∷ take_text 50 command ∷ []))

-- The first of the three patterns that matches.
by_pattern : String → Parsed
unfolding first_match spaced_word spaced_line strip_lower
by_pattern message =
    let phase =
      or_match (first_match (strip_lower "phase complete:") spaced_word message)
        (first_match (strip_lower "entering phase") spaced_word message) in
    record {
      phase = phase;
      step =
          if is_some phase
          then none
          else running (first_match (strip_lower "running command") spaced_line message);
      step_order = none;
    }

-- The command of a message that runs one is its step.
with_command : Option String → Parsed → Parsed
unfolding trim
with_command none parsed = parsed
with_command (some command) parsed = record parsed { step = some (trim command) }

unfoldable pub parse_log_phase_and_step : String → Parsed
unfolding by_pattern with_command
parse_log_phase_and_step message =
    with_command (first_match (strip_prefix "Running command") spaced_line message)
      (with_marker message (by_pattern message))
