-- ===== src/Config/Checks.antt =====
-- The early returns of Validate in internal/config/config.go, as a chain of checks: the first
-- message, or none for a nil error. Text functions of the standard library that the checks call on
-- user input are parameters.
use repo_ark.Prelude.{
  ℕ, String, ◌≡◌, Bool, true, false, not, ◌&&◌, ◌||◌, Option, none, some, List, [], ◌∷◌, arith,
  if◌then◌else◌, refl,
}
use repo_ark.Prelude.Int.{ℤ, pos, lti, ◌<ℤ◌}
use repo_ark.Prelude.Text.{eqs, trim_space}
use repo_ark.Prelude.Clock.{Duration}

pub record Parsers : Type 0 where
  -- time.ParseDuration, where `none` is an error
  pub parse_duration : String → Option Duration
  -- the text of that error
  pub duration_error : String → String
  -- strings.ToLower and strings.ToUpper
  pub to_lower : String → String
  pub to_upper : String → String
  -- fmt.Sprintf of "%d" and of "%q"
  pub print_int : ℕ → String
  pub quote : String → String

abbrev pub Message : Type 0
Message = Option String

-- if broken { return errors.New(message) }
unfoldable pub fails : Bool → String → Message
fails broken message = if broken then some message else none

-- What follows a check.
infixr 5 ◌▷◌
unfoldable pub ◌▷◌ : Message → Message → Message
some message ▷ rest = some message
none ▷ rest = rest

-- if enabled { ... }
unfoldable pub when : Bool → Message → Message
when enabled checks = if enabled then checks else none

abbrev pub is_blank_text : String → Bool
is_blank_text s = eqs (trim_space s) ""

-- x < lo || x > hi
abbrev pub out_of_range : ℤ → ℤ → ℤ → Bool
out_of_range lo hi x = lti x lo || lti hi x

-- err != nil || d <= 0
abbrev pub is_not_positive : Parsers → String → Bool
is_not_positive p s = elim (p.parse_duration s) [ none ↦ true | some d ↦ not (lti (pos 0) d) ]

-- err != nil || d < 0
abbrev pub is_not_natural : Parsers → String → Bool
is_not_natural p s = elim (p.parse_duration s) [ none ↦ true | some d ↦ lti d (pos 0) ]

-- The loop over a map of names: a blank value is skipped where `optional`. Go takes the entries in
-- any order, which decides which of several messages is returned.
unfoldable pub durations : Parsers → Bool → (String → String) → List (String × String) → Message
durations p optional message [] = none
durations p optional message ((name, value) ∷ rest) =
    fails (not (optional && is_blank_text value) && is_not_positive p value) (message name)
    ▷ durations p optional message rest

pub fails-none : (b : Bool) (message : String) → fails b message ≡ none → b ≡ false
unfolding fails
fails-none b message h = ground arith

pub ▷-none : (a b : Message) → (a ▷ b) ≡ none → (a ≡ none) × (b ≡ none)
unfolding ◌▷◌
▷-none none b h = (refl, h)
▷-none (some m) b h = absurd (ground arith)

pub when-none :
    (enabled : Bool) (checks : Message)
    → when enabled checks ≡ none
    → enabled ≡ true
    → checks ≡ none
unfolding when
when-none enabled checks h e = ground arith

-- A list of durations that passes has only durations that are skipped or positive.
abbrev pub IsPositive : Parsers → String → Type 0
IsPositive p s = (d : Duration) × (p.parse_duration s ≡ some d) × (pos 0 <ℤ d)
