-- ===== src/ControlPlane/Platform.antt =====
-- What the control plane calls outside the repository, as an interface its parts take as a
-- parameter: the parsing of durations, JSON labels and base64, and SHA-256 scores. No property
-- assumes anything of them but where its statement says so.
use repo_ark.Prelude.{ℕ, String, Bool, Option}
use repo_ark.Prelude.Int.{ℤ}
use repo_ark.Prelude.Table.{Table}
use repo_ark.Prelude.Clock.{Duration}

-- A value of map[string]any that json.Unmarshal decodes, as far as it is looked at: a float64 that
-- `int` truncates, a string, or another value with the text that fmt.Sprint gives.
pub data Label : Type 0 where
  number : ℤ → Label
  text : String → Label
  another : String → Label

pub record Platform : Type 0 where
  -- time.ParseDuration, which gives 0 with an error
  pub parse_duration : String → Duration
  -- json.Unmarshal into map[string]string and into map[string]any; `none` is an error
  pub text_labels : String → Option (Table String)
  pub any_labels : String → Option (Table Label)
  -- fmt.Sscanf of "%d", which leaves 0 where there is no number
  pub scan_int : String → ℤ
  -- fmt.Sprint of a decoded number
  pub print_number : ℤ → String
  -- base64.RawStdEncoding.DecodeString succeeds
  pub is_base64 : String → Bool
  -- the first eight bytes of the SHA-256 of "object:index:copy:agent"
  pub rendezvous_score : String → ℕ → ℕ → String → ℕ
  -- fmt.Sprintf of a natural number, and of "%03d"
  pub print_index : ℤ → String
