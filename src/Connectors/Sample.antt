-- ===== src/Connectors/Sample.antt =====
-- agents/tools/: an HTTP client that replies by the address, and the settings of the tests.
use cyber_security_alert_tri.Common.{ℕ, ◌+◌, String, Bool, false, ◌==◌}
use cyber_security_alert_tri.Json.{Json, str}
use cyber_security_alert_tri.Effects.{Result, Exception, ok, raised, other}
use cyber_security_alert_tri.Connectors.{Response, Http}

abbrev is_timeout : Exception → Bool
is_timeout (other s) = s == "ConnectTimeout"
is_timeout e = false

abbrev message : Exception → String
message (other s) = s
message e = "error"

abbrev show : Json → String
show (str s) = s
show v = "?"

abbrev response : ℕ → Json → Response
response n v = record { status = n; text = "text"; json = ok v; check = ok tt }

-- The state is the time in thousandths of a second; a request takes a second.
abbrev pub replying : (String → Result Response) → Http ℕ
replying reply = record {
  connect = λ s. (ok tt, s);
  request = λ verb url headers body s. (reply url, s + 1000);
  is_timeout = is_timeout;
  message = message;
  show = show;
  strip = λ t. t;
  base64 = λ t. t;
  float_add = λ a b. a;
  float_ge = λ t n. false;
  float_millis = λ t. 0;
  utc_text = λ n. "2026-01-01T00:00:00Z";
  clock = λ s. (s, s);
}

-- Every host is unreachable.
abbrev pub unreachable : Http ℕ
unreachable = replying (λ url. raised (other "ConnectTimeout"))

-- Every host replies with the value.
abbrev pub replying_with : ℕ → Json → Http ℕ
replying_with n v = replying (λ url. ok (response n v))
