-- ===== src/Samples.antt =====
-- An alert, its entities, a set of connectors and a token library, on which the tests of the components
-- run.
use cyber_security_alert_tri.Common.{false, ◌&&◌, ◌==◌, if◌then◌else◌, ℕ, suc, none, some, [], ◌∷◌}
use Prim.Native.String.{◌++◌ as ◌+s◌}
use cyber_security_alert_tri.Runtime.Jwt.{JwtLibrary, Service, Claims, DenyList}
use cyber_security_alert_tri.Json.{obj, str, end, field}
use cyber_security_alert_tri.Schema.{NormalizedAlert, ExtractedEntities, high, splunk}
use cyber_security_alert_tri.Enrichment.{ToolEnv, returned}

-- A brute-force alert on one host.
abbrev pub sample_alert : NormalizedAlert
sample_alert = record {
  alert_id = "a-1";
  tenant_id = some "acme";
  source = splunk;
  title = "Brute force";
  description = "Many failed logins";
  severity = high;
  category_uid = none;
  class_uid = none;
  hostname = some "web-1";
  asset_id = none;
  cloud_account_id = none;
  mitre_tactic = none;
  mitre_technique = some "T1110.001";
  network = some (record { src_ip = some "10.0.0.1"; dst_ip = some "10.0.0.2" });
  process = none;
  user = some (record { username = some "alice"; domain = some "CORP"; is_privileged = false });
  detection_finding = none;
  raw_payload = obj end;
  coercion_trace_id = none;
}

abbrev pub sample_entities : ExtractedEntities
sample_entities = record {
  hosts = "web-1" ∷ [];
  users = record { username = "alice"; domain = none; is_admin = false } ∷ [];
  processes = [];
  techniques = "T1110" ∷ [];
  iocs =
      record { type = "ip"; value = "10.0.0.9" }
      ∷ record { type = "hash_sha256"; value = "ff" }
      ∷ [];
  attack_chain_summary = "Repeated logins";
}

-- Connectors that always answer, over the number of the calls so far, with a cache that is empty.
abbrev pub sample_tools : ToolEnv ℕ
sample_tools = record {
  cache_get = λ name params w. (none, w);
  cache_set = λ name params result w. w;
  call_tool = λ name params w. (returned (obj (field "name" (str name) end)), suc w);
  record_error = λ rec. none;
  cve_search = λ text. none;
  compress = λ name result. name;
  timeout_error = "Timeout after 20s";
}

-- The claims of one user.
abbrev pub alice : Claims
alice = record {
  iss = some "worker";
  sub = some "alice";
  aud = some "worker";
  tid = some "acme";
  jti = some "j-1";
  iat = some 1000;
  exp = some 1300;
  role = none;
}

-- Tokens of one user: a token names its secret, and decodes under that secret for its audience.
abbrev pub library : JwtLibrary
library = record {
  encode = λ p secret. "token-" +s secret;
  decode = λ token secret audience leeway now.
      if token == "token-" +s secret && audience == "worker" then some alice else none;
}

abbrev pub service : Service
service = record { audience = "worker"; ttl = 300; leeway = 30; max_entries = 4 }

abbrev pub nobody : DenyList
nobody = some (λ jti. some false)
