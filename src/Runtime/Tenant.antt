-- ===== src/Runtime/Tenant.antt =====
-- services/_runtime/tenant.py: the tenant of a request, from its authentication.
mod Tests
use cyber_security_alert_tri.Common.{
  ℕ, String, Bool, true, false, ◌&&◌, ◌||◌, Option, none, some, leb, nat_eq, if◌then◌else◌,
}
use cyber_security_alert_tri.Ingest.Texts.{is_blank}
use cyber_security_alert_tri.Effects.{Result, ok, raised, tenant_context_error}

-- `AuthContext`; `tenant_id` may be `None` where a caller ignores the annotation.
pub record AuthContext : Type 0 where
  pub user_id : Option String
  pub tenant_id : Option String
  pub audience : String
  pub role : Option String
  pub jti : Option String

-- What `get_tenant_id` is called with: the context itself, a mapping with its `"auth"` entry, or an
-- object with its `state.auth`. `none` is an entry that is missing or no `AuthContext`.
pub data Carrier : Type 0 where
  context : AuthContext → Carrier
  mapping : Option AuthContext → Carrier
  request : Option AuthContext → Carrier

abbrev or_error : Option AuthContext → Result AuthContext
or_error none = raised tenant_context_error
or_error (some a) = ok a

-- `_extract_auth`
unfoldable pub extract_auth : Carrier → Result AuthContext
extract_auth (context a) = ok a
extract_auth (mapping a) = or_error a
extract_auth (request a) = or_error a

abbrev pub tenant_or_error : Option String → Result String
tenant_or_error none = raised tenant_context_error
tenant_or_error (some t) = if is_blank t then raised tenant_context_error else ok t

abbrev pub tenant_of : Result AuthContext → Result String
tenant_of (raised e) = raised e
tenant_of (ok a) = tenant_or_error a.tenant_id

-- `get_tenant_id`
unfoldable pub get_tenant_id : Carrier → Result String
unfolding extract_auth
get_tenant_id c = tenant_of (extract_auth c)
