-- ===== src/Runtime/Tenant/Tests.antt =====
-- services/_runtime/tenant.py: the tenant of requests with and without a verified token.
use cyber_security_alert_tri.Ingest.Texts.{is_blank, is_space}
use cyber_security_alert_tri.Common.{none, some, Option, String, ◌≡◌, refl}
use cyber_security_alert_tri.Effects.{ok, raised, tenant_context_error}
use cyber_security_alert_tri.Runtime.Tenant.{
  AuthContext, context, mapping, request, extract_auth, get_tenant_id,
}

abbrev auth_of : Option String → AuthContext
auth_of t = record {
  user_id = some "u";
  tenant_id = t;
  audience = "ingest";
  role = none;
  jti = none;
}

with_token : get_tenant_id (request (some (auth_of (some "acme")))) ≡ ok "acme"
unfolding get_tenant_id extract_auth is_blank is_space
with_token = refl

without_auth : get_tenant_id (mapping none) ≡ raised tenant_context_error
unfolding get_tenant_id extract_auth
without_auth = refl

blank_tenant : get_tenant_id (context (auth_of (some "  "))) ≡ raised tenant_context_error
unfolding get_tenant_id extract_auth is_blank is_space
blank_tenant = refl

-- A text of no-break spaces is blank as well.
no_break_tenant : get_tenant_id (context (auth_of (some " "))) ≡ raised tenant_context_error
unfolding get_tenant_id extract_auth is_blank is_space
no_break_tenant = refl
