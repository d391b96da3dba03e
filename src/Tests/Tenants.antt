-- ===== src/Tests/Tenants.antt =====
-- Which store serves whom, on small inputs.
use persistence_memory.Prelude.{text_eq, none, some, [], ◌++◌, Text, codes}
use persistence_memory.Tenancy.{Principal, PrincipalKind, Context, Settings}

abbrev login : Text → Principal
login subject = record {
  subject = subject;
  scopes = [];
  issuer = codes "https://a";
  kind = PrincipalKind.tenant;
  tenant_key = none;
  credential_type = [];
  credential_id = [];
}

abbrev request : Text → Context
request subject = record { principal = some (login subject); acting = none }

abbrev local : Settings
local = record {
  multi_tenant = some (codes "1");
  database_url = none;
  pg_store = none;
  schema = none;
  bootstrap = some (codes "on");
  requested = codes "store.json";
  tenant_file = λ t. codes "tenants/" ++ t;
}

abbrev ann : Text
ann = codes "user-0123456789-0123456789-ann"

abbrev bob : Text
bob = codes "user-0123456789-0123456789-bob"
