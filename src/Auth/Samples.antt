-- ===== src/Auth/Samples.antt =====
-- Data for the tests of src/auth: a tenant, one of its users, sessions and worlds.
use komi_saas_api.Base.{ℕ, ◌+◌, ◌*◌, String, none, some, true, false, str_eq}
use komi_saas_api.Auth.Session.{Session, Reason}
use komi_saas_api.Auth.Store.{Table}
use komi_saas_api.Auth.World.{World, Tenant, Credentials, Context, Tokens, Ports}
use komi_saas_api.Auth.Login.{LoginParams}

abbrev pub cafe : Tenant
cafe = record {
  id = "t1";
  name = "Cafe";
  description = "";
  slug = "cafe";
  nit = "900";
  created_at = 0;
  updated_at = 0;
  is_active = true;
}

abbrev pub ana : Credentials
ana = record {
  user_id = "u1";
  tenant_id = "t1";
  branch_id = some "b1";
  rol_name = "cashier";
  rol_scope = "BRANCH";
  user_name = "ana";
  first_name = "Ana";
  second_name = none;
  first_last_name = "Ruiz";
  second_last_name = none;
  sex = "F";
  password_hash = "secret";
  is_active = true;
}

abbrev pub gone : Credentials
gone = record ana { is_active = false }

-- A database in which every tenant is the one given, and every user the other.
abbrev pub ports_of : Tenant → Credentials → Ports
ports_of tenant user = record {
  find_by_slug = λ s. some tenant;
  find_tenant_by_id = λ i. some tenant;
  find_by_user_name = λ i n. some user;
  find_by_user_id = λ i u. some user;
  verify = λ plain hash. str_eq plain hash;
  sign = λ claims ttl. claims.session_id;
  hash = λ s. s;
  lower_case = λ s. s;
  access_ttl_seconds = 900;
  refresh_ttl_days = 30;
}

abbrev pub here : Context
here = record { ip_address = none; user_agent = some "test" }

abbrev pub live : Session
live = record {
  id = "s1";
  user_id = "u1";
  tenant_id = "t1";
  refresh_token_hash = "token";
  expires_at = 50000;
  created_at = 0;
  revoked_at = none;
  revocation_reason = none;
  replaced_by_session_id = none;
  ip_address = none;
  user_agent = none;
}

abbrev pub exchanged_at : ℕ → Session
exchanged_at at = record live {
  revoked_at = some at;
  revocation_reason = some Reason.rotated;
  replaced_by_session_id = some "s2";
}

abbrev pub closed : Session
closed = record live { revoked_at = some 5; revocation_reason = some Reason.logout }

abbrev pub next : Session
next = record live { id = "s2"; refresh_token_hash = "other" }

abbrev pub world_of : Table → World
world_of rows = record {
  sessions = rows;
  times = λ n. 20000 + n;
  reads = 0;
  ids = λ n. "s9";
  drawn = 0;
  secrets = λ n. "fresh";
  minted = 0;
  hashings = 0;
  dummy_hash = none;
  made = λ n. some "$argon2id$dummy";
  attempts = 0;
}

abbrev pub typed : String → LoginParams
typed password = record { tenant_slug = " cafe "; username = "ana"; password = password }

abbrev pub renewed : Tokens
renewed = record {
  access_token = "s9";
  access_expires_at = 20004 + 900 * 1000;
  refresh_token = "fresh";
  refresh_expires_at = 20001 + 30 * 86400000;
}
