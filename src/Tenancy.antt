-- ===== src/Tenancy.antt =====
-- app/identity.py: who a request is and which namespace its data belongs to; app/store.py,
-- `get_store`: which store serves it.
pub mod Isolation
use persistence_memory.Prelude.{
  text_eq, nat_eq, ℕ, suc, Bool, true, false, not, ◌&&◌, ◌||◌, Option, none, some, List, [], ◌∷◌,
  ◌++◌, ltb, leb, any, ◌==◌, if◌then◌else◌, length, contains, Text, codes, strip, lower, Result, ok,
  err,
}
use persistence_memory.Hash.{Sha256, to_hex}

abbrev pub operator_tenant : Text
operator_tenant = codes "operator"

pub data PrincipalKind : Type 0 where
  tenant operator : PrincipalKind

pub record Principal : Type 0 where
  pub subject : Text
  pub scopes : List Text
  pub issuer : Text
  pub kind : PrincipalKind
  pub tenant_key : Option Text
  pub credential_type : Text
  pub credential_id : Text

unfoldable pub operator_principal : Principal
operator_principal = record {
  subject = operator_tenant;
  scopes = codes "memory.read" ∷ codes "memory.write" ∷ [];
  issuer = codes "jarvis-operator-key";
  kind = operator;
  tenant_key = none;
  credential_type = [];
  credential_id = [];
}

-- The two context variables of a request.
pub record Context : Type 0 where
  pub principal : Option Principal
  pub acting : Option Text

-- What `acting_for` and `system_scope` run their body in.
unfoldable pub acting_for : Text → Context → Context
acting_for t ctx = record { principal = some operator_principal; acting = some t }

unfoldable pub system_scope : Context → Context
system_scope ctx = record ctx { principal = some operator_principal }

unfoldable pub in_operator_job : Context → Bool
in_operator_job ctx = elim ctx.acting [ none ↦ false | some t ↦ true ]

abbrev pub or_empty : Option Text → Text
or_empty none = []
or_empty (some t) = t

-- `(os.getenv(name) or "").strip().lower() in ("1", "true", "yes", "on")`
unfoldable pub is_on : Option Text → Bool
is_on value =
    contains (lower (strip (or_empty value)))
      (codes "1" ∷ codes "true" ∷ codes "yes" ∷ codes "on" ∷ [])

abbrev pub has_kind : PrincipalKind → Option Principal → Bool
has_kind k none = false
has_kind tenant (some p) = elim p.kind [ tenant ↦ true | operator ↦ false ]
has_kind operator (some p) = elim p.kind [ tenant ↦ false | operator ↦ true ]

unfoldable pub is_operator : Context → Bool
is_operator ctx = has_kind operator ctx.principal

abbrev is_api_key : Option Principal → Bool
is_api_key none = false
is_api_key (some p) = p.credential_type == codes "api_key"

unfoldable pub is_key_tenant : Context → Bool
is_key_tenant ctx = has_kind tenant ctx.principal && is_api_key ctx.principal

abbrev is_control : ℕ → Bool
is_control c = leb c 31

-- `len` counts code points: every byte but those that go on with one.
abbrev code_points : Text → ℕ
code_points [] = 0
code_points (c ∷ cs) =
    let rest = code_points cs in if leb 128 c && ltb c 192 then rest else suc rest

unfoldable pub normalized_subject : Text → Option Text
normalized_subject value = elim (strip value) [
  | [] ↦ none
  | c ∷ cs ↦
      if ltb 512 (code_points (c ∷ cs)) || any is_control (c ∷ cs) then none else some (c ∷ cs)
]

module _ (h : Sha256) where
  abbrev pub subject_hash : Principal → Text
  subject_hash p = to_hex (h.digest (p.issuer ++ 31 ∷ p.subject))

  abbrev pub own_or_hashed : Principal → Option Text → Text
  own_or_hashed p none = subject_hash p
  own_or_hashed p (some []) = subject_hash p
  own_or_hashed p (some (c ∷ cs)) = c ∷ cs

  abbrev pub principal_key : Option Principal → Option Text
  principal_key none = none
  principal_key (some p) = elim p.kind [
    | operator ↦ none
    | tenant ↦ some (own_or_hashed p p.tenant_key)
  ]

  abbrev acting_key : Text → Option Text
  acting_key t = if t == operator_tenant then none else some t

  unfoldable pub current_tenant_key : Context → Option Text
  current_tenant_key ctx = elim ctx.acting [
    | some t ↦ acting_key t
    | none ↦ principal_key ctx.principal
  ]

  abbrev default_tenant : Option Text → Bool → Bool → Option Text
  default_tenant (some t) is_op strict = some t
  default_tenant none true strict = some operator_tenant
  default_tenant none false strict = if strict then none else some operator_tenant

  unfoldable pub request_tenant : Option Text → Context → Option Text
  request_tenant multi_tenant ctx = elim ctx.acting [
    | some t ↦ some t
    | none ↦ default_tenant (principal_key ctx.principal) (is_operator ctx) (is_on multi_tenant)
  ]

-- The settings that `get_store` reads. The texts of paths are put together by `pathlib`.
pub record Settings : Type 0 where
  pub multi_tenant : Option Text
  pub database_url : Option Text
  pub pg_store : Option Text
  pub schema : Option Text
  pub bootstrap : Option Text
  pub requested : Text
  pub tenant_file : Text → Text

-- The store that is handed out: its cache key decides which one.
pub data Selected : Type 0 where
  pg_rows : Text → Text → Selected
  pg_blob : Text → Selected
  json_file : Text → Selected

pub data SelectError : Type 0 where
  tenant_unresolved bad_mode not_configured : SelectError

-- `tenant or OPERATOR_TENANT`
abbrev pub or_operator : Option Text → Text
or_operator none = operator_tenant
or_operator (some []) = operator_tenant
or_operator (some (c ∷ cs)) = c ∷ cs

-- `(value or "rows")`
abbrev pub mode_of : Option Text → Text
mode_of none = codes "rows"
mode_of (some []) = codes "rows"
mode_of (some (c ∷ cs)) = c ∷ cs

abbrev pub nonblank : Text → Bool
nonblank [] = false
nonblank (c ∷ cs) = true

abbrev pub in_database : Settings → Text → Result SelectError Selected
in_database s tenant_name =
    let mode = lower (strip (mode_of s.pg_store)) in
    if mode == codes "rows"
    then ok (pg_rows (strip (or_empty s.schema)) tenant_name)
    else if mode == codes "blob"
    then ok (pg_blob tenant_name)
    else err bad_mode

abbrev pub in_file : Settings → Option Text → Result SelectError Selected
in_file s none = ok (json_file s.requested)
in_file s (some []) = ok (json_file s.requested)
in_file s (some (c ∷ cs)) = ok (json_file (s.tenant_file (c ∷ cs)))

abbrev pub select_for : Settings → Option Text → Result SelectError Selected
select_for s key =
    if nonblank (strip (or_empty s.database_url))
    then in_database s (or_operator key)
    else if is_on s.bootstrap
    then in_file s key
    else err not_configured

abbrev pub unresolved : Option Text → Bool → Bool → Bool
unresolved none strict is_op = strict && not is_op
unresolved (some t) strict is_op = false

unfoldable pub get_store : Sha256 → Settings → Context → Result SelectError Selected
get_store h s ctx =
    if unresolved (current_tenant_key h ctx) (is_on s.multi_tenant) (is_operator ctx)
    then err tenant_unresolved
    else select_for s (current_tenant_key h ctx)
