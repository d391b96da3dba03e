-- ===== src/Tenancy/Isolation.antt =====
-- No request is served another tenant's store.
use persistence_memory.Prelude.{
  text_eq, nat_eq, ◌≡◌, ◌≢◌, ◌⊎◌, none, some, [], ◌∷◌, ◌++◌, Text, Bytes, strip,
}
use persistence_memory.Hash.{Sha256, to_hex}
use persistence_memory.Tenancy.{
  Principal, Settings, Selected, pg_rows, pg_blob, json_file, or_empty,
}

-- The message whose hash names a subject's namespace.
abbrev pub subject_text : Principal → Bytes
subject_text p = p.issuer ++ 31 ∷ p.subject

-- The namespace or file of the store is that of the tenant `t`.
abbrev pub Serves : Settings → Text → Selected → Type 0
Serves s t (pg_rows schema name) = (schema ≡ strip (or_empty s.schema)) × (name ≡ t)
Serves s t (pg_blob name) = name ≡ t
Serves s t (json_file path) = path ≡ s.tenant_file t

module _ (h : Sha256) where
  -- Which namespace a tenant's principal stands for: the key that it was given, or else the hash of
  -- its issuer and subject.
  abbrev pub NamedBy : Principal → Text → Type 0
  NamedBy p t =
      ((p.tenant_key ≡ some t) × (t ≢ []))
      ⊎ (((p.tenant_key ≡ none) ⊎ (p.tenant_key ≡ some []))
          × (t ≡ to_hex (h.digest (subject_text p))))
