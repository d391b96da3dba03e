-- ===== src/Store/Listing/Mentions.antt =====
-- What `memory_matches_query` of app/store.py looks for: a text within another, as Python's `in`.
use persistence_memory.Prelude.{
  ◌≡◌, ◌≢◌, ◌↔◌, refl, sym, ap, ◌∙◌, ◌⊎◌, inl, inr, Bool, true, false, ◌||◌, Option, none, some,
  List, [], ◌∷◌, ◌++◌, any, In, ◌==◌, text_eq, nat_eq, Text, lower, cons-injective, Bool-cases,
}
use persistence_memory.Models.{MemoryRecord, type_name}
use persistence_memory.Store.Listing.{is_prefix, is_within, in_subject, memory_matches_query}

-- `q` stands somewhere in `t`.
abbrev pub Within : Text → Text → Type 0
Within q t = (front : Text) × (back : Text) × (front ++ (q ++ back) ≡ t)

-- The query stands in the content, in a tag, in a subject that is not empty, or in the name of the
-- type, of the agent or of the session, each in lower case.
abbrev pub Mentions : Text → MemoryRecord → Type 0
Mentions q m =
    Within q (lower m.content)
    ⊎ (((tag : Text) × In tag m.tags × Within q (lower tag))
        ⊎ (((subject : Text) × (m.subject ≡ some subject)
              × (subject ≢ [])
              × Within q (lower subject))
            ⊎ (Within q (lower (type_name m.type))
                ⊎ (Within q (lower m.source_agent) ⊎ Within q (lower m.session_id)))))

or_iff : {P Q : Type 0} (a b : Bool) → (a ≡ true) ↔ P → (b ≡ true) ↔ Q → ((a || b) ≡ true) ↔ (P ⊎ Q)
or_iff true b f g = (λ e. inl (f.0 refl), λ either. refl)
or_iff false b f g = (
  λ e. inr (g.0 e),
  λ either. elim either [ inl p ↦ absurd (let no_ : false ≡ true = f.1 p in cc) | inr q ↦ g.1 q ],
)

is_prefix_iff : (q t : Text) → (is_prefix q t ≡ true) ↔ ((back : Text) × (q ++ back ≡ t))
is_prefix_iff [] t = (λ e. (t, refl), λ found. refl)
is_prefix_iff (x ∷ q) [] = (λ e. absurd (cc), λ (back, e). absurd (cc))
is_prefix_iff (x ∷ q) (y ∷ t) = elim (Bool-cases (x == y)) [
  | inl same ↦ (
    λ e.
        let (back, tail) = (is_prefix_iff q t).0 (rw same at e) in
        (back, λ i. (nat_eq.equal_iff x y).0 same i ∷ tail i),
    λ (back, e). rw same ((is_prefix_iff q t).1 (back, (cons-injective _ _ _ _ e).1)),
  )
  | inr other ↦ (
    λ e. absurd (false_true (rw other at e)),
    λ (back, e).
        absurd (contrary (x == y) other ((nat_eq.equal_iff x y).1 (cons-injective _ _ _ _ e).0)),
  )
]
  where
    false_true : false ≡ true → ⊥
    false_true e = cc

    contrary : (b : Bool) → b ≡ false → b ≡ true → ⊥
    contrary b no_ yes_ = cc

is_within_iff : (q t : Text) → (is_within q t ≡ true) ↔ Within q t
unfolding is_within
is_within_iff q [] = (
  λ e. let (back, whole) = (is_prefix_iff q []).0 e in ([], back, whole),
  λ (front, back, e). (is_prefix_iff q []).1 (at_start front back e),
)
  where
    at_start : (front back : Text) → front ++ (q ++ back) ≡ [] → (rest : Text) × (q ++ rest ≡ [])
    at_start [] back e = (back, e)
    at_start (x ∷ front) back e = absurd (cc)
is_within_iff q (c ∷ cs) = (
  λ e. found ((or_iff _ _ (is_prefix_iff q (c ∷ cs)) (is_within_iff q cs)).0 e),
  λ (front, back, e).
      (or_iff _ _ (is_prefix_iff q (c ∷ cs)) (is_within_iff q cs)).1 (begins front back e),
)
  where
    found : ((back : Text) × (q ++ back ≡ c ∷ cs)) ⊎ Within q cs → Within q (c ∷ cs)
    found (inl (back, e)) = ([], back, e)
    found (inr (front, back, e)) = (c ∷ front, back, ap (λ r. c ∷ r) e)

    begins :
        (front back : Text)
        → front ++ (q ++ back) ≡ c ∷ cs
        → ((rest : Text) × (q ++ rest ≡ c ∷ cs)) ⊎ Within q cs
    begins [] back e = inl (back, e)
    begins (x ∷ front) back e = inr (front, back, (cons-injective _ _ _ _ e).1)

any_tag_iff :
    (q : Text) (tags : List Text)
    → (any (λ tag. is_within q (lower tag)) tags ≡ true)
      ↔ ((tag : Text) × In tag tags × Within q (lower tag))
any_tag_iff q [] = (λ e. absurd (cc), λ (tag, there, w). absurd there)
any_tag_iff q (t ∷ ts) =
    let iff = or_iff _ _ (is_within_iff q (lower t)) (any_tag_iff q ts) in
    (λ e. found (iff.0 e), λ (tag, there, w). iff.1 (split tag there w))
  where
    found :
        Within q (lower t) ⊎ ((tag : Text) × In tag ts × Within q (lower tag))
        → (tag : Text) × In tag (t ∷ ts) × Within q (lower tag)
    found (inl w) = (t, inl refl, w)
    found (inr (tag, there, w)) = (tag, inr there, w)

    split :
        (tag : Text)
        → In tag (t ∷ ts)
        → Within q (lower tag)
        → Within q (lower t) ⊎ ((tag : Text) × In tag ts × Within q (lower tag))
    split tag (inl same) (front, back, e) = inl (front, back, e ∙ ap lower same)
    split tag (inr there) w = inr (tag, there, w)

in_subject_iff :
    (q : Text) (o : Option Text)
    → (in_subject q o ≡ true)
      ↔ ((subject : Text) × (o ≡ some subject) × (subject ≢ []) × Within q (lower subject))
in_subject_iff q none = (λ e. absurd (cc), λ (subject, e, some_, w). absurd (cc))
in_subject_iff q (some []) = (λ e. absurd (cc), λ (subject, e, some_, w). absurd (some_ (inside e)))
  where
    inside : {u : Text} → some [] ≡ some u → u ≡ []
    inside e = cc
in_subject_iff q (some (c ∷ cs)) = (
  λ e. (c ∷ cs, refl, (λ none_. cc), (is_within_iff q (lower (c ∷ cs))).0 e),
  λ (subject, e, some_, (front, back, w)).
      (is_within_iff q (lower (c ∷ cs))).1 (front, back, w ∙ ap lower (sym (inside e))),
)
  where
    inside : {u : Text} → some (c ∷ cs) ≡ some u → c ∷ cs ≡ u
    inside e = cc

-- A record matches a query exactly when the query stands in one of its texts.
pub memory_matches_query_iff :
    (m : MemoryRecord) (q : Text) → (memory_matches_query m q ≡ true) ↔ Mentions q m
unfolding memory_matches_query
memory_matches_query_iff m q = or_iff _ _ (is_within_iff q (lower m.content)) (
    or_iff _ _ (any_tag_iff q m.tags) (
      or_iff _ _ (in_subject_iff q m.subject) (
        or_iff _ _ (is_within_iff q (lower (type_name m.type))) (
          or_iff _ _ (is_within_iff q (lower m.source_agent))
            (is_within_iff q (lower m.session_id))))))
