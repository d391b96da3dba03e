-- ===== src/Store/Listing/Newest.antt =====
-- A listing is the newest of the records that a query asks for.
use persistence_memory.Prelude.{
  text_eq, nat_eq, ◌≡◌, ◌≢◌, ◌↔◌, refl, sym, ap, ◌∙◌, subst, ◌⊎◌, inl, inr, Bool, true, false, not,
  ◌&&◌, Option, none, some, List, [], ◌∷◌, ◌++◌, keep, drop, min, length, length-take,
  take-append-drop, ◌==◌, Text, codes, lower, values, sort, sort-perm, text_leb, text_leb_total,
  text_leb_trans, text_leb_antisymm, ◌||◌, All, All-map, Bool-cases,
}
use mathlib.Core.List.{Perm}
use persistence_memory.Prelude.Sorting.{insert_sorted, insert_sorted-All}
use persistence_memory.Models.{
  MemoryRecord, MemoryStatus, draft, verified, archived, type_name, status_name, is_archived,
}
use persistence_memory.Store.{Store}
use persistence_memory.Store.Listing.Mentions.{Mentions, memory_matches_query_iff}
use persistence_memory.Store.Listing.{
  Query, Filter, when_given, in_scope, has_subject, by_type, by_status, by_session, by_subject,
  by_query, newer, list_memories, passes, accepts, filtered,
}

-- `a` was made at the time of `b` and has no smaller id, or it was made later.
abbrev pub NotOlder : MemoryRecord → MemoryRecord → Type 0
NotOlder a b =
    ((a.created_at ≡ b.created_at) × (text_leb b.id a.id ≡ true))
    ⊎ ((a.created_at ≢ b.created_at) × (text_leb b.created_at a.created_at ≡ true))

-- Each record is not older than any that follows it.
abbrev pub NewestFirst : List MemoryRecord → Type 0
NewestFirst [] = Unit
NewestFirst (m ∷ ms) = All (NotOlder m) ms × NewestFirst ms

-- The scope `live` is all but the archived records; another is a status or an agent.
abbrev pub InScope : Text → MemoryRecord → Type 0
InScope scope m =
    ((lower scope ≡ codes "live") × (m.status ≢ MemoryStatus.archived))
    ⊎ ((lower scope ≢ codes "live")
        × ((status_name m.status ≡ lower scope) ⊎ (m.source_agent ≡ lower scope)))

-- A filter that is not given, or is the empty text, asks nothing.
abbrev pub IfGiven : Option Text → (Text → Type 0) → Type 0
IfGiven none P = Unit
IfGiven (some []) P = Unit
IfGiven (some (c ∷ cs)) P = P (c ∷ cs)

-- What a query asks of a record.
abbrev pub Meets : Query → MemoryRecord → Type 0
Meets q m =
    IfGiven q.truth_scope (λ t. InScope t m)
    × IfGiven q.memory_type (λ t. type_name m.type ≡ t)
    × IfGiven q.status (λ t. status_name m.status ≡ t)
    × IfGiven q.session_id (λ t. m.session_id ≡ t)
    × IfGiven q.subject (λ t. m.subject ≡ some t)
    × IfGiven q.query (λ t. Mentions (lower t) m)

-- `found` are the newest records of the store that meet the query: all of them, or the limit.
pub record Listed (q : Query) (s : Store) (found : List MemoryRecord) : Type 0 where
  pub others : List MemoryRecord
  pub meets : (m : MemoryRecord) → (accepts q m ≡ true) ↔ Meets q m
  pub all_there : Perm (found ++ others) (keep (accepts q) (values s.memories))
  pub ordered : NewestFirst (found ++ others)
  pub count : length found ≡ min q.limit (length (found ++ others))

and_iff :
    {P Q : Type 0} (a b : Bool) → (a ≡ true) ↔ P → (b ≡ true) ↔ Q → ((a && b) ≡ true) ↔ (P × Q)
and_iff true b f g = (λ e. (f.0 refl, g.0 e), λ both. g.1 both.1)
and_iff false b f g = (λ e. absurd (cc), λ both. absurd (let no_ : false ≡ true = f.1 both.0 in cc))

passes_iff :
    (o : Option Text) (f : Text → Filter) (P : Text → Type 0) (m : MemoryRecord)
    → ((t : Text) → (f t m ≡ true) ↔ P t)
    → (passes (when_given o f) m ≡ true) ↔ IfGiven o P
passes_iff none f P m iff = (λ e. tt, λ e. refl)
passes_iff (some []) f P m iff = (λ e. tt, λ e. refl)
passes_iff (some (c ∷ cs)) f P m iff = iff (c ∷ cs)

not_archived_iff : (s : MemoryStatus) → (not (is_archived s) ≡ true) ↔ (s ≢ MemoryStatus.archived)
not_archived_iff draft = (λ e same. cc, λ e. refl)
not_archived_iff verified = (λ e same. cc, λ e. refl)
not_archived_iff archived = (λ e. absurd (cc), λ e. absurd (e refl))

subject_iff : (o : Option Text) (t : Text) → (has_subject o t ≡ true) ↔ (o ≡ some t)
subject_iff none t = (λ e. absurd (cc), λ e. absurd (cc))
subject_iff (some u) t =
    (λ e. ap some ((text_eq.equal_iff u t).0 e), λ e. (text_eq.equal_iff u t).1 (inside e))
  where
    inside : some u ≡ some t → u ≡ t
    inside e = cc

either_iff : (a b t : Text) → ((a == t || b == t) ≡ true) ↔ ((a ≡ t) ⊎ (b ≡ t))
either_iff a b t = elim (Bool-cases (a == t)) [
  | inl same ↦ (λ e. inl ((text_eq.equal_iff a t).0 same), λ asked. rw same refl)
  | inr other ↦ (
    λ e. inr ((text_eq.equal_iff b t).0 (rw other at e)),
    λ asked.
        rw other
          ((text_eq.equal_iff b t).1 (second (a == t) other (text_eq.equal_iff a t).1 asked)),
  )
]
  where
    second : (c : Bool) → c ≡ false → (a ≡ t → c ≡ true) → (a ≡ t) ⊎ (b ≡ t) → b ≡ t
    second c no_ yes_ (inl same) = absurd (let both : c ≡ true = yes_ same in cc)
    second c no_ yes_ (inr same) = same

in_scope_iff : (scope : Text) (m : MemoryRecord) → (in_scope scope m ≡ true) ↔ InScope scope m
in_scope_iff scope m = elim (Bool-cases (lower scope == codes "live")) [
  | inl live ↦
      let is_live : lower scope ≡ codes "live" =
        (text_eq.equal_iff (lower scope) (codes "live")).0 live in
      (
        λ e. inl (is_live, (not_archived_iff m.status).0 (rw live at e)),
        λ asked. rw live ((not_archived_iff m.status).1 (open_ is_live asked)),
      )
  | inr other ↦
      let no_live : lower scope ≢ codes "live" =
        λ same. contrary other ((text_eq.equal_iff (lower scope) (codes "live")).1 same) in
      (
        λ e. inr (
          no_live,
          (either_iff (status_name m.status) m.source_agent (lower scope)).0 (rw other at e),
        ),
        λ asked. rw other (
            (either_iff (status_name m.status) m.source_agent (lower scope)).1
              (named no_live asked)),
      )
]
  where
    contrary : {b : Bool} → b ≡ false → b ≡ true → ⊥
    contrary f t = cc

    open_ : lower scope ≡ codes "live" → InScope scope m → m.status ≢ MemoryStatus.archived
    open_ live (inl asked) = asked.1
    open_ live (inr asked) = absurd (asked.0 live)

    named :
        lower scope ≢ codes "live"
        → InScope scope m
        → (status_name m.status ≡ lower scope) ⊎ (m.source_agent ≡ lower scope)
    named no_live (inl asked) = absurd (no_live asked.0)
    named no_live (inr asked) = asked.1

accepts_iff : (q : Query) (m : MemoryRecord) → (accepts q m ≡ true) ↔ Meets q m
accepts_iff q m =
    let iff =
      and_iff _ _
        (and_iff _ _
          (and_iff _ _
            (and_iff _ _
              (and_iff _ _
                (passes_iff q.truth_scope in_scope (λ t. InScope t m) m (λ t. in_scope_iff t m))
                (passes_iff q.memory_type by_type (λ t. type_name m.type ≡ t) m
                  (λ t. text_eq.equal_iff (type_name m.type) t)))
              (passes_iff q.status by_status (λ t. status_name m.status ≡ t) m
                (λ t. text_eq.equal_iff (status_name m.status) t)))
            (passes_iff q.session_id by_session (λ t. m.session_id ≡ t) m
              (λ t. text_eq.equal_iff m.session_id t)))
          (passes_iff q.subject by_subject (λ t. m.subject ≡ some t) m
            (λ t. subject_iff m.subject t)))
        (passes_iff q.query by_query (λ t. Mentions (lower t) m) m
          (λ t. memory_matches_query_iff m (lower t))) in
    (
      λ e. let (((((a, b), c), d), f), g) = iff.0 e in (a, b, c, d, f, g),
      λ (a, b, c, d, f, g). iff.1 (((((a, b), c), d), f), g),
    )

newer-NotOlder : (a b : MemoryRecord) → newer a b ≡ true → NotOlder a b
newer-NotOlder a b e = elim (Bool-cases (a.created_at == b.created_at)) [
  | inl same ↦ inl ((text_eq.equal_iff a.created_at b.created_at).0 same, rw same at e)
  | inr other ↦ inr (
    apart (a.created_at == b.created_at) other (text_eq.equal_iff a.created_at b.created_at).1,
    rw other at e,
  )
]
  where
    apart :
        (c : Bool)
        → c ≡ false
        → (a.created_at ≡ b.created_at → c ≡ true)
        → a.created_at ≢ b.created_at
    apart c no_ yes_ same = let both : c ≡ true = yes_ same in cc

newer-total : (a b : MemoryRecord) → newer a b ≡ false → NotOlder b a
newer-total a b e = elim (Bool-cases (a.created_at == b.created_at)) [
  | inl same ↦ inl (
    sym ((text_eq.equal_iff a.created_at b.created_at).0 same),
    text_leb_total b.id a.id (rw same at e),
  )
  | inr other ↦ inr (
    apart (a.created_at == b.created_at) other (text_eq.equal_iff a.created_at b.created_at).1,
    text_leb_total b.created_at a.created_at (rw other at e),
  )
]
  where
    apart :
        (c : Bool)
        → c ≡ false
        → (a.created_at ≡ b.created_at → c ≡ true)
        → b.created_at ≢ a.created_at
    apart c no_ yes_ same = let both : c ≡ true = yes_ (sym same) in cc

NotOlder-trans : (a b c : MemoryRecord) → NotOlder a b → NotOlder b c → NotOlder a c
NotOlder-trans a b c (inl (e, i)) (inl (f, j)) = inl (e ∙ f, text_leb_trans c.id b.id a.id j i)
NotOlder-trans a b c (inl (e, i)) (inr (f, j)) =
    inr ((λ same. f (sym e ∙ same)), subst (λ t. text_leb c.created_at t ≡ true) (sym e) j)
NotOlder-trans a b c (inr (e, i)) (inl (f, j)) =
    inr ((λ same. e (same ∙ sym f)), subst (λ t. text_leb t a.created_at ≡ true) f i)
NotOlder-trans a b c (inr (e, i)) (inr (f, j)) = inr (
  (λ same. e (
      text_leb_antisymm a.created_at b.created_at
        (subst (λ t. text_leb t b.created_at ≡ true) (sym same) j) i)),
  text_leb_trans c.created_at b.created_at a.created_at j i,
)

insert_sorted-NewestFirst :
    (m : MemoryRecord) (ms : List MemoryRecord)
    → NewestFirst ms
    → NewestFirst (insert_sorted newer m ms)
unfolding insert_sorted
insert_sorted-NewestFirst m [] below = (tt, tt)
insert_sorted-NewestFirst m (n ∷ ms) below = elim (Bool-cases (newer m n)) [
  | inl first ↦ rw first (
    (
      newer-NotOlder m n first,
      All-map (NotOlder n) (NotOlder m) (λ z. NotOlder-trans m n z (newer-NotOlder m n first)) ms
          below.0,
    ),
    below,
  )
  | inr later ↦ rw later (
    insert_sorted-All newer (NotOlder n) m ms (newer-total m n later) below.0,
    insert_sorted-NewestFirst m ms below.1,
  )
]

sort-NewestFirst : (ms : List MemoryRecord) → NewestFirst (sort newer ms)
unfolding sort
sort-NewestFirst [] = tt
sort-NewestFirst (m ∷ ms) = insert_sorted-NewestFirst m (sort newer ms) (sort-NewestFirst ms)

-- A listing gives the newest of the records that meet every filter that is given: as many as the
-- limit, or all of them if they are fewer, the later made first, and of those made at one time the
-- greater id first. The scope `live` is all but the archived records, and a query is met by a record
-- in one of whose texts it stands.
pub list_memories-Listed : (q : Query) (s : Store) → Listed q s (list_memories q s)
list_memories-Listed q s =
    let sorted : List MemoryRecord = sort newer (keep (accepts q) (values s.memories)) in
    subst (Listed q s) (sym (filtered q s)) (record {
      others = drop q.limit sorted;
      meets = accepts_iff q;
      all_there =
          subst (λ ms. Perm ms (keep (accepts q) (values s.memories)))
            (sym (take-append-drop q.limit sorted)) (sort-perm newer _);
      ordered =
          subst NewestFirst (sym (take-append-drop q.limit sorted))
            (sort-NewestFirst (keep (accepts q) (values s.memories)));
      count =
          length-take q.limit sorted
          ∙ ap (λ (ms : List MemoryRecord). min q.limit (length ms))
              (sym (take-append-drop q.limit sorted));
    })
