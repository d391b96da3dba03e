-- ===== src/Store/Listing.antt =====
-- app/store.py, `list_memories` and `memory_matches_query`: the filters of a listing, its order and
-- its limit.
pub mod Mentions
pub mod Newest
use persistence_memory.Prelude.{
  text_eq, nat_eq, ℕ, ◌≡◌, refl, ap, ◌∙◌, Bool, true, false, not, ◌&&◌, ◌||◌, Option, none, some,
  List, [], ◌∷◌, any, keep, take, ◌==◌, if◌then◌else◌, Text, codes, lower, values, sort, text_leb,
  arith,
}
use persistence_memory.Models.{MemoryRecord, type_name, status_name, is_archived}
use persistence_memory.Store.{Store}

-- `q in text`
abbrev pub is_prefix : Text → Text → Bool
is_prefix [] t = true
is_prefix (q ∷ qs) [] = false
is_prefix (q ∷ qs) (c ∷ cs) = q == c && is_prefix qs cs

unfoldable pub is_within : Text → Text → Bool
is_within q [] = is_prefix q []
is_within q (c ∷ cs) = is_prefix q (c ∷ cs) || is_within q cs

abbrev pub in_subject : Text → Option Text → Bool
in_subject q none = false
in_subject q (some []) = false
in_subject q (some (c ∷ cs)) = is_within q (lower (c ∷ cs))

unfoldable pub memory_matches_query : MemoryRecord → Text → Bool
memory_matches_query m q =
    is_within q (lower m.content)
    || (any (λ tag. is_within q (lower tag)) m.tags
        || (in_subject q m.subject
            || (is_within q (lower (type_name m.type))
                || (is_within q (lower m.source_agent) || is_within q (lower m.session_id)))))

-- The arguments of `list_memories`.
pub record Query : Type 0 where
  pub truth_scope : Option Text
  pub query : Option Text
  pub limit : ℕ
  pub memory_type : Option Text
  pub status : Option Text
  pub session_id : Option Text
  pub subject : Option Text

abbrev pub Filter : Type 0
Filter = MemoryRecord → Bool

-- `if value: results = [m for m in results if ...]`
abbrev pub when_given : Option Text → (Text → Filter) → Option Filter
when_given none f = none
when_given (some []) f = none
when_given (some (c ∷ cs)) f = some (f (c ∷ cs))

abbrev pub narrow : Option Filter → List MemoryRecord → List MemoryRecord
narrow none results = results
narrow (some f) results = keep f results

abbrev pub in_scope : Text → Filter
in_scope scope m =
    if lower scope == codes "live"
    then not (is_archived m.status)
    else status_name m.status == lower scope || m.source_agent == lower scope

abbrev has_subject : Option Text → Text → Bool
has_subject none t = false
has_subject (some s) t = s == t

abbrev pub by_type : Text → Filter
by_type t m = type_name m.type == t

abbrev pub by_status : Text → Filter
by_status t m = status_name m.status == t

abbrev pub by_session : Text → Filter
by_session t m = m.session_id == t

abbrev pub by_subject : Text → Filter
by_subject t m = has_subject m.subject t

abbrev pub by_query : Text → Filter
by_query t m = memory_matches_query m (lower t)

-- Newest first, by creation time and id.
abbrev pub newer : MemoryRecord → MemoryRecord → Bool
newer a b =
    if a.created_at == b.created_at then text_leb b.id a.id else text_leb b.created_at a.created_at

unfoldable pub list_memories : Query → Store → List MemoryRecord
list_memories q s =
    let scoped = narrow (when_given q.truth_scope in_scope) (values s.memories) in
    let typed = narrow (when_given q.memory_type by_type) scoped in
    let with_status = narrow (when_given q.status by_status) typed in
    let of_session = narrow (when_given q.session_id by_session) with_status in
    let on_subject = narrow (when_given q.subject by_subject) of_session in
    let found = narrow (when_given q.query by_query) on_subject in take q.limit (sort newer found)

-- Does one record pass a filter, if there is one?
abbrev passes : Option Filter → Filter
passes none m = true
passes (some f) m = f m

-- All that a query asks of one record.
abbrev pub accepts : Query → Filter
accepts q m =
    ((((passes (when_given q.truth_scope in_scope) m && passes (when_given q.memory_type by_type) m)
          && passes (when_given q.status by_status) m)
        && passes (when_given q.session_id by_session) m)
      && passes (when_given q.subject by_subject) m)
    && passes (when_given q.query by_query) m

narrow-cons :
    (o : Option Filter) (m : MemoryRecord) (ms : List MemoryRecord)
    → narrow o (m ∷ ms) ≡ (if passes o m then m ∷ narrow o ms else narrow o ms)
narrow-cons none m ms = refl
narrow-cons (some f) m ms = refl

narrow-nil : (o : Option Filter) → narrow o [] ≡ []
narrow-nil none = refl
narrow-nil (some f) = refl

narrow-keep :
    (o : Option Filter) (f : Filter) (ms : List MemoryRecord)
    → narrow o (keep f ms) ≡ keep (λ m. f m && passes o m) ms
narrow-keep o f [] = narrow-nil o
narrow-keep o f (m ∷ ms) = ground (arith, narrow-keep o f ms, narrow-cons o m (keep f ms))

narrow-passes : (o : Option Filter) (ms : List MemoryRecord) → narrow o ms ≡ keep (passes o) ms
narrow-passes o [] = narrow-nil o
narrow-passes o (m ∷ ms) = ground (arith, narrow-passes o ms, narrow-cons o m ms)

pub filtered :
    (q : Query) (s : Store)
    → list_memories q s ≡ take q.limit (sort newer (keep (accepts q) (values s.memories)))
unfolding list_memories
filtered q s = ap (λ ms. take q.limit (sort newer ms)) narrowed
  where
    all : List MemoryRecord
    all = values s.memories

    o1 : Option Filter
    o1 = when_given q.truth_scope in_scope

    o2 : Option Filter
    o2 = when_given q.memory_type by_type

    o3 : Option Filter
    o3 = when_given q.status by_status

    o4 : Option Filter
    o4 = when_given q.session_id by_session

    o5 : Option Filter
    o5 = when_given q.subject by_subject

    o6 : Option Filter
    o6 = when_given q.query by_query

    two : narrow o2 (narrow o1 all) ≡ keep (λ m. passes o1 m && passes o2 m) all
    two = ap (narrow o2) (narrow-passes o1 all) ∙ narrow-keep o2 (passes o1) all

    three :
        narrow o3 (narrow o2 (narrow o1 all))
        ≡ keep (λ m. (passes o1 m && passes o2 m) && passes o3 m) all
    three = ap (narrow o3) two ∙ narrow-keep o3 _ all

    narrowed :
        narrow o6 (narrow o5 (narrow o4 (narrow o3 (narrow o2 (narrow o1 all)))))
        ≡ keep (accepts q) all
    narrowed =
        ap (narrow o6)
          (ap (narrow o5) (ap (narrow o4) three ∙ narrow-keep o4 _ all) ∙ narrow-keep o5 _ all)
        ∙ narrow-keep o6 _ all
