-- ===== src/CallLog/Steps.antt =====
-- What an action of the log ends with: one statement for its value and one for when it raises.
use persistence_memory.Prelude.{◌≡◌, Bool, true, false}
use persistence_memory.CallLog.State.{
  World, LogError, Outcome, done, raised, Action, continue, ◌>>=◌, need,
}

-- `Q` holds of the value and the state, or `E` of the state.
abbrev pub Ends :
    {A : Type 0} → (A → World → Type 0) → (World → Type 0) → Outcome A × World → Type 0
Ends Q E (done a, w) = Q a w
Ends Q E (raised e, w) = E w

pub >>=-Ends :
    {A B : Type 0} (Q : A → World → Type 0) (R : B → World → Type 0) (E : World → Type 0)
    (m : Action A) (k : A → Action B) (w : World)
    → Ends Q E (m w)
    → ((a : A) (now : World) → Q a now → Ends R E (k a now))
    → Ends R E ((m >>= k) w)
>>=-Ends Q R E m k w first next = by (m w) first
  where
    by : (r : Outcome _ × World) → Ends Q E r → Ends R E (continue k r)
    by (done a, now) q = next a now q
    by (raised e, now) q = q

-- A guard that raises in the state it is in.
pub need-Ends :
    {A : Type 0} (Q : A → World → Type 0) (E : World → Type 0) (test : Bool) (e : LogError)
    (m : Action A) (w : World)
    → E w
    → Ends Q E (m w)
    → Ends Q E ((need test e >>= λ _. m) w)
need-Ends Q E true e m w before ends = ends
need-Ends Q E false e m w before ends = before

-- A guard that is met.
pub need-true :
    {A : Type 0} (Q : A → World → Type 0) (E : World → Type 0) (test : Bool) (e : LogError)
    (m : Action A) (w : World)
    → test ≡ true
    → Ends Q E (m w)
    → Ends Q E ((need test e >>= λ _. m) w)
need-true Q E true e m w met ends = ends
need-true Q E false e m w met ends = absurd (cc)
