-- ===== src/Storage/Outcome.antt =====
-- Programs of file operations that a power cut can end before any operation: the budget is how many
-- operations are still carried out.
use edge_healthd.Prelude.{ℕ, zero, suc, ◌+◌, ◌≤◌, ◌≡◌, refl, Option, none, some, arith}

pub data Outcome (S A : Type 0) : Type 0 where
  -- the result, the state, and the budget that is left
  done : A → S → ℕ → Outcome S A
  -- the power went out in this state
  cut : S → Outcome S A
  -- a loop has used up its fuel in this state
  looping : S → Outcome S A

abbrev pub Program : Type 0 → Type 0 → Type 0
Program S A = ℕ → S → Outcome S A

abbrev pub operation : {S A : Type 0} → (S → S × A) → Program S A
operation f zero s = cut s
operation f (suc budget) s = let (s', a) = f s in done a s' budget

abbrev pub return : {S A : Type 0} → A → Program S A
return a budget s = done a s budget

infixl 5 ◌>>=◌
abbrev pub continue : {S A B : Type 0} → Outcome S A → (A → Program S B) → Outcome S B
continue (done a s budget) f = f a budget s
continue (cut s) f = cut s
continue (looping s) f = looping s

abbrev pub ◌>>=◌ : {S A B : Type 0} → Program S A → (A → Program S B) → Program S B
(m >>= f) budget s = continue (m budget s) f

-- An operation that answers with an error: the handler, or what comes next.
abbrev pub otherwise : {S A : Type 0} → Option ℕ → (ℕ → Program S A) → Program S A → Program S A
otherwise none handler next = next
otherwise (some e) handler next = handler e

abbrev pub check :
    {S A : Type 0} → (S → S × Option ℕ) → (ℕ → Program S A) → Program S A → Program S A
check f handler next = operation f >>= λ e. otherwise e handler next

-- `during` holds where the power may go out, and `after` of the result.
abbrev pub Holds : {S A : Type 0} → (S → Type 0) → (A → S → Type 0) → Outcome S A → Type 0
Holds during after (done a s budget) = after a s
Holds during after (cut s) = during s
Holds during after (looping s) = during s

-- A program from states with `before`.
abbrev pub Triple :
    {S A : Type 0} → (S → Type 0) → (S → Type 0) → Program S A → (A → S → Type 0) → Type 0
Triple {S} during before m after = (budget : ℕ) (s : S) → before s → Holds during after (m budget s)

pub continue-Holds :
    {S A B : Type 0} (during : S → Type 0) (between : A → S → Type 0) (after : B → S → Type 0)
    (o : Outcome S A) (f : A → Program S B)
    → Holds during between o
    → ((a : A) → Triple during (between a) (f a) after)
    → Holds during after (continue o f)
continue-Holds _ _ _ (done a s budget) f h g = g a budget s h
continue-Holds _ _ _ (cut s) f h g = h
continue-Holds _ _ _ (looping s) f h g = h

pub >>=-Triple :
    {S A B : Type 0} (during before : S → Type 0) (between : A → S → Type 0)
    (after : B → S → Type 0) (m : Program S A) (f : A → Program S B)
    → Triple during before m between
    → ((a : A) → Triple during (between a) (f a) after)
    → Triple during before (m >>= f) after
>>=-Triple during _ between after m f h g budget s p =
    continue-Holds during between after (m budget s) f (h budget s p) g

pub operation-Triple :
    {S A : Type 0} (during before : S → Type 0) (after : A → S → Type 0) (f : S → S × A)
    → ((s : S) → before s → during s)
    → ((s : S) → before s → after (f s).1 (f s).0)
    → Triple during before (operation f) after
operation-Triple _ _ _ f d h zero s p = d s p
operation-Triple _ _ _ f d h (suc budget) s p = h s p

otherwise-Holds :
    {S A : Type 0} (during broken between : S → Type 0) (after : A → S → Type 0)
    (handler : ℕ → Program S A) (next : Program S A) (e : Option ℕ) (budget : ℕ) (s : S)
    → ((code : ℕ) → e ≡ some code → broken s)
    → (e ≡ none → between s)
    → ((code : ℕ) → Triple during broken (handler code) after)
    → Triple during between next after
    → Holds during after (otherwise e handler next budget s)
otherwise-Holds _ _ _ _ handler next none budget s b g h n = n budget s (g refl)
otherwise-Holds _ _ _ _ handler next (some e) budget s b g h n = h e budget s (b e refl)

pub check-Triple :
    {S A : Type 0} (during before broken between : S → Type 0) (after : A → S → Type 0)
    (f : S → S × Option ℕ) (handler : ℕ → Program S A) (next : Program S A)
    → ((s : S) → before s → during s)
    → ((s : S) → before s → (e : ℕ) → (f s).1 ≡ some e → broken (f s).0)
    → ((s : S) → before s → (f s).1 ≡ none → between (f s).0)
    → ((e : ℕ) → Triple during broken (handler e) after)
    → Triple during between next after
    → Triple during before (check f handler next) after
check-Triple _ _ _ _ _ f handler next d b g h n zero s p = d s p
check-Triple during _ broken between after f handler next d b g h n (suc budget) s p =
    otherwise-Holds during broken between after handler next (f s).1 budget (f s).0 (b s p) (g s p)
      h n

-- A result, with some operations left.
abbrev pub Returns : {S A : Type 0} → ℕ → Outcome S A → Type 0
Returns k (done a s budget) = k ≤ budget
Returns k (cut s) = ⊥
Returns k (looping s) = ⊥

pub continue-Returns :
    {S A B : Type 0} (k j : ℕ) (o : Outcome S A) (f : A → Program S B)
    → Returns k o
    → ((a : A) (s : S) (budget : ℕ) → k ≤ budget → Returns j (f a budget s))
    → Returns j (continue o f)
continue-Returns k j (done a s budget) f h g = g a s budget h
continue-Returns k j (cut s) f h g = absurd h
continue-Returns k j (looping s) f h g = absurd h

pub otherwise-Returns :
    {S A : Type 0} (k j : ℕ) (handler : ℕ → Program S A) (next : Program S A) (e : Option ℕ) (s : S)
    (budget : ℕ)
    → k ≤ budget
    → ((code : ℕ) (s : S) (budget : ℕ) → k ≤ budget → Returns j (handler code budget s))
    → ((s : S) (budget : ℕ) → k ≤ budget → Returns j (next budget s))
    → Returns j (otherwise e handler next budget s)
otherwise-Returns k j handler next none s budget b h n = n s budget b
otherwise-Returns k j handler next (some e) s budget b h n = h e s budget b

pub check-Returns :
    {S A : Type 0} (k j : ℕ) (f : S → S × Option ℕ) (handler : ℕ → Program S A) (next : Program S A)
    (s : S) (budget : ℕ)
    → k + 1 ≤ budget
    → ((code : ℕ) (s : S) (budget : ℕ) → k ≤ budget → Returns j (handler code budget s))
    → ((s : S) (budget : ℕ) → k ≤ budget → Returns j (next budget s))
    → Returns j (check f handler next budget s)
check-Returns k j f handler next s zero b h n = absurd (omega (arith, b))
check-Returns k j f handler next s (suc budget) b h n =
    otherwise-Returns k j handler next (f s).1 (f s).0 budget (omega (arith, b)) h n
