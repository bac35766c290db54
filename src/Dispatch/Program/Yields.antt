-- ===== src/Dispatch/Program/Yields.antt =====
-- What tasks return.
use pycodebridge.Base.{Bool, true, false, List, if◌then◌else◌}
use pycodebridge.Dispatch.Program.{
  Failure, Outcome, returned, raised, Event, Answers, Task, pass, next_of, ◌>>=◌, handled, try_else,
  closed, close_with, finally,
}

-- What is returned, if anything is, has the property.
abbrev pub Returns : {A : Type 0} → (A → Type 0) → Outcome A → Type 0
Returns P (returned a) = P a
Returns P (raised e) = Unit

abbrev pub Yields : {A : Type 0} → (A → Type 0) → Task A → Type 0
Yields P task = (answers : Answers) (h : List Event) → Returns P (task answers h).0

next-Returns :
    {A B : Type 0} (P : B → Type 0) (k : A → Task B)
    → ((a : A) → Yields P (k a))
    → (answers : Answers) (r : Outcome A × List Event) → Returns P (next_of k answers r).0
next-Returns P k kt answers (returned a, h) = kt a answers h
next-Returns P k kt answers (raised e, h) = tt

pub bind-Yields :
    {A B : Type 0} (P : B → Type 0) (m : Task A) (k : A → Task B)
    → ((a : A) → Yields P (k a))
    → Yields P (m >>= k)
unfolding ◌>>=◌
bind-Yields P m k kt answers h = next-Returns P k kt answers (m answers h)

handled-Returns :
    {A B : Type 0} (P : B → Type 0) (k : A → Task B) (f : Failure → Task B)
    → ((a : A) → Yields P (k a))
    → ((e : Failure) → Yields P (f e))
    → (answers : Answers) (r : Outcome A × List Event) → Returns P (handled k f answers r).0
handled-Returns P k f kt ft answers (returned a, h) = kt a answers h
handled-Returns P k f kt ft answers (raised e, h) = ft e answers h

pub try-Yields :
    {A B : Type 0} (P : B → Type 0) (m : Task A) (k : A → Task B) (f : Failure → Task B)
    → ((a : A) → Yields P (k a))
    → ((e : Failure) → Yields P (f e))
    → Yields P (try_else m k f)
unfolding try_else
try-Yields P m k f kt ft answers h = handled-Returns P k f kt ft answers (m answers h)

try_same-Returns :
    {A : Type 0} (P : A → Type 0) (f : Failure → Task A)
    → ((e : Failure) → Yields P (f e))
    → (answers : Answers) (r : Outcome A × List Event) → Returns P r.0
    → Returns P (handled pass f answers r).0
try_same-Returns P f ft answers (returned a, h) p = p
try_same-Returns P f ft answers (raised e, h) p = ft e answers h

closed-Returns :
    {A : Type 0} (P : A → Type 0) (o : Outcome A) (r : Outcome Unit × List Event)
    → Returns P o
    → Returns P (closed o r).0
closed-Returns P o (returned u, h) p = p
closed-Returns P o (raised e, h) p = tt

close-Returns :
    {A : Type 0} (P : A → Type 0) (cleanup : Task Unit) (answers : Answers)
    (r : Outcome A × List Event)
    → Returns P r.0
    → Returns P (close_with cleanup answers r).0
close-Returns P cleanup answers (o, h) p = closed-Returns P o (cleanup answers h) p

pub finally-Yields :
    {A : Type 0} (P : A → Type 0) (m : Task A) (cleanup : Task Unit)
    → Yields P m
    → Yields P (finally m cleanup)
unfolding finally
finally-Yields P m cleanup mt answers h =
    close-Returns P cleanup answers (m answers h) (mt answers h)

chained-Returns :
    {A B : Type 0} (Q : A → Type 0) (P : B → Type 0) (k : A → Task B)
    → ((a : A) → Q a → Yields P (k a))
    → (answers : Answers) (r : Outcome A × List Event) → Returns Q r.0
    → Returns P (next_of k answers r).0
chained-Returns Q P k kt answers (returned a, h) q = kt a q answers h
chained-Returns Q P k kt answers (raised e, h) q = tt

-- The rest of a task may use what its first part returns.
pub chain-Yields :
    {A B : Type 0} (Q : A → Type 0) (P : B → Type 0) (m : Task A) (k : A → Task B)
    → Yields Q m
    → ((a : A) → Q a → Yields P (k a))
    → Yields P (m >>= k)
unfolding ◌>>=◌
chain-Yields Q P m k mt kt answers h = chained-Returns Q P k kt answers (m answers h) (mt answers h)

pub try_same-Yields :
    {A : Type 0} (P : A → Type 0) (m : Task A) (f : Failure → Task A)
    → Yields P m
    → ((e : Failure) → Yields P (f e))
    → Yields P (try_else m pass f)
unfolding try_else
try_same-Yields P m f mt ft answers h = try_same-Returns P f ft answers (m answers h) (mt answers h)

pub if-Yields :
    {A : Type 0} (P : A → Type 0) (b : Bool) (x y : Task A)
    → Yields P x
    → Yields P y
    → Yields P (if b then x else y)
if-Yields P true x y xt yt = xt
if-Yields P false x y xt yt = yt

pub all-Returns : {A : Type 0} (P : A → Type 0) → ((a : A) → P a) → (o : Outcome A) → Returns P o
all-Returns P f (returned a) = f a
all-Returns P f (raised e) = tt
