-- ===== src/Context.antt =====
-- core/context_impl.cc: the transports and channels by priority, and the listeners and pipes that
-- are enrolled. A listener or a pipe is known by its number among those initialized, and is dead
-- once it has an error; it unenrolls itself then, in its own `handleError`.
pub mod Priorities
pub mod Enrolled
mod Tests
use Prim.Native.String.{String}
use text.Mathlib.Text.{◌==◌ as str_eq}
use tensorpipe.Prelude.{
  ℕ, zero, suc, ◌+◌, ◌-◌, ◌^◌, ◌==◌, Bool, true, false, not, ◌&&◌, ◌||◌, none, some, List, [], ◌∷◌,
  ltb, if◌then◌else◌,
}
use tensorpipe.Pipe.Types.{ℤ, pos, negsuc, int_eq, Error, is_error}
use tensorpipe.Listener.{erase, contains}

-- `transports_` with `transportsByPriority_`, and the same for the channels. The keys of the second
-- map are the priorities negated, in increasing order.
pub record Registry : Type 0 where
  pub names : List String
  pub by_priority : List (ℤ × String)

abbrev pub int_lt : ℤ → ℤ → Bool
int_lt (pos a) (pos b) = ltb a b
int_lt (pos a) (negsuc b) = false
int_lt (negsuc a) (pos b) = true
int_lt (negsuc a) (negsuc b) = ltb b a

-- The unary minus of an `int64_t`. That of the least number overflows, for which C++ defines no
-- result: here it is the number itself, as where the word wraps around.
unfoldable pub negate64 : ℤ → ℤ
negate64 (pos zero) = pos 0
negate64 (pos (suc n)) = negsuc n
negate64 (negsuc n) = if n == 2 ^ 63 - 1 then negsuc n else pos (n + 1)

abbrev pub has_key : String → List String → Bool
has_key name [] = false
has_key name (n ∷ ns) = str_eq n name || has_key name ns

abbrev pub has_priority : ℤ → List (ℤ × String) → Bool
has_priority p [] = false
has_priority p ((q, n) ∷ rest) = int_eq q p || has_priority p rest

-- `emplace` on the ordered map
unfoldable pub emplace_priority : ℤ → String → List (ℤ × String) → List (ℤ × String)
emplace_priority p name [] = (p, name) ∷ []
emplace_priority p name ((q, n) ∷ rest) =
    let more = emplace_priority p name rest in
    if int_lt p q then (p, name) ∷ (q, n) ∷ rest else (q, n) ∷ more

-- `registerTransport` and `registerChannel`, told whether the context is viable, and whether one
-- of the assertions throws
unfoldable pub register_context : ℤ → String → Bool → Registry → Registry × Bool
register_context priority name viable r =
    if str_eq name "" || has_key name r.names || has_priority (negate64 priority) r.by_priority
    then (r, true)
    else if viable
    then (
      record {
        names = name ∷ r.names;
        by_priority = emplace_priority (negate64 priority) name r.by_priority;
      },
      false,
    )
    else (r, false)

unfoldable pub register_contexts : List (ℤ × String × Bool) → Registry → Registry
register_contexts [] r = r
register_contexts ((priority, name, viable) ∷ rest) r =
    register_contexts rest (register_context priority name viable r).0

-- The listeners, or the pipes: `initialized` counts them, `enrolled` is the context's map, and
-- `dead` are those with an error. `enrolled_checked` tells whether every TP_DCHECK of `enroll` and
-- `unenroll` has held.
pub record Enrollment : Type 0 where
  pub initialized : ℕ
  pub enrolled : List ℕ
  pub dead : List ℕ
  pub enrolled_checked : Bool

-- `contexts_closed` tells whether the context has called `close` of its transports and channels.
pub record Context : Type 0 where
  pub error : Error
  pub listeners : Enrollment
  pub pipes : Enrollment
  pub contexts_closed : Bool

-- `enroll`
unfoldable pub enroll : ℕ → Enrollment → Enrollment
enroll n e = record e {
  enrolled = n ∷ e.enrolled;
  enrolled_checked = e.enrolled_checked && not (contains n e.enrolled);
}

-- `unenroll`
unfoldable pub unenroll : ℕ → Enrollment → Enrollment
unenroll n e = record e {
  enrolled = erase n e.enrolled;
  enrolled_checked = e.enrolled_checked && contains n e.enrolled;
}

-- `initFromLoop` of a listener or a pipe, told whether the context is closed
unfoldable pub initialize : Bool → Enrollment → Enrollment
initialize closed e =
    let n = e.initialized in
    let e' : Enrollment = record e { initialized = n + 1 } in
    if closed then record e' { dead = n ∷ e.dead } else enroll n e'

-- `setError` of a listener or a pipe, with an error
unfoldable pub fail : ℕ → Enrollment → Enrollment
fail n e = if contains n e.dead then e else unenroll n (record e { dead = n ∷ e.dead })

-- The loop of `handleError` over a copy of the map
unfoldable pub close_each : List ℕ → Enrollment → Enrollment
close_each [] e = e
close_each (n ∷ ns) e = close_each ns (fail n e)

abbrev pub context_closed_error : ℕ
context_closed_error = 0

-- `closeFromLoop`, with `setError` and `handleError` of the context
unfoldable pub close_context : Context → Context
close_context c = if is_error c.error then c else record {
  error = some context_closed_error;
  listeners = close_each c.listeners.enrolled c.listeners;
  pipes = close_each c.pipes.enrolled c.pipes;
  contexts_closed = true;
}

abbrev pub new_enrollment : Enrollment
new_enrollment = record { initialized = 0; enrolled = []; dead = []; enrolled_checked = true }

abbrev pub new_context : Context
new_context = record {
  error = none;
  listeners = new_enrollment;
  pipes = new_enrollment;
  contexts_closed = false;
}

-- What the loop of a context runs. A listener or a pipe fails that has been initialized.
pub data ContextEvent : Type 0 where
  listener_initialized pipe_initialized context_closed : ContextEvent
  listener_fails pipe_fails : ℕ → ContextEvent

unfoldable pub handle : Context → ContextEvent → Context
handle c listener_initialized = record c { listeners = initialize (is_error c.error) c.listeners }
handle c pipe_initialized = record c { pipes = initialize (is_error c.error) c.pipes }
handle c context_closed = close_context c
handle c (listener_fails n) =
    if ltb n c.listeners.initialized then record c { listeners = fail n c.listeners } else c
handle c (pipe_fails n) =
    if ltb n c.pipes.initialized then record c { pipes = fail n c.pipes } else c

unfoldable pub handle_all : Context → List ContextEvent → Context
handle_all c [] = c
handle_all c (event ∷ events) = handle_all (handle c event) events
