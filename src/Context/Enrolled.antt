-- ===== src/Context/Enrolled.antt =====
-- core/context_impl.cc: the listeners and the pipes that are enrolled are those alive, and closing
-- the context leaves none.
use tensorpipe.Prelude.{ℕ, ◌<◌, ◌≡◌, Bool, true, not, []}
use tensorpipe.Pipe.Types.{is_error}
use tensorpipe.Listener.{contains}
use tensorpipe.Context.{Enrollment, Context}

-- Enrolled is what has been initialized and is alive, where the context has not been closed; none
-- is, where it has.
pub record IsEnrollment (closed : Bool) (e : Enrollment) : Type 0 where
  pub known : (k : ℕ) → contains k e.enrolled ≡ true → k < e.initialized
  pub dead_known : (k : ℕ) → contains k e.dead ≡ true → k < e.initialized
  pub alive : (k : ℕ) → k < e.initialized → contains k e.enrolled ≡ not (contains k e.dead)
  pub emptied : closed ≡ true → e.enrolled ≡ []
  pub checked : e.enrolled_checked ≡ true

abbrev pub IsContext : Context → Type 0
IsContext c = IsEnrollment (is_error c.error) c.listeners × IsEnrollment (is_error c.error) c.pipes
