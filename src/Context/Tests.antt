-- ===== src/Context/Tests.antt =====
-- Runs of a context.
use Prim.Native.String.{String}
use tensorpipe.Prelude.{Bool, true, List, [], ◌∷◌, refl, ◌≡◌, arith}
use tensorpipe.Pipe.Types.{ℤ, pos, negsuc}
use tensorpipe.Context.{
  register_contexts, emplace_priority, register_context, negate64, ContextEvent,
  listener_initialized, pipe_initialized, pipe_fails, context_closed,
}
use tensorpipe.Context.Priorities.{IsRegistry, register_contexts-IsRegistry}

abbrev three_transports : List (ℤ × String × Bool)
three_transports =
    (pos 0, "uv", true)
    ∷ (pos 10, "shm", true)
    ∷ (negsuc 0, "ibv", true)
    ∷ (pos 10, "cma", true)
    ∷ []

three_transports_ranked :
    (register_contexts three_transports (record { names = []; by_priority = [] })).by_priority
    ≡ (negsuc 9, "shm") ∷ (pos 0, "uv") ∷ (pos 1, "ibv") ∷ []
unfolding register_contexts register_context emplace_priority negate64
three_transports_ranked = refl

register_contexts-IsRegistry_example :
    IsRegistry three_transports
      (register_contexts three_transports (record { names = []; by_priority = [] }))
register_contexts-IsRegistry_example =
    register_contexts-IsRegistry three_transports
      (omega arith, (omega arith, (omega arith, (omega arith, tt))))

abbrev a_context_life : List ContextEvent
a_context_life =
    listener_initialized
    ∷ pipe_initialized
    ∷ pipe_initialized
    ∷ pipe_fails 1
    ∷ context_closed
    ∷ pipe_initialized
    ∷ pipe_fails 0
    ∷ []
