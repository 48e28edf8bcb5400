-- ===== src/Executor/Tests.antt =====
-- Runs of the two executors, with numbers as tasks.
use tensorpipe.Prelude.{ℕ, ◌≡◌, ◌≢◌, refl, [], ◌∷◌, ◌++◌, arith}
use tensorpipe.Executor
use tensorpipe.Executor.{
  OnDemand, new_on_demand, outside, at_head, in_task, take_task, defers, takes, here, next,
  proceed_for, Place,
}
use tensorpipe.Executor.Laws.{IsDrained, Reaches-one_loop, Reaches-in_order, proceed_for-drains}
use tensorpipe.Executor.EventLoop
use tensorpipe.Executor.EventLoop.{EventLoop, start_thread, handed_over, proceed}
use tensorpipe.Executor.HandOver.{left, Reaches-hand_over, proceed_for-hands_over}

-- Thread 1 is the loop, and is in its first task; thread 2 has deferred another.
abbrev two_deferred : OnDemand ℕ
two_deferred = Executor.defer_to_loop 2 20 (Executor.defer_to_loop 1 10 new_on_demand)

abbrev in_first_task : OnDemand ℕ
in_first_task = take_task 1 two_deferred

abbrev first_thread : ℕ
first_thread = 1

in_first_task_place : in_first_task.place 1 ≡ in_task 10
unfolding Executor.defer_to_loop take_task new_on_demand
in_first_task_place = refl

in_first_task_inside : in_first_task.place 1 ≢ outside
unfolding Executor.defer_to_loop take_task new_on_demand
in_first_task_inside e = ground arith

in_first_task_reached : Executor.Reaches new_on_demand in_first_task
unfolding Executor.defer_to_loop take_task new_on_demand
in_first_task_reached =
    next (next (next here (defers 1 10 (λ e. ground arith))) (defers 2 20 (λ e. ground arith)))
      (takes 1 refl)

Reaches-one_loop_example : first_thread ≡ first_thread
Reaches-one_loop_example =
    Reaches-one_loop in_first_task first_thread first_thread in_first_task_reached
      in_first_task_inside in_first_task_inside

Reaches-in_order_example :
    in_first_task.executed ++ in_first_task.pending_tasks ≡ in_first_task.deferred
Reaches-in_order_example = Reaches-in_order in_first_task in_first_task_reached

proceed_for-drains_example : IsDrained in_first_task (proceed_for 4 in_first_task)
unfolding Executor.defer_to_loop take_task new_on_demand
proceed_for-drains_example = proceed_for-drains in_first_task in_first_task_reached

-- The thread runs the function that was deferred before its event loop returned, and hands over.
abbrev one_deferred : EventLoop ℕ
one_deferred = EventLoop.defer_to_loop 1 5 (start_thread 7)

one_deferred_reached : EventLoop.Reaches (start_thread 7) one_deferred
unfolding start_thread new_on_demand
one_deferred_reached = EventLoop.next EventLoop.here (EventLoop.defers 1 5 (λ e. ground arith))

proceed_for-hands_over_example :
    ((EventLoop.proceed_for (left one_deferred) one_deferred).stage ≡ handed_over)
    × ((EventLoop.proceed_for (left one_deferred) one_deferred).executed ≡ one_deferred.deferred)
proceed_for-hands_over_example = proceed_for-hands_over 7 one_deferred one_deferred_reached

abbrev finished : EventLoop ℕ
finished = proceed (proceed (proceed (proceed one_deferred)))

abbrev after_hand_over : EventLoop ℕ
after_hand_over = EventLoop.defer_to_loop 2 6 finished

after_hand_over_executed : after_hand_over.executed ≡ 5 ∷ []
unfolding start_thread new_on_demand proceed EventLoop.proceed_from EventLoop.look_for_last
    EventLoop.run_batch EventLoop.defer_to_loop
after_hand_over_executed = refl

after_hand_over_reached : EventLoop.Reaches (start_thread 7) after_hand_over
unfolding start_thread new_on_demand proceed EventLoop.proceed_from EventLoop.look_for_last
    EventLoop.run_batch EventLoop.defer_to_loop
after_hand_over_reached =
    EventLoop.next
      (EventLoop.next
        (EventLoop.next
          (EventLoop.next (EventLoop.next one_deferred_reached EventLoop.proceeds)
            EventLoop.proceeds)
          EventLoop.proceeds)
        EventLoop.proceeds)
      (EventLoop.defers 2 6 (λ e. ground arith))

after_hand_over_inside : after_hand_over.on_demand_loop.place 2 ≢ outside
unfolding start_thread new_on_demand proceed EventLoop.proceed_from EventLoop.look_for_last
    EventLoop.run_batch EventLoop.defer_to_loop Executor.defer_to_loop
after_hand_over_inside e = ground arith

Reaches-hand_over_example :
    (after_hand_over.stage ≡ handed_over) × (after_hand_over.executed ≡ after_hand_over.deferred)
Reaches-hand_over_example =
    Reaches-hand_over 7 after_hand_over 2 after_hand_over_reached after_hand_over_inside
