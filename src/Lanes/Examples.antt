-- ===== src/Lanes/Examples.antt =====
-- Two residents of one lane: the first is served in rotation, the second parked and claimed.
use o.Prelude.{true, false, refl, [], ◌∷◌, arith}
use o.Lanes.{Lanes, new_lanes, try_push, take, park_front, claim}
use o.Lanes.Ready.{Schedule, IsReady, stood, inside, idle, waiting}
use o.Lanes.Push.{queued}
use o.Lanes.Leave.{left}
use o.Lanes.Fresh.{nothing_queued, ascending}
use o.Lanes.History.{Steps, push, serve, suspend, reclaim, here, after, Answers, run-new_lanes}

abbrev one_pushed : Lanes
one_pushed = (try_push (new_lanes 2) 5).1

abbrev two_pushed : Lanes
two_pushed = (try_push one_pushed 5).1

abbrev first_served : Lanes
first_served = (take true two_pushed).1

abbrev one_queued : Schedule
one_queued = queued nothing_queued 5 0

abbrev two_queued : Schedule
two_queued = queued one_queued 5 1

abbrev one_left : Schedule
one_left = stood (left true two_queued 5 0 0) 0 idle

-- The other resident is parked, and claimed.
abbrev one_parked : Lanes
one_parked = (park_front first_served 5).1

abbrev both_out : Schedule
both_out = stood (left false one_left 5 0 0) 1 waiting

abbrev one_claimed : Lanes
one_claimed = (claim one_parked 1).1

abbrev one_freed : Schedule
one_freed = stood both_out 1 inside

claimed : Steps 2 (new_lanes 2) nothing_queued (ascending 0 2) one_claimed one_freed (1 ∷ [])
claimed =
    after
      (after
        (after (after (after here (push 5 0 (1 ∷ []) (omega arith))) (push 5 1 [] (omega arith)))
          (serve true [] (omega arith)))
        (suspend 0 [] (omega arith)))
      (reclaim 1 [] (omega arith) refl)

run-new_lanes_example :
    IsReady 2 one_claimed one_freed (1 ∷ []) × Answers 2 one_claimed one_freed (1 ∷ [])
run-new_lanes_example = run-new_lanes 2 one_claimed one_freed (1 ∷ []) (omega arith) claimed
