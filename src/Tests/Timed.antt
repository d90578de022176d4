-- ===== src/Tests/Timed.antt =====
-- A flight tracker with a maximum duration of 100, asked about a pod at the time 7, at the time 40.
use straggler.Base.{◌+◌, ◌/◌, [], ◌∷◌, arith, string_dec}
use straggler.Base.Result.{ok}
use straggler.Controller.Types.{Client}
use straggler.Controller.Flights.{new_flight_tracker}
use straggler.Controller.Flights.Steps.Ages.{Late}
use straggler.Controller.Flights.Steps.Every.{Every}
use straggler.Controller.Flights.Steps.Timed.{
  Clocked, Step, Reach, start, step, pass, call, made, Reach-age,
}
use straggler.Controller.Flights.{begin_wait}
use straggler.Controller.Flights.Steps.{enqueue}
use straggler.Tests.{first}

abbrev client : Client (Unit {0})
client = record {
  get = λ _ w. (ok first, w);
  list = λ _ _ w. (ok (first ∷ []), w);
  evict = λ _ w. (ok tt, w);
}

abbrev at_start : Clocked
at_start = made 100 "group" 7

abbrev called : Clocked
called = record at_start { state = enqueue (begin_wait 7 "g" first.meta at_start.state.tracker) [] }

abbrev at_40 : Clocked
at_40 = record called { clock = 40 }

called_once : Step client 5 at_start called
called_once = call "g" first.meta

waited : Step client 5 called at_40
unfolding begin_wait new_flight_tracker string_dec
waited = pass 40 (omega arith) (omega arith) (omega arith)

run : Reach client 5 at_start at_40
run = step called at_40 (step at_start called start called_once) waited

Reach-age_example : Every (Late (100 + 100 / 2 + 5) 40) at_40.state.tracker.flights_by_key
Reach-age_example = Reach-age client 5 100 "group" 7 at_40 (omega arith) run
