-- ===== src/Worker/Tests.antt =====
-- A run of a worker, and its theorem at concrete inputs.
use crypto_data_aggregator.Prelude.{ℕ, ◌≡◌, refl, false, List, [], ◌∷◌}
use crypto_data_aggregator.Float.Fixed.{Fixed, fixed, fixed_float}
use crypto_data_aggregator.Worker.{
  Attempt, crashed, cancelled, unsupported, handled, append_raised, stream_ended, raised, returned,
  consume, run_loop, run_worker,
}
use crypto_data_aggregator.Worker.Restarts.{Supervised, run_worker-Supervised}

abbrev two_streams : List (Attempt ℕ Fixed)
two_streams =
    record {
      items = (1, handled) ∷ (2, append_raised crashed) ∷ [];
      ending = stream_ended;
      random = fixed 0;
      cancelled_in_pause = false;
    }
    ∷ record {
      items = (3, handled) ∷ [];
      ending = raised cancelled;
      random = fixed 0;
      cancelled_in_pause = false;
    }
    ∷ []

abbrev no_stream : List (Attempt ℕ Fixed)
no_stream =
    record { items = []; ending = raised unsupported; random = fixed 0; cancelled_in_pause = false }
    ∷ two_streams

exits : (run_worker no_stream).life ≡ returned
unfolding run_worker run_loop consume
exits = refl

-- The item that `writer.append` refused is left out, and the stream after it is served.
keeps_on : (run_worker two_streams).appended ≡ 1 ∷ 3 ∷ []
unfolding run_worker run_loop consume
keeps_on = refl

run_worker-Supervised_example : Supervised two_streams 0 (run_worker two_streams)
run_worker-Supervised_example = run_worker-Supervised two_streams
