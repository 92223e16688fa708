-- ===== src/Net/Examples/Threads.antt =====
-- The turns of two clients' threads that interleave.
use osh.Prelude.{
  Bool, ◌↔◌, ℕ, ◌≡◌, refl, List, [], ◌∷◌, ◌++◌, ◌-◌, ◌==◌, true, some, update, replicate, take,
}
use osh.Net.CString.{strlen, strncat_one, c_string}
use osh.Net.Hi.{Process, Steps}
use osh.Net.Hi.Handlers.{
  Handler, testing, printing, closing, turn, Crowd, Acts, done, next, create, loop, print, alone,
}
use osh.Net.Hi.Handlers.Realised.{Acts-Steps}
use osh.Net.Hi.Handlers.Track.{is_serving}
use osh.Net.Examples.{idle, idle-start, setup, setup-listening, sent, hi_line}

-- the array once `count` bytes of the line have been read
abbrev holding : ℕ → List ℕ
holding count = take count hi_line ++ replicate (128 - count) 0

-- a thread that has read `count` bytes, the last of which is `tmpchar`
abbrev reading : ℕ → ℕ → Handler
reading count tmpchar = testing (sent hi_line) count tmpchar (count == 3) (holding count)

abbrev at : ℕ → Handler → Crowd → Crowd
at fd h p = record p { handlers = update p.handlers fd (some h) }

abbrev connected : ℕ → Crowd → Crowd
connected fd p = record {
  is_open = update p.is_open fd true;
  handlers = update p.handlers fd (some (reading 0 0));
  printed = p.printed;
}

-- Clients 4 and 5 connect; the thread of 4 reads a byte, that of 5 too, and then that of 4 the rest.
abbrev met : Crowd
met = connected 5 (connected 4 (alone 3))

abbrev mixed : Crowd
mixed = at 5 (reading 1 104) (at 4 (reading 1 104) met)

abbrev done_reading : Crowd
done_reading = at 4 (printing (holding 3)) (at 4 (reading 3 10) (at 4 (reading 2 105) mixed))

-- The line of client 4 is printed; its descriptor is still open.
abbrev printed_hi : Crowd
printed_hi = record {
  is_open = done_reading.is_open;
  handlers = update done_reading.handlers 4 (some closing);
  printed = (4, hi_line) ∷ [];
}

text_of_hi : c_string (holding 3) ≡ some hi_line
unfolding c_string
text_of_hi = refl

interleaved : Acts (alone 3) printed_hi
unfolding turn strlen strncat_one
interleaved = next _ _ _ (create _ 4 0 (sent hi_line) refl) (
    next _ _ _ (create _ 5 0 (sent hi_line) refl) (
      next _ _ _ (loop _ 4 _ _ _ _ _ (reading 1 104) refl refl) (
        next _ _ _ (loop _ 5 _ _ _ _ _ (reading 1 104) refl refl) (
          next _ _ _ (loop _ 4 _ _ _ _ _ (reading 2 105) refl refl) (
            next _ _ _ (loop _ 4 _ _ _ _ _ (reading 3 10) refl refl) (
              next _ _ _ (loop _ 4 _ _ _ _ _ (printing (holding 3)) refl refl)
                (next _ _ _ (print _ 4 (holding 3) hi_line refl text_of_hi) (done _))))))))

-- the descriptors of the threads that have not printed
abbrev still_served : ℕ → Bool
still_served j = is_serving (printed_hi.handlers j)

Acts-Steps_example :
    ((r : Crowd) × Acts (alone 3) r
      × (r.printed ≡ (4, hi_line) ∷ [])
      × ((j : ℕ) → is_serving (r.handlers j) ≡ still_served j))
    ↔ ((q : Process) × Steps idle q
        × (q.printed ≡ (4, hi_line) ∷ [])
        × ((j : ℕ) → q.served j ≡ still_served j))
Acts-Steps_example =
    Acts-Steps setup 3 idle ((4, hi_line) ∷ []) still_served setup-listening idle-start

-- The turns above, in whole steps.
interleaved_test :
    (q : Process) × Steps idle q
    × (q.printed ≡ (4, hi_line) ∷ [])
    × ((j : ℕ) → q.served j ≡ still_served j)
interleaved_test =
    (Acts-Steps setup 3 idle ((4, hi_line) ∷ []) still_served setup-listening idle-start).0
      (printed_hi, interleaved, refl, λ j. refl)
