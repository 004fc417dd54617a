-- ===== src/Tests/Flow.antt =====
-- Flow control at a limit of five messages.
use deltio.Prelude.{arith, false, refl, true, ◌≡◌, nat_eq}
use deltio.Subscriptions.FlowControl.{FlowControl, create, inc, dec, has_available_space, HasWords}

abbrev five : FlowControl
five = create 16 5

full : has_available_space (inc 8 1 (inc 8 1 five)) ≡ false
unfolding has_available_space inc
full = refl

available_again : has_available_space (dec 8 1 (inc 8 1 (inc 8 1 five))) ≡ true
unfolding has_available_space inc dec
available_again = refl

five-HasWords : HasWords five
five-HasWords = record { bytes = omega arith; messages = omega arith }
