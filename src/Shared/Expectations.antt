-- ===== src/Shared/Expectations.antt =====
-- shared/events/utils.go: the handler of events that the tests of the services wait with. The matching of
-- a regular expression is an argument.
use Prim.Native.String.{String}
use scalemate.Prelude.{
  ℕ, zero, suc, ◌+◌, ◌*◌, ◌<◌, ◌==◌, ◌≡◌, Bool, false, ◌||◌, List, [], ◌∷◌, ◌++◌, Option, none,
  some, if◌then◌else◌, arith, length, length-append, replicate,
}
use scalemate.Proto.{Event}
use scalemate.Shared.Events.{key_for_event}

-- `MessagesTestingHandler`, by the keys that it received.
abbrev pub MessagesTestingHandler : Type 0
MessagesTestingHandler = List String

-- `NewMessagesTestingHandler`
unfoldable pub new_messages_testing_handler : MessagesTestingHandler
new_messages_testing_handler = []

-- `MessagesTestingHandler.Handle`
unfoldable pub handle_testing : Event → MessagesTestingHandler → MessagesTestingHandler
handle_testing event received = received ++ key_for_event event ∷ []

module _ (matches : String → String → Bool) where
  -- Whether a key that was received matches.
  abbrev pub any_match : String → List String → Bool
  any_match key [] = false
  any_match key (actual ∷ received) = matches key actual || any_match key received

  -- One round over the expected keys: those that are matched.
  unfoldable pub match_round : List String → List String → List String
  match_round [] received = []
  match_round (key ∷ keys) received =
      let rest = match_round keys received in if any_match key received then key ∷ rest else rest

  -- The loop of `ExpectMessages`, over what has been received at each round; none as long as it goes on.
  -- The case for the time that is over is never taken, since its timer is made anew in each round and the
  -- other case is always ready.
  unfoldable pub expect_loop : List String → List String → List (List String) → Option (List String)
  expect_loop keys matched [] = if length matched == length keys then some matched else none
  expect_loop keys matched (received ∷ later) =
      let rest = expect_loop keys (matched ++ match_round keys received) later in
      if length matched == length keys then some matched else rest

  -- While nothing that is expected is received, the loop goes on, for any number of rounds.
  expect_loop-waits :
      (keys received : List String) (rounds : ℕ)
      → match_round keys received ≡ []
      → 0 < length keys
      → expect_loop keys [] (replicate rounds received) ≡ none
  unfolding expect_loop
  expect_loop-waits keys received zero nothing some_keys = ground arith
  expect_loop-waits keys received (suc rounds) nothing some_keys =
      rw nothing (ground (arith, expect_loop-waits keys received rounds nothing some_keys))

  -- A key that is matched counts once for each round: the loop ends as soon as the rounds make up the
  -- number of keys, also if some of the keys are never received.
  expect_loop-recounts :
      (keys received matched : List String) (rounds : ℕ)
      → 0 < length (match_round keys received)
      → length matched + rounds * length (match_round keys received) ≡ length keys
      → (out : List String) × (expect_loop keys matched (replicate rounds received) ≡ some out)
  unfolding expect_loop
  expect_loop-recounts keys received matched zero some_matched counted =
      (matched, ground (arith, counted))
  expect_loop-recounts keys received matched (suc rounds) some_matched counted =
      let longer = length-append matched (match_round keys received) in
      let (out, e) =
        expect_loop-recounts keys received (matched ++ match_round keys received) rounds
          some_matched (omega (arith, longer, counted)) in
      (out, ground (arith, e, counted, some_matched))
