-- ===== src/Ring/Tests.antt =====
-- A ring of two slots: its theorems at a small run.
use burst_resilient_feed_han.Base.{
  Bool, true, false, some, none, ℕ, ◌≤◌, ◌^◌, ◌≡◌, refl, List, [], ◌∷◌, ◌++◌, length, arith,
}
use burst_resilient_feed_han.Ring.{
  SpscRingBuffer, block, drop, push, pop, looks_full, looks_empty, reload_head, publish, store_item,
  release, load_item, reload_tail,
}
use burst_resilient_feed_han.Base.Word.{inc64, sub64}
use burst_resilient_feed_han.Ring.Channel.{
  SpscChannel, Sent, send, give_up, spin, consumers, send-Sent,
}
use burst_resilient_feed_han.Ring.Contents.{IsRing}
use burst_resilient_feed_han.Ring.Threads
use burst_resilient_feed_han.Ring.Threads.{Act, run, start}
use burst_resilient_feed_han.Ring.Queue.{Pushed, Popped, push-Pushed, pop-Popped}
use burst_resilient_feed_han.Ring.Interleaving.{run_in_order}

-- The consumer begins while the second push is under way.
abbrev schedule : List (Act ℕ)
schedule =
    Threads.push 7
    ∷ Threads.produce
    ∷ Threads.produce
    ∷ Threads.push 8
    ∷ Threads.pop
    ∷ Threads.produce
    ∷ Threads.take_item
    ∷ Threads.take_item
    ∷ Threads.produce
    ∷ Threads.take_item
    ∷ []

run_in_order_example :
    let s = run 1 schedule (start 0) in
    (q : List ℕ) × (s.accepted ≡ s.delivered ++ q) × (length q ≤ 2 ^ 1)
run_in_order_example = run_in_order 1 0 schedule (omega arith)

-- A ring that looks full to its producer, who has not seen the last pop.
abbrev late : SpscRingBuffer ℕ
late = record { head = 2; tail = 3; cached_tail = 2; cached_head = 1; buffer = λ _. 5 }

late-IsRing : (n : ℕ) → n ≤ 9 → IsRing 1 n late (5 ∷ [])
late-IsRing n h = record {
  stored = (refl, tt);
  extent = refl;
  lagging = omega arith;
  within = omega arith;
  ahead = omega arith;
  known = omega arith;
  countable = omega arith;
}

push-Pushed_example : let (done, r) = push 1 6 late in Pushed 1 0 6 (5 ∷ []) done r
push-Pushed_example = push-Pushed 1 0 6 (5 ∷ []) late (late-IsRing 1 (omega arith))

pop-Popped_example : let (out, r) = pop 1 late in Popped 1 0 (5 ∷ []) out r
pop-Popped_example = pop-Popped 1 0 (5 ∷ []) late (late-IsRing 0 (omega arith))

abbrev brimming : SpscRingBuffer ℕ
brimming = record late { tail = 4; cached_head = 2 }

-- The full ring under Drop.
abbrev dropping : SpscChannel ℕ
dropping = record { policy = drop; ring = brimming; dropped = 0 }

brimming-IsRing : IsRing 1 2 brimming (5 ∷ 5 ∷ [])
brimming-IsRing = record {
  stored = (refl, (refl, tt));
  extent = refl;
  lagging = omega arith;
  within = omega arith;
  ahead = omega arith;
  known = omega arith;
  countable = omega arith;
}

-- The same ring under Block.
abbrev patient : SpscChannel ℕ
patient = record dropping { policy = block }

-- Two tries fail before the pop.
abbrev two_fail : List Bool
two_fail = false ∷ false ∷ true ∷ []

enters_at_last : (send 1 6 (consumers 1 two_fail) patient).0 ≡ some true
unfolding send give_up spin push pop looks_full looks_empty reload_head sub64 publish store_item
    release inc64 load_item reload_tail
enters_at_last = refl

goes_on : (send 1 6 (consumers 1 (false ∷ [])) patient).0 ≡ none
unfolding send give_up spin push looks_full reload_head sub64
goes_on = refl

send-Sent_example :
    let (o, d) = send 1 6 (consumers 1 two_fail) patient in
    Sent 1 1 6 (5 ∷ 5 ∷ []) two_fail patient o d
send-Sent_example = send-Sent 1 1 6 (5 ∷ 5 ∷ []) two_fail patient brimming-IsRing
