-- ===== src/Pipeline/Shown.antt =====
-- The whole path of a message, from its arrival to the orders that the book shows.
use burst_resilient_feed_han.Base.{
  ℕ, ◌+◌, ◌^◌, ◌<◌, ◌≤◌, ◌≡◌, refl, sym, subst, none, some, List, [], ◌∷◌, ◌==◌, length, arith, inl,
  inr, Bool-cases,
}
use burst_resilient_feed_han.Event.{MarketEvent}
use burst_resilient_feed_han.Sequencer
use burst_resilient_feed_han.Sequencer.{SequencerConfig}
use burst_resilient_feed_han.Sequencer.Drain.{feed, Agrees}
use burst_resilient_feed_han.Sequencer.Buffer.{find}
use burst_resilient_feed_han.Sequencer.InOrder.{NoOverflow, feed_in_order, length-feed}
use burst_resilient_feed_han.OrderBook.Types.{OrderBook, OrderBookConfig}
use burst_resilient_feed_han.OrderBook.Price
use burst_resilient_feed_han.OrderBook.Price.{normalise, level_count}
use burst_resilient_feed_han.OrderBook.Spec.Shows.{Shows, init-Shows}
use burst_resilient_feed_han.OrderBook.Spec.Apply.{apply_all, AllFit, apply_all-Shows, change_all}
use burst_resilient_feed_han.Pipeline.{init, consume}
use burst_resilient_feed_han.Pipeline.Consume.{consume-Follows}

-- Each message's event has a size of 32 bits.
abbrev pub EachFits : List (ℕ × MarketEvent) → Type 0
EachFits [] = Unit {0}
EachFits ((k, ev) ∷ ms) = (ev.size < 2 ^ 32) × EachFits ms

find-fits :
    (k : ℕ) (ev : MarketEvent) (ms : List (ℕ × MarketEvent))
    → EachFits ms
    → find k ms ≡ some ev
    → ev.size < 2 ^ 32
unfolding find
find-fits k ev [] fit e = absurd (ground arith)
find-fits k ev ((j, x) ∷ ms) fit e = elim (Bool-cases (j == k)) [
  | inl t ↦
      let same : x ≡ ev = ground (arith, t) in
      subst (λ (y : MarketEvent). y.size < 2 ^ 32) same fit.0
  | inr f ↦ find-fits k ev ms fit.1 (ground (arith, f))
]

Agrees-AllFit :
    (k : ℕ) (ds : List MarketEvent) (ms : List (ℕ × MarketEvent))
    → EachFits ms
    → Agrees k ds ms
    → AllFit ds
Agrees-AllFit k [] ms fit a = tt
Agrees-AllFit k (d ∷ ds) ms fit a = (find-fits k d ms fit a.0, Agrees-AllFit (k + 1) ds ms fit a.1)

Shows-apply_all :
    (n : ℕ) (cfg : OrderBookConfig) (ds : List MarketEvent)
    → length ds ≤ n
    → n < 2 ^ 32
    → level_count (normalise cfg) ≤ 2 ^ 32
    → AllFit ds
    → Shows 0 (normalise cfg) (apply_all ds (Price.init cfg)) (change_all (normalise cfg) ds [])
Shows-apply_all n cfg ds le fits levels fit =
    apply_all-Shows (normalise cfg) ds (Price.init cfg) [] fit
      (init-Shows (length ds) cfg (omega arith) levels)

-- Over a stream of less than 2^32 messages in any order, with repeats, that never overflows the
-- reorder buffer (nor the 64-bit counter), whose sizes fit 32 bits, and with a price band of at
-- most 2^32 levels: the consumer's book shows exactly the orders, oldest first, that the first
-- arrivals of `start_seq`, `start_seq + 1` and so on make of an empty list in this order, up to the
-- first number that has not arrived.
pub consume-Shows :
    (book_cfg : OrderBookConfig) (seq_cfg : SequencerConfig) (ms : List (ℕ × MarketEvent))
    → seq_cfg.start_seq + length ms + 2 < 2 ^ 64
    → length ms < 2 ^ 32
    → level_count (normalise book_cfg) ≤ 2 ^ 32
    → EachFits ms
    → NoOverflow ms (Sequencer.init seq_cfg)
    → (ds : List MarketEvent) × Agrees seq_cfg.start_seq ds ms
      × (find (seq_cfg.start_seq + length ds) ms ≡ none)
      × Shows 0
          (normalise book_cfg)
          (consume ms (init book_cfg seq_cfg)).book
          (change_all (normalise book_cfg) ds [])
unfolding init
consume-Shows book_cfg seq_cfg ms h few levels fit n =
    let (ds, s) = feed ms (Sequencer.init seq_cfg) in
    let (agrees, next, counted, _) = feed_in_order seq_cfg ms h n in
    let v = consume-Follows ms (init book_cfg seq_cfg) (Sequencer.init seq_cfg) refl n in
    (
      ds,
      agrees,
      subst (λ (k : ℕ). find k ms ≡ none) counted next,
      subst
          (λ (b : OrderBook).
            Shows 0 (normalise book_cfg) b (change_all (normalise book_cfg) ds []))
          (sym v.book)
          (Shows-apply_all (length ms) book_cfg ds (length-feed seq_cfg ms h n) few levels
            (Agrees-AllFit seq_cfg.start_seq ds ms fit agrees)),
    )
