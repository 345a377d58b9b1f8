-- ===== src/Pipeline.antt =====
-- The consumer thread of `run_pipeline` in src/pipeline.cpp: sequencer, book and publisher
-- together. The latency histogram, the recovery times and the simulated downstream cost are left
-- out: they read the clock and nothing reads them back.
pub mod Consume
pub mod Shown
pub mod Ingest
pub mod GapInjection
mod Tests
use burst_resilient_feed_han.Base.{ℕ, zero, suc, none, some, List, [], ◌∷◌, length}
use burst_resilient_feed_han.Base.Word.{inc64}
use burst_resilient_feed_han.Event.{MarketEvent}
use burst_resilient_feed_han.Sequencer
use burst_resilient_feed_han.Sequencer.{
  Sequencer, SequencerConfig, Disposition, offer, pop_ready, resync_to_snapshot,
}
use burst_resilient_feed_han.OrderBook.Types.{OrderBook, OrderBookConfig}
use burst_resilient_feed_han.OrderBook.Orders
use burst_resilient_feed_han.OrderBook.Levels
use burst_resilient_feed_han.OrderBook.Price
use burst_resilient_feed_han.Publisher
use burst_resilient_feed_han.Publisher.{Publisher, on_update}

pub record Consumer : Type 0 where
  pub book : OrderBook
  pub seq : Sequencer
  pub publisher : Publisher
  pub msgs : ℕ

unfoldable pub init : OrderBookConfig → SequencerConfig → Consumer
init book_cfg seq_cfg = record {
  book = Price.init book_cfg;
  seq = Sequencer.init seq_cfg;
  publisher = Publisher.init;
  msgs = 0;
}

unfoldable pub apply_ev : MarketEvent → Consumer → Consumer
apply_ev e c =
    let book = Orders.apply e c.book in
    record c { book = book; publisher = (on_update book c.publisher).1 }

-- `while (seq.pop_ready(r)) apply_ev(r);`, with fuel: as in Sequencer/Drain, one round more than
-- there are entries in the buffer.
unfoldable pub drain_into_fuel : ℕ → Consumer → Consumer
drain_into_fuel zero c = c
drain_into_fuel (suc fuel) c =
    let (out, s) = pop_ready c.seq in
    elim out [
      | none ↦ record c { seq = s }
      | some r ↦ drain_into_fuel fuel (apply_ev r (record c { seq = s }))
    ]

unfoldable pub drain_into : Consumer → Consumer
drain_into c = drain_into_fuel (suc (length c.seq.reorder)) c

-- The branches of `handle` on what `offer` answered.
unfoldable pub handle_as : Disposition → ℕ → MarketEvent → Consumer → Consumer
handle_as Sequencer.apply sequence event c = drain_into (apply_ev event c)
handle_as Sequencer.overflow sequence event c =
    apply_ev event
      (record c { book = Levels.reset c.book; seq = resync_to_snapshot sequence c.seq })
handle_as Sequencer.drop sequence event c = c
handle_as Sequencer.buffered sequence event c = c

unfoldable pub handle : ℕ → MarketEvent → Consumer → Consumer
handle sequence event c =
    let (d, s) = offer sequence event c.seq in
    handle_as d sequence event (record c { msgs = inc64 c.msgs; seq = s })

-- `while (channel.receive(m)) handle(m);`
unfoldable pub consume : List (ℕ × MarketEvent) → Consumer → Consumer
consume [] c = c
consume ((sequence, event) ∷ ms) c = consume ms (handle sequence event c)
