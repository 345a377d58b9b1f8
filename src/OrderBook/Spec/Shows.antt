-- ===== src/OrderBook/Spec/Shows.antt =====
-- The book shows a list of orders: the relation between the code's state and that of Spec.
use burst_resilient_feed_han.Base.{ℕ, suc, ◌^◌, ◌<◌, ◌≤◌, ◌≡◌, refl, List, [], arith}
use burst_resilient_feed_han.OrderBook.Types.{OrderBook, OrderBookConfig, OrderBookStats}
use burst_resilient_feed_han.OrderBook.Price.{init, normalise, level_count}
use burst_resilient_feed_han.OrderBook.Price.Laws.{IsConfig, normalise-IsConfig}
use burst_resilient_feed_han.OrderBook.Pool.Nodes.{init-IsPool}
use burst_resilient_feed_han.OrderBook.Links.Fifo.{Entry}
use burst_resilient_feed_han.OrderBook.Heap.{IsBook, entries}

-- The book, made for the configuration `c`, shows `es`; `n` more orders can be counted.
pub record Shows (n : ℕ) (c : OrderBookConfig) (b : OrderBook) (es : List Entry) : Type 0 where
  pub live : List ℕ
  pub free : List ℕ
  pub ok : IsBook n b live free
  pub seen : entries b.pool.node live ≡ es
  pub config : IsConfig c
  pub same : b.cfg ≡ c
  pub sized : b.num_levels ≡ level_count c

module _ (n : ℕ) (b : OrderBook) (live free : List ℕ) where
  pub IsBook-fewer : IsBook (suc n) b live free → IsBook n b live free
  IsBook-fewer v = record {
    pool_ok = v.pool_ok;
    distinct = v.distinct;
    distinct_refs = v.distinct_refs;
    indexed = v.indexed;
    level_ok = v.level_ok;
    small = v.small;
    counted = v.counted;
    countable = omega (arith, v.countable);
    numbered = v.numbered;
  }

  pub IsBook-stats :
      (s : OrderBookStats) → IsBook n b live free → IsBook n (record b { stats = s }) live free
  IsBook-stats s v = record {
    pool_ok = v.pool_ok;
    distinct = v.distinct;
    distinct_refs = v.distinct_refs;
    indexed = v.indexed;
    level_ok = v.level_ok;
    small = v.small;
    counted = v.counted;
    countable = v.countable;
    numbered = v.numbered;
  }

module _ (n : ℕ) (c : OrderBookConfig) (b : OrderBook) (es : List Entry) where
  pub Shows-fewer : Shows (suc n) c b es → Shows n c b es
  Shows-fewer v = record {
    live = v.live;
    free = v.free;
    ok = IsBook-fewer n b v.live v.free v.ok;
    seen = v.seen;
    config = v.config;
    same = v.same;
    sized = v.sized;
  }

  pub Shows-stats : (s : OrderBookStats) → Shows n c b es → Shows n c (record b { stats = s }) es
  Shows-stats s v = record {
    live = v.live;
    free = v.free;
    ok = IsBook-stats n b v.live v.free s v.ok;
    seen = v.seen;
    config = v.config;
    same = v.same;
    sized = v.sized;
  }

-- A fresh book shows nothing.
pub init-Shows :
    (n : ℕ) (c : OrderBookConfig)
    → n < 2 ^ 32
    → level_count (normalise c) ≤ 2 ^ 32
    → Shows n (normalise c) (init c) []
unfolding init
init-Shows n c h m = record {
  live = [];
  free = [];
  ok = record {
    pool_ok = init-IsPool c.pool_chunk;
    distinct = tt;
    distinct_refs = tt;
    indexed = λ r. refl;
    level_ok = λ i. record {
      fifo = record { chained = tt; front = refl; back = refl };
      aggregated = refl;
      counted = refl;
    };
    small = tt;
    counted = refl;
    countable = omega arith;
    numbered = m;
  };
  seen = refl;
  config = normalise-IsConfig c;
  same = refl;
  sized = refl;
}
