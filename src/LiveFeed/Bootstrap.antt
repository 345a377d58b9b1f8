-- ===== src/LiveFeed/Bootstrap.antt =====
-- How the consumer of apps/live_feed.cpp begins a session: the price band around the middle of a
-- snapshot. The half width, a share of the middle price in floating point, is an argument.
use burst_resilient_feed_han.Base.{
  ℕ, ◌+◌, ◌*◌, ◌-◌, ◌/◌, ◌%◌, ◌^◌, Bool, Option, none, some, List, [], ◌∷◌, ◌++◌, length, min, ltb,
  if◌then◌else◌, ◌&&◌, not,
}
use burst_resilient_feed_han.Base.Int.{ℤ, pos, pos_part, neg_part, ◌+ℤ◌, ◌-ℤ◌, ltb_ℤ, eqb_ℤ}
use burst_resilient_feed_han.OrderBook.Types.{OrderBookConfig}
use burst_resilient_feed_han.LiveFeed.{Snapshot, Session, start_session}

-- `s0.ok && s0.best_bid >= 0 && s0.best_ask >= 0`.
unfoldable pub is_ready : Snapshot → Bool
is_ready s0 = s0.ok && not (ltb_ℤ s0.best_bid (pos 0)) && not (ltb_ℤ s0.best_ask (pos 0))

-- The next wait, after a snapshot that is not ready: twice as long under a rate limit, up to 30 s.
unfoldable pub next_backoff : Snapshot → ℕ → ℕ
next_backoff s0 backoff_ms =
    if eqb_ℤ s0.http_status (pos 418) then min (backoff_ms * 2) 30_000 else 800

-- Both prices are known not to be negative.
unfoldable pub mid_price : Snapshot → ℤ
mid_price s0 = pos (pos_part (s0.best_bid +ℤ s0.best_ask) / 2)

-- `OrderBookConfig bc;` has the pool's default chunk.
unfoldable pub band_around : ℤ → ℤ → OrderBookConfig
band_around mid half = record {
  min_price_ticks = if ltb_ℤ (pos 1) (mid -ℤ half) then mid -ℤ half else pos 1;
  max_price_ticks = mid +ℤ half;
  tick = pos 1;
  pool_chunk = 2 ^ 16;
}

-- The cast of the band's span to 64 bits unsigned, and `none` for a band of more than 60 million
-- levels.
unfoldable pub bootstrap : (ℤ → ℤ) → Snapshot → Option Session
bootstrap half_of s0 =
    let mid = mid_price s0 in
    let bc = band_around mid (half_of mid) in
    let span = bc.max_price_ticks -ℤ bc.min_price_ticks in
    let nlevels = (pos_part span + 2 ^ 64 - neg_part span + 1) % 2 ^ 64 in
    if ltb 60_000_000 nlevels then none else some (start_session bc s0)

-- `f.trades`, of which `push_trade` keeps the last 40.
unfoldable pub drop_old {ℓ} : {A : Type ℓ} → List A → List A
drop_old [] = []
drop_old (t ∷ ts) = let rest = drop_old ts in if ltb 40 (length (t ∷ ts)) then rest else t ∷ ts

unfoldable pub push_trade {ℓ} : {A : Type ℓ} → A → List A → List A
push_trade t ts = drop_old (ts ++ (t ∷ []))
