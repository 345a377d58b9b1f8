-- ===== src/Sequencer.antt =====
-- include/feedhandler/sequencer.hpp and src/sequencer.cpp: sequence tracking, the reorder buffer
-- and the resynchronisation to a snapshot. `reorder_`, an unordered_map, is an association list
-- without repeated keys: `find`, `emplace` and `erase` are what the source uses of it.
pub mod Buffer
pub mod Drain
pub mod Step
pub mod Delivery
pub mod InOrder
pub mod NoLoss
pub mod Recovery
mod Tests
use burst_resilient_feed_han.Base.{
  ℕ, zero, suc, ◌+◌, ◌≡◌, List, [], ◌∷◌, Bool, true, false, Option, none, some, ltb, leb, ◌==◌,
  if◌then◌else◌, length, ◌++◌,
}
use burst_resilient_feed_han.Base.Word.{add64, sub64, inc64}
use burst_resilient_feed_han.Event.{MarketEvent}
use Buffer.{ReorderBuffer, find, emplace, erase, is_empty}

pub record SequencerConfig : Type 0 where
  pub start_seq : ℕ
  pub reorder_capacity : ℕ

pub record SequencerStats : Type 0 where
  pub accepted : ℕ
  pub duplicates : ℕ
  pub buffered_released : ℕ
  pub gap_episodes : ℕ
  pub missing_total : ℕ
  pub reorder_overflow : ℕ
  pub snapshot_recoveries : ℕ

abbrev pub no_stats : SequencerStats
no_stats = record {
  accepted = 0;
  duplicates = 0;
  buffered_released = 0;
  gap_episodes = 0;
  missing_total = 0;
  reorder_overflow = 0;
  snapshot_recoveries = 0;
}

pub data Disposition : Type 0 where
  apply drop buffered overflow : Disposition

pub record Sequencer : Type 0 where
  pub cfg : SequencerConfig
  pub expected : ℕ
  pub stale : Bool
  pub needs_snapshot : Bool
  pub reorder : ReorderBuffer
  pub stats : SequencerStats

unfoldable pub init : SequencerConfig → Sequencer
init cfg = record {
  cfg = cfg;
  expected = cfg.start_seq;
  stale = false;
  needs_snapshot = false;
  reorder = [];
  stats = no_stats;
}

-- `if (!stale_) { ... }` of `offer`.
unfoldable pub open_gap : ℕ → Sequencer → Sequencer
open_gap seq s = if s.stale then s else record s {
  stale = true;
  stats = record (s.stats) {
    gap_episodes = inc64 s.stats.gap_episodes;
    missing_total = add64 s.stats.missing_total (sub64 seq s.expected);
  };
}

-- The rest of `offer`, for an event of the future.
unfoldable pub hold : ℕ → MarketEvent → Sequencer → Disposition × Sequencer
hold seq ev s =
    if leb s.cfg.reorder_capacity (length s.reorder)
    then (
      overflow,
      record s {
        needs_snapshot = true;
        stats = record (s.stats) { reorder_overflow = inc64 s.stats.reorder_overflow };
      },
    )
    else (buffered, record s { reorder = emplace seq ev s.reorder })

unfoldable pub offer : ℕ → MarketEvent → Sequencer → Disposition × Sequencer
unfolding open_gap hold
offer seq ev s =
    if ltb seq s.expected
    then (drop, record s { stats = record (s.stats) { duplicates = inc64 s.stats.duplicates } })
    else if seq == s.expected
    then (
      apply,
      record s {
        expected = inc64 s.expected;
        stats = record (s.stats) { accepted = inc64 s.stats.accepted };
      },
    )
    else hold seq ev (open_gap seq s)

-- The branch of `pop_ready` with no contiguous event.
unfoldable pub settle : Sequencer → Sequencer
settle s = if is_empty s.reorder then record s { stale = false } else s

-- The branch that takes the expected event out of the buffer.
unfoldable pub release : Sequencer → Sequencer
release s =
    let rest = erase s.expected s.reorder in
    record s {
      reorder = rest;
      expected = inc64 s.expected;
      stale = if is_empty rest then false else s.stale;
      stats = record (s.stats) {
        accepted = inc64 s.stats.accepted;
        buffered_released = inc64 s.stats.buffered_released;
      };
    }

-- `none` is the result false; `some ev` is true, with `ev` in `out`.
unfoldable pub pop_ready : Sequencer → Option MarketEvent × Sequencer
pop_ready s = elim (find s.expected s.reorder) [
  | none ↦ (none, settle s)
  | some ev ↦ (some ev, release s)
]

unfoldable pub resync_to_snapshot : ℕ → Sequencer → Sequencer
resync_to_snapshot snapshot_seq s = record s {
  reorder = [];
  expected = inc64 snapshot_seq;
  stale = false;
  needs_snapshot = false;
  stats = record (s.stats) { snapshot_recoveries = inc64 s.stats.snapshot_recoveries };
}
