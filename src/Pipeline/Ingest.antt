-- ===== src/Pipeline/Ingest.antt =====
-- The producer thread of `run_pipeline` in src/pipeline.cpp: parse, hold one frame back where the
-- configuration asks for a gap, and send. The pacing and the peak of the queue are left out, and so
-- are the time stamps of the messages. `channel.send` appends to what goes through the channel.
use burst_resilient_feed_han.Base.{
  ℕ, List, [], ◌∷◌, ◌++◌, Bool, true, false, not, ◌&&◌, ◌==◌, leb, if◌then◌else◌,
}
use burst_resilient_feed_han.Base.Word.{inc64, add64}
use burst_resilient_feed_han.Event.{MarketEvent, default_event}
use burst_resilient_feed_han.Itch.{ParseStatus, ok, short_buffer, unknown_type, parse}
use burst_resilient_feed_han.FileSource.{RawFrame}

-- The sequence number and the event.
abbrev pub PipelineMsg : Type 0
PipelineMsg = ℕ × MarketEvent

-- The two fields that open a gap.
pub record PipelineConfig : Type 0 where
  pub inject_gap_at : ℕ
  pub gap_reorder_distance : ℕ

-- `holding`, `held` and `release_at` of the thread, and the counter.
pub record Ingest : Type 0 where
  pub holding : Bool
  pub held : PipelineMsg
  pub release_at : ℕ
  pub parse_errors : ℕ

unfoldable pub init : Ingest
init = record { holding = false; held = (0, default_event); release_at = 0; parse_errors = 0 }

-- A message that parsed: hold it, or send it, and perhaps the one that is held behind it.
unfoldable pub forward : PipelineConfig → PipelineMsg → Ingest → List PipelineMsg × Ingest
forward cfg (sequence, event) s =
    if not (cfg.inject_gap_at == 0)
      && not (cfg.gap_reorder_distance == 0)
      && not s.holding
      && sequence == cfg.inject_gap_at
    then (
      [],
      record s {
        holding = true;
        held = (sequence, event);
        release_at = add64 sequence cfg.gap_reorder_distance;
      },
    )
    else if s.holding && leb s.release_at sequence
    then ((sequence, event) ∷ s.held ∷ [], record s { holding = false })
    else ((sequence, event) ∷ [], s)

unfoldable pub forward_as :
    ParseStatus → PipelineConfig → PipelineMsg → Ingest → List PipelineMsg × Ingest
forward_as ok cfg m s = forward cfg m s
forward_as short_buffer cfg m s = ([], record s { parse_errors = inc64 s.parse_errors })
forward_as unknown_type cfg m s = ([], record s { parse_errors = inc64 s.parse_errors })

-- The body of `while (src.next_frame(f))`.
unfoldable pub ingest_frame : PipelineConfig → RawFrame → Ingest → List PipelineMsg × Ingest
ingest_frame cfg f s =
    let (status, ev) = parse f.data_ f.len default_event in forward_as status cfg (f.sequence, ev) s

-- `if (holding) channel.send(held);` at the end.
unfoldable pub flush : Ingest → List PipelineMsg
flush s = if s.holding then s.held ∷ [] else []

unfoldable pub ingest : PipelineConfig → List RawFrame → Ingest → List PipelineMsg
ingest cfg [] s = flush s
ingest cfg (f ∷ fs) s =
    let (ms, t) = ingest_frame cfg f s in let rest = ingest cfg fs t in ms ++ rest
