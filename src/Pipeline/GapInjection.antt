-- ===== src/Pipeline/GapInjection.antt =====
-- Holding a frame back changes the order of what is sent and nothing else.
use mathlib.Core.List.{Perm, perm_middle, append_assoc, append-nil}
use mathlib.Core.List.Perm
use burst_resilient_feed_han.Base.{◌≡◌, sym, ap, subst, ◌∙◌, List, [], ◌∷◌, ◌++◌, arith}
use burst_resilient_feed_han.Event.{default_event}
use burst_resilient_feed_han.Itch.{ParseStatus, ok, short_buffer, unknown_type, parse}
use burst_resilient_feed_han.FileSource.{RawFrame}
use burst_resilient_feed_han.Pipeline.Ingest.{
  PipelineMsg, PipelineConfig, Ingest, init, forward, forward_as, ingest_frame, flush, ingest,
}

-- The message of a frame, if it parses.
abbrev pub parsed_as : ParseStatus → PipelineMsg → List PipelineMsg
parsed_as ok m = m ∷ []
parsed_as short_buffer m = []
parsed_as unknown_type m = []

abbrev pub parsed : List RawFrame → List PipelineMsg
parsed [] = []
parsed (f ∷ fs) =
    parsed_as (parse f.data_ f.len default_event).0
      (f.sequence, (parse f.data_ f.len default_event).1)
    ++ parsed fs

-- What was sent, and what is held after, is the message and what was held before.
forward-flush :
    (cfg : PipelineConfig) (m : PipelineMsg) (s : Ingest)
    → let (ms, t) = forward cfg m s in ms ++ flush t ≡ m ∷ flush s
unfolding forward flush
forward-flush cfg m s = ground arith

-- One frame, with the rest of the stream after it.
forward_as-Perm :
    (status : ParseStatus) (cfg : PipelineConfig) (m : PipelineMsg) (s : Ingest)
    (rest ps : List PipelineMsg)
    → Perm rest (flush (forward_as status cfg m s).1 ++ ps)
    → Perm ((forward_as status cfg m s).0 ++ rest) (flush s ++ (parsed_as status m ++ ps))
unfolding forward_as flush
forward_as-Perm ok cfg m s rest ps p =
    let (ms, t) = forward cfg m s in
    let regrouped : ms ++ (flush t ++ ps) ≡ m ∷ (flush s ++ ps) =
      sym (append_assoc ms (flush t) ps) ∙ ap (λ l. l ++ ps) (forward-flush cfg m s) in
    Perm.trans (Perm.append_left ms p) (
      subst (λ l. Perm l (flush s ++ (m ∷ ps))) (sym regrouped)
        (Perm.symm (perm_middle (flush s) ps)))
forward_as-Perm short_buffer cfg m s rest ps p = p
forward_as-Perm unknown_type cfg m s rest ps p = p

ingest-Perm :
    (cfg : PipelineConfig) (fs : List RawFrame) (s : Ingest)
    → Perm (ingest cfg fs s) (flush s ++ parsed fs)
unfolding ingest ingest_frame
ingest-Perm cfg [] s = rw append-nil (Perm.refl (flush s))
ingest-Perm cfg (f ∷ fs) s =
    let (status, ev) = parse f.data_ f.len default_event in
    forward_as-Perm status cfg (f.sequence, ev) s
      (ingest cfg fs (forward_as status cfg (f.sequence, ev) s).1) (parsed fs)
      (ingest-Perm cfg fs (forward_as status cfg (f.sequence, ev) s).1)

-- Wherever the configuration opens a gap, and however long it is, the producer sends the message of
-- each frame that parses exactly once: what it sends is a permutation of these.
pub ingest_complete :
    (cfg : PipelineConfig) (fs : List RawFrame) → Perm (ingest cfg fs init) (parsed fs)
unfolding init flush
ingest_complete cfg fs = ingest-Perm cfg fs init
