-- ===== src/FileSource.antt =====
-- include/feedhandler/feed_source.hpp and src/itch_file_source.cpp: the frames of a mapped file. The
-- system calls of the constructor are left out: `bytes` is the mapping that they made, or `none`.
pub mod Framing
mod Tests
use burst_resilient_feed_han.Base.{
  ℕ, zero, suc, ◌+◌, Option, none, some, List, [], ◌∷◌, ltb, if◌then◌else◌, length, drop,
}
use burst_resilient_feed_han.Base.Word.{inc64}
use burst_resilient_feed_han.Bytes.{load_be16}

-- `data` is what lies from the pointer on.
pub record RawFrame : Type 0 where
  pub data_ : List ℕ
  pub len : ℕ
  pub sequence : ℕ

pub record ItchFileSource : Type 0 where
  pub bytes : Option (List ℕ)
  pub pos : ℕ
  pub seq : ℕ

unfoldable pub init : Option (List ℕ) → ItchFileSource
init bytes = record { bytes = bytes; pos = 0; seq = 0 }

-- The reads of `next_frame` in a mapping; `size_` is its length.
unfoldable pub frame_at : List ℕ → ItchFileSource → Option RawFrame × ItchFileSource
frame_at bytes s =
    let len = load_be16 bytes s.pos in
    let payload = s.pos + 2 in
    if ltb (length bytes) (s.pos + 2)
    then (none, s)
    else if ltb (length bytes) (payload + len)
    then (none, s)
    else (
      some (record { data_ = drop payload bytes; len = len; sequence = inc64 s.seq }),
      record s { seq = inc64 s.seq; pos = payload + len },
    )

-- `none` is the result false.
unfoldable pub next_frame : ItchFileSource → Option RawFrame × ItchFileSource
next_frame s = elim s.bytes [ none ↦ (none, s) | some bytes ↦ frame_at bytes s ]

-- `while (src.next_frame(f))`: the frames of the source, with fuel.
unfoldable pub read_all : ℕ → ItchFileSource → List RawFrame × ItchFileSource
read_all zero s = ([], s)
read_all (suc fuel) s =
    let (f, t) = next_frame s in
    elim f [ none ↦ ([], t) | some frame ↦ let (fs, u) = read_all fuel t in (frame ∷ fs, u) ]
