-- ===== src/FileSource/Framing.antt =====
-- Reading a framed file: the loop ends, and a file that the generator wrote comes back message by
-- message.
use mathlib.Core.List.{append_assoc}
use burst_resilient_feed_han.Base.{
  ℕ, zero, suc, ◌+◌, ◌-◌, ◌%◌, ◌^◌, ◌<◌, ◌≡◌, refl, sym, ap, ◌∙◌, none, some, List, [], ◌∷◌, ◌++◌,
  length, drop, take, arith, length-append, inl, inr, Option-cases,
}
use burst_resilient_feed_han.Base.Word.{inc64, inc64_exact}
use burst_resilient_feed_han.Bytes.{byte, load_be16, store_be16}
use burst_resilient_feed_han.Bytes.RoundTrip.{be16-bytes}
use burst_resilient_feed_han.ItchGen.{emit}
use burst_resilient_feed_han.FileSource.{
  RawFrame, ItchFileSource, init, frame_at, next_frame, read_all,
}

-- How much of the mapping is left.
abbrev pub left : ItchFileSource → ℕ
left s = elim s.bytes [ none ↦ 0 | some bytes ↦ length bytes - s.pos ]

next_frame-shrinks :
    (s : ItchFileSource) {f : RawFrame} → (next_frame s).0 ≡ some f → left (next_frame s).1 < left s
unfolding next_frame frame_at
next_frame-shrinks s {f} e = ground arith

next_frame-stays : (s : ItchFileSource) → (next_frame s).0 ≡ none → (next_frame s).1 ≡ s
unfolding next_frame frame_at
next_frame-stays s e = ground arith

-- Whatever the bytes are, the read loop ends: with more fuel than bytes are left, it stops because
-- `next_frame` has nothing more.
pub read_all_ends :
    (fuel : ℕ) (s : ItchFileSource) → left s < fuel → (next_frame (read_all fuel s).1).0 ≡ none
unfolding read_all
read_all_ends zero s h = absurd (omega arith)
read_all_ends (suc fuel) s h = elim (Option-cases (next_frame s).0) [
  | inl e ↦ rw (e, read_all, next_frame-stays s e) e
  | inr (f, e) ↦
      rw (e, read_all) (read_all_ends fuel (next_frame s).1 (omega (arith, next_frame-shrinks s e)))
]

-- The file that `emit` makes of a list of messages.
abbrev pub file_of : List (List ℕ) → List ℕ
file_of [] = []
file_of (m ∷ ms) = emit m ++ file_of ms

-- Each message fits the 16-bit length prefix.
abbrev pub AllShort : List (List ℕ) → Type 0
AllShort [] = Unit {0}
AllShort (m ∷ ms) = (length m < 2 ^ 16) × AllShort ms

-- The frames carry exactly the messages, numbered from `n`.
abbrev pub Carries : ℕ → List (List ℕ) → List RawFrame → Type 0
Carries n [] [] = Unit {0}
Carries n [] (f ∷ fs) = ⊥
Carries n (m ∷ ms) [] = ⊥
Carries n (m ∷ ms) (f ∷ fs) =
    (take f.len f.data_ ≡ m) × (f.len ≡ length m) × (f.sequence ≡ n) × Carries (n + 1) ms fs

byte-append : (pre xs : List ℕ) (i : ℕ) → byte (pre ++ xs) (length pre + i) ≡ byte xs i
byte-append [] xs i = ap (byte xs) (omega arith)
byte-append (x ∷ pre) xs i =
    let e : suc (length pre) + i ≡ suc (length pre + i) = omega arith in rw e (byte-append pre xs i)

drop-append : (pre xs : List ℕ) → drop (length pre) (pre ++ xs) ≡ xs
drop-append [] xs = refl
drop-append (x ∷ pre) xs = drop-append pre xs

take-append : (m xs : List ℕ) → take (length m) (m ++ xs) ≡ m
take-append [] xs = refl
take-append (x ∷ m) xs = ap (λ (t : List ℕ). x ∷ t) (take-append m xs)

-- The prefix is read back as the length.
load-prefix :
    (pre m rest : List ℕ)
    → length m < 2 ^ 16
    → load_be16 (pre ++ (emit m ++ rest)) (length pre) ≡ length m
unfolding load_be16 emit store_be16
load-prefix pre m rest h =
    let all = emit m ++ rest in
    let same : length pre + 0 ≡ length pre = omega arith in
    let small : length m % 2 ^ 16 ≡ length m = omega arith in
    let b0 = rw same at (byte-append pre all 0) in
    rw (b0, byte-append pre all 1, small) (be16-bytes (length m) h)

length-file :
    (pre m rest : List ℕ)
    → length (pre ++ (emit m ++ rest)) ≡ length pre + 2 + length m + length rest
unfolding emit store_be16
length-file pre m rest = omega (arith, length-append pre (emit m ++ rest), length-append m rest)

payload : (pre m rest : List ℕ) → drop (length pre + 2) (pre ++ (emit m ++ rest)) ≡ m ++ rest
unfolding emit store_be16
payload [] m rest = refl
payload (x ∷ pre) m rest =
    let e : suc (length pre) + 2 ≡ suc (length pre + 2) = omega arith in rw e (payload pre m rest)

-- One frame off a file that has been read up to `pre`.
frame_at-emit :
    (pre m rest : List ℕ) (s : ItchFileSource)
    → s.pos ≡ length pre
    → length m < 2 ^ 16
    → frame_at (pre ++ (emit m ++ rest)) s ≡ (
      some (record { data_ = m ++ rest; len = length m; sequence = inc64 s.seq }),
      record s { seq = inc64 s.seq; pos = length pre + 2 + length m },
    )
unfolding frame_at
frame_at-emit pre m rest s p h =
    let len = load-prefix pre m rest h in
    let total = length-file pre m rest in
    let rest_of : drop (length pre + 2) (pre ++ (emit m ++ rest)) ≡ m ++ rest =
      payload pre m rest in
    rw (p, len, rest_of) (ground (arith, total))

frame_at-end :
    (pre : List ℕ) (s : ItchFileSource) → s.pos ≡ length pre → frame_at (pre ++ []) s ≡ (none, s)
unfolding frame_at
frame_at-end pre s p = ground (arith, length-append pre [])

length-emit : (m : List ℕ) → length (emit m) ≡ 2 + length m
unfolding emit store_be16
length-emit m = omega arith

next_frame-open :
    (s : ItchFileSource) (bytes : List ℕ) → s.bytes ≡ some bytes → next_frame s ≡ frame_at bytes s
unfolding next_frame
next_frame-open s bytes e = ground arith

read_all-stop :
    (fuel : ℕ) (s t : ItchFileSource) → next_frame s ≡ (none, t) → (read_all (suc fuel) s).0 ≡ []
unfolding read_all
read_all-stop fuel s t e = ground arith

read_all-go :
    (fuel : ℕ) (s t : ItchFileSource) (f : RawFrame)
    → next_frame s ≡ (some f, t)
    → (read_all (suc fuel) s).0 ≡ f ∷ (read_all fuel t).0
unfolding read_all
read_all-go fuel s t f e = ground arith

read_from-Carries :
    (ms : List (List ℕ)) (pre : List ℕ) (n fuel : ℕ) (s : ItchFileSource)
    → AllShort ms
    → n + length ms < 2 ^ 64
    → length ms < fuel
    → s.bytes ≡ some (pre ++ file_of ms)
    → s.pos ≡ length pre
    → s.seq ≡ n
    → Carries (n + 1) ms (read_all fuel s).0
read_from-Carries ms pre n zero s a b f eb ep es = absurd (omega arith)
read_from-Carries [] pre n (suc fuel) s a b f eb ep es =
    let stop : next_frame s ≡ (none, s) = next_frame-open s _ eb ∙ frame_at-end pre s ep in
    rw (read_all-stop fuel s s stop) tt
read_from-Carries (m ∷ ms) pre n (suc fuel) s a b f eb ep es =
    let rest = file_of ms in
    let t : ItchFileSource = record s { seq = inc64 s.seq; pos = length pre + 2 + length m } in
    let go : next_frame s
        ≡ (some (record { data_ = m ++ rest; len = length m; sequence = inc64 s.seq }), t) =
      next_frame-open s _ eb ∙ frame_at-emit pre m rest s ep a.0 in
    let next : inc64 s.seq ≡ n + 1 = rw es (inc64_exact n (omega arith)) in
    rw (read_all-go fuel s t _ go) (
      take-append m rest,
      refl,
      next,
      read_from-Carries ms (pre ++ emit m) (n + 1) fuel t a.1 (omega arith) (omega arith)
          (eb ∙ ap (λ (l : List ℕ). some l) (sym (append_assoc pre (emit m) rest)))
          (omega (arith, length-append pre (emit m), length-emit m)) next,
    )

-- A file of framed messages, each shorter than 2^16 bytes, is read back message by message, in order
-- and numbered from 1, by a loop with more fuel than there are messages.
pub file_round_trip :
    (ms : List (List ℕ)) (fuel : ℕ)
    → AllShort ms
    → length ms < 2 ^ 64
    → length ms < fuel
    → Carries 1 ms (read_all fuel (init (some (file_of ms)))).0
unfolding init
file_round_trip ms fuel a b f =
    read_from-Carries ms [] 0 fuel (init (some (file_of ms))) a (omega arith) f refl refl refl
