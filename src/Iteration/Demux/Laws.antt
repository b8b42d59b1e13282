-- ===== src/Iteration/Demux/Laws.antt =====
-- src/activities/agent_iteration.py: the frames of Docker's stream.
use agentic_temporal_wf.Base.{
  ℕ, zero, suc, ◌≤◌, ◌<◌, false, none, some, List, [], ◌∷◌, ◌++◌, ◌≡◌, refl, sym, arith, inl, inr,
}
use agentic_temporal_wf.Base.{
  ◌==◌, nat_eq, if◌then◌else◌, ltb, length, take-append, drop-append, take-append_le,
  drop-append_le, length-drop, length-append, Bool-cases, Option-cases,
}
use agentic_temporal_wf.Iteration.Demux.{Bytes, take_frame, be32, sized, next_frame, Demux, drain}

-- A frame as Docker sends it: the stream, three bytes of padding, the size of the payload in four.
pub record Frame : Type 0 where
  pub stream : ℕ
  pub p1 : ℕ
  pub p2 : ℕ
  pub p3 : ℕ
  pub a : ℕ
  pub b : ℕ
  pub c : ℕ
  pub d : ℕ
  pub payload : Bytes
  pub size : length payload ≡ be32 a b c d

abbrev pub header : Frame → Bytes → Bytes
header f body = f.stream ∷ f.p1 ∷ f.p2 ∷ f.p3 ∷ f.a ∷ f.b ∷ f.c ∷ f.d ∷ body

abbrev pub encode : List Frame → Bytes
encode [] = []
encode (f ∷ fs) = header f (f.payload ++ encode fs)

-- All the payloads of one stream.
abbrev pub payloads : ℕ → List Frame → Bytes
payloads n [] = []
payloads n (f ∷ fs) = if f.stream == n then f.payload ++ payloads n fs else payloads n fs

-- The first frame of the wire is found.
pub next_frame-header :
    (f : Frame) (more : Bytes)
    → next_frame (header f (f.payload ++ more)) ≡ some (f.stream, f.payload, more)
unfolding next_frame
next_frame-header f more =
    let long : ltb (length (f.payload ++ more)) (length f.payload) ≡ false =
      ground (arith, length-append f.payload more) in
    rw (sym f.size, long, take-append f.payload more, drop-append f.payload more)

sized-append :
    (t n : ℕ) (body more : Bytes) {stream : ℕ} {payload rest : Bytes}
    → sized t n body ≡ some (stream, payload, rest)
    → sized t n (body ++ more) ≡ some (stream, payload, rest ++ more)
sized-append t n body more h = elim (Bool-cases (ltb (length body) n)) [
  | inl short ↦ absurd (ground (arith, short))
  | inr long ↦
      let enough : n ≤ length body = ground (arith, long) in
      let longer : ltb (length (body ++ more)) n ≡ false =
        ground (arith, length-append body more) in
      rw (longer, take-append_le n body more enough, drop-append_le n body more enough)
        (ground (arith, long, h))
]

-- What is found at the start of the wire is found whatever follows.
pub next_frame-append :
    (raw more : Bytes) {stream : ℕ} {payload rest : Bytes}
    → next_frame raw ≡ some (stream, payload, rest)
    → next_frame (raw ++ more) ≡ some (stream, payload, rest ++ more)
unfolding next_frame
next_frame-append (t ∷ p ∷ q ∷ r ∷ a ∷ b ∷ c ∷ d ∷ body) more h =
    sized-append t (be32 a b c d) body more h
next_frame-append [] more h = cc
next_frame-append (_ ∷ []) more h = cc
next_frame-append (_ ∷ _ ∷ []) more h = cc
next_frame-append (_ ∷ _ ∷ _ ∷ []) more h = cc
next_frame-append (_ ∷ _ ∷ _ ∷ _ ∷ []) more h = cc
next_frame-append (_ ∷ _ ∷ _ ∷ _ ∷ _ ∷ []) more h = cc
next_frame-append (_ ∷ _ ∷ _ ∷ _ ∷ _ ∷ _ ∷ []) more h = cc
next_frame-append (_ ∷ _ ∷ _ ∷ _ ∷ _ ∷ _ ∷ _ ∷ []) more h = cc

-- A frame takes bytes off the wire.
sized-shorter :
    (t n : ℕ) (body : Bytes) {stream : ℕ} {payload rest : Bytes}
    → sized t n body ≡ some (stream, payload, rest)
    → length rest ≤ length body
sized-shorter t n body h = elim (Bool-cases (ltb (length body) n)) [
  | inl short ↦ absurd (ground (arith, short))
  | inr long ↦ ground (arith, long, h, length-drop n body)
]

next_frame-shorter :
    (raw : Bytes) {stream : ℕ} {payload rest : Bytes}
    → next_frame raw ≡ some (stream, payload, rest)
    → length rest < length raw
unfolding next_frame
next_frame-shorter (t ∷ p ∷ q ∷ r ∷ a ∷ b ∷ c ∷ d ∷ body) h =
    let le = sized-shorter t (be32 a b c d) body h in omega (arith, le)
next_frame-shorter [] h = cc
next_frame-shorter (_ ∷ []) h = cc
next_frame-shorter (_ ∷ _ ∷ []) h = cc
next_frame-shorter (_ ∷ _ ∷ _ ∷ []) h = cc
next_frame-shorter (_ ∷ _ ∷ _ ∷ _ ∷ []) h = cc
next_frame-shorter (_ ∷ _ ∷ _ ∷ _ ∷ _ ∷ []) h = cc
next_frame-shorter (_ ∷ _ ∷ _ ∷ _ ∷ _ ∷ _ ∷ []) h = cc
next_frame-shorter (_ ∷ _ ∷ _ ∷ _ ∷ _ ∷ _ ∷ _ ∷ []) h = cc

pub no_bytes-no_frame : (raw : Bytes) → length raw ≤ 0 → next_frame raw ≡ none
unfolding next_frame
no_bytes-no_frame [] h = refl
no_bytes-no_frame (c ∷ raw) h = absurd (omega arith)

-- With fuel for each byte, the inner loop ends where no frame is complete.
pub drain-done : (fuel : ℕ) (s : Demux) → length s.raw ≤ fuel → next_frame (drain fuel s).raw ≡ none
unfolding drain next_frame
drain-done zero s h = no_bytes-no_frame s.raw h
drain-done (suc fuel) s h = elim (Option-cases (next_frame s.raw)) [
  | inl stopped ↦ rw (stopped, drain) stopped
  | inr ((stream, payload, rest), found) ↦
      let shorter = next_frame-shorter s.raw found in
      rw (found, drain)
        (drain-done fuel (record { raw = rest; streams = take_frame stream payload s.streams })
          (omega (arith, shorter, h)))
]
