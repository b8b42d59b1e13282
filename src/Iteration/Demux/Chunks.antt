-- ===== src/Iteration/Demux/Chunks.antt =====
-- src/activities/agent_iteration.py: Docker's stream in chunks.
use agentic_temporal_wf.Base.{
  ℕ, zero, suc, true, false, none, some, List, [], ◌∷◌, ◌++◌, ◌≡◌, refl, sym, ap, ◌∙◌, arith, inl,
  inr,
}
use agentic_temporal_wf.Base.{
  ◌==◌, nat_eq, length, append_assoc, append-nil, Bool-cases, Option-cases, all,
}
use agentic_temporal_wf.Base.Text.{nonempty}
use agentic_temporal_wf.Iteration.Demux.{
  Bytes, lines_from, rest_from, Stream, empty_stream, Streams, write, take_frame, next_frame, Demux,
  drain, receive, receive_all, trailing, closed, dispatch_into_sandbox,
}
use agentic_temporal_wf.Iteration.Demux.Lines.{Written, write-Written}
use agentic_temporal_wf.Iteration.Demux.Laws.{
  Frame, encode, payloads, next_frame-header, next_frame-append, no_bytes-no_frame, drain-done,
}
use mathlib.Core.Path.{ap₂}

abbrev pub joined : List Bytes → Bytes
joined [] = []
joined (c ∷ cs) = c ++ joined cs

-- What has been received is a part of the wire, whose payloads are `o` and `e`: the rest of it is
-- the bytes at hand and `ahead`, and frames.
record OnWire (o e : Bytes) (s : Demux) (ahead : Bytes) : Type 0 where
  frames : List Frame
  out : Bytes
  err : Bytes
  wire : s.raw ++ ahead ≡ encode frames
  written_out : Written s.streams.stdout out
  written_err : Written s.streams.stderr err
  all_out : out ++ payloads 1 frames ≡ o
  all_err : err ++ payloads 2 frames ≡ e

no_frame : {stream : ℕ} {payload rest : Bytes} → next_frame [] ≡ some (stream, payload, rest) → ⊥
unfolding next_frame
no_frame h = cc

receive-done : (chunk : Bytes) (s : Demux) → next_frame (receive chunk s).raw ≡ none
unfolding receive
receive-done chunk s =
    drain-done (length (s.raw ++ chunk)) (record { raw = s.raw ++ chunk; streams = s.streams })
      (omega arith)

empty-Written : Written empty_stream []
unfolding lines_from rest_from
empty-Written = record { lines = refl; left = refl }

module _ (stream : ℕ) (payload : Bytes) (s : Streams) where
  take_frame-stdout :
      (stream == 1) ≡ true
      → take_frame stream payload s ≡ record s { stdout = write payload s.stdout }
  unfolding take_frame
  take_frame-stdout first = rw first

  take_frame-stderr :
      (stream == 1) ≡ false
      → (stream == 2) ≡ true
      → take_frame stream payload s ≡ record s { stderr = write payload s.stderr }
  unfolding take_frame
  take_frame-stderr other second = rw (other, second)

  take_frame-other : (stream == 1) ≡ false → (stream == 2) ≡ false → take_frame stream payload s ≡ s
  unfolding take_frame
  take_frame-other other neither = rw (other, neither)

module _ (o e : Bytes) where
  -- The step for a frame of the wire.
  frame-OnWire :
      (f : Frame) (fs : List Frame) (streams : Streams) (out err ahead rest : Bytes)
      → rest ++ ahead ≡ encode fs
      → Written streams.stdout out
      → Written streams.stderr err
      → out ++ payloads 1 (f ∷ fs) ≡ o
      → err ++ payloads 2 (f ∷ fs) ≡ e
      → OnWire o e (record { raw = rest; streams = take_frame f.stream f.payload streams }) ahead
  frame-OnWire f fs streams out err ahead rest wire wo we ao ae =
      elim (Bool-cases (f.stream == 1)) [
        | inl first ↦ rw (take_frame-stdout f.stream f.payload streams first) (record {
          frames = fs;
          out = out ++ f.payload;
          err = err;
          wire = wire;
          written_out = write-Written f.payload out streams.stdout wo;
          written_err = we;
          all_out = append_assoc out f.payload (payloads 1 fs) ∙ rw first at ao;
          all_err = ground (arith, first, ae);
        })
        | inr other ↦ elim (Bool-cases (f.stream == 2)) [
          | inl second ↦ rw (take_frame-stderr f.stream f.payload streams other second) (record {
            frames = fs;
            out = out;
            err = err ++ f.payload;
            wire = wire;
            written_out = wo;
            written_err = write-Written f.payload err streams.stderr we;
            all_out = rw other at ao;
            all_err = append_assoc err f.payload (payloads 2 fs) ∙ rw second at ae;
          })
          | inr neither ↦ rw (take_frame-other f.stream f.payload streams other neither) (record {
            frames = fs;
            out = out;
            err = err;
            wire = wire;
            written_out = wo;
            written_err = we;
            all_out = rw other at ao;
            all_err = rw neither at ae;
          })
        ]
      ]

  frames-OnWire :
      (s : Demux) (ahead : Bytes) (frames : List Frame) (out err : Bytes) {stream : ℕ}
      {payload rest : Bytes}
      → next_frame s.raw ≡ some (stream, payload, rest)
      → s.raw ++ ahead ≡ encode frames
      → Written s.streams.stdout out
      → Written s.streams.stderr err
      → out ++ payloads 1 frames ≡ o
      → err ++ payloads 2 frames ≡ e
      → OnWire o e (record { raw = rest; streams = take_frame stream payload s.streams }) ahead
  frames-OnWire s ahead [] out err found wire wo we ao ae =
      let whole = next_frame-append s.raw ahead found in absurd (no_frame (rw wire at whole))
  frames-OnWire s ahead (f ∷ fs) out err {stream} {payload} {rest} found wire wo we ao ae =
      let whole = next_frame-append s.raw ahead found in
      let first = next_frame-header f (encode fs) in
      let same : some (f.stream, f.payload, encode fs) ≡ some (stream, payload, rest ++ ahead) =
        sym first ∙ (ap next_frame (sym wire) ∙ whole) in
      let is_stream : f.stream ≡ stream = ground (arith, same) in
      let is_payload : f.payload ≡ payload = ground (arith, same) in
      let is_rest : rest ++ ahead ≡ encode fs = ground (arith, same) in
      rw (sym is_stream, sym is_payload)
        (frame-OnWire f fs s.streams out err ahead rest is_rest wo we ao ae)

  drain-OnWire :
      (fuel : ℕ) (s : Demux) (ahead : Bytes) → OnWire o e s ahead → OnWire o e (drain fuel s) ahead
  unfolding drain
  drain-OnWire zero s ahead w = w
  drain-OnWire (suc fuel) s ahead w = elim (Option-cases (next_frame s.raw)) [
    | inl stopped ↦ rw (stopped, drain) w
    | inr ((stream, payload, rest), found) ↦
        rw (found, drain)
          (drain-OnWire fuel (record { raw = rest; streams = take_frame stream payload s.streams })
            ahead
            (frames-OnWire s ahead w.frames w.out w.err found w.wire w.written_out w.written_err
              w.all_out w.all_err))
  ]

  receive-OnWire :
      (chunk ahead : Bytes) (s : Demux)
      → OnWire o e s (chunk ++ ahead)
      → OnWire o e (receive chunk s) ahead
  unfolding receive
  receive-OnWire chunk ahead s w =
      drain-OnWire (length (s.raw ++ chunk)) (record { raw = s.raw ++ chunk; streams = s.streams })
        ahead
        (record {
          frames = w.frames;
          out = w.out;
          err = w.err;
          wire = append_assoc s.raw chunk ahead ∙ w.wire;
          written_out = w.written_out;
          written_err = w.written_err;
          all_out = w.all_out;
          all_err = w.all_err;
        })

  receive_all-OnWire :
      (chunks : List Bytes) (s : Demux)
      → all nonempty chunks ≡ true
      → next_frame s.raw ≡ none
      → OnWire o e s (joined chunks)
      → OnWire o e (receive_all chunks s) [] × (next_frame (receive_all chunks s).raw ≡ none)
  unfolding receive_all
  receive_all-OnWire [] s h idle w = (w, idle)
  receive_all-OnWire ([] ∷ chunks) s h idle w = cc
  receive_all-OnWire ((c ∷ chunk) ∷ chunks) s h idle w =
      receive_all-OnWire chunks (receive (c ∷ chunk) s) h (receive-done (c ∷ chunk) s)
        (receive-OnWire (c ∷ chunk) (joined chunks) s w)

  finished :
      (s : Demux) (frames : List Frame)
      → next_frame s.raw ≡ none
      → s.raw ++ [] ≡ encode frames
      → frames ≡ []
  finished s [] idle wire = refl
  finished s (f ∷ fs) idle wire =
      let first = next_frame-header f (encode fs) in
      let same : next_frame s.raw ≡ some (f.stream, f.payload, encode fs) =
        ap next_frame (sym (append-nil s.raw) ∙ wire) ∙ first in
      absurd (ground (arith, idle, same))

-- The lines of a text, with the last one if no newline ends it.
abbrev pub lines_of : Bytes → List Bytes
lines_of w = lines_from [] w ++ trailing (rest_from [] w)

closed-Written : (s : Stream) (w : Bytes) → Written s w → closed s ≡ lines_of w
unfolding closed
closed-Written s w h = rw (h.lines, h.left)

-- However a stream of frames is cut into chunks, none of them empty: what is yielded is the lines of
-- the payloads of stdout put together, and what is logged those of stderr; frames of any other
-- stream are passed over.
pub dispatch_into_sandbox-lines :
    (frames : List Frame) (chunks : List Bytes)
    → all nonempty chunks ≡ true
    → joined chunks ≡ encode frames
    → dispatch_into_sandbox chunks ≡ (lines_of (payloads 1 frames), lines_of (payloads 2 frames))
unfolding dispatch_into_sandbox
dispatch_into_sandbox-lines frames chunks h cut =
    let first : Demux = record {
      raw = [];
      streams = record { stdout = empty_stream; stderr = empty_stream };
    } in
    let w : OnWire (payloads 1 frames) (payloads 2 frames) first (joined chunks) = record {
      frames = frames;
      out = [];
      err = [];
      wire = cut;
      written_out = empty-Written;
      written_err = empty-Written;
      all_out = refl;
      all_err = refl;
    } in
    let (last, idle) =
      receive_all-OnWire (payloads 1 frames) (payloads 2 frames) chunks first h
        (no_bytes-no_frame [] (omega arith)) w in
    let s = receive_all chunks first in
    let over = finished (payloads 1 frames) (payloads 2 frames) s last.frames idle last.wire in
    let is_out : last.out ≡ payloads 1 frames =
      sym (append-nil last.out) ∙ (rw over at last.all_out) in
    let is_err : last.err ≡ payloads 2 frames =
      sym (append-nil last.err) ∙ (rw over at last.all_err) in
    ap₂ (λ (a b : List Bytes). (a, b))
      (closed-Written s.streams.stdout last.out last.written_out ∙ ap lines_of is_out)
      (closed-Written s.streams.stderr last.err last.written_err ∙ ap lines_of is_err)
