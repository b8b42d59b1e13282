-- ===== src/Iteration/Demux/Lines.antt =====
-- src/activities/agent_iteration.py: `_split_lines` on a text in pieces.
use agentic_temporal_wf.Base.{Bool, true, not, [], ◌∷◌, ◌++◌, ◌≡◌, refl, sym, arith, inl, inr}
use agentic_temporal_wf.Base.{◌==◌, nat_eq, all, all-append, append_assoc, append-nil, Bool-cases}
use agentic_temporal_wf.Iteration.Demux.{Bytes, lines_from, rest_from, Stream, write}

-- The rest of a text in two pieces.
rest_from-append : (cur s t : Bytes) → rest_from cur (s ++ t) ≡ rest_from (rest_from cur s) t
unfolding rest_from
rest_from-append cur [] t = refl
rest_from-append cur (c ∷ s) t =
    ground (arith, rest_from-append [] s t, rest_from-append (cur ++ c ∷ []) s t)

lines_from-append :
    (cur s t : Bytes) → lines_from cur (s ++ t) ≡ lines_from cur s ++ lines_from (rest_from cur s) t
unfolding lines_from rest_from
lines_from-append cur [] t = refl
lines_from-append cur (c ∷ s) t =
    ground (arith, lines_from-append [] s t, lines_from-append (cur ++ c ∷ []) s t)

abbrev plain : Bytes → Bool
plain = all (λ c. not (c == b'\n'))

plain-rest : (cur s : Bytes) → plain cur ≡ true → plain (rest_from cur s) ≡ true
unfolding rest_from
plain-rest cur [] h = h
plain-rest cur (c ∷ s) h = elim (Bool-cases (c == b'\n')) [
  | inl newline ↦ rw newline (plain-rest [] s refl)
  | inr letter ↦ rw letter (
      plain-rest (cur ++ c ∷ []) s
        (ground (arith, all-append (λ x. not (x == b'\n')) cur (c ∷ []))))
]

-- A text without a newline has no line, and is its own rest.
plain-lines : (cur s : Bytes) → plain s ≡ true → lines_from cur s ≡ []
unfolding lines_from
plain-lines cur [] h = refl
plain-lines cur (c ∷ s) h = ground (arith, plain-lines (cur ++ c ∷ []) s)

plain-own_rest : (cur s : Bytes) → plain s ≡ true → rest_from cur s ≡ cur ++ s
unfolding rest_from
plain-own_rest cur [] h = sym (append-nil cur)
plain-own_rest cur (c ∷ s) h =
    ground (arith, plain-own_rest (cur ++ c ∷ []) s, append_assoc cur (c ∷ []) s)

-- The stream has taken in the text `w`, in whatever pieces.
pub record Written (s : Stream) (w : Bytes) : Type 0 where
  pub lines : s.out ≡ lines_from [] w
  pub left : s.buffer ≡ rest_from [] w

pub write-Written :
    (payload w : Bytes) (s : Stream) → Written s w → Written (write payload s) (w ++ payload)
unfolding write
write-Written payload w s h =
    let own = plain-own_rest [] (rest_from [] w) (plain-rest [] w refl) in
    let none_yet = plain-lines [] (rest_from [] w) (plain-rest [] w refl) in
    record {
      lines = rw (
        h.lines,
        h.left,
        lines_from-append [] w payload,
        lines_from-append [] (rest_from [] w) payload,
        own,
        none_yet,
      );
      left = rw (
        h.left,
        rest_from-append [] w payload,
        rest_from-append [] (rest_from [] w) payload,
        own,
      );
    }
