-- ===== src/Base/Regex/Laws.antt =====
-- What a match says of the text, and a greedy match that succeeds at once.
use mathlib.Core.List.{append_assoc, append-nil}
use agentic_temporal_wf.Base.Tests.{ltb, if◌then◌else◌, or_else, Bool-cases, Option-cases}
use agentic_temporal_wf.Base.Equality.{◌==◌, nat_eq}
use agentic_temporal_wf.Base.Lists.{length, length-append, all}
use agentic_temporal_wf.Base.Text.{Text}
use agentic_temporal_wf.Base.Regex.{repeat, star, plus}
use Prim.Native.Nat.{ℕ, ◌-◌, ◌≤◌, ◌<◌}
use mathlib.Core.Path.{◌≡◌, refl}
use mathlib.Core.Logic.{inl, inr}
use mathlib.Core.Bool.{Bool, true, false, ◌&&◌}
use mathlib.Core.List.{[], ◌∷◌, ◌++◌}
use mathlib.Core.Option.{Option, none, some}
use native.Mathlib.Omega.{arith}

-- What a repetition that matched has taken: a run `w` of characters of the class, between `lo` and
-- `hi` long, before the text on which the rest matched.
pub record Took {ℓ} {R : Type ℓ} (p : ℕ → Bool) (lo hi : ℕ) (acc s : Text)
    (k : Text → Text → Option R) (r : R) : Type ℓ where
  pub run : Text
  pub rest : Text
  pub whole : s ≡ run ++ rest
  pub of_class : all p run ≡ true
  pub at_least : lo ≤ length run
  pub at_most : length run ≤ hi
  pub went_on : k (acc ++ run) rest ≡ some r

module _ {ℓ} {R : Type ℓ} (p : ℕ → Bool) (k : Text → Text → Option R) where
  Took-none :
      (lo hi : ℕ) (acc s : Text) {r : R}
      → (if lo == 0 then k acc s else none) ≡ some r
      → Took p lo hi acc s k r
  Took-none lo hi acc s {r} h = record {
    run = [];
    rest = s;
    whole = refl;
    of_class = refl;
    at_least = ground arith;
    at_most = omega arith;
    went_on = rw append-nil (ground arith);
  }

  Took-more :
      (lo hi c : ℕ) (acc s : Text) {r : R}
      → p c ≡ true
      → 0 < hi
      → Took p (lo - 1) (hi - 1) (acc ++ c ∷ []) s k r
      → Took p lo hi acc (c ∷ s) k r
  Took-more lo hi c acc s pc h t = record {
    run = c ∷ t.run;
    rest = t.rest;
    whole = λ i. c ∷ t.whole i;
    of_class = rw pc t.of_class;
    at_least = omega (arith, t.at_least);
    at_most = omega (arith, t.at_most);
    went_on = rw append_assoc at t.went_on;
  }

  pub repeat-Took :
      (lo hi : ℕ) (acc s : Text) {r : R} → repeat p lo hi acc s k ≡ some r → Took p lo hi acc s k r
  unfolding repeat
  repeat-Took lo hi acc [] h = Took-none lo hi acc [] h
  repeat-Took lo hi acc (c ∷ s) h = elim (Bool-cases (p c && ltb 0 hi)) [
    | inr stop ↦ Took-none lo hi acc (c ∷ s) (rw (stop, or_else) at h)
    | inl more ↦ elim (Option-cases (repeat p (lo - 1) (hi - 1) (acc ++ c ∷ []) s k)) [
      | inl failed ↦ Took-none lo hi acc (c ∷ s) (rw (more, failed, or_else) at h)
      | inr (r', found) ↦
          Took-more lo hi c acc s (ground arith) (ground arith)
            (repeat-Took (lo - 1) (hi - 1) (acc ++ c ∷ []) s (ground arith))
    ]
  ]

  -- The class does not match on.
  abbrev pub Stops : Text → Type 0
  Stops [] = Unit
  Stops (c ∷ s) = p c ≡ false

  -- A run that ends where the class does is taken whole, if the rest of the pattern accepts it.
  pub repeat_longest :
      (lo hi : ℕ) (acc run rest : Text) {r : R}
      → all p run ≡ true
      → lo ≤ length run
      → length run ≤ hi
      → Stops rest
      → k (acc ++ run) rest ≡ some r
      → repeat p lo hi acc (run ++ rest) k ≡ some r
  unfolding repeat
  repeat_longest lo hi acc [] [] a l m stop e = ground (arith, append-nil acc)
  repeat_longest lo hi acc [] (c ∷ s) a l m stop e = ground (arith, append-nil acc)
  repeat_longest lo hi acc (c ∷ run) rest {r} a l m stop e =
      let rec : repeat p (lo - 1) (hi - 1) (acc ++ c ∷ []) (run ++ rest) k ≡ some r =
        repeat_longest (lo - 1) (hi - 1) (acc ++ c ∷ []) run rest (ground arith) (omega arith)
          (omega arith) stop (rw append_assoc e) in
      ground arith

module _ {ℓ} {R : Type ℓ} (p : ℕ → Bool) (k : Text → Text → Option R) where
  pub star_longest :
      (run rest : Text) {r : R}
      → all p run ≡ true
      → Stops p k rest
      → k run rest ≡ some r
      → star p (run ++ rest) k ≡ some r
  unfolding star
  star_longest run rest a stop e =
      repeat_longest p k 0 (length (run ++ rest)) [] run rest a (omega arith)
        (omega (arith, length-append run rest)) stop e

  pub plus_longest :
      (run rest : Text) {r : R}
      → all p run ≡ true
      → 1 ≤ length run
      → Stops p k rest
      → k run rest ≡ some r
      → plus p (run ++ rest) k ≡ some r
  unfolding plus
  plus_longest run rest a l stop e =
      repeat_longest p k 1 (length (run ++ rest)) [] run rest a l
        (omega (arith, length-append run rest)) stop e
