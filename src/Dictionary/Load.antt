-- ===== src/Dictionary/Load.antt =====
-- What `load_extras_file` returns, or where it stops.
use mathlib.Core.List.{append-nil, append_assoc}
use aflgo.Common.{
  ℕ, ◌+◌, ◌≡◌, ◌≢◌, All, refl, ap, sym, ◌∙◌, arith, List, [], ◌∷◌, ◌++◌, length, ◌⊎◌, inl, inr,
}
use aflgo.Dictionary.{
  Problem, Line, skipped, token, fatal, Loaded, loads, stops, parse_line, load_lines,
  load_extras_file,
}

-- The reference: the tokens of the lines in order.
abbrev pub tokens : ℕ → List (List ℕ) → List (List ℕ)
tokens dict_level [] = []
tokens dict_level (line ∷ lines) = elim (parse_line dict_level line) [
  | skipped ↦ tokens dict_level lines
  | token t ↦ t ∷ tokens dict_level lines
  | fatal p ↦ tokens dict_level lines
]

-- No line is fatal.
abbrev pub IsAccepted : ℕ → List (List ℕ) → Type 0
IsAccepted dict_level lines =
    All (λ line. (p : Problem) → parse_line dict_level line ≢ fatal p) lines

-- The first line that is fatal, and what `out` tells of it.
pub record IsStopped (dict_level cur_line : ℕ) (lines : List (List ℕ)) (out : Loaded) : Type 0 where
  pub before : List (List ℕ)
  pub line : List ℕ
  pub after : List (List ℕ)
  pub problem : Problem
  pub parts : lines ≡ before ++ (line ∷ after)
  pub accepted : IsAccepted dict_level before
  pub refused : parse_line dict_level line ≡ fatal problem
  pub told : out ≡ stops problem (cur_line + length before + 1)

-- A line that is accepted stands before the one that stops the loader.
IsStopped-cons :
    (dict_level cur_line : ℕ) (line : List ℕ) (lines : List (List ℕ)) (out : Loaded)
    → ((p : Problem) → parse_line dict_level line ≢ fatal p)
    → IsStopped dict_level (cur_line + 1) lines out
    → IsStopped dict_level cur_line (line ∷ lines) out
IsStopped-cons dict_level cur_line line lines out fine h = record {
  before = line ∷ h.before;
  line = h.line;
  after = h.after;
  problem = h.problem;
  parts = ap (λ l. line ∷ l) h.parts;
  accepted = (fine, h.accepted);
  refused = h.refused;
  told = h.told ∙ ap (stops h.problem) (omega arith);
}

-- All lines are accepted and the tokens are behind those before, or the first fatal line is told.
abbrev pub IsLoaded : ℕ → ℕ → List (List ℕ) → List (List ℕ) → Type 0
IsLoaded dict_level cur_line extras lines =
    (IsAccepted dict_level lines
      × (load_lines dict_level cur_line extras lines ≡ loads (extras ++ tokens dict_level lines)))
    ⊎ IsStopped dict_level cur_line lines (load_lines dict_level cur_line extras lines)

line-IsLoaded :
    (dict_level cur_line : ℕ) (extras lines : List (List ℕ)) (line : List ℕ) (l : Line)
    → parse_line dict_level line ≡ l
    → ((more : List (List ℕ)) → IsLoaded dict_level (cur_line + 1) more lines)
    → IsLoaded dict_level cur_line extras (line ∷ lines)
unfolding load_lines
line-IsLoaded dict_level cur_line extras lines line skipped e rest = elim (rest extras) [
  | inl (fine, out) ↦ inl (((λ p h. absurd (cc (e, h))), fine), rw (e, load_lines, tokens) out)
  | inr stop ↦ inr (
      rw (e, load_lines)
        (IsStopped-cons dict_level cur_line line lines _ (λ p h. absurd (cc (e, h))) stop))
]
line-IsLoaded dict_level cur_line extras lines line (token t) e rest =
    elim (rest (extras ++ (t ∷ []))) [
      | inl (fine, out) ↦ inl (
        ((λ p h. absurd (cc (e, h))), fine),
        rw (e, load_lines, tokens)
            (out ∙ ap loads (append_assoc extras (t ∷ []) (tokens dict_level lines))),
      )
      | inr stop ↦ inr (
          rw (e, load_lines)
            (IsStopped-cons dict_level cur_line line lines _ (λ p h. absurd (cc (e, h))) stop))
    ]
line-IsLoaded dict_level cur_line extras lines line (fatal p) e rest = inr (record {
  before = [];
  line = line;
  after = lines;
  problem = p;
  parts = refl;
  accepted = tt;
  refused = e;
  told = rw (e, load_lines) (ap (stops p) (omega arith));
})

lines-IsLoaded :
    (dict_level cur_line : ℕ) (extras lines : List (List ℕ))
    → IsLoaded dict_level cur_line extras lines
unfolding load_lines
lines-IsLoaded dict_level cur_line extras [] = inl (tt, ap loads (sym (append-nil extras)))
lines-IsLoaded dict_level cur_line extras (line ∷ lines) =
    line-IsLoaded dict_level cur_line extras lines line (parse_line dict_level line) refl
      (λ more. lines-IsLoaded dict_level (cur_line + 1) more lines)

-- Either no line of the file is fatal, and the tokens of its lines are added in order behind the extras that were there; or
-- the loader stops with the problem and the number, counted from 1, of the first line that is fatal.
pub load_extras_file-IsLoaded :
    (dict_level : ℕ) (extras lines : List (List ℕ))
    → (IsAccepted dict_level lines
        × (load_extras_file dict_level extras lines ≡ loads (extras ++ tokens dict_level lines)))
      ⊎ IsStopped dict_level 0 lines (load_extras_file dict_level extras lines)
unfolding load_extras_file
load_extras_file-IsLoaded dict_level extras lines = lines-IsLoaded dict_level 0 extras lines
