-- ===== src/Regex/Tests.antt =====
-- Runs of the matcher, and the theorems at concrete programs.
use cscript.Prelude.{ℕ, ◌≡◌, refl, [], ◌∷◌, List, arith, some, none, true, false, Bool}
use cscript.Regex.{
  take_class, Inst, Regex, Shared, Result, fail, before_subject, re_char, re_split, re_jump,
  re_save, re_backref, re_match, same_byte, same_span, at_boundary, backref, resolve, look_back,
  look_next, looked, save, backref_slots, execute, unwind, follow, backtrack, run, match_from,
  search_next, search_loop, search_from, group_named, max_steps,
}
use cscript.Regex.Bounds.{IsProgram}
use cscript.Regex.Safe.{IsResult, match_from-IsResult}
use cscript.Regex.Search.{Found, search_from-Found}
use cscript.Regex.Decides.{Leftmost, search_from-Leftmost}

program : Unit {0}
unfolding same_byte same_span at_boundary backref resolve look_back look_next looked save
    backref_slots take_class execute unwind follow backtrack run match_from search_next search_loop
    search_from group_named
program = tt

abbrev plain_regex : List Inst → ℕ → Regex
plain_regex code groups = record {
  code = code;
  classes = [];
  group_count = groups;
  names = (b'y' ∷ [], 1) ∷ [];
  ignore_case = false;
  multiline = false;
  dot_all = false;
}

-- `a|ab`, as `csRegexCompile` emits it.
abbrev choice : Regex
choice =
    plain_regex
      (record { op = re_save; x = 0; y = 0 }
        ∷ record { op = re_split; x = 2; y = 4 }
        ∷ record { op = re_char; x = b'a'; y = 0 }
        ∷ record { op = re_jump; x = 6; y = 0 }
        ∷ record { op = re_char; x = b'a'; y = 0 }
        ∷ record { op = re_char; x = b'b'; y = 0 }
        ∷ record { op = re_save; x = 1; y = 0 }
        ∷ record { op = re_match; x = 0; y = 0 }
        ∷ [])
      1

abbrev subject : List ℕ
subject = b'x' ∷ b'a' ∷ b'b' ∷ []

choice-IsProgram : IsProgram choice
choice-IsProgram = record {
  start = omega arith;
  insts = refl;
  classed = (tt, (tt, (tt, (tt, (tt, (tt, (tt, (tt, tt))))))));
}

-- The loop on small fuel: from 1 the first branch wins, and the capture is "a".
first_branch :
    run choice subject 20 re_match
      (record { pc = 0; sp = 1; threads = []; trail = [] })
      (record { slots = none ∷ none ∷ []; steps = 999_990; exhausted = false })
    ≡ Result.done true 2
        (record { slots = some 1 ∷ some 2 ∷ []; steps = 999_996; exhausted = false })
unfolding program max_steps
first_branch = refl

named :
    (group_named choice.names (b'y' ∷ []) ≡ some 1) × (group_named choice.names (b'z' ∷ []) ≡ none)
unfolding program
named = (refl, refl)

abbrev fresh : Shared
fresh = record { slots = none ∷ none ∷ []; steps = 0; exhausted = false }

match_from-IsResult_example :
    IsResult choice subject choice-IsProgram 0 (match_from choice subject 0 1 fresh)
match_from-IsResult_example =
    match_from-IsResult choice subject choice-IsProgram 0 1 fresh (omega arith) (omega arith)
      (record { sized = refl; within = (tt, (tt, tt)) })

search_from-Found_example :
    (r : Bool × ℕ × Shared) × (search_from choice subject 1 ≡ some r)
    × Found choice subject choice-IsProgram refl 1 r
search_from-Found_example = search_from-Found choice subject choice-IsProgram refl 1 (omega arith)

search_from-Leftmost_example :
    (r : Bool × ℕ × Shared) × (search_from choice subject 0 ≡ some r)
    × Leftmost choice subject refl 0 r
search_from-Leftmost_example =
    search_from-Leftmost choice subject choice-IsProgram refl 0 (omega arith)

-- A backreference to a group that is open again, in a body that looks behind: the group's end is that of
-- its round before, and the cursor would be -3.
abbrev backward : Regex
backward =
    plain_regex
      (record { op = re_backref; x = 1; y = 0 } ∷ record { op = re_match; x = 0; y = 0 } ∷ []) 2

falls_below :
    run backward subject 5 re_match
      (record { pc = 0; sp = 0; threads = []; trail = [] })
      (record { slots = none ∷ none ∷ some 3 ∷ some 0 ∷ []; steps = 0; exhausted = false })
    ≡ fail before_subject
unfolding program max_steps
falls_below = refl
