-- ===== src/Regex/CompileTests.antt =====
-- Runs of the compiler, and its theorems at a concrete pattern.
use cscript.Prelude.{ℕ, ◌≡◌, refl, [], ◌∷◌, List, true, false}
use cscript.Regex.{
  Inst, re_char, re_split, re_jump, re_save, re_look, re_look_end, re_match, group_named,
}
use cscript.Regex.Classes.{
  Parser, Answer, parsed, failed, class_add, class_add_bytes, class_add_range, add_escape_class,
  escaped_byte, emit_byte, read_escape, read_member, read_escaped, read_high, class_range,
  class_member, class_loop, fold_letters, finish_class, parse_class, open_group, no_such_group,
  backwards_range, extra_paren,
}
use cscript.Regex.Compile.{
  close, finish_look, parse_look, add_group_name, end_capture, parse_capture, read_name,
  parse_named, parse_angle, parse_modified, parse_group, parse_escape, parse_atom, read_number,
  finish_bounds, read_most, read_bounds, move_op, copies, star, optional, repeat, quantify,
  quantified, parse_repetition, parse_concatenation, shift_op, land, alternatives,
  parse_alternation, finish_program, compile,
}
use cscript.Regex.Compiled.{IsCompiled, compile-IsCompiled}

compiler : Unit {0}
unfolding group_named class_add class_add_bytes class_add_range add_escape_class escaped_byte
    emit_byte read_escape read_member read_escaped read_high class_range class_member class_loop
    fold_letters finish_class parse_class close finish_look parse_look add_group_name end_capture
    parse_capture read_name parse_named parse_angle parse_modified parse_group parse_escape
    parse_atom read_number finish_bounds read_most read_bounds move_op copies star optional repeat
    quantify quantified parse_repetition parse_concatenation shift_op land alternatives
    parse_alternation finish_program compile
compiler = tt

abbrev ended : List Inst → Parser
ended code = record {
  regex = record {
    code = code;
    classes = [];
    group_count = 1;
    names = [];
    ignore_case = false;
    multiline = false;
    dot_all = false;
  };
  rest = [];
}

abbrev plain : List ℕ → Answer
plain pattern = compile pattern false false false

-- `a|ab`
abbrev choice : List ℕ
choice = b'a' ∷ b'|' ∷ b'a' ∷ b'b' ∷ []

abbrev choice_parsed : Parser
choice_parsed = ended (
    record { op = re_save; x = 0; y = 0 }
    ∷ record { op = re_split; x = 2; y = 4 }
    ∷ record { op = re_char; x = b'a'; y = 0 }
    ∷ record { op = re_jump; x = 6; y = 0 }
    ∷ record { op = re_char; x = b'a'; y = 0 }
    ∷ record { op = re_char; x = b'b'; y = 0 }
    ∷ record { op = re_save; x = 1; y = 0 }
    ∷ record { op = re_match; x = 0; y = 0 }
    ∷ [])

choice_compiles : plain choice ≡ parsed choice_parsed
unfolding compiler
choice_compiles = refl

-- `(?=a)b|c`: the split before the first branch moves its instructions, but the continuation of the
-- lookahead, which was 4, stays 4, where it is now 5.
look_not_moved :
    plain (b'(' ∷ b'?' ∷ b'=' ∷ b'a' ∷ b')' ∷ b'b' ∷ b'|' ∷ b'c' ∷ [])
    ≡ parsed (
        ended (
          record { op = re_save; x = 0; y = 0 }
          ∷ record { op = re_split; x = 2; y = 7 }
          ∷ record { op = re_look; x = 0; y = 4 }
          ∷ record { op = re_char; x = b'a'; y = 0 }
          ∷ record { op = re_look_end; x = 0; y = 0 }
          ∷ record { op = re_char; x = b'b'; y = 0 }
          ∷ record { op = re_jump; x = 8; y = 0 }
          ∷ record { op = re_char; x = b'c'; y = 0 }
          ∷ record { op = re_save; x = 1; y = 0 }
          ∷ record { op = re_match; x = 0; y = 0 }
          ∷ []))
unfolding compiler
look_not_moved = refl

-- `b{1,2}?` and `b*`
repeated :
    (plain (b'b' ∷ b'{' ∷ b'1' ∷ b',' ∷ b'2' ∷ b'}' ∷ b'?' ∷ [])
      ≡ parsed (
          ended (
            record { op = re_save; x = 0; y = 0 }
            ∷ record { op = re_char; x = b'b'; y = 0 }
            ∷ record { op = re_split; x = 4; y = 3 }
            ∷ record { op = re_char; x = b'b'; y = 0 }
            ∷ record { op = re_save; x = 1; y = 0 }
            ∷ record { op = re_match; x = 0; y = 0 }
            ∷ [])))
    × (plain (b'b' ∷ b'*' ∷ [])
        ≡ parsed (
            ended (
              record { op = re_save; x = 0; y = 0 }
              ∷ record { op = re_split; x = 2; y = 4 }
              ∷ record { op = re_char; x = b'b'; y = 0 }
              ∷ record { op = re_jump; x = 1; y = 0 }
              ∷ record { op = re_save; x = 1; y = 0 }
              ∷ record { op = re_match; x = 0; y = 0 }
              ∷ [])))
unfolding compiler
repeated = (refl, refl)

refusals :
    (plain (b'(' ∷ b'a' ∷ []) ≡ failed open_group)
    × (plain (b'a' ∷ b')' ∷ []) ≡ failed extra_paren)
    × (plain (b'\\' ∷ b'1' ∷ []) ≡ failed no_such_group)
    × (plain (b'[' ∷ b'b' ∷ b'-' ∷ b'a' ∷ b']' ∷ []) ≡ failed backwards_range)
unfolding compiler
refusals = (refl, refl, refl, refl)

compile-IsCompiled_example : IsCompiled (compile choice false true false)
compile-IsCompiled_example = compile-IsCompiled choice false true false
