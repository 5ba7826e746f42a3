-- ===== src/Regex/Compile.antt =====
-- src/runtime/regex.c: compiling a pattern. The pattern from the position on is `rest`, so that setting
-- the position back is keeping the text. Memory is taken to suffice.
use cscript.Prelude.{
  ℕ, zero, suc, ◌+◌, ◌-◌, ◌*◌, Bool, true, false, ◌&&◌, ◌||◌, List, [], ◌∷◌, ◌++◌, map, length,
  take, drop, set, in_range, ltb, leb, ◌==◌, if◌then◌else◌, Option, none, some,
}
use cscript.Regex.{
  Op, Inst, Regex, group_named, re_any, re_split, re_jump, re_save, re_assert_bol, re_assert_eol,
  re_assert_word, re_backref, re_look, re_lookbehind, re_look_end, re_match,
}
use cscript.Regex.Classes.{
  Message, open_lookahead, open_lookbehind, open_name, no_name, unsupported_modifier,
  too_many_groups, open_group, trailing_escape, no_such_group, backwards_bounds, large_bounds,
  extra_paren, same_name, Parser, Answer, parsed, failed, no_fuel, and_then, emit, emit_class,
  emit_byte, no_bytes, add_escape_class, negate_class, escaped_byte, parse_class, peek_char,
  next_char,
}

-- `CS_REGEX_MAX_GROUPS`
abbrev pub max_groups : ℕ
max_groups = 32

-- A parse of what stands inside a group.
abbrev pub Parse : Type 0
Parse = Parser → Answer

-- The closing parenthesis, or the message of its absence.
unfoldable pub close : Message → Parser → Answer
close m p =
    if peek_char p.rest == b')' then parsed (record p { rest = next_char p.rest }) else failed m

-- A lookaround: its instruction, the body, and the place behind it as the continuation.
unfoldable pub finish_look : Op → ℕ → ℕ → Parser → Answer
finish_look op x at p =
    let ended = emit re_look_end 0 0 p.regex in
    parsed (record p {
      regex = record ended {
        code = set ended.code at (record { op = op; x = x; y = length ended.code });
      };
    })

unfoldable pub parse_look : Parse → Op → ℕ → Message → Parser → Answer
parse_look inside op x m p =
    and_then (and_then (inside (record p { regex = emit op x 0 p.regex })) (close m))
      (finish_look op x (length p.regex.code))

-- `addGroupName`
unfoldable pub add_group_name : List ℕ → ℕ → Parser → Answer
add_group_name name group p = elim (group_named p.regex.names name) [
  | some taken ↦ failed same_name
  | none ↦
      parsed (record p { regex = record p.regex { names = p.regex.names ++ (name, group) ∷ [] } })
]

abbrev pub name_if : Option (List ℕ) → ℕ → Parser → Answer
name_if none group p = parsed p
name_if (some name) group p = add_group_name name group p

unfoldable pub end_capture : ℕ → Parser → Answer
end_capture group p = parsed (record p { regex = emit re_save (group * 2 + 1) 0 p.regex })

-- A capturing group, with the name that it may have.
unfoldable pub parse_capture : Parse → Option (List ℕ) → Parser → Answer
parse_capture inside name p =
    let group = p.regex.group_count in
    let opened = emit re_save (group * 2) 0 (record p.regex { group_count = group + 1 }) in
    if leb max_groups group
    then failed too_many_groups
    else and_then
        (and_then (and_then (name_if name group (record p { regex = opened })) inside)
          (close open_group))
        (end_capture group)

-- The name of a group up to its `>`, and the text behind that.
unfoldable pub read_name : List ℕ → Option (List ℕ × List ℕ)
read_name [] = none
read_name (c ∷ text) =
    let rest = read_name text in
    if c == b'>'
    then some ([], text)
    else elim rest [ none ↦ none | some (name, more) ↦ some (c ∷ name, more) ]

unfoldable pub parse_named : Parse → Option (List ℕ × List ℕ) → Parser → Answer
parse_named inside none p = failed open_name
parse_named inside (some ([], more)) p = failed no_name
parse_named inside (some (c ∷ name, more)) p =
    parse_capture inside (some (c ∷ name)) (record p { rest = more })

-- `(?<`, with the text behind it.
unfoldable pub parse_angle : Parse → List ℕ → Parser → Answer
parse_angle inside [] p = parse_named inside (read_name []) p
parse_angle inside (c ∷ more) p =
    if c == b'=' || c == b'!'
    then parse_look inside re_lookbehind (if c == b'!' then 1 else 0) open_lookbehind
        (record p { rest = more })
    else parse_named inside (read_name (c ∷ more)) p

-- The modifiers behind `(?`.
unfoldable pub parse_modified : Parse → ℕ → List ℕ → Parser → Answer
parse_modified inside kind more p =
    if kind == b':'
    then and_then (inside (record p { rest = more })) (close open_group)
    else (if kind == b'=' || kind == b'!'
        then parse_look inside re_look (if kind == b'!' then 1 else 0) open_lookahead
            (record p { rest = more })
        else (if kind == b'<' then parse_angle inside more p else failed unsupported_modifier))

-- The group behind its `(`.
unfoldable pub parse_group : Parse → List ℕ → Parser → Answer
parse_group inside (q ∷ kind ∷ more) p =
    if q == b'?' then parse_modified inside kind more p else parse_capture inside none p
parse_group inside text p = parse_capture inside none p

abbrev pub emits : Op → ℕ → Parser → Answer
emits op x p = parsed (record p { regex = emit op x 0 p.regex })

abbrev pub lower : ℕ → ℕ
lower c = if in_range c b'A' b'Z' then c + 32 else c

-- The atom behind a backslash, with the text there.
unfoldable pub parse_escape : List ℕ → Parser → Answer
parse_escape [] p = failed trailing_escape
parse_escape (escape ∷ text) p =
    let behind : Parser = record p { rest = text } in
    let group = escape - b'0' in
    if escape == b'b' || escape == b'B'
    then emits re_assert_word (if escape == b'b' then 1 else 0) behind
    else (if in_range escape b'1' b'9'
        then (if leb p.regex.group_count group
            then failed no_such_group
            else emits re_backref group behind)
        else elim (add_escape_class (lower escape) no_bytes) [
          | some bits ↦ parsed (record behind {
            regex =
                emit_class (if in_range escape b'A' b'Z' then negate_class bits else bits) p.regex;
          })
          | none ↦ parsed (record behind { regex = emit_byte (escaped_byte escape) p.regex })
        ])

-- `parseAtom`, behind its first character.
unfoldable pub parse_atom : Parse → ℕ → Parser → Answer
parse_atom inside c p =
    if c == b'('
    then parse_group inside p.rest p
    else (if c == b'['
        then parse_class p
        else (if c == b'.'
            then emits re_any 0 p
            else (if c == b'^'
                then emits re_assert_bol 0 p
                else (if c == b'$'
                    then emits re_assert_eol 0 p
                    else (if c == b'\\'
                        then parse_escape p.rest p
                        else parsed (record p { regex = emit_byte c p.regex }))))))

-- The digits of a bound from `n` on: whether there are any, the number, and the text behind them.
unfoldable pub read_number : Bool → ℕ → List ℕ → Bool × ℕ × List ℕ
read_number saw n [] = (saw, n, [])
read_number saw n (c ∷ text) =
    let rest = read_number true (n * 10 + (c - b'0')) text in
    if in_range c b'0' b'9' then rest else (saw, n, c ∷ text)

-- What a quantifier says: the least and the most, where no most is `none`, and the text behind it.
pub data Bounds : Type 0 where
  unquantified : Bounds
  bounded : ℕ → Option ℕ → List ℕ → Bounds
  refused : Message → Bounds

abbrev pub exceeds : ℕ → Option ℕ → Bool
exceeds n none = false
exceeds n (some m) = ltb n m

abbrev pub below : Option ℕ → ℕ → Bool
below none n = false
below (some m) n = ltb m n

-- The end of a `{n,m}`, from its `}` on.
unfoldable pub finish_bounds : ℕ → Option ℕ → List ℕ → Bounds
finish_bounds least most text =
    if peek_char text == b'}'
    then (if below most least
        then refused backwards_bounds
        else (if exceeds 1000 most || ltb 1000 least
            then refused large_bounds
            else bounded least most (next_char text)))
    else unquantified

-- The part of a `{n,m}` behind the first number.
unfoldable pub read_most : ℕ → List ℕ → Bounds
read_most least text =
    let after = next_char text in
    let (saw, most, more) = read_number false 0 after in
    if peek_char text == b','
    then (if peek_char after == b'}'
        then finish_bounds least none after
        else finish_bounds least (some most) more)
    else finish_bounds least (some least) text

unfoldable pub read_bounds : List ℕ → Bounds
read_bounds [] = unquantified
read_bounds (c ∷ text) =
    let (saw, least, more) = read_number false 0 text in
    if c == b'*'
    then bounded 0 none text
    else (if c == b'+'
        then bounded 1 none text
        else (if c == b'?'
            then bounded 0 (some 1) text
            else (if (c == b'{') && saw then read_most least more else unquantified)))

-- An instruction of an atom that is copied `d` further on.
unfoldable pub move_op : ℕ → Op → Inst → Inst
move_op d re_split i = record i { x = i.x + d; y = i.y + d }
move_op d re_jump i = record i { x = i.x + d }
move_op d op i = i

abbrev pub move_inst : ℕ → Inst → Inst
move_inst d i = move_op d i.op i

-- `n` copies of an atom that was at `start`, behind the code so far.
unfoldable pub copies : ℕ → ℕ → List Inst → List Inst → List Inst
copies zero start atom code = code
copies (suc n) start atom code =
    copies n start atom (code ++ map (move_inst (length code - start)) atom)

-- The split of a quantifier between its body and its end; a lazy one tries the end first.
abbrev pub split : Bool → ℕ → ℕ → Inst
split lazy body end = record {
  op = re_split;
  x = if lazy then end else body;
  y = if lazy then body else end;
}

-- `e*`: split, body, jump back.
unfoldable pub star : Bool → ℕ → List Inst → List Inst → List Inst
star lazy start atom code =
    let at = length code in
    let end = at + 1 + length atom + 1 in
    code
    ++ (split lazy (at + 1) end ∷ map (move_inst (at + 1 - start)) atom
        ++ record { op = re_jump; x = at; y = 0 } ∷ [])

-- `n` optional copies, each with a split to the end behind all of them.
unfoldable pub optional : Bool → ℕ → ℕ → ℕ → List Inst → List Inst → List Inst
optional lazy zero end start atom code = code
optional lazy (suc n) end start atom code =
    optional lazy n end start atom
      (code ++ (split lazy (length code + 1) end ∷ map (move_inst (length code + 1 - start)) atom))

abbrev pub extend : Bool → ℕ → Option ℕ → ℕ → List Inst → List Inst → List Inst
extend lazy least none start atom code = star lazy start atom code
extend lazy least (some most) start atom code =
    optional lazy (most - least) (length code + (most - least) * (1 + length atom)) start atom code

-- The code of the atom from `start` on, repeated.
unfoldable pub repeat : Bool → ℕ → Option ℕ → ℕ → List Inst → List Inst
repeat lazy least most start code =
    let atom = drop start code in
    extend lazy least most start atom (copies least start atom (take start code))

-- The end of `parseRepetition`.
unfoldable pub quantify : ℕ → Bounds → Parser → Answer
quantify start unquantified p = parsed p
quantify start (refused m) p = failed m
quantify start (bounded least most text) p =
    let lazy = (peek_char text == b'?') in
    parsed (record {
      regex = record p.regex { code = repeat lazy least most start p.regex.code };
      rest = if lazy then next_char text else text;
    })

unfoldable pub quantified : ℕ → Parser → Answer
quantified start p = quantify start (read_bounds p.rest) p

-- `parseRepetition`, behind the first character of its atom.
unfoldable pub parse_repetition : Parse → ℕ → Parser → Answer
parse_repetition inside c p = and_then (parse_atom inside c p) (quantified (length p.regex.code))

-- `parseConcatenation`
unfoldable pub parse_concatenation : ℕ → Parse → List ℕ → Parser → Answer
parse_concatenation zero inside text p = no_fuel
parse_concatenation (suc fuel) inside [] p = parsed p
parse_concatenation (suc fuel) inside (c ∷ text) p =
    let rest =
      and_then (parse_repetition inside c (record p { rest = text }))
        (λ q. parse_concatenation fuel inside q.rest q) in
    if c == b'|' || c == b')' then parsed p else rest

-- An instruction of a branch that makes room for the split before it.
abbrev pub shift_target : ℕ → ℕ → ℕ
shift_target start t = if leb start t then t + 1 else t

unfoldable pub shift_op : ℕ → Op → Inst → Inst
shift_op start re_split i = record i { x = shift_target start i.x; y = shift_target start i.y }
shift_op start re_jump i = record i { x = shift_target start i.x }
shift_op start op i = i

abbrev pub shift_inst : ℕ → Inst → Inst
shift_inst start i = shift_op start i.op i

-- The code of `parseAlternation` when it meets a `|`: a split before what it has, and a jump behind it.
abbrev pub branch : ℕ → List Inst → List Inst
branch start code =
    take start code
    ++ (record { op = re_split; x = start + 1; y = length code + 2 }
          ∷ map (shift_inst start) (drop start code)
        ++ record { op = re_jump; x = 0; y = 0 } ∷ [])

-- The jump over the branch that follows it, once that is parsed.
unfoldable pub land : ℕ → Parser → Answer
land jump p = parsed (record p {
  regex = record p.regex {
    code = set p.regex.code jump (record { op = re_jump; x = length p.regex.code; y = 0 });
  };
})

-- The loop of `parseAlternation`.
unfoldable pub alternatives : ℕ → Parse → ℕ → Parser → Answer
alternatives zero inside start p = no_fuel
alternatives (suc fuel) inside start p =
    let text = next_char p.rest in
    let opened : Parser = record {
      regex = record p.regex { code = branch start p.regex.code };
      rest = text;
    } in
    let rest =
      and_then
        (and_then (parse_concatenation (suc (length text)) inside text opened)
          (land (length p.regex.code + 1)))
        (alternatives fuel inside start) in
    if peek_char p.rest == b'|' then rest else parsed p

-- `parseAlternation`; the fuel bounds the depth of groups.
unfoldable pub parse_alternation : ℕ → Parser → Answer
parse_alternation zero p = no_fuel
parse_alternation (suc depth) p =
    let inside = parse_alternation depth in
    and_then (parse_concatenation (suc (length p.rest)) inside p.rest p)
      (alternatives (suc (length p.rest)) inside (length p.regex.code))

-- The empty program with the flags.
abbrev pub blank : Bool → Bool → Bool → Regex
blank ignore_case multiline dot_all = record {
  code = [];
  classes = [];
  group_count = 1;
  names = [];
  ignore_case = ignore_case;
  multiline = multiline;
  dot_all = dot_all;
}

unfoldable pub finish_program : Parser → Answer
finish_program p =
    if length p.rest == 0
    then parsed (record p { regex = emit re_match 0 0 (emit re_save 1 0 p.regex) })
    else failed extra_paren

-- `csRegexCompile`; the program is that of the parser that is left.
unfoldable pub compile : List ℕ → Bool → Bool → Bool → Answer
compile pattern ignore_case multiline dot_all =
    and_then
      (parse_alternation (suc (length pattern))
        (record { regex = emit re_save 0 0 (blank ignore_case multiline dot_all); rest = pattern }))
      finish_program
