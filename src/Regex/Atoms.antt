-- ===== src/Regex/Atoms.antt =====
-- src/runtime/regex.c: parsing an atom keeps the code before it, and leaves only valid targets.
use cscript.Prelude.{
  false, ℕ, ◌+◌, ◌-◌, ◌*◌, ◌≤◌, ◌<◌, ◌≡◌, refl, sym, ap, inl, inr, ◌||◌, List, [], ◌∷◌, ◌++◌,
  length, leb, ◌==◌, in_range, if◌then◌else◌, Option, none, some, arith, Bool-cases, ◌⊎◌, none≢some,
  some-cancel, Option-cases,
}
use mathlib.Core.List.{append-nil}
use cscript.Regex.{
  Op, group_named, re_any, re_save, re_assert_bol, re_assert_eol, re_assert_word, re_backref,
  re_look, re_lookbehind, re_look_end,
}
use cscript.Regex.Classes.{
  Message, Parser, parsed, failed, and_then, emit, emit_class, emit_byte, open_lookahead,
  open_lookbehind, unsupported_modifier, open_group, no_such_group, too_many_groups,
  add_escape_class, negate_class, escaped_byte, peek_char, next_char, no_bytes,
}
use cscript.Regex.Compile.{
  Parse, close, finish_look, parse_look, add_group_name, name_if, end_capture, parse_capture,
  read_name, parse_named, parse_angle, parse_modified, parse_group, emits, lower, parse_escape,
  parse_atom, max_groups,
}
use cscript.Regex.Targets.{IsTarget}
use cscript.Regex.Classed.{is_class, IsClassed-other}
use cscript.Regex.Grows.{
  Good, Grows, Fine, IsParse, Grows-trans, Grows-refl, Fine-trans, bind-Fine, and_then-Fine,
  emit-Grows, set-Grows, Fine-if,
}
use cscript.Regex.Members.{next_char-shorter, emit_class-Grows, emit_byte-Grows, parse_class-Fine}

-- Text left out.
pub skip-Grows :
    (p : Parser) (rest : List ℕ)
    → Good p
    → length rest ≤ length p.rest
    → Grows p (record p { rest = rest })
skip-Grows p rest h l = record {
  part = [];
  joined = sym (append-nil p.regex.code);
  groups = omega arith;
  classes = omega arith;
  text = l;
  good = h;
}

close-Fine : (m : Message) (p : Parser) → Good p → Fine p (close m p)
unfolding close
close-Fine m p h =
    Fine-if p (peek_char p.rest == b')') _ (failed m)
      (skip-Grows p (next_char p.rest) h (next_char-shorter p.rest)) tt

read_name-shorter :
    (text name more : List ℕ) → read_name text ≡ some (name, more) → length more ≤ length text
unfolding read_name
read_name-shorter [] name more e = absurd (none≢some e)
read_name-shorter (c ∷ text) name more e = elim (Bool-cases (c == b'>')) [
  | inl k ↦ omega (arith, ap (λ r. length r.1) (some-cancel (rw k at e)))
  | inr k ↦ elim (Option-cases (read_name text)) [
    | inl n ↦ absurd (none≢some (rw (k, n) at e))
    | inr ((first, left), n) ↦ omega (
      arith,
      read_name-shorter text first left n,
      ap (λ r. length r.1) (some-cancel (rw (k, n) at e)),
    )
  ]
]

emits-Fine :
    (op : Op) (x : ℕ) (p : Parser)
    → ((len groups : ℕ) → IsTarget len groups op x 0)
    → is_class op ≡ false
    → Good p
    → Fine p (emits op x p)
emits-Fine op x p t c h =
    emit-Grows p op x 0 p.regex p.rest h refl (omega arith) (IsClassed-other _ op x c) (omega arith)
      (omega arith) (t _ _)

parse_escape-Fine :
    (text : List ℕ) (p : Parser)
    → Good p
    → length text ≤ length p.rest
    → Fine p (parse_escape text p)
unfolding parse_escape
parse_escape-Fine [] p h l = tt
parse_escape-Fine (escape ∷ text) p h l =
    let behind : Parser = record p { rest = text } in
    let g = skip-Grows p text h (omega arith) in
    let word = if escape == b'b' then 1 else 0 in
    Fine-if p (escape == b'b' || escape == b'B') _ _
      (Fine-trans p behind (emits re_assert_word word behind) g
        (emits-Fine re_assert_word word behind (λ n g. tt) refl h))
      (Fine-if p (in_range escape b'1' b'9') _ _ (group_or_none (escape - b'0'))
        (class_or_byte (Option-cases (add_escape_class (lower escape) no_bytes))))
  where
    group_or_none :
        (group : ℕ)
        → Fine p (
            if leb p.regex.group_count group
            then failed no_such_group
            else emits re_backref group (record p { rest = text }))
    group_or_none group = elim (Bool-cases (leb p.regex.group_count group)) [
      | inl e ↦ rw (e, Fine) tt
      | inr e ↦
          rw (e, Fine)
            (emit-Grows p re_backref group 0 p.regex text h refl (omega arith) tt (omega arith)
              (omega arith) (ground arith))
    ]

    class_or_byte :
        (o : (add_escape_class (lower escape) no_bytes ≡ none)
          ⊎ ((bits : List ℕ) × (add_escape_class (lower escape) no_bytes ≡ some bits)))
        → Fine p (elim (add_escape_class (lower escape) no_bytes) [
          | some bits ↦ parsed (record p {
            regex =
                emit_class (if in_range escape b'A' b'Z' then negate_class bits else bits) p.regex;
            rest = text;
          })
          | none ↦
              parsed (record p { regex = emit_byte (escaped_byte escape) p.regex; rest = text })
        ])
    class_or_byte (inl e) =
        rw (e, Fine) (emit_byte-Grows p (escaped_byte escape) text h (omega arith))
    class_or_byte (inr (bits, e)) = rw (e, Fine) (emit_class-Grows p _ text h (omega arith))

module _ (b : ℕ) (inside : Parse) (parse : IsParse b inside) where
  -- A body up to its closing parenthesis.
  body-Fine :
      (m : Message) (p : Parser)
      → Good p
      → length p.rest < b
      → Fine p (and_then (inside p) (close m))
  body-Fine m p h l =
      and_then-Fine p (inside p) (close m) (parse p h l) (λ q g. close-Fine m q g.good)

  finish_look-Fine :
      (op : Op) (x : ℕ) (p q : Parser)
      → ((len groups y : ℕ) → y ≤ len → IsTarget len groups op x y)
      → is_class op ≡ false
      → Grows p q
      → Fine p (finish_look op x (length p.regex.code) q)
  unfolding finish_look
  finish_look-Fine op x p q t c g =
      let ended : Parser = record q { regex = emit re_look_end 0 0 q.regex } in
      let more : Grows q ended =
        emit-Grows q re_look_end 0 0 q.regex q.rest g.good refl (omega arith) tt (omega arith)
          (omega arith) tt in
      set-Grows p ended (length p.regex.code)
        (record { op = op; x = x; y = length ended.regex.code }) (Grows-trans p q ended g more)
        (omega arith) (t _ _ _ (omega arith)) (IsClassed-other _ op x c)

  parse_look-Fine :
      (op : Op) (x : ℕ) (m : Message) (p : Parser)
      → ((len groups y : ℕ) → y ≤ len → IsTarget len groups op x y)
      → is_class op ≡ false
      → Good p
      → length p.rest < b
      → Fine p (parse_look inside op x m p)
  unfolding parse_look
  parse_look-Fine op x m p t c h l =
      let opened : Parser = record p { regex = emit op x 0 p.regex } in
      let g : Grows p opened =
        emit-Grows p op x 0 p.regex p.rest h refl (omega arith) (IsClassed-other _ op x c)
          (omega arith) (omega arith) (t _ _ _ (omega arith)) in
      bind-Fine p (and_then (inside opened) (close m)) _
        (Fine-trans p opened _ g (body-Fine m opened g.good l))
        (λ q k. finish_look-Fine op x p q t c k)

  name-Grows :
      (name : List ℕ) (group : ℕ) (p : Parser)
      → Good p
      → Grows p
          (record p { regex = record p.regex { names = p.regex.names ++ (name, group) ∷ [] } })
  name-Grows name group p h = record {
    part = [];
    joined = sym (append-nil p.regex.code);
    groups = omega arith;
    classes = omega arith;
    text = omega arith;
    good = h;
  }

  add_group_name-Fine :
      (name : List ℕ) (group : ℕ) (p : Parser) → Good p → Fine p (add_group_name name group p)
  unfolding add_group_name
  add_group_name-Fine name group p h = elim (Option-cases (group_named p.regex.names name)) [
    | inl e ↦ rw (e, Fine) (name-Grows name group p h)
    | inr (taken, e) ↦ rw (e, Fine) tt
  ]

  name_if-Fine :
      (name : Option (List ℕ)) (group : ℕ) (p : Parser) → Good p → Fine p (name_if name group p)
  name_if-Fine none group p h = Grows-refl p h
  name_if-Fine (some name) group p h = add_group_name-Fine name group p h

  end_capture-Fine :
      (group : ℕ) (p : Parser) → Good p → group < p.regex.group_count → Fine p (end_capture group p)
  unfolding end_capture
  end_capture-Fine group p h l =
      emit-Grows p re_save (group * 2 + 1) 0 p.regex p.rest h refl (omega arith) tt (omega arith)
        (omega arith) (omega arith)

  parse_capture-Fine :
      (name : Option (List ℕ)) (p : Parser)
      → Good p
      → length p.rest < b
      → Fine p (parse_capture inside name p)
  unfolding parse_capture
  parse_capture-Fine name p h l =
      let group = p.regex.group_count in
      let opened : Parser = record p {
        regex = emit re_save (group * 2) 0 (record p.regex { group_count = group + 1 });
      } in
      let g : Grows p opened =
        emit-Grows p re_save (group * 2) 0 (record p.regex { group_count = group + 1 }) p.rest h
          refl (omega arith) tt (omega arith) (omega arith) (omega arith) in
      Fine-if p (leb max_groups group) (failed too_many_groups) _ tt (
        Fine-trans p opened _ g (
          and_then-Fine opened _ (end_capture group)
            (and_then-Fine opened _ (close open_group)
              (and_then-Fine opened _ inside (name_if-Fine name group opened g.good)
                (λ q k. parse q k.good (omega (arith, k.text, l))))
              (λ q k. close-Fine open_group q k.good))
            (λ q k. end_capture-Fine group q k.good (omega (arith, k.groups)))))

  parse_named-Fine :
      (found : Option (List ℕ × List ℕ)) (p : Parser)
      → Good p
      → length p.rest < b
      → ((name more : List ℕ) → found ≡ some (name, more) → length more ≤ length p.rest)
      → Fine p (parse_named inside found p)
  unfolding parse_named
  parse_named-Fine none p h l s = tt
  parse_named-Fine (some ([], more)) p h l s = tt
  parse_named-Fine (some (c ∷ name, more)) p h l s =
      let less = s (c ∷ name) more refl in
      let behind : Parser = record p { rest = more } in
      Fine-trans p behind _ (skip-Grows p more h less)
        (parse_capture-Fine (some (c ∷ name)) behind h (omega (arith, less, l)))

  parse_angle-Fine :
      (text : List ℕ) (p : Parser)
      → Good p
      → length p.rest < b
      → length text ≤ length p.rest
      → Fine p (parse_angle inside text p)
  unfolding parse_angle
  parse_angle-Fine [] p h l s =
      parse_named-Fine (read_name []) p h l
        (λ name more e. omega (arith, s, read_name-shorter [] name more e))
  parse_angle-Fine (c ∷ text) p h l s =
      let behind : Parser = record p { rest = text } in
      Fine-if p (c == b'=' || c == b'!') _ _
        (Fine-trans p behind _ (skip-Grows p text h (omega arith)) (
          parse_look-Fine re_lookbehind (if c == b'!' then 1 else 0) open_lookbehind behind
            (λ len g y k. k) refl h (omega arith)))
        (parse_named-Fine (read_name (c ∷ text)) p h l
          (λ name more e. omega (arith, s, read_name-shorter (c ∷ text) name more e)))

  parse_modified-Fine :
      (kind : ℕ) (text : List ℕ) (p : Parser)
      → Good p
      → length p.rest < b
      → length text ≤ length p.rest
      → Fine p (parse_modified inside kind text p)
  unfolding parse_modified
  parse_modified-Fine kind text p h l s =
      let behind : Parser = record p { rest = text } in
      let g = skip-Grows p text h s in
      Fine-if p (kind == b':') _ _
        (Fine-trans p behind _ g (body-Fine open_group behind h (omega (arith, s, l))))
        (Fine-if p (kind == b'=' || kind == b'!') _ _
          (Fine-trans p behind _ g (
            parse_look-Fine re_look (if kind == b'!' then 1 else 0) open_lookahead behind
              (λ len g y k. k) refl h (omega (arith, s, l))))
          (Fine-if p (kind == b'<') _ (failed unsupported_modifier) (parse_angle-Fine text p h l s)
            tt))

  parse_group-Fine :
      (text : List ℕ) (p : Parser)
      → Good p
      → length p.rest < b
      → length text ≤ length p.rest
      → Fine p (parse_group inside text p)
  unfolding parse_group
  parse_group-Fine [] p h l s = parse_capture-Fine none p h l
  parse_group-Fine (q ∷ []) p h l s = parse_capture-Fine none p h l
  parse_group-Fine (q ∷ kind ∷ text) p h l s =
      Fine-if p (q == b'?') _ _ (parse_modified-Fine kind text p h l (omega (arith, s)))
        (parse_capture-Fine none p h l)

  pub parse_atom-Fine :
      (c : ℕ) (p : Parser) → Good p → length p.rest < b → Fine p (parse_atom inside c p)
  unfolding parse_atom
  parse_atom-Fine c p h l =
      Fine-if p (c == b'(') _ _ (parse_group-Fine p.rest p h l (omega arith)) (
        Fine-if p (c == b'[') _ _ (parse_class-Fine p h) (
          Fine-if p (c == b'.') _ _ (emits-Fine re_any 0 p (λ n g. tt) refl h) (
            Fine-if p (c == b'^') _ _ (emits-Fine re_assert_bol 0 p (λ n g. tt) refl h) (
              Fine-if p (c == b'$') _ _ (emits-Fine re_assert_eol 0 p (λ n g. tt) refl h) (
                Fine-if p (c == b'\\') _ _ (parse_escape-Fine p.rest p h (omega arith))
                  (emit_byte-Grows p c p.rest h (omega arith)))))))
