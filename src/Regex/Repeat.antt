-- ===== src/Regex/Repeat.antt =====
-- src/runtime/regex.c: the code of a quantified atom and of an alternation keeps what stands before it,
-- and has its targets within.
use cscript.Prelude.{
  append-append, ℕ, zero, suc, ◌+◌, ◌-◌, ◌*◌, ◌≤◌, ◌≡◌, refl, sym, ap, ◌∙◌, Bool, true, false, List,
  [], ◌∷◌, ◌++◌, map, length, take, drop, Option, none, some, length-append, length-take,
  length-drop, length-map, arith,
}
use mathlib.Core.Path.{subst}
use mathlib.Core.List.{append-nil}
use cscript.Regex.{Inst, re_split, re_jump}
use cscript.Regex.Compile.{
  move_inst, shift_inst, split, copies, star, optional, extend, repeat, branch,
}
use cscript.Regex.Targets.{
  AreTargets, AreTargets-append, AreTargets-le, AreTargets-drop, moved, shifted,
}

module _ (groups start bound : ℕ) (atom : List Inst) where
  -- The targets of added code lie within any length that holds it all, and the `bound`.
  abbrev Within : List Inst → ℕ → List Inst → Type 0
  Within code n part =
      (len : ℕ)
      → length code + n ≤ len
      → bound ≤ len
      → start ≤ length code
      → AreTargets (start + length atom) groups atom
      → AreTargets len groups part

  -- Code of a length added behind `code`.
  pub record Adds (code : List Inst) (n : ℕ) (out : List Inst) : Type 0 where
    pub part : List Inst
    pub joined : out ≡ code ++ part
    pub sized : length part ≡ n
    pub targets : Within code n part

  nothing_behind : (code : List Inst) (n : ℕ) → 0 ≡ n → Adds code n code
  nothing_behind code n h = record {
    part = [];
    joined = sym (append-nil code);
    sized = h;
    targets = λ len h b s t. tt;
  }

  -- More added behind what is added.
  pub more_behind :
      (code : List Inst) (part : List Inst) (m n k : ℕ) (out : List Inst)
      → length part ≡ m
      → m + n ≡ k
      → Within code m part
      → Adds (code ++ part) n out
      → Adds code k out
  more_behind code part m n k out h e t a = record {
    part = part ++ a.part;
    joined = a.joined ∙ append-append code part a.part;
    sized = omega (arith, length-append part a.part, h, a.sized, e);
    targets = λ len l b s w.
        AreTargets-append len groups part a.part (t len (omega (arith, l, e)) b s w) (
          a.targets len (omega (arith, length-append code part, h, l, e)) b
            (omega (arith, length-append code part, s)) w);
  }

  copies-Adds : (n : ℕ) (code : List Inst) → Adds code (n * length atom) (copies n start atom code)
  unfolding copies
  copies-Adds zero code = nothing_behind code _ (grind arith)
  copies-Adds (suc n) code =
      let d = length code - start in
      more_behind code (map (move_inst d) atom) (length atom) (n * length atom) _ _
        (length-map atom (move_inst d)) (grind arith)
        (λ len l b s w. moved (start + length atom) len groups d atom (omega (arith, l, s)) w)
        (copies-Adds n (code ++ map (move_inst d) atom))

  split_then :
      (lazy : Bool) (code : List Inst) (end : ℕ) (rest : List Inst) (len : ℕ)
      → length code + 1 ≤ len
      → end ≤ len
      → AreTargets len groups rest
      → AreTargets len groups (split lazy (length code + 1) end ∷ rest)
  split_then true code end rest len h k r = ((k, h), r)
  split_then false code end rest len h k r = ((h, k), r)

  body :
      (code : List Inst)
      → Within code (1 + length atom) (map (move_inst (length code + 1 - start)) atom)
  body code len l b s w = moved (start + length atom) len groups _ atom (omega (arith, l, s)) w

  star-Adds :
      (lazy : Bool) (code : List Inst) → Adds code (length atom + 2) (star lazy start atom code)
  unfolding star
  star-Adds lazy code =
      let copy = map (move_inst (length code + 1 - start)) atom in
      let back : List Inst = record { op = re_jump; x = length code; y = 0 } ∷ [] in
      let size : length copy ≡ length atom =
        length-map atom (move_inst (length code + 1 - start)) in
      record {
        part = split lazy (length code + 1) (length code + 1 + length atom + 1) ∷ copy ++ back;
        joined = refl;
        sized = omega (arith, length-append copy back, size);
        targets = λ len l b s w.
            split_then lazy code _ (copy ++ back) len (omega (arith, l)) (omega (arith, l)) (
              AreTargets-append len groups copy back (body code len (omega (arith, l)) b s w)
                (omega (arith, l), tt));
      }

  optional-Adds :
      (lazy : Bool) (n : ℕ) (code : List Inst)
      → Adds code (n * (1 + length atom)) (optional lazy n bound start atom code)
  unfolding optional
  optional-Adds lazy zero code = nothing_behind code _ (grind arith)
  optional-Adds lazy (suc n) code =
      let copy = map (move_inst (length code + 1 - start)) atom in
      more_behind code (split lazy (length code + 1) bound ∷ copy) (1 + length atom)
        (n * (1 + length atom)) _ _
        (omega (arith, length-map atom (move_inst (length code + 1 - start)))) (grind arith)
        (λ len l b s w.
          split_then lazy code bound copy len (omega (arith, l)) b (body code len l b s w))
        (optional-Adds lazy n (code ++ (split lazy (length code + 1) bound ∷ copy)))

-- Code that keeps `base` in front, with all targets within it.
pub record Extends (groups : ℕ) (base out : List Inst) : Type 0 where
  pub part : List Inst
  pub joined : out ≡ base ++ part
  pub targets : AreTargets (length out) groups out

extended :
    (groups : ℕ) (base part out : List Inst)
    → out ≡ base ++ part
    → AreTargets (length base) groups base
    → AreTargets (length base + length part) groups part
    → Extends groups base out
extended groups base part out e hb hp = record {
  part = part;
  joined = e;
  targets =
      let size : length out ≡ length base + length part = ap length e ∙ length-append base part in
      subst (λ c. AreTargets (length out) groups c) (sym e)
        (AreTargets-append (length out) groups base part
          (AreTargets-le (length base) (length out) groups groups base (omega (arith, size))
            (omega arith) hb)
          (subst (λ l. AreTargets l groups part) (sym size) hp));
}

extend-Adds :
    (groups start least : ℕ) (lazy : Bool) (most : Option ℕ) (atom code : List Inst)
    → (bound n : ℕ) × (bound ≤ length code + n)
      × Adds groups start bound atom code n (extend lazy least most start atom code)
extend-Adds groups start least lazy none atom code =
    (0, length atom + 2, omega arith, star-Adds groups start 0 atom lazy code)
extend-Adds groups start least lazy (some most) atom code =
    let n = (most - least) * (1 + length atom) in
    (
      length code + n,
      n,
      omega arith,
      optional-Adds groups start (length code + n) atom lazy (most - least) code,
    )

-- When every target of the code lies within it, and those of the code before an atom lie before it, the
-- code of the quantified atom keeps what stands before the atom and has every target within it.
pub repeat-Extends :
    (groups : ℕ) (lazy : Bool) (least : ℕ) (most : Option ℕ) (start : ℕ) (code : List Inst)
    → start ≤ length code
    → AreTargets start groups (take start code)
    → AreTargets (length code) groups code
    → Extends groups (take start code) (repeat lazy least most start code)
unfolding repeat
repeat-Extends groups lazy least most start code h hb hc =
    let base = take start code in
    let atom = drop start code in
    let size : length base ≡ start = omega (arith, length-take start code, h) in
    let rest : start + length atom ≡ length code = omega (arith, length-drop start code, h) in
    let w =
      subst (λ l. AreTargets l groups atom) (sym rest)
        (AreTargets-drop (length code) groups start code hc) in
    let a = copies-Adds groups start 0 atom least base in
    let (bound, n, within, b) =
      extend-Adds groups start least lazy most atom (copies least start atom base) in
    let middle : length (copies least start atom base) ≡ start + length a.part =
      ap length a.joined ∙ (length-append base a.part ∙ omega (arith, size)) in
    let len = length base + length (a.part ++ b.part) in
    let total = length-append a.part b.part in
    extended groups base (a.part ++ b.part) _
      (b.joined ∙ (ap (λ c. c ++ b.part) a.joined ∙ append-append base a.part b.part))
      (subst (λ l. AreTargets l groups base) (sym size) hb)
      (AreTargets-append len groups a.part b.part
        (a.targets len (omega (arith, size, total, a.sized)) (omega arith) (omega (arith, size)) w)
        (b.targets len (omega (arith, size, middle, total, b.sized))
          (omega (arith, size, middle, within, total, b.sized)) (omega (arith, middle)) w))

-- The code of an alternation at a further branch keeps what stands before it.
pub branch-Extends :
    (groups start : ℕ) (code : List Inst)
    → start ≤ length code
    → AreTargets start groups (take start code)
    → AreTargets (length code) groups code
    → Extends groups (take start code) (branch start code)
branch-Extends groups start code h hb hc =
    let base = take start code in
    let size : length base ≡ start = omega (arith, length-take start code, h) in
    let left = map (shift_inst start) (drop start code) in
    let moved_size = length-map (drop start code) (shift_inst start) in
    let room : length left ≡ length code - start = moved_size ∙ length-drop start code in
    let jump : List Inst = record { op = re_jump; x = 0; y = 0 } ∷ [] in
    let first : Inst = record { op = re_split; x = start + 1; y = length code + 2 } in
    let all : length (left ++ jump) ≡ length left + 1 = length-append left jump in
    let len = length base + length (first ∷ left ++ jump) in
    let whole : len ≡ length code + 2 = omega (arith, size, room, all, h) in
    extended groups base (first ∷ left ++ jump) _ refl
      (subst (λ l. AreTargets l groups base) (sym size) hb)
      (
        (omega (arith, whole, h), omega (arith, whole)),
        AreTargets-append len groups left jump
            (shifted (length code) len groups start (drop start code) (omega (arith, whole))
              (AreTargets-drop (length code) groups start code hc))
            (omega arith, tt),
      )
