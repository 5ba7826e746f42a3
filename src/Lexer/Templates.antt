-- ===== src/Lexer/Templates.antt =====
-- src/compiler/lexer.c: what the loop over a template literal passes over, and that it ends.
use cscript.Prelude.{
  ℕ, zero, suc, ◌+◌, ◌-◌, ◌<◌, ◌≡◌, refl, sym, arith, true, false, not, ◌&&◌, List, [], ◌∷◌, length,
  ◌==◌, ==_iff, if◌then◌else◌, inl, inr, Bool-cases,
}
use mathlib.Core.Path.{subst}
use cscript.Lexer.Scan.{peek, is_at_end, advance, Ending, closed, unclosed, spent, template_end}
use cscript.Lexer.Literals.{escaped, both, shorter, peek_next-cons}

-- The depth of braces behind a byte; outside an interpolation they do not count.
abbrev pub depth_after : ℕ → ℕ → ℕ
depth_after c depth =
    if depth == 0
    then 0
    else (if c == b'{' then depth + 1 else (if c == b'}' then depth - 1 else depth))

-- The body of a template from one cursor to another, each with the depth of braces: escapes, beginnings of
-- interpolations, and other bytes, but for a byte 0 and, at depth 0, a backtick.
pub data Template : ℕ → List ℕ → ℕ → List ℕ → Type 0 where
  stop : {depth : ℕ} {text : List ℕ} → Template depth text depth text
  char :
      {depth later : ℕ} {text end : List ℕ} (c : ℕ)
      → (c == 0) ≡ false
      → ((depth == 0) && (c == b'`')) ≡ false
      → (c == b'\\' && not (peek text == 0)) ≡ false
      → (c == b'$' && peek text == b'{') ≡ false
      → Template (depth_after c depth) text later end
      → Template depth (c ∷ text) later end
  escape :
      {depth later : ℕ} {text end : List ℕ} (d : ℕ)
      → (d == 0) ≡ false
      → Template depth text later end
      → Template depth (b'\\' ∷ d ∷ text) later end
  opens :
      {depth later : ℕ} {text end : List ℕ}
      → Template (depth + 1) text later end
      → Template depth (b'$' ∷ b'{' ∷ text) later end

-- A template is closed by the first backtick at depth 0, and is open at the end of the source.
abbrev pub TemplateEnds : ℕ → List ℕ → Ending × List ℕ × ℕ → Type 0
TemplateEnds depth text (closed, end, line) = Template depth text 0 (b'`' ∷ end)
TemplateEnds depth text (unclosed, end, line) =
    (later : ℕ) × Template depth text later end × (is_at_end end ≡ true)
TemplateEnds depth text (spent, end, line) = ⊥

TemplateEnds-back :
    (depth after : ℕ) (text next : List ℕ) (r : Ending × List ℕ × ℕ)
    → ((later : ℕ) (end : List ℕ) → Template after next later end → Template depth text later end)
    → TemplateEnds after next r
    → TemplateEnds depth text r
TemplateEnds-back depth after text next (closed, end, line) f h = f 0 _ h
TemplateEnds-back depth after text next (unclosed, end, line) f (later, q, e) =
    (later, f later _ q, e)
TemplateEnds-back depth after text next (spent, end, line) f h = h

-- A step over the beginning of an interpolation.
opened :
    (P : List ℕ → Type 0) (c : ℕ) (text : List ℕ)
    → (c == b'$' && peek text == b'{') ≡ true
    → ((more : List ℕ) → advance text ≡ more → P (b'$' ∷ b'{' ∷ more))
    → P (c ∷ text)
opened P c [] k f = let (x, y) = both (c == b'$') false k in absurd cc
opened P c (d ∷ text) k f =
    let (x, y) = both (c == b'$') (d == b'{') k in
    subst (λ c. P (c ∷ d ∷ text)) (sym ((==_iff c b'$').0 x))
      (subst (λ d. P (b'$' ∷ d ∷ text)) (sym ((==_iff d b'{').0 y)) (f text refl))

-- The backtick at depth 0.
ticks :
    (c depth : ℕ) (text : List ℕ)
    → ((depth == 0) && (c == b'`')) ≡ true
    → Template depth (c ∷ text) 0 (b'`' ∷ text)
ticks c depth text k =
    let (x, y) = both (depth == 0) (c == b'`') k in
    subst (λ c. Template depth (c ∷ text) 0 (b'`' ∷ text)) (sym ((==_iff c b'`').0 y))
      (subst (λ n. Template n (b'`' ∷ text) 0 (b'`' ∷ text)) (sym ((==_iff depth 0).0 x)) stop)

pub template_end-TemplateEnds :
    (fuel : ℕ) (text : List ℕ) (line depth : ℕ)
    → length text < fuel
    → TemplateEnds depth text (template_end fuel text line depth)
unfolding template_end
template_end-TemplateEnds zero text line depth h = absurd (omega arith)
template_end-TemplateEnds (suc fuel) [] line depth h = (depth, stop, refl)
template_end-TemplateEnds (suc fuel) (c ∷ text) line depth h = elim (Bool-cases (c == 0)) [
  | inl e ↦ rw e (depth, stop, e)
  | inr e ↦ elim (Bool-cases (c == b'\\' && not (peek text == 0))) [
    | inl k ↦
        rw (e, peek_next-cons c text e, k)
          (TemplateEnds-back depth depth (c ∷ text) (advance text) _
            (λ later end q.
              escaped (λ t. Template depth t later end) c text k
                (λ d more z a. escape d z (subst (λ t. Template depth t later end) a q)))
            (template_end-TemplateEnds fuel (advance text) _ depth
              (omega (arith, h, shorter text))))
    | inr k ↦ elim (Bool-cases ((depth == 0) && (c == b'`'))) [
      | inl t ↦ rw (e, peek_next-cons c text e, k, t) (ticks c depth text t)
      | inr t ↦ elim (Bool-cases (c == b'$' && peek text == b'{')) [
        | inl o ↦
            rw (e, peek_next-cons c text e, k, t, o)
              (TemplateEnds-back depth (depth + 1) (c ∷ text) (advance text) _
                (λ later end q.
                  opened (λ t. Template depth t later end) c text o
                    (λ more a. opens (subst (λ t. Template (depth + 1) t later end) a q)))
                (template_end-TemplateEnds fuel (advance text) _ (depth + 1)
                  (omega (arith, h, shorter text))))
        | inr o ↦
            rw (e, peek_next-cons c text e, k, t, o)
              (TemplateEnds-back depth (depth_after c depth) (c ∷ text) text _
                (λ later end q. char c e t k o q)
                (template_end-TemplateEnds fuel text _ (depth_after c depth) (omega (arith, h))))
      ]
    ]
  ]
]
