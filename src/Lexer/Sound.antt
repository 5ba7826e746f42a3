-- ===== src/Lexer/Sound.antt =====
-- src/compiler/lexer_keyword.c: the plain table of keywords, and what a branch may answer.
use cscript.Prelude.{
  same_bytes, zero, ◌<◌, ℕ, suc, ◌+◌, ◌≡◌, inl, inr, refl, sym, ap, ◌∙◌, Bool, true, false, ◌&&◌,
  List, [], ◌∷◌, length, get_or, take, drop, ◌++◌, take-append-drop, length-drop, ◌==◌, ==_iff,
  if◌then◌else◌, Option, none, some, arith, Bool-cases,
}
use cscript.Lexer.Kinds.{
  Kind, token_identifier, token_true, token_false, token_null, token_undefined, token_let,
  token_const, token_var, token_function, token_return, token_if, token_else, token_while,
  token_for, token_typeof, token_switch, token_case, token_default, token_break, token_continue,
  token_try, token_catch, token_finally, token_throw, token_class, token_extends, token_new,
  token_this, token_super, token_static, token_instanceof, token_import, token_export, token_await,
  token_do, token_in, token_delete, token_yield, token_void,
}
use cscript.Lexer.Words.{when◌then◌else◌, check_keyword}

abbrev pub Words : Type 0
Words = List (List ℕ × Kind)

unfoldable pub keywords : Words
keywords =
    (b'a' ∷ b'w' ∷ b'a' ∷ b'i' ∷ b't' ∷ [], token_await)
    ∷ (b'b' ∷ b'r' ∷ b'e' ∷ b'a' ∷ b'k' ∷ [], token_break)
    ∷ (b'd' ∷ b'e' ∷ b'l' ∷ b'e' ∷ b't' ∷ b'e' ∷ [], token_delete)
    ∷ (b'd' ∷ b'e' ∷ b'f' ∷ b'a' ∷ b'u' ∷ b'l' ∷ b't' ∷ [], token_default)
    ∷ (b'd' ∷ b'o' ∷ [], token_do)
    ∷ (b'e' ∷ b'l' ∷ b's' ∷ b'e' ∷ [], token_else)
    ∷ (b'e' ∷ b'x' ∷ b'p' ∷ b'o' ∷ b'r' ∷ b't' ∷ [], token_export)
    ∷ (b'e' ∷ b'x' ∷ b't' ∷ b'e' ∷ b'n' ∷ b'd' ∷ b's' ∷ [], token_extends)
    ∷ (b'r' ∷ b'e' ∷ b't' ∷ b'u' ∷ b'r' ∷ b'n' ∷ [], token_return)
    ∷ (b'w' ∷ b'h' ∷ b'i' ∷ b'l' ∷ b'e' ∷ [], token_while)
    ∷ (b'y' ∷ b'i' ∷ b'e' ∷ b'l' ∷ b'd' ∷ [], token_yield)
    ∷ (b's' ∷ b'w' ∷ b'i' ∷ b't' ∷ b'c' ∷ b'h' ∷ [], token_switch)
    ∷ (b's' ∷ b'u' ∷ b'p' ∷ b'e' ∷ b'r' ∷ [], token_super)
    ∷ (b's' ∷ b't' ∷ b'a' ∷ b't' ∷ b'i' ∷ b'c' ∷ [], token_static)
    ∷ (b'T' ∷ b'r' ∷ b'u' ∷ b'e' ∷ [], token_true)
    ∷ (b'l' ∷ b'e' ∷ b't' ∷ [], token_let)
    ∷ (b'v' ∷ b'o' ∷ b'i' ∷ b'd' ∷ [], token_void)
    ∷ (b'v' ∷ b'a' ∷ b'r' ∷ [], token_var)
    ∷ (b'i' ∷ b'f' ∷ [], token_if)
    ∷ (b'i' ∷ b'm' ∷ b'p' ∷ b'o' ∷ b'r' ∷ b't' ∷ [], token_import)
    ∷ (b'i' ∷ b'n' ∷ [], token_in)
    ∷ (b'i' ∷ b'n' ∷ b's' ∷ b't' ∷ b'a' ∷ b'n' ∷ b'c' ∷ b'e' ∷ b'o' ∷ b'f' ∷ [], token_instanceof)
    ∷ (b'n' ∷ b'u' ∷ b'l' ∷ b'l' ∷ [], token_null)
    ∷ (b'n' ∷ b'e' ∷ b'w' ∷ [], token_new)
    ∷ (b'u' ∷ b'n' ∷ b'd' ∷ b'e' ∷ b'f' ∷ b'i' ∷ b'n' ∷ b'e' ∷ b'd' ∷ [], token_undefined)
    ∷ (b'c' ∷ b'a' ∷ b't' ∷ b'c' ∷ b'h' ∷ [], token_catch)
    ∷ (b'c' ∷ b'a' ∷ b's' ∷ b'e' ∷ [], token_case)
    ∷ (b'c' ∷ b'l' ∷ b'a' ∷ b's' ∷ b's' ∷ [], token_class)
    ∷ (b'c' ∷ b'o' ∷ b'n' ∷ b's' ∷ b't' ∷ [], token_const)
    ∷ (b'c' ∷ b'o' ∷ b'n' ∷ b't' ∷ b'i' ∷ b'n' ∷ b'u' ∷ b'e' ∷ [], token_continue)
    ∷ (b't' ∷ b'r' ∷ b'u' ∷ b'e' ∷ [], token_true)
    ∷ (b't' ∷ b'r' ∷ b'y' ∷ [], token_try)
    ∷ (b't' ∷ b'h' ∷ b'i' ∷ b's' ∷ [], token_this)
    ∷ (b't' ∷ b'h' ∷ b'r' ∷ b'o' ∷ b'w' ∷ [], token_throw)
    ∷ (b't' ∷ b'y' ∷ b'p' ∷ b'e' ∷ b'o' ∷ b'f' ∷ [], token_typeof)
    ∷ (b'f' ∷ b'a' ∷ b'l' ∷ b's' ∷ b'e' ∷ [], token_false)
    ∷ (b'f' ∷ b'o' ∷ b'r' ∷ [], token_for)
    ∷ (b'f' ∷ b'u' ∷ b'n' ∷ b'c' ∷ b't' ∷ b'i' ∷ b'o' ∷ b'n' ∷ [], token_function)
    ∷ (b'f' ∷ b'i' ∷ b'n' ∷ b'a' ∷ b'l' ∷ b'l' ∷ b'y' ∷ [], token_finally)
    ∷ []

unfoldable pub lookup : Words → List ℕ → Option Kind
lookup [] text = none
lookup ((word, kind) ∷ words) text = if same_bytes text word then some kind else lookup words text

pub same_bytes→eq : (a b : List ℕ) → same_bytes a b ≡ true → a ≡ b
same_bytes→eq [] [] h = refl
same_bytes→eq [] (d ∷ b) h = cc
same_bytes→eq (c ∷ a) [] h = cc
same_bytes→eq (c ∷ a) (d ∷ b) h = elim (Bool-cases (c == d)) [
  | inl e ↦ rw ((==_iff c d).0 e, same_bytes→eq a b (ground arith)) refl
  | inr e ↦ absurd (ground arith)
]

-- What a branch may answer on a text.
pub data Sound (text : List ℕ) (kind : Kind) : Type 0 where
  plain : kind ≡ token_identifier → Sound text kind
  keyword : lookup keywords text ≡ some kind → Sound text kind

-- `text` begins with `front`.
abbrev pub Begins : List ℕ → List ℕ → Type 0
Begins text front = take (length front) text ≡ front

pub Begins-nil : (text : List ℕ) → Begins text []
Begins-nil text = refl

pub Begins-next :
    (text front : List ℕ) (c : ℕ)
    → 0 < c
    → Begins text front
    → (get_or text (length front) 0 == c) ≡ true
    → Begins text (front ++ c ∷ [])
Begins-next [] [] c h b e = absurd (ground arith)
Begins-next [] (d ∷ front) c h b e = absurd cc
Begins-next (x ∷ text) [] c h b e = ap (λ t. t ∷ []) ((==_iff x c).0 e)
Begins-next (x ∷ text) (d ∷ front) c h b e =
    let (head, tail) : (x ≡ d) × Begins text front = (cc, cc) in
    ap (λ t. x ∷ t) (Begins-next text front c h tail e) ∙ ap (λ t. t ∷ front ++ c ∷ []) head

take-all : (n : ℕ) (xs : List ℕ) → length xs ≡ n → take n xs ≡ xs
take-all zero [] h = refl
take-all zero (x ∷ xs) h = absurd (omega arith)
take-all (suc n) [] h = refl
take-all (suc n) (x ∷ xs) h = ap (λ t. x ∷ t) (take-all n xs (omega arith))

pub check-Sound :
    (text front rest : List ℕ) (kind : Kind)
    → Begins text front
    → lookup keywords (front ++ rest) ≡ some kind
    → Sound text (check_keyword text (length front) rest kind)
unfolding check_keyword
check-Sound text front rest kind b known =
    let whole = (length text == length front + length rest) in
    let same = same_bytes (take (length rest) (drop (length front) text)) rest in
    elim (Bool-cases (whole && same)) [
      | inr e ↦ rw e (plain refl)
      | inl e ↦
          let size : length (drop (length front) text) ≡ length rest =
            length-drop (length front) text ∙ ground arith in
          let tail =
            sym (take-all (length rest) (drop (length front) text) size)
            ∙ same_bytes→eq _ rest (ground arith) in
          let split : text ≡ front ++ rest =
            sym (take-append-drop (length front) text)
            ∙ ap (λ t. t ++ drop (length front) text) b
            ∙ ap (λ t. front ++ t) tail in
          rw e (keyword (ap (lookup keywords) split ∙ known))
    ]

pub when-Sound :
    {text : List ℕ} {b : Bool} {x y : Kind}
    → (b ≡ true → Sound text x)
    → Sound text y
    → Sound text (when b then x else y)
unfolding when◌then◌else◌
when-Sound {b = true} f g = f refl
when-Sound {b = false} f g = g

-- A text that begins with a word of its length is the word.
pub Begins-whole :
    (text front : List ℕ) → Begins text front → length text ≡ length front → text ≡ front
Begins-whole text front b h = sym (take-all (length front) text h) ∙ b
