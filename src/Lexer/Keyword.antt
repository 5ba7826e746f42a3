-- ===== src/Lexer/Keyword.antt =====
-- src/compiler/lexer_keyword.c: the tests on single characters find the keywords of a plain table.
use cscript.Prelude.{
  same_bytes, ◌<◌, ℕ, ◌≡◌, inl, inr, refl, sym, ap, ◌∙◌, true, List, [], ◌∷◌, get_or, ◌==◌, Option,
  none, some, arith, Bool-cases, Option-cases, some-cancel, none≢some,
}
use cscript.Lexer.Kinds.{Kind, token_identifier}
use cscript.Lexer.Words.{
  when◌then◌else◌, check_keyword, identifier_type, word_d, word_e, word_s, word_i, word_n, word_c,
  word_t, word_f, word_v,
}
use cscript.Lexer.Letters.{
  word_d-Sound, word_e-Sound, word_s-Sound, word_i-Sound, word_n-Sound, word_c-Sound, word_t-Sound,
  word_f-Sound, word_v-Sound,
}
use cscript.Lexer.Sound.{
  Words, keywords, lookup, same_bytes→eq, Sound, plain, keyword, Begins, Begins-nil, Begins-next,
  check-Sound, when-Sound,
}

begins : (text : List ℕ) (c : ℕ) → 0 < c → (get_or text 0 0 == c) ≡ true → Begins text (c ∷ [])
begins text c h e = Begins-next text [] c h (Begins-nil text) e

identifier_type-Sound : (text : List ℕ) → Sound text (identifier_type text)
unfolding identifier_type keywords lookup
identifier_type-Sound text =
    when-Sound (λ e. check-Sound text (b'a' ∷ []) _ _ (begins text b'a' (omega arith) e) refl)
      (when-Sound (λ e. check-Sound text (b'b' ∷ []) _ _ (begins text b'b' (omega arith) e) refl)
        (when-Sound (λ e. word_d-Sound text (begins text b'd' (omega arith) e))
          (when-Sound (λ e. word_e-Sound text (begins text b'e' (omega arith) e))
            (when-Sound
              (λ e. check-Sound text (b'r' ∷ []) _ _ (begins text b'r' (omega arith) e) refl)
              (when-Sound
                (λ e. check-Sound text (b'w' ∷ []) _ _ (begins text b'w' (omega arith) e) refl)
                (when-Sound
                  (λ e. check-Sound text (b'y' ∷ []) _ _ (begins text b'y' (omega arith) e) refl)
                  (when-Sound (λ e. word_s-Sound text (begins text b's' (omega arith) e))
                    (when-Sound
                      (λ e.
                        check-Sound text (b'T' ∷ []) _ _ (begins text b'T' (omega arith) e) refl)
                      (when-Sound
                        (λ e.
                          check-Sound text (b'l' ∷ []) _ _ (begins text b'l' (omega arith) e) refl)
                        (when-Sound (λ e. word_v-Sound text (begins text b'v' (omega arith) e))
                          (when-Sound (λ e. word_i-Sound text (begins text b'i' (omega arith) e))
                            (when-Sound (λ e. word_n-Sound text (begins text b'n' (omega arith) e))
                              (when-Sound
                                (λ e.
                                  check-Sound text (b'u' ∷ []) _ _
                                    (begins text b'u' (omega arith) e) refl)
                                (when-Sound
                                  (λ e. word_c-Sound text (begins text b'c' (omega arith) e))
                                  (when-Sound
                                    (λ e. word_t-Sound text (begins text b't' (omega arith) e))
                                    (when-Sound
                                      (λ e. word_f-Sound text (begins text b'f' (omega arith) e))
                                      (plain refl)))))))))))))))))

-- Every word of the list is answered by its kind.
infixr 4 ◌⊗◌
data Answered : Words → Type 0 where
  done : Answered []
  ◌⊗◌ :
      {word : List ℕ} {kind : Kind} {words : Words}
      → identifier_type word ≡ kind
      → Answered words
      → Answered ((word, kind) ∷ words)

keywords-Answered : Answered keywords
unfolding keywords identifier_type word_d word_e word_s word_i word_n word_c word_t word_f word_v
    check_keyword when◌then◌else◌
keywords-Answered =
    refl ⊗ refl ⊗ refl ⊗ refl ⊗ refl ⊗ refl ⊗ refl ⊗ refl ⊗ refl ⊗ refl ⊗ refl ⊗ refl ⊗ refl ⊗ refl
    ⊗ refl ⊗ refl ⊗ refl ⊗ refl ⊗ refl ⊗ refl ⊗ refl ⊗ refl ⊗ refl ⊗ refl ⊗ refl ⊗ refl ⊗ refl
    ⊗ refl ⊗ refl ⊗ refl ⊗ refl ⊗ refl ⊗ refl ⊗ refl ⊗ refl ⊗ refl ⊗ refl ⊗ refl ⊗ refl ⊗ done

lookup-Answered :
    (words : Words) (text : List ℕ) (kind : Kind)
    → Answered words
    → lookup words text ≡ some kind
    → identifier_type text ≡ kind
unfolding lookup
lookup-Answered [] text kind done h = absurd (none≢some h)
lookup-Answered ((word, k) ∷ words) text kind (here ⊗ rest) h =
    elim (Bool-cases (same_bytes text word)) [
      | inl e ↦ ap identifier_type (same_bytes→eq text word e) ∙ here ∙ some-cancel (rw e at h)
      | inr e ↦ lookup-Answered words text kind rest (rw e at h)
    ]

-- What the table says of a text: anything that it does not list is an identifier.
abbrev pub kind_of : Option Kind → Kind
kind_of none = token_identifier
kind_of (some kind) = kind

-- On every text `csLexerIdentifierType` answers as the plain table of keywords does.
pub identifier_type-table : (text : List ℕ) → identifier_type text ≡ kind_of (lookup keywords text)
identifier_type-table text = elim (Option-cases (lookup keywords text)) [
  | inl e ↦ rw e (elim (identifier_type-Sound text) [
    | plain h ↦ h
    | keyword h ↦ absurd (none≢some (sym e ∙ h))
  ])
  | inr (kind, e) ↦ rw e (lookup-Answered keywords text kind keywords-Answered e)
]
