-- ===== src/Lexer/Letters.antt =====
-- src/compiler/lexer_keyword.c: the branches for the letters with which a keyword may begin.
use cscript.Prelude.{ℕ, refl, ap, List, [], ◌∷◌, length, ==_iff, arith}
use cscript.Lexer.Words.{word_d, word_e, word_s, word_i, word_n, word_c, word_t, word_f, word_v}
use cscript.Lexer.Sound.{
  keywords, lookup, Sound, plain, keyword, Begins, Begins-next, check-Sound, when-Sound,
  Begins-whole,
}

pub word_d-Sound : (text : List ℕ) → Begins text (b'd' ∷ []) → Sound text (word_d text)
unfolding word_d keywords lookup
word_d-Sound text b =
    when-Sound
      (λ _.
        when-Sound
          (λ e.
            let two = (Begins-next text (b'd' ∷ []) b'e' (omega arith) b e) in
            when-Sound (λ _. check-Sound text (b'd' ∷ b'e' ∷ []) _ _ two refl)
              (check-Sound text (b'd' ∷ b'e' ∷ []) _ _ two refl))
          (when-Sound
            (λ e.
              check-Sound text (b'd' ∷ b'o' ∷ []) _ _
                (Begins-next text (b'd' ∷ []) b'o' (omega arith) b e) refl)
            (plain refl)))
      (plain refl)

pub word_e-Sound : (text : List ℕ) → Begins text (b'e' ∷ []) → Sound text (word_e text)
unfolding word_e keywords lookup
word_e-Sound text b =
    when-Sound
      (λ _.
        when-Sound
          (λ e.
            check-Sound text (b'e' ∷ b'l' ∷ []) _ _
              (Begins-next text (b'e' ∷ []) b'l' (omega arith) b e) refl)
          (when-Sound
            (λ e.
              let two = (Begins-next text (b'e' ∷ []) b'x' (omega arith) b e) in
              when-Sound (λ _. check-Sound text (b'e' ∷ b'x' ∷ []) _ _ two refl)
                (check-Sound text (b'e' ∷ b'x' ∷ []) _ _ two refl))
            (plain refl)))
      (plain refl)

pub word_s-Sound : (text : List ℕ) → Begins text (b's' ∷ []) → Sound text (word_s text)
unfolding word_s keywords lookup
word_s-Sound text b =
    when-Sound
      (λ _.
        when-Sound
          (λ e.
            check-Sound text (b's' ∷ b'w' ∷ []) _ _
              (Begins-next text (b's' ∷ []) b'w' (omega arith) b e) refl)
          (when-Sound
            (λ e.
              check-Sound text (b's' ∷ b'u' ∷ []) _ _
                (Begins-next text (b's' ∷ []) b'u' (omega arith) b e) refl)
            (when-Sound
              (λ e.
                check-Sound text (b's' ∷ b't' ∷ []) _ _
                  (Begins-next text (b's' ∷ []) b't' (omega arith) b e) refl)
              (plain refl))))
      (plain refl)

pub word_i-Sound : (text : List ℕ) → Begins text (b'i' ∷ []) → Sound text (word_i text)
unfolding word_i keywords lookup
word_i-Sound text b =
    when-Sound
      (λ _.
        when-Sound
          (λ e.
            check-Sound text (b'i' ∷ b'f' ∷ []) _ _
              (Begins-next text (b'i' ∷ []) b'f' (omega arith) b e) refl)
          (when-Sound
            (λ e.
              check-Sound text (b'i' ∷ b'm' ∷ []) _ _
                (Begins-next text (b'i' ∷ []) b'm' (omega arith) b e) refl)
            (when-Sound
              (λ e.
                let two = (Begins-next text (b'i' ∷ []) b'n' (omega arith) b e) in
                when-Sound
                  (λ size. keyword (
                    ap (lookup keywords)
                      (Begins-whole text (b'i' ∷ b'n' ∷ []) two ((==_iff (length text) 2).0 size))))
                  (check-Sound text (b'i' ∷ b'n' ∷ []) _ _ two refl))
              (plain refl))))
      (plain refl)

pub word_n-Sound : (text : List ℕ) → Begins text (b'n' ∷ []) → Sound text (word_n text)
unfolding word_n keywords lookup
word_n-Sound text b =
    when-Sound
      (λ _.
        when-Sound
          (λ e.
            check-Sound text (b'n' ∷ b'u' ∷ []) _ _
              (Begins-next text (b'n' ∷ []) b'u' (omega arith) b e) refl)
          (when-Sound
            (λ e.
              check-Sound text (b'n' ∷ b'e' ∷ []) _ _
                (Begins-next text (b'n' ∷ []) b'e' (omega arith) b e) refl)
            (plain refl)))
      (plain refl)

pub word_c-Sound : (text : List ℕ) → Begins text (b'c' ∷ []) → Sound text (word_c text)
unfolding word_c keywords lookup
word_c-Sound text b =
    when-Sound
      (λ _.
        when-Sound
          (λ e.
            when-Sound (λ _. check-Sound text (b'c' ∷ []) _ _ b refl)
              (check-Sound text (b'c' ∷ []) _ _ b refl))
          (when-Sound
            (λ e.
              check-Sound text (b'c' ∷ b'l' ∷ []) _ _
                (Begins-next text (b'c' ∷ []) b'l' (omega arith) b e) refl)
            (when-Sound
              (λ e.
                when-Sound
                  (λ _.
                    when-Sound (λ _. check-Sound text (b'c' ∷ []) _ _ b refl)
                      (check-Sound text (b'c' ∷ []) _ _ b refl))
                  (plain refl))
              (plain refl))))
      (plain refl)

pub word_t-Sound : (text : List ℕ) → Begins text (b't' ∷ []) → Sound text (word_t text)
unfolding word_t keywords lookup
word_t-Sound text b =
    when-Sound
      (λ _.
        when-Sound
          (λ e.
            let two = (Begins-next text (b't' ∷ []) b'r' (omega arith) b e) in
            when-Sound
              (λ _.
                when-Sound
                  (λ e.
                    check-Sound text (b't' ∷ b'r' ∷ b'u' ∷ []) _ _
                      (Begins-next text (b't' ∷ b'r' ∷ []) b'u' (omega arith) two e) refl)
                  (when-Sound
                    (λ e.
                      check-Sound text (b't' ∷ b'r' ∷ b'y' ∷ []) _ _
                        (Begins-next text (b't' ∷ b'r' ∷ []) b'y' (omega arith) two e) refl)
                    (plain refl)))
              (plain refl))
          (when-Sound
            (λ e.
              let two = (Begins-next text (b't' ∷ []) b'h' (omega arith) b e) in
              when-Sound (λ _. check-Sound text (b't' ∷ b'h' ∷ []) _ _ two refl)
                (check-Sound text (b't' ∷ b'h' ∷ []) _ _ two refl))
            (when-Sound
              (λ e.
                check-Sound text (b't' ∷ b'y' ∷ []) _ _
                  (Begins-next text (b't' ∷ []) b'y' (omega arith) b e) refl)
              (plain refl))))
      (plain refl)

pub word_f-Sound : (text : List ℕ) → Begins text (b'f' ∷ []) → Sound text (word_f text)
unfolding word_f keywords lookup
word_f-Sound text b =
    when-Sound
      (λ _.
        when-Sound
          (λ e.
            check-Sound text (b'f' ∷ b'a' ∷ []) _ _
              (Begins-next text (b'f' ∷ []) b'a' (omega arith) b e) refl)
          (when-Sound
            (λ e.
              check-Sound text (b'f' ∷ b'o' ∷ []) _ _
                (Begins-next text (b'f' ∷ []) b'o' (omega arith) b e) refl)
            (when-Sound
              (λ e.
                check-Sound text (b'f' ∷ b'u' ∷ []) _ _
                  (Begins-next text (b'f' ∷ []) b'u' (omega arith) b e) refl)
              (when-Sound
                (λ e.
                  check-Sound text (b'f' ∷ b'i' ∷ []) _ _
                    (Begins-next text (b'f' ∷ []) b'i' (omega arith) b e) refl)
                (plain refl)))))
      (plain refl)

pub word_v-Sound : (text : List ℕ) → Begins text (b'v' ∷ []) → Sound text (word_v text)
unfolding word_v keywords lookup
word_v-Sound text b =
    when-Sound (λ _. check-Sound text (b'v' ∷ []) _ _ b refl)
      (check-Sound text (b'v' ∷ []) _ _ b refl)
