-- ===== src/Table/Probe.antt =====
-- src/runtime/table.c: the order in which `findEntry` visits the slots.
use cscript.Prelude.{
  ℕ, suc, ◌+◌, ◌-◌, ◌%◌, ◌<◌, ◌≤◌, ◌≡◌, ◌∙◌, ap, arith, ltb, if◌then◌else◌, inl, inr, Bool-cases,
}
use native.Mathlib.Nat.{mod-eq_of_lt, mod-eq-sub-mod, mod-add-mod}

-- The slot visited `d` rounds after slot `s`.
abbrev pub probe : ℕ → ℕ → ℕ → ℕ
probe width s d = (s + d) % width

pub probe_lem :
    (width s d : ℕ)
    → s < width
    → d < width
    → probe width s d ≡ (if ltb (s + d) width then s + d else s + d - width)
probe_lem width s d hs hd = elim (Bool-cases (ltb (s + d) width)) [
  | inl e ↦ rw e (mod-eq_of_lt (ground arith))
  | inr e ↦
      let over : width ≤ s + d = ground arith in
      let under : s + d - width < width = omega arith in
      rw e (mod-eq-sub-mod over ∙ mod-eq_of_lt under)
]

pub probe-lt : (width s d : ℕ) → 0 < width → probe width s d < width
probe-lt width s d h = omega arith

pub probe-suc : (width s d : ℕ) → (probe width s d + 1) % width ≡ probe width s (suc d)
probe-suc width s d = mod-add-mod (s + d) width 1 ∙ ap (λ t. t % width) (omega arith)

-- Within one round of the table no slot is visited twice.
pub probe-injective :
    (width s d e : ℕ)
    → s < width
    → d < width
    → e < width
    → probe width s d ≡ probe width s e
    → d ≡ e
probe-injective width s d e hs hd he h =
    ground (arith, probe_lem width s d hs hd, probe_lem width s e hs he)

-- Every slot is visited.
abbrev pub distance : ℕ → ℕ → ℕ → ℕ
distance width s i = if ltb i s then i + width - s else i - s

pub probe-distance :
    (width s i : ℕ)
    → s < width
    → i < width
    → (distance width s i < width) × (probe width s (distance width s i) ≡ i)
probe-distance width s i hs hi =
    let near : distance width s i < width = ground arith in
    (near, ground (arith, probe_lem width s (distance width s i) hs near))
