-- ===== src/Table/Strings.antt =====
-- src/runtime/table.c: `csTableFindString`, which finds an interned string by its bytes. What the strings
-- at the addresses hold is the parameter `text`.
use cscript.Prelude.{
  same_bytes, ℕ, zero, suc, ◌+◌, ◌%◌, ◌<◌, ◌≤◌, ◌≡◌, ◌∙◌, refl, ap, sym, arith, ◌==◌, ==_iff, ◌&&◌,
  inl, inr, Bool-cases, Option-cases, Bool, true, false, List, length, Option, none, some,
  if◌then◌else◌,
}
use mathlib.Core.Path.{subst}
use native.Mathlib.Decide.{dec_lt}
use native.Mathlib.Nat.{mod-eq_of_lt}
use cscript.Value.{Value, is_null}
use cscript.Table.{Entry, Table, slot, is_live}
use cscript.Table.Probe.{probe, probe-suc, distance, probe-distance}
use cscript.Table.Slots.{is_vacant, key_is, scan, scan-none, used, vacancy, scan-of_unused}
use cscript.Table.Find.{true≢false, IsMiss, Passes}
use cscript.Table.Write.{home, IsPlaced, IsMiss-scan}
use cscript.Table.Methods.{IsValid}

-- What one round says of the string at a slot: the end, with the string or without, or the next slot.
pub data Probed : Type 0 where
  stop : Option ℕ → Probed
  next : Probed

unfoldable pub probe_slot : (ℕ → Bool) → Option ℕ → Value → Probed
probe_slot same none v = if is_null v then stop none else next
probe_slot same (some k) v = if same k then stop (some k) else next

-- The loop of `csTableFindString`.
unfoldable pub string_loop : ℕ → List Entry → (ℕ → Bool) → ℕ → Option (Option ℕ)
string_loop zero es same i = none
string_loop (suc fuel) es same i = elim (probe_slot same (slot es i).key (slot es i).value) [
  | stop r ↦ some r
  | next ↦ string_loop fuel es same ((i + 1) % length es)
]

module _ (hash : ℕ → ℕ) (text : ℕ → List ℕ) where
  -- A string of the length, with the hash and with the bytes.
  abbrev pub is_string : List ℕ → ℕ → ℕ → Bool
  is_string chars h k =
      (length (text k) == length chars) && (hash k == h) && same_bytes (text k) chars

  -- `csTableFindString`
  unfoldable pub find_string : Table → List ℕ → ℕ → Option (Option ℕ)
  find_string t chars h =
      if t.count == 0
      then some none
      else string_loop (length t.entries) t.entries (is_string chars h) (h % length t.entries)

data ProbedCase (same : ℕ → Bool) (key : Option ℕ) (v : Value) (r : Probed) : Type 0 where
  at_string : (k : ℕ) → key ≡ some k → same k ≡ true → r ≡ stop (some k) → ProbedCase same key v r
  at_vacant :
      is_live key ≡ false
      → is_vacant (record { key = key; value = v }) ≡ true
      → r ≡ stop none
      → ProbedCase same key v r
  past :
      is_vacant (record { key = key; value = v }) ≡ false
      → ((k : ℕ) → key_is k key ≡ true → same k ≡ false)
      → r ≡ next
      → ProbedCase same key v r

probe_slot-ProbedCase :
    (same : ℕ → Bool) (key : Option ℕ) (v : Value) → ProbedCase same key v (probe_slot same key v)
unfolding probe_slot
probe_slot-ProbedCase same none v = elim (Bool-cases (is_null v)) [
  | inl e ↦ at_vacant refl e (rw e)
  | inr e ↦ past e (λ k h. absurd (true≢false (sym h))) (rw e)
]
probe_slot-ProbedCase same (some j) v = elim (Bool-cases (same j)) [
  | inl e ↦ at_string j refl e (rw e)
  | inr e ↦ past refl (λ k h. subst (λ k. same k ≡ false) ((==_iff j k).0 h) e) (rw e)
]

-- A key of the table with the bytes, or no key with them.
abbrev pub Finds : List Entry → (ℕ → Bool) → Option ℕ → Type 0
Finds es same (some k) = (same k ≡ true) × ((v : Value) × (scan es k ≡ some v))
Finds es same none = (k : ℕ) → same k ≡ true → scan es k ≡ none

module _ (hash : ℕ → ℕ) (es : List Entry) (placed : IsPlaced hash es) (same : ℕ → Bool) (h : ℕ)
    (hashed : (k : ℕ) → same k ≡ true → hash k ≡ h) where
  -- The slots of the first `d` rounds are in use, and none of them has the bytes.
  abbrev PassesText : ℕ → Type 0
  PassesText d =
      (e : ℕ)
      → e < d
      → (is_vacant (slot es (probe (length es) (h % length es) e)) ≡ false)
        × ((k : ℕ)
            → key_is k (slot es (probe (length es) (h % length es) e)).key ≡ true
            → same k ≡ false)

  Passes-text : (d k : ℕ) → PassesText d → same k ≡ true → Passes es (h % length es) k d
  Passes-text d k p s e l = (
    (p e l).0,
    elim (Bool-cases (key_is k (slot es (probe (length es) (h % length es) e)).key)) [
      | inl at ↦ absurd (true≢false (sym s ∙ (p e l).1 k at))
      | inr off ↦ off
    ],
  )

  missed :
      (d : ℕ)
      → d < length es
      → PassesText d
      → is_live (slot es (probe (length es) (h % length es) d)).key ≡ false
      → is_vacant (slot es (probe (length es) (h % length es) d)) ≡ true
      → Finds es same none
  missed d near p free vacant k s =
      let start : h % length es ≡ home hash k (length es) =
        ap (λ n. n % length es) (sym (hashed k s)) in
      let miss : IsMiss es (h % length es) k (probe (length es) (h % length es) d) = record {
        d = d;
        stop = d;
        before = omega arith;
        near = near;
        at = refl;
        free = free;
        vacant = vacant;
        passed = Passes-text d k p s;
      } in
      IsMiss-scan hash es k _ placed
        (subst (λ n. IsMiss es n k (probe (length es) (h % length es) d)) start miss)

  met : (i k : ℕ) → (slot es i).key ≡ some k → same k ≡ true → Finds es same (some k)
  met i k e s = (
    s,
    elim (Option-cases (scan es k)) [
      | inl gone ↦
          absurd (
            true≢false
              (sym ((==_iff k k).1 refl) ∙ (sym (ap (key_is k) e) ∙ scan-none es k i gone)))
      | inr (v, held) ↦ (v, held)
    ],
  )

  later :
      (d last : ℕ)
      → d ≤ last
      → is_vacant (slot es (probe (length es) (h % length es) d)) ≡ false
      → is_vacant (slot es (probe (length es) (h % length es) last)) ≡ true
      → d < last
  later d last l u v = elim (dec_lt d last) [
    | yes b ↦ b
    | no b ↦ absurd (
        true≢false (
          sym v
          ∙ subst (λ t. is_vacant (slot es (probe (length es) (h % length es) t)) ≡ false)
              (omega (arith, l, b)) u))
  ]

  string_loop-Finds :
      (fuel d last : ℕ)
      → d ≤ last
      → last < length es
      → last < d + fuel
      → is_vacant (slot es (probe (length es) (h % length es) last)) ≡ true
      → PassesText d
      → (r : Option ℕ) × (string_loop fuel es same (probe (length es) (h % length es) d) ≡ some r)
        × Finds es same r
  unfolding string_loop
  string_loop-Finds zero d last l l' l'' v p = absurd (omega arith)
  string_loop-Finds (suc fuel) d last l l' l'' v p =
      let i = probe (length es) (h % length es) d in
      elim (probe_slot-ProbedCase same (slot es i).key (slot es i).value) [
        | at_string k e s r ↦ (some k, rw (r, string_loop), met i k e s)
        | at_vacant free u r ↦ (none, rw (r, string_loop), missed d (omega (arith, l, l')) p free u)
        | past u off r ↦
            let (out, run, finds) =
              string_loop-Finds fuel (suc d) last (later d last l u v) l' (omega arith) v (λ e b.
                elim (dec_lt e d) [
                  | yes earlier ↦ p e earlier
                  | no late ↦ let is : e ≡ d = omega (arith, b, late) in rw is (u, off)
                ]) in
            (out, rw (r, string_loop, probe-suc) run, finds)
      ]

-- On a valid table, with any hash and any texts, `csTableFindString` ends: with a string of the table that
-- has the length, the hash and the bytes, or with none when the table has no such string.
pub find_string-Finds :
    (hash : ℕ → ℕ) (text : ℕ → List ℕ) (t : Table) (chars : List ℕ) (h : ℕ)
    → IsValid hash t
    → (r : Option ℕ) × (find_string hash text t chars h ≡ some r)
      × Finds t.entries (is_string hash text chars h) r
unfolding find_string
find_string-Finds hash text t chars h v = elim (Bool-cases (t.count == 0)) [
  | inl e ↦ (none, rw e, λ k s. scan-of_unused t.entries k (v.counted ∙ (==_iff t.count 0).0 e))
  | inr e ↦
      let es = t.entries in
      let room : used es < length es = ground (arith, v.load, v.counted) in
      let (i, near, vacant) = vacancy es room in
      let s = h % length es in
      let (close, at) = probe-distance (length es) s i (omega arith) near in
      let last = distance (length es) s i in
      let start : s ≡ probe (length es) s 0 =
        sym (mod-eq_of_lt (omega arith)) ∙ ap (λ t. t % length es) (omega arith) in
      let (r, run, finds) =
        string_loop-Finds hash es v.placed (is_string hash text chars h) h (λ k m. hashed k m)
          (length es) 0 last (omega arith) close (omega arith) (rw at vacant)
          (λ e b. absurd (omega arith)) in
      (
        r,
        rw e (
            subst (λ n. string_loop (length es) es (is_string hash text chars h) n ≡ some r)
              (sym start) run),
        finds,
      )
]
  where
    hashed : (k : ℕ) → is_string hash text chars h k ≡ true → hash k ≡ h
    hashed k m = ground (arith, m)
