-- ===== src/Proc/Exit.antt =====
-- `exit`: who is woken, and who gets the children.
use mit_xv.Prelude.{
  ℕ, zero, suc, ◌+◌, ◌≡◌, refl, sym, ap, ◌∙◌, ◌⊎◌, inl, inr, true, false, ◌&&◌, Option, none, some,
  List, arith, ltb, leb, ◌==◌, if◌then◌else◌, ==→eq, Bool-cases, Option-cases, length, get_elem?,
}
use mathlib.Core.Option
use mit_xv.Proc.{ProcState, sleeping, zombie, state_eq, Chan, on_proc, Proc, modify, is_proc}
use mit_xv.Proc.Switch.{wakeup1, same_chan}
use mit_xv.Proc.Life.{adopt, adopt_from}
use mit_xv.Proc.Table.{get_elem?-modify, length-modify, wake, get_elem?-wakeup1, length-wakeup1}

-- The parent of the process in slot `j`, if there is such a slot.
abbrev pub parent_of : ℕ → List Proc → Option (Option ℕ)
parent_of j ps = Option.map (λ (p : Proc). p.parent) (get_elem? ps j)

abbrev pub state_of : ℕ → List Proc → Option ProcState
state_of j ps = Option.map (λ (p : Proc). p.state) (get_elem? ps j)

-- What becomes of a parent when `cur` exits and `init` takes its children.
abbrev pub handed : ℕ → ℕ → Option ℕ → Option ℕ
handed cur init parent = if is_proc parent cur then some init else parent

pub parent_of-wakeup1 :
    (c : Option Chan) (j : ℕ) (ps : List Proc) → parent_of j (wakeup1 c ps) ≡ parent_of j ps
parent_of-wakeup1 c j ps = rw (get_elem?-wakeup1 c j ps) (go (get_elem? ps j))
  where
    go :
        (o : Option Proc)
        → Option.map (λ (p : Proc). p.parent) (Option.map (wake c) o)
          ≡ Option.map (λ (p : Proc). p.parent) o
    go none = refl
    go (some p) = elim (Bool-cases (state_eq p.state sleeping && same_chan p.chan c)) [
      | inl y ↦ rw y
      | inr n ↦ rw n
    ]

module _ (cur init : ℕ) where
  parent_of-adopt :
      (i j : ℕ) (ps : List Proc)
      → parent_of j (adopt cur init i ps)
        ≡ (if i == j then Option.map (handed cur init) (parent_of j ps) else parent_of j ps)
  unfolding adopt
  parent_of-adopt i j ps = elim (Option-cases (get_elem? ps i)) [
    | inl n ↦ rw (n, adopt) (absent n (Bool-cases (i == j)))
    | inr (p, l) ↦
        rw (l, adopt)
          (elim (Bool-cases (is_proc p.parent cur)) [
            | inr other ↦ rw other (same p l other (Bool-cases (i == j)))
            | inl child ↦ rw child (elim (Bool-cases (state_eq p.state zombie)) [
              | inl z ↦ rw z (
                  parent_of-wakeup1 (some (on_proc init)) j
                    (modify i (λ p. record p { parent = some init }) ps)
                  ∙ moved p l child (Bool-cases (i == j)))
              | inr z ↦ rw z (moved p l child (Bool-cases (i == j)))
            ])
          ])
  ]
    where
      absent :
          get_elem? ps i ≡ none
          → ((i == j) ≡ true) ⊎ ((i == j) ≡ false)
          → parent_of j ps
            ≡ (if i == j then Option.map (handed cur init) (parent_of j ps) else parent_of j ps)
      absent n (inr f) = rw f
      absent n (inl t) =
          let e : get_elem? ps j ≡ none = ap (λ m. get_elem? ps m) (sym (==→eq i j t)) ∙ n in
          rw (t, e)

      same :
          (p : Proc)
          → get_elem? ps i ≡ some p
          → is_proc p.parent cur ≡ false
          → ((i == j) ≡ true) ⊎ ((i == j) ≡ false)
          → parent_of j ps
            ≡ (if i == j then Option.map (handed cur init) (parent_of j ps) else parent_of j ps)
      same p l o (inr f) = rw f
      same p l o (inl t) =
          let e : get_elem? ps j ≡ some p = ap (λ m. get_elem? ps m) (sym (==→eq i j t)) ∙ l in
          rw (t, e, o)

      moved :
          (p : Proc)
          → get_elem? ps i ≡ some p
          → is_proc p.parent cur ≡ true
          → ((i == j) ≡ true) ⊎ ((i == j) ≡ false)
          → parent_of j (modify i (λ p. record p { parent = some init }) ps)
            ≡ (if i == j then Option.map (handed cur init) (parent_of j ps) else parent_of j ps)
      moved p l o (inr f) = rw (get_elem?-modify i j (λ p. record p { parent = some init }) ps, f)
      moved p l o (inl t) =
          let e : get_elem? ps j ≡ some p = ap (λ m. get_elem? ps m) (sym (==→eq i j t)) ∙ l in
          rw (get_elem?-modify i j (λ p. record p { parent = some init }) ps, t, e, o)

  pub length-adopt : (i : ℕ) (ps : List Proc) → length (adopt cur init i ps) ≡ length ps
  unfolding adopt
  length-adopt i ps = elim (Option-cases (get_elem? ps i)) [
    | inl n ↦ rw (n, adopt)
    | inr (p, l) ↦
        rw (l, adopt)
          (elim (Bool-cases (is_proc p.parent cur)) [
            | inr other ↦ rw other
            | inl child ↦ rw child (elim (Bool-cases (state_eq p.state zombie)) [
              | inl z ↦ rw z (
                  length-wakeup1 (some (on_proc init))
                    (modify i (λ p. record p { parent = some init }) ps)
                  ∙ length-modify i (λ p. record p { parent = some init }) ps)
              | inr z ↦ rw z (length-modify i (λ p. record p { parent = some init }) ps)
            ])
          ])
  ]

  pub parent_of-adopt_from :
      (n i j : ℕ) (ps : List Proc)
      → parent_of j (adopt_from n cur init i ps) ≡ (
          if leb i j && ltb j (i + n)
          then Option.map (handed cur init) (parent_of j ps)
          else parent_of j ps)
  unfolding adopt_from
  parent_of-adopt_from zero i j ps = ground arith
  parent_of-adopt_from (suc n) i j ps =
      parent_of-adopt_from n (i + 1) j (adopt cur init i ps)
      ∙ ground (arith, parent_of-adopt i j ps)
