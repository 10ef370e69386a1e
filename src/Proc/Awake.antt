-- ===== src/Proc/Awake.antt =====
-- Processes that the wakeups of proc.c leave alone.
use mit_xv.Prelude.{
  ℕ, zero, suc, ◌+◌, ◌≡◌, refl, ap, ◌∙◌, inl, inr, Bool, true, false, Option, none, some, List,
  arith, ◌==◌, if◌then◌else◌, Bool-cases, Option-cases, get_elem?,
}
use mathlib.Core.Option
use mit_xv.Proc.{ProcState, sleeping, zombie, state_eq, Chan, on_proc, Proc, modify, is_proc}
use mit_xv.Proc.Switch.{wakeup1}
use mit_xv.Proc.Life.{adopt, adopt_from}
use mit_xv.Proc.Table.{get_elem?-modify, wake, get_elem?-wakeup1}
use mit_xv.Proc.Exit.{state_of}

-- A state that a wakeup leaves alone.
module _ (s : ProcState) (awake : state_eq s sleeping ≡ false) where
  pub Awake-modify :
      (f : Proc → Proc)
      → ((p : Proc) → (f p).state ≡ p.state)
      → (i j : ℕ) (ps : List Proc) → state_of j ps ≡ some s
      → state_of j (modify i f ps) ≡ some s
  Awake-modify f same i j ps h = rw (get_elem?-modify i j f ps) (go (i == j) (get_elem? ps j) h)
    where
      go :
          (b : Bool) (o : Option Proc)
          → Option.map (λ (p : Proc). p.state) o ≡ some s
          → Option.map (λ (p : Proc). p.state) (if b then Option.map f o else o) ≡ some s
      go true none e = e
      go true (some p) e = ap some (same p) ∙ e
      go false o e = e

  pub Awake-wakeup1 :
      (c : Option Chan) (j : ℕ) (ps : List Proc)
      → state_of j ps ≡ some s
      → state_of j (wakeup1 c ps) ≡ some s
  Awake-wakeup1 c j ps h = rw (get_elem?-wakeup1 c j ps) (go (get_elem? ps j) h)
    where
      go :
          (o : Option Proc)
          → Option.map (λ (p : Proc). p.state) o ≡ some s
          → Option.map (λ (p : Proc). p.state) (Option.map (wake c) o) ≡ some s
      go none e = e
      go (some p) e = ground arith

  module _ (cur init j : ℕ) where
    Awake-adopt :
        (i : ℕ) (ps : List Proc)
        → state_of j ps ≡ some s
        → state_of j (adopt cur init i ps) ≡ some s
    unfolding adopt
    Awake-adopt i ps h =
        let m = Awake-modify (λ p. record p { parent = some init }) (λ p. refl) i j ps h in
        elim (Option-cases (get_elem? ps i)) [
          | inl n ↦ rw (n, adopt) h
          | inr (p, l) ↦
              rw (l, adopt)
                (elim (Bool-cases (is_proc p.parent cur)) [
                  | inr other ↦ rw other h
                  | inl child ↦ rw child (elim (Bool-cases (state_eq p.state zombie)) [
                    | inl z ↦ rw z (
                        Awake-wakeup1 (some (on_proc init)) j
                          (modify i (λ p. record p { parent = some init }) ps) m)
                    | inr z ↦ rw z m
                  ])
                ])
        ]

    pub Awake-adopt_from :
        (n i : ℕ) (ps : List Proc)
        → state_of j ps ≡ some s
        → state_of j (adopt_from n cur init i ps) ≡ some s
    unfolding adopt_from
    Awake-adopt_from zero i ps h = h
    Awake-adopt_from (suc n) i ps h =
        Awake-adopt_from n (i + 1) (adopt cur init i ps) (Awake-adopt i ps h)
